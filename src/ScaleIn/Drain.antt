-- ===== src/ScaleIn/Drain.antt =====
-- internal/application/usecase/scale_in_usecase.go, startDrain: from a requested job to a drained task.
use legacy_messenger_ecs_con.Base.{
  ℕ, ◌≤◌, ◌≡◌, sym, subst, inl, inr, String, none, some, List, Dict, lookup, Has,
  lookup-insert_self, arith, Option-cases,
}
use legacy_messenger_ecs_con.Base.Results.{Result, ok, Result-cases}
use legacy_messenger_ecs_con.Domain.{requested, draining, ScaleInJob, Error}
use legacy_messenger_ecs_con.Coordinator.{mark_draining}
use legacy_messenger_ecs_con.Demand.{SessionReport, TaskInfo}
use legacy_messenger_ecs_con.Exec.{raise, wrap, pure, ignore, handle, ◌>>=◌}
use legacy_messenger_ecs_con.System.{Services, System, call, coordinate, clock}
use legacy_messenger_ecs_con.ScaleIn.{start_drain, select_scale_in_target, pick_target, survivors}
use legacy_messenger_ecs_con.ScaleIn.Target.{Eligible, pick_target-least}

module _ {W F : Type 0} (u : Services W F) where
  open u use {task_session_port, ecs_port, cluster_name, auto_scale}

  -- What the ports answer, in the order of the calls.
  abbrev running_of : ScaleInJob → W → Result Error (List String) × W
  running_of job w = ecs_port.get_running_task_ids cluster_name job.ecs_service_name w

  abbrev reports_of : ScaleInJob → W → Result Error (Dict SessionReport) × W
  reports_of job w = task_session_port.get_task_session_report job.service_name (running_of job w).1

  abbrev expired_of : ScaleInJob → W → Result Error (Dict String × List String) × W
  expired_of job w =
      task_session_port.get_invalid_report_task job.service_name auto_scale (reports_of job w).1

  abbrev Picked : ScaleInJob → ScaleInJob → W → Type 0
  Picked job after w =
      (running : List String) × (reports : Dict SessionReport) × (invalid : Dict String
        × List String)
      × (target : TaskInfo) × ((running_of job w).0 ≡ ok running)
      × ((reports_of job w).0 ≡ ok reports)
      × ((expired_of job w).0 ≡ ok invalid)
      × (pick_target reports invalid.0 running none ≡ some target)
      × (after.target_task_id ≡ target.task_id)
      × (after.protected_task_ids ≡ survivors target.task_id running)

  start_drain-Picked :
      (job before after : ScaleInJob) (x : System W F)
      → lookup job.service_name x.coordinator.jobs ≡ some before
      → before.status ≡ requested
      → lookup job.service_name (start_drain u job x).1.coordinator.jobs ≡ some after
      → after.status ≡ draining
      → Picked job after x.world
  unfolding start_drain select_scale_in_target ◌>>=◌ clock coordinate call mark_draining raise wrap
      pure ignore handle
  start_drain-Picked job before after x e d f g = elim (Result-cases (running_of job x.world).0) [
    | inl (running, h) ↦ elim (Result-cases (reports_of job x.world).0) [
      | inl (reports, k) ↦ elim (Result-cases (expired_of job x.world).0) [
        | inl (invalid, l) ↦ elim (Option-cases (pick_target reports invalid.0 running none)) [
          | inl n ↦ absurd (grind (arith, h, k, l, n))
          | inr (target, n) ↦ (
            running,
            reports,
            invalid,
            target,
            h,
            k,
            l,
            n,
            grind (arith, h, k, l, n, lookup-insert_self),
            grind (arith, h, k, l, n, lookup-insert_self),
          )
        ]
        | inr (inl (c, l)) ↦ absurd (grind (arith, h, k, l))
        | inr (inr l) ↦ absurd (grind (arith, h, k, l))
      ]
      | inr (inl (c, k)) ↦ absurd (grind (arith, h, k))
      | inr (inr k) ↦ absurd (grind (arith, h, k))
    ]
    | inr (inl (c, h)) ↦ absurd (grind (arith, h))
    | inr (inr h) ↦ absurd (grind (arith, h))
  ]

  -- The grounds of a drain: what the ports answered about the running tasks, the reports and the
  -- expired reports; the job's target runs, has a report that has not expired, and has the fewest
  -- sessions among such tasks; all other running tasks are noted as protected.
  abbrev pub LeastDrained : ScaleInJob → ScaleInJob → W → Type 0
  LeastDrained job after w =
      (running : List String) × (reports : Dict SessionReport) × (invalid : Dict String
        × List String)
      × (n : ℕ) × ((running_of job w).0 ≡ ok running)
      × ((reports_of job w).0 ≡ ok reports)
      × ((expired_of job w).0 ≡ ok invalid)
      × Has after.target_task_id running
      × Eligible reports invalid.0 after.target_task_id n
      × ((t : String) (m : ℕ) → Has t running → Eligible reports invalid.0 t m → n ≤ m)
      × (after.protected_task_ids ≡ survivors after.target_task_id running)

  -- A requested job that one start of its drain leaves draining has as its target a running task with a
  -- report that has not expired, with the fewest sessions among the running tasks of that kind, all by
  -- what the ports answered; and the noted protected tasks are the running tasks but the target.
  pub start_drain-least :
      (job before after : ScaleInJob) (x : System W F)
      → lookup job.service_name x.coordinator.jobs ≡ some before
      → before.status ≡ requested
      → lookup job.service_name (start_drain u job x).1.coordinator.jobs ≡ some after
      → after.status ≡ draining
      → LeastDrained job after x.world
  start_drain-least job before after x e d f g =
      let (running, reports, invalid, target, h, k, l, n, t, p) =
        start_drain-Picked job before after x e d f g in
      let (i, fits, least) = pick_target-least reports invalid.0 running target n in
      (
        running,
        reports,
        invalid,
        target.session_count,
        h,
        k,
        l,
        subst (λ t. Has t running) (sym t) i,
        subst (λ t. Eligible reports invalid.0 t target.session_count) (sym t) fits,
        least,
        rw (p, t),
      )
