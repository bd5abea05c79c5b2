-- ===== src/ScaleIn/Steps.antt =====
-- internal/application/usecase/scale_in_usecase.go: what one tick does with a job, by its status.
use legacy_messenger_ecs_con.Base.{
  ◌+◌, ◌≤◌, ◌<◌, ◌≡◌, inl, inr, ◌≢◌, some, List, [], ◌∷◌, lookup, lookup-insert_self, arith,
  str_eq_iff,
}
use legacy_messenger_ecs_con.Base.Results.{Result, ok, err, Result-cases}
use legacy_messenger_ecs_con.Domain.{
  draining, applied, completed, failed, ScaleInJob, Error, completion_timeout,
  EcsServiceControlState,
}
use legacy_messenger_ecs_con.Coordinator.{
  increase_zero_session_streak, reset_zero_session_streak, mark_applied, mark_failed, complete,
}
use legacy_messenger_ecs_con.Exec.{Exec, pure, raise, handle, ignore, wrap, ◌>>=◌}
use legacy_messenger_ecs_con.System.{EcsTask, Services, System, call, coordinate, clock}
use legacy_messenger_ecs_con.ScaleIn.{
  timeout, check_completion, check_stopped, finish_job, check_drain, lower_desired_count,
  process_job, process_or_fail, process_jobs,
}

module _ {S A : Type 0} where
  handle-err :
      (m : Exec S A) (f : Error → Exec S A) (s t : S) (e : Error)
      → m s ≡ (err e, t)
      → handle m f s ≡ f e t
  unfolding handle
  handle-err m f s t e h = rw h

  ignore-no_error : (m : Exec S A) (s : S) (e : Error) → (ignore m s).0 ≢ err e
  unfolding ignore
  ignore-no_error m s e = elim (Result-cases (m s).0) [
    | inl (a, h) ↦ ground (arith, h)
    | inr (inl (d, h)) ↦ ground (arith, h)
    | inr (inr h) ↦ ground (arith, h)
  ]

module _ {W F : Type 0} (u : Services W F) where
  open u use {task_session_port, ecs_port, cluster_name, time_now}

  -- A job whose time of application is set and lies further back than the timeout fails with the
  -- timeout error, and the step changes nothing.
  pub check_completion-expired :
      (job : ScaleInJob) (x : System W F)
      → 0 < job.applied_at
      → job.applied_at + timeout u < time_now x.world
      → check_completion u job x ≡ (err (completion_timeout job.service_name job.target_task_id), x)
  unfolding check_completion ◌>>=◌ clock raise
  check_completion-expired job x h k = ground arith

  -- Where the step of a job fails and the job stands in the table that the step left, the tick goes on
  -- without an error, and the job's entry is marked failed with the error of the step.
  pub process_or_fail-marks :
      (job entry : ScaleInJob) (x y : System W F) (e : Error)
      → process_job u job x ≡ (err e, y)
      → lookup job.service_name y.coordinator.jobs ≡ some entry
      → (process_or_fail u job x).0 ≡ ok tt
        × lookup job.service_name (process_or_fail u job x).1.coordinator.jobs
          ≡ some
              (record entry { status = failed; last_error = some e; updated_at = time_now y.world })
  unfolding process_or_fail ignore ◌>>=◌ clock coordinate mark_failed
  process_or_fail-marks job entry x y e h k = grind (arith, h, k, lookup-insert_self)

  pub process_or_fail-no_error :
      (job : ScaleInJob) (x : System W F) (e : Error) → (process_or_fail u job x).0 ≢ err e
  unfolding process_or_fail handle ◌>>=◌ clock
  process_or_fail-no_error job x e = elim (Result-cases (process_job u job x).0) [
    | inl (a, h) ↦ ground (arith, h)
    | inr (inl (d, h)) ↦ grind (arith, h, ignore-no_error)
    | inr (inr h) ↦ ground (arith, h)
  ]

  -- Whatever the ports answer, a tick over a list of jobs never returns an error.
  pub process_jobs-no_error :
      (jobs : List ScaleInJob) (x : System W F) (e : Error) → (process_jobs u jobs x).0 ≢ err e
  unfolding process_jobs ◌>>=◌
  process_jobs-no_error [] x e = ground arith
  process_jobs-no_error (job ∷ jobs) x e = elim (Result-cases (process_or_fail u job x).0) [
    | inl (a, h) ↦ ground (arith, h, process_jobs-no_error jobs (process_or_fail u job x).1 e)
    | inr (inl (d, h)) ↦ absurd (process_or_fail-no_error job x d h)
    | inr (inr h) ↦ ground (arith, h)
  ]

  -- A draining job that one check of its drain leaves applied had no reported session at that check,
  -- and at least two checks in a row without one before.
  pub check_drain-applied :
      (job before after : ScaleInJob) (x : System W F)
      → lookup job.service_name x.coordinator.jobs ≡ some before
      → before.status ≡ draining
      → lookup job.service_name (check_drain u job x).1.coordinator.jobs ≡ some after
      → after.status ≡ applied
      → ((task_session_port.get_task_session_report_by_task job.service_name job.target_task_id
            x.world).0
          ≡ ok (record { session_count = 0 }))
        × 2 ≤ before.zero_session_streak
  unfolding check_drain lower_desired_count ◌>>=◌ clock coordinate call reset_zero_session_streak
      increase_zero_session_streak mark_applied
  check_drain-applied job before after x e d f g =
      elim (Result-cases
        (task_session_port.get_task_session_report_by_task job.service_name job.target_task_id
          x.world).0) [
            | inl (r, h) ↦ grind (arith, h, lookup-insert_self)
            | inr (inl (c, h)) ↦ absurd (ground (arith, h))
            | inr (inr h) ↦ absurd (ground (arith, h))
          ]

  abbrev control : ScaleInJob → System W F → Result Error EcsServiceControlState × W
  control job x = ecs_port.get_service_control_state cluster_name job.ecs_service_name x.world

  abbrev described : ScaleInJob → System W F → Result Error EcsTask
  described job x = (ecs_port.describe_task cluster_name job.target_task_id (control job x).1).0

  -- The grounds on which a job may be completed.
  abbrev pub Finished : ScaleInJob → System W F → EcsServiceControlState → EcsTask → Type 0
  Finished job x state task =
      ((control job x).0 ≡ ok state)
      × (state.pending_count ≡ 0)
      × (state.running_count ≡ state.desired_count)
      × (described job x ≡ ok task)
      × (task.last_status ≡ "STOPPED")
      × time_now x.world ≤ job.applied_at + timeout u

  -- An applied job that one check of its completion leaves completed was within the timeout, and ECS
  -- answered that no task of the service is pending, that as many run as are wanted, and that the
  -- target has stopped.
  pub check_completion-completed :
      (job before after : ScaleInJob) (x : System W F)
      → lookup job.service_name x.coordinator.jobs ≡ some before
      → before.status ≡ applied
      → lookup job.service_name (check_completion u job x).1.coordinator.jobs ≡ some after
      → after.status ≡ completed
      → (state : EcsServiceControlState) × (task : EcsTask) × Finished job x state task
  unfolding check_completion check_stopped finish_job ◌>>=◌ clock coordinate call complete raise
      wrap pure
  check_completion-completed job before after x e d f g = elim (Result-cases (control job x).0) [
    | inl (state, h) ↦ elim (Result-cases (described job x)) [
      | inl (task, k) ↦ (state, task, grind (arith, h, k, str_eq_iff task.last_status "STOPPED"))
      | inr (inl (c, k)) ↦ absurd (grind (arith, h, k))
      | inr (inr k) ↦ absurd (grind (arith, h, k))
    ]
    | inr (inl (c, h)) ↦ absurd (grind (arith, h))
    | inr (inr h) ↦ absurd (grind (arith, h))
  ]
