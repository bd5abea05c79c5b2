-- ===== src/ScaleIn/Alive.antt =====
-- internal/application/usecase/scale_in_usecase.go: a tick over the jobs dereferences no nil and
-- returns no error.
use legacy_messenger_ecs_con.Base.{
  ℕ, ◌≡◌, ◌≢◌, inl, inr, String, Bool, Option, none, some, List, [], ◌∷◌, arith,
}
use legacy_messenger_ecs_con.Base.Results.{ok, panic, Result-cases}
use legacy_messenger_ecs_con.Domain.{ScaleInStatus, requested, draining, applied, ScaleInJob, Error}
use legacy_messenger_ecs_con.Coordinator.{
  ScaleInCoordinator, Outcome, mark_draining, increase_zero_session_streak,
  reset_zero_session_streak, mark_applied, mark_failed, complete, get_active_jobs,
}
use legacy_messenger_ecs_con.Exec.{Exec}
use legacy_messenger_ecs_con.Exec.Alive.{
  Alive, lives, bind-Alive, pure-Alive, raise-Alive, handle-Alive, write-Alive,
}
use legacy_messenger_ecs_con.System.{Services, System, call, coordinate, clock}
use legacy_messenger_ecs_con.ScaleIn.{
  or_no_target, protect, process_status, start_drain, check_drain, lower_desired_count,
  check_completion, check_stopped, finish_job, process_job, process_or_fail, process_jobs, process,
  select_scale_in_target,
}
use legacy_messenger_ecs_con.ScaleIn.Steps.{process_jobs-no_error}

-- No port that the scale-in use case calls dereferences nil.
pub record PortsAlive {W F : Type 0} (u : Services W F) : Type 0 where
  pub control : (c s : String) → Alive (u.ecs_port.get_service_control_state c s)
  pub update : (c s : String) (n : ℕ) → Alive (u.ecs_port.update_service_desired_count c s n)
  pub running : (c s : String) → Alive (u.ecs_port.get_running_task_ids c s)
  pub protection :
      (c : String) (ts : List String) (b : Bool) → Alive (u.ecs_port.update_task_protection c ts b)
  pub describe : (c t : String) → Alive (u.ecs_port.describe_task c t)
  pub reports : (s : String) → Alive (u.task_session_port.get_task_session_report s)
  pub invalid : (s : String) → Alive (u.task_session_port.get_invalid_report_task s u.auto_scale)
  pub report : (s t : String) → Alive (u.task_session_port.get_task_session_report_by_task s t)
  pub remove : (s t : String) → Alive (u.task_session_port.delete_task_session_state s t)
  pub drain : (s t : String) → Alive (u.task_drain_port.request_drain s t)

module _ {W F : Type 0} where
  call-Alive : {A : Type 0} (m : Exec W A) → Alive m → Alive (call {F = F} m)
  unfolding call
  call-Alive m h = record { returns = λ s. h.returns s.world }

  clock-Alive : (u : Services W F) → Alive (clock u)
  unfolding clock
  clock-Alive u = record { returns = λ s e. cc }

  coordinate-Alive :
      {A : Type 0} (m : ScaleInCoordinator → Outcome A)
      → ((c : ScaleInCoordinator) → (m c).0 ≢ panic)
      → Alive (coordinate {W = W} {F = F} m)
  unfolding coordinate
  coordinate-Alive m h = record { returns = λ s. h s.coordinator }

module _ (c : ScaleInCoordinator) (s : String) (now : ℕ) where
  mark_draining-ne-panic : (t : String) (ts : List String) → (mark_draining c s t ts now).0 ≢ panic
  unfolding mark_draining
  mark_draining-ne-panic t ts = ground arith

  increase-ne-panic : (increase_zero_session_streak c s now).0 ≢ panic
  unfolding increase_zero_session_streak
  increase-ne-panic = ground arith

  reset-ne-panic : (reset_zero_session_streak c s now).0 ≢ panic
  unfolding reset_zero_session_streak
  reset-ne-panic = ground arith

  mark_applied-ne-panic : (mark_applied c s now).0 ≢ panic
  unfolding mark_applied
  mark_applied-ne-panic = ground arith

  mark_failed-ne-panic : (e : Option Error) → (mark_failed c s e now).0 ≢ panic
  unfolding mark_failed
  mark_failed-ne-panic e = ground arith

  complete-ne-panic : (complete c s now).0 ≢ panic
  unfolding complete
  complete-ne-panic = ground arith

ruleset methods = (
  mark_draining-ne-panic, increase-ne-panic, reset-ne-panic, mark_applied-ne-panic,
  mark_failed-ne-panic, complete-ne-panic,
)

module _ {W F : Type 0} (u : Services W F) (alive : PortsAlive u) where
  or_no_target-Alive : (s : String) (t : Option _) → Alive (or_no_target u s t)
  or_no_target-Alive s none = raise-Alive _
  or_no_target-Alive s (some t) = pure-Alive t

  protect-Alive : (ts : List String) (b : Bool) → Alive (protect u ts b)
  protect-Alive [] b = pure-Alive tt
  protect-Alive (t ∷ ts) b = call-Alive _ (alive.protection _ _ b)

  select-Alive : (s : String) (ts : List String) → Alive (select_scale_in_target u s ts)
  unfolding select_scale_in_target
  select-Alive s ts =
      search (lives, call-Alive, or_no_target-Alive, alive.reports, alive.invalid) depth 8

  start_drain-Alive : (job : ScaleInJob) → Alive (start_drain u job)
  unfolding start_drain
  start_drain-Alive job =
      search
        (
          lives, methods, call-Alive, clock-Alive, coordinate-Alive, select-Alive, protect-Alive,
          alive.running, alive.drain,
        )
        depth 14

  lower-Alive : (job : ScaleInJob) → Alive (lower_desired_count u job)
  unfolding lower_desired_count
  lower-Alive job = bind-Alive _ _ (call-Alive _ (alive.update _ _ _)) λ _.
      bind-Alive _ _ (clock-Alive u) λ now.
        bind-Alive _ _ (write-Alive tt _)
          λ _. search (lives, methods, clock-Alive, coordinate-Alive)

  check_drain-Alive : (job : ScaleInJob) → Alive (check_drain u job)
  unfolding check_drain
  check_drain-Alive job =
      search (lives, methods, call-Alive, clock-Alive, coordinate-Alive, lower-Alive, alive.report)
        depth 14

  finish-Alive : (job : ScaleInJob) → Alive (finish_job u job)
  unfolding finish_job
  finish-Alive job =
      search
        (
          lives, methods, call-Alive, clock-Alive, coordinate-Alive, alive.remove, alive.running,
          alive.protection,
        )
        depth 14

  check_completion-Alive : (job : ScaleInJob) → Alive (check_completion u job)
  unfolding check_completion check_stopped
  check_completion-Alive job =
      search (lives, methods, call-Alive, clock-Alive, finish-Alive, alive.control, alive.describe)
        depth 16

  process_status-Alive : (x : ScaleInStatus) (job : ScaleInJob) → Alive (process_status u x job)
  process_status-Alive requested job = start_drain-Alive job
  process_status-Alive draining job = check_drain-Alive job
  process_status-Alive applied job = check_completion-Alive job
  process_status-Alive _ job = pure-Alive tt

  pub process_or_fail-Alive : (job : ScaleInJob) → Alive (process_or_fail u job)
  unfolding process_or_fail process_job
  process_or_fail-Alive job =
      handle-Alive _ _ (process_status-Alive job.status job)
        λ cause. search (lives, methods, clock-Alive, coordinate-Alive) depth 8

  process_jobs-Alive : (jobs : List ScaleInJob) → Alive (process_jobs u jobs)
  unfolding process_jobs
  process_jobs-Alive [] = pure-Alive tt
  process_jobs-Alive (job ∷ jobs) =
      bind-Alive _ _ (process_or_fail-Alive job) λ _. process_jobs-Alive jobs

  -- Where no port dereferences nil, a tick over the active jobs returns, and with no error, whatever
  -- the ports answer and whatever state the jobs are in.
  pub process-returns : (x : System W F) → (process u x).0 ≡ ok tt
  unfolding process
  process-returns x =
      let jobs = get_active_jobs x.coordinator in
      elim (Result-cases (process_jobs u jobs x).0) [
        | inl (a, h) ↦ h
        | inr (inl (e, h)) ↦ absurd (process_jobs-no_error u jobs x e h)
        | inr (inr h) ↦ absurd ((process_jobs-Alive jobs).returns x h)
      ]
