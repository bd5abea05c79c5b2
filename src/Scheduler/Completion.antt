-- ===== src/Scheduler/Completion.antt =====
-- internal/application/usecase/scale_in_usecase.go, under the timer of scale_in_scheduler.go: a job that is
-- not completed in time.
use legacy_messenger_ecs_con.Base.{◌+◌, ◌<◌, ◌≡◌, ap, ◌∙◌, some}
use legacy_messenger_ecs_con.Domain.{applied, failed, completion_timeout, ScaleInJob}
use legacy_messenger_ecs_con.Base.{ℕ}
use legacy_messenger_ecs_con.Base.Results.{err}
use legacy_messenger_ecs_con.Coordinator.{is_active_scale_in_status}
use legacy_messenger_ecs_con.Coordinator.Invariant.{Inv, entry-IsWellFormed}
use legacy_messenger_ecs_con.System.{Services, System}
use legacy_messenger_ecs_con.ScaleIn.{timeout, process_job, process_or_fail, process}
use legacy_messenger_ecs_con.ScaleIn.Alive.{PortsAlive}
use legacy_messenger_ecs_con.ScaleIn.Steps.{check_completion-expired, process_or_fail-marks}
use legacy_messenger_ecs_con.Floats.{Float64}
use legacy_messenger_ecs_con.Scheduler.Isolation.{entry, process-Turn}

-- The job as a timeout leaves it.
abbrev pub TimedOut : {W F : Type 0} → ScaleInJob → System W F → Type 0
TimedOut job x =
    (now : ℕ) × (entry job.service_name x
      ≡ some (record job {
        status = failed;
        last_error = some (completion_timeout job.service_name job.target_task_id);
        updated_at = now;
      }))

module _ {W F : Type 0} (u : Services W F) (job : ScaleInJob) where
  open u use {time_now}

  step-expires :
      (x : System W F)
      → entry job.service_name x ≡ some job
      → job.status ≡ applied
      → 0 < job.applied_at
      → job.applied_at + timeout u < time_now x.world
      → TimedOut job (process_or_fail u job x).1
  unfolding process_job
  step-expires x found a timed late =
      let failing = check_completion-expired u job x timed late in
      let cause = completion_timeout job.service_name job.target_task_id in
      let step : process_job u job x ≡ (err cause, x) = rw a failing in
      (time_now x.world, (process_or_fail-marks u job job x x cause step found).1)

module _ (fl : Float64) {W : Type 0} (u : Services W fl.F) (alive : PortsAlive u)
    (runs : (w : W) → 0 < u.time_now w) where
  open fl use {lt}
  open u use {time_now}

  -- Where no port dereferences nil or fails to return, and the clock is past the zero time: a job of a
  -- well-formed table that was applied longer ago than the timeout, by the clock from the start of a tick on,
  -- is failed with the timeout error by that tick over the jobs, whatever the ports answer and whatever jobs
  -- of other services there are.
  pub process-TimedOut :
      (job : ScaleInJob) (x : System W fl.F)
      → Inv x.coordinator
      → entry job.service_name x ≡ some job
      → job.status ≡ applied
      → ((w : W) → job.applied_at + timeout u < time_now w)
      → TimedOut job (process u x).1
  process-TimedOut job x v found a late =
      let timed = (entry-IsWellFormed x.coordinator job.service_name job v found).timed_applied a in
      let active = ap is_active_scale_in_status a in
      let turn = process-Turn lt u runs alive job x v found active in
      let (now, left) =
        step-expires u job turn.before turn.found a timed (late turn.before.world) in
      (now, turn.after ∙ left)
