-- ===== src/ScaleIn.antt =====
-- internal/application/usecase/scale_in_usecase.go: what the scale-in scheduler does with each job on
-- every tick. The two methods of the coordinator that stand in that file are in Coordinator.antt.
pub mod Drain
pub mod Alive
pub mod Steps
pub mod Target
use legacy_messenger_ecs_con.Base.{
  ℕ, ◌+◌, ◌*◌, String, Bool, true, false, not, ◌||◌, Option, none, some, List, [], ◌∷◌, Dict,
  lookup, length, str_eq, ltb, ◌==◌, if◌then◌else◌,
}
use legacy_messenger_ecs_con.Base.Results.{Result, ok, err, panic}
use legacy_messenger_ecs_con.Domain.{
  ScaleInStatus, requested, draining, applied, completed, failed, ScaleInJob, scale_in, Error,
  control_state_failed, reports_failed, running_tasks_failed, invalid_reports_failed, no_target,
  protect_failed, drain_failed, applied_time_empty, completion_timeout, describe_failed,
  invalid_task_status, remove_failed, EcsServiceControlState,
}
use legacy_messenger_ecs_con.Policy.{record_execution, second}
use legacy_messenger_ecs_con.Coordinator.{
  get_active_jobs, mark_draining, increase_zero_session_streak, reset_zero_session_streak,
  mark_applied, mark_failed, complete,
}
use legacy_messenger_ecs_con.Demand.{SessionReport, TaskInfo, has_key}
use legacy_messenger_ecs_con.Exec.{Exec, pure, raise, wrap, ignore, handle, ◌>>=◌, ◌>>◌}
use legacy_messenger_ecs_con.System.{EcsTask, Services, System, call, coordinate, clock}

abbrev pub default_scale_in_applied_timeout : ℕ
default_scale_in_applied_timeout = 5 * 60 * second

-- `!found || report.SessionCount < target.SessionCount`
abbrev is_better : SessionReport → Option TaskInfo → Bool
is_better report none = true
is_better report (some target) = ltb report.session_count target.session_count

abbrev better : String → Option SessionReport → Bool → Option TaskInfo → Option TaskInfo
better t none expired best = best
better t (some report) true best = best
better t (some report) false best =
    if is_better report best
    then some (record { task_id = t; session_count = report.session_count })
    else best

-- The loop of selectScaleInTarget: the best task so far.
unfoldable pub pick_target :
    Dict SessionReport → Dict String → List String → Option TaskInfo → Option TaskInfo
pick_target reports expired [] best = best
pick_target reports expired (t ∷ ts) best =
    pick_target reports expired ts (better t (lookup t reports) (has_key (lookup t expired)) best)

-- The running tasks but the target.
unfoldable pub survivors : String → List String → List String
survivors target [] = []
survivors target (t ∷ ts) = if str_eq t target then survivors target ts else t ∷ survivors target ts

abbrev is_empty : List String → Bool
is_empty [] = true
is_empty (t ∷ ts) = false

module _ {W F : Type 0} (u : Services W F) where
  open u use {task_session_port, ecs_port, task_drain_port, cluster_name, auto_scale}

  abbrev pub or_no_target : String → Option TaskInfo → Exec (System W F) TaskInfo
  or_no_target s none = raise (no_target s)
  or_no_target s (some t) = pure t

  unfoldable pub select_scale_in_target : String → List String → Exec (System W F) TaskInfo
  select_scale_in_target s running = do
    reports ← wrap reports_failed (call (task_session_port.get_task_session_report s))
    invalid ←
        wrap invalid_reports_failed (call (task_session_port.get_invalid_report_task s auto_scale))
    or_no_target s (pick_target reports invalid.0 running none)

  -- Protection is set, or taken back, where there is anything to protect.
  abbrev pub protect : List String → Bool → Exec (System W F) (Unit {0})
  protect [] flag = pure tt
  protect (t ∷ ts) flag = call (ecs_port.update_task_protection cluster_name (t ∷ ts) flag)

  unfoldable pub start_drain : ScaleInJob → Exec (System W F) (Unit {0})
  unfolding select_scale_in_target
  start_drain job = do
    running ←
        wrap running_tasks_failed
          (call (ecs_port.get_running_task_ids cluster_name job.ecs_service_name))
    target ← select_scale_in_target job.service_name running
    let protected = survivors target.task_id running
    wrap protect_failed (protect protected true)
    handle (call (task_drain_port.request_drain job.service_name target.task_id))
        (λ cause. do ignore (protect protected false); raise (drain_failed target.task_id cause))
    now ← clock u
    coordinate (λ c. mark_draining c job.service_name target.task_id protected now)

  -- The desired count is lowered, the execution recorded and the job marked.
  unfoldable pub lower_desired_count : ScaleInJob → Exec (System W F) (Unit {0})
  lower_desired_count job = do
    call (
        ecs_port.update_service_desired_count cluster_name job.ecs_service_name
          job.target_desired_count)
    now ← clock u
    λ x. (ok tt, record x { policy = record_execution x.policy job.service_name scale_in now })
    at ← clock u
    coordinate (λ c. mark_applied c job.service_name at)

  unfoldable pub check_drain : ScaleInJob → Exec (System W F) (Unit {0})
  unfolding lower_desired_count
  check_drain job = do
    report ←
        call (task_session_port.get_task_session_report_by_task job.service_name job.target_task_id)
    now ← clock u
    if ltb 0 report.session_count
        then coordinate (λ c. reset_zero_session_streak c job.service_name now)
        else do
          streak ← coordinate (λ c. increase_zero_session_streak c job.service_name now)
          if ltb streak 3 then pure tt else lower_desired_count job

  -- Once the target has stopped, its report goes and the survivors lose their protection.
  unfoldable pub finish_job : ScaleInJob → Exec (System W F) (Unit {0})
  finish_job job = do
    wrap (remove_failed job.target_task_id)
        (call (task_session_port.delete_task_session_state job.service_name job.target_task_id))
    running ←
        wrap running_tasks_failed
          (call (ecs_port.get_running_task_ids cluster_name job.ecs_service_name))
    wrap protect_failed (
        call (
          ecs_port.update_task_protection cluster_name (survivors job.target_task_id running)
            false))
    now ← clock u
    coordinate (λ c. complete c job.service_name now)

  abbrev is_waiting : String → Bool
  is_waiting status =
      str_eq status "DEACTIVATING" || (str_eq status "STOPPING" || str_eq status "RUNNING")

  -- The switch on the status of the target.
  unfoldable pub check_stopped : ScaleInJob → String → Exec (System W F) (Unit {0})
  unfolding finish_job
  check_stopped job status =
      if str_eq status "STOPPED"
      then finish_job job
      else if is_waiting status
      then pure tt
      else raise (invalid_task_status job.target_task_id status)

  -- A configured timeout that is not positive gives way to the default.
  abbrev pub timeout : ℕ
  timeout =
      if auto_scale.scale_in_applied_timeout == 0
      then default_scale_in_applied_timeout
      else auto_scale.scale_in_applied_timeout

  -- `time.Since(job.AppliedAt) > timeout` is `job.AppliedAt + timeout < now`.
  unfoldable pub check_completion : ScaleInJob → Exec (System W F) (Unit {0})
  unfolding check_stopped
  check_completion job = do
    now ← clock u
    if job.applied_at == 0
        then raise (applied_time_empty job.service_name job.target_task_id)
        else if ltb (job.applied_at + timeout) now
        then raise (completion_timeout job.service_name job.target_task_id)
        else do
          state ←
              wrap control_state_failed
                (call (ecs_port.get_service_control_state cluster_name job.ecs_service_name))
          if ltb 0 state.pending_count || not (state.running_count == state.desired_count)
              then pure tt
              else do
                task ←
                    wrap describe_failed
                      (call (ecs_port.describe_task cluster_name job.target_task_id))
                check_stopped job task.last_status

  abbrev pub process_status : ScaleInStatus → ScaleInJob → Exec (System W F) (Unit {0})
  process_status requested job = start_drain job
  process_status draining job = check_drain job
  process_status applied job = check_completion job
  process_status _ job = pure tt

  unfoldable pub process_job : ScaleInJob → Exec (System W F) (Unit {0})
  unfolding start_drain check_drain check_completion
  process_job job = process_status job.status job

  -- A job whose step fails is marked so; an error of the mark is logged only.
  unfoldable pub process_or_fail : ScaleInJob → Exec (System W F) (Unit {0})
  unfolding process_job
  process_or_fail job = handle (process_job job) (λ cause. do
    now ← clock u
    ignore (coordinate (λ c. mark_failed c job.service_name (some cause) now)))

  unfoldable pub process_jobs : List ScaleInJob → Exec (System W F) (Unit {0})
  unfolding process_or_fail
  process_jobs [] = pure tt
  process_jobs (job ∷ jobs) = let rest = process_jobs jobs in do process_or_fail job; rest

  unfoldable pub process : Exec (System W F) (Unit {0})
  unfolding process_jobs
  process x = process_jobs (get_active_jobs x.coordinator) x
