-- ===== src/AutoScaling.antt =====
-- internal/application/usecase/session_auto_scaling_usecase.go: one evaluation of a service, which
-- observes ECS and the session reports, asks the policy, and carries out what it approves.
pub mod Control
pub mod Coverage
pub mod Outcome
use legacy_messenger_ecs_con.Base.{
  ℕ, ◌-◌, suc, String, Bool, true, false, Option, none, some, List, [], ◌∷◌, Dict, lookup, length,
  str_eq, if◌then◌else◌,
}
use legacy_messenger_ecs_con.Base.Results.{Result, ok, err, panic}
use legacy_messenger_ecs_con.Floats.{Float64}
use legacy_messenger_ecs_con.Domain.{
  ScalingAction, scale_out, scale_in, EcsServiceControlState, SessionReportResult, ServiceEvent,
  SessionAutoScalingResult, scale_out_executed, job_requested, ScaleInJob, requested, Error,
  control_state_failed, reports_failed, running_tasks_failed, expired_reports_failed, apply_failed,
  update_failed, request_failed, action_unsupported, recheck_failed, delete_failed,
}
use legacy_messenger_ecs_con.Policy.{ScalingPolicy, evaluate, record_execution}
use legacy_messenger_ecs_con.Coordinator.{request}
use legacy_messenger_ecs_con.Demand.{
  SessionReport, Separated, TaskSessionInfo, get_separated_running_task,
  calculate_total_session_count, calculate_required_task_count, evaluate_scaling_demand,
}
use legacy_messenger_ecs_con.Exec.{
  Exec, pure, raise, nil_dereference, wrap, ignore, attempt, ◌>>=◌, ◌>>◌,
}
use legacy_messenger_ecs_con.System.{
  ServiceDef, ServiceStatus, EcsTask, EcsPort, TaskSessionPort, Services, System, call, coordinate,
  clock, find_service,
}

-- What one evaluation reads before it decides.
pub record Observation : Type 0 where
  pub ecs_state : EcsServiceControlState
  pub reported : Dict SessionReport
  pub running_task_ids : List String
  pub expired_report : Dict String
  pub stop_candidates : List String

abbrev pub normal_task_of : Observation → List String
normal_task_of o =
    (get_separated_running_task o.running_task_ids o.expired_report o.reported).normal_task

-- The sessions that a task reported; a key that is not there reads as 0.
abbrev count_of : Option SessionReport → ℕ
count_of none = 0
count_of (some report) = report.session_count

-- The status that is shown for a task that was described, or could not be.
abbrev status_of : Option EcsTask → String
status_of none = "ERROR"
status_of (some task) = task.last_status

-- At most one event is shown.
abbrev first_event : List ServiceEvent → List ServiceEvent
first_event [] = []
first_event (e ∷ es) = e ∷ []

module _ (fl : Float64) {W : Type 0} (u : Services W fl.F) where
  open fl use {F, lt}
  open u use {task_session_port, ecs_port, cluster_name, auto_scale}

  -- Steps 2 to 5: ECS counts, session reports, running tasks, expired and stopped reports.
  unfoldable pub observe : String → ServiceDef → Exec (System W F) Observation
  observe s def = do
    ecs ←
        wrap control_state_failed
          (call (ecs_port.get_service_control_state cluster_name def.ecs_service_name))
    reported ← wrap reports_failed (call (task_session_port.get_task_session_report s))
    running ←
        wrap running_tasks_failed
          (call (ecs_port.get_running_task_ids cluster_name def.ecs_service_name))
    invalid ←
        wrap (λ _. expired_reports_failed)
          (call (task_session_port.get_invalid_report_task s auto_scale))
    pure (record {
      ecs_state = ecs;
      reported = reported;
      running_task_ids = running;
      expired_report = invalid.0;
      stop_candidates = invalid.1;
    })

  -- Steps 6 to 9: the demand, and the coverage of the reports.
  unfoldable pub info_of : Observation → TaskSessionInfo F
  info_of o =
      calculate_total_session_count fl o.reported (normal_task_of o) (length o.running_task_ids)

  unfoldable pub demand_of : String → Observation → SessionAutoScalingResult
  unfolding info_of
  demand_of s o =
      evaluate_scaling_demand s (info_of o) o.ecs_state.desired_count o.ecs_state.running_count (
        calculate_required_task_count fl (info_of o).total_session_count auto_scale.session_per_task
          auto_scale.scale_out_utilization auto_scale.min_task_count auto_scale.max_task_count)

  -- Step 10: the policy decides, at the time that is read now.
  unfoldable pub judge : String → Observation → Exec (System W F) (SessionAutoScalingResult × Bool)
  unfolding demand_of
  judge s o = do
    now ← clock u
    λ sys.
        let (p, r, approved) =
          evaluate lt sys.policy (demand_of s o) o.ecs_state (info_of o).report_coverage now in
        (ok (r, approved), record sys { policy = p })

  -- A scale-in is not carried out here: it is handed to the coordinator as a job. The policy approves
  -- one only above the minimum count; at a current count of 0 the code's target would be -1.
  unfoldable pub request_scale_in :
      String → SessionAutoScalingResult → Exec (System W F) SessionAutoScalingResult
  request_scale_in ecs_service_name r = do
    let target = r.current_desired_count - 1
    now ← clock u
    wrap (request_failed r.service_name) (
        coordinate (λ c.
          request c
            (record {
              service_name = r.service_name;
              ecs_service_name = ecs_service_name;
              status = requested;
              target_task_id = "";
              protected_task_ids = [];
              current_desired_count = r.current_desired_count;
              target_desired_count = target;
              zero_session_streak = 0;
              requested_at = 0;
              applied_at = 0;
              updated_at = 0;
              last_error = none;
            })
            now))
    pure (record r {
      executed = false;
      recommended_desired_count = target;
      reason = job_requested r.current_desired_count target;
    })

  unfoldable pub scale_out_now :
      String → SessionAutoScalingResult → Exec (System W F) SessionAutoScalingResult
  scale_out_now ecs_service_name r = do
    wrap (update_failed r.service_name r.current_desired_count r.recommended_desired_count) (
        call (
          ecs_port.update_service_desired_count cluster_name ecs_service_name
            r.recommended_desired_count))
    pure (record r {
      executed = true;
      reason = scale_out_executed r.current_desired_count r.recommended_desired_count;
    })

  abbrev pub apply_action :
      ScalingAction → String → SessionAutoScalingResult → Exec (System W F) SessionAutoScalingResult
  apply_action scale_out ecs_service_name r = scale_out_now ecs_service_name r
  apply_action scale_in ecs_service_name r = request_scale_in ecs_service_name r
  apply_action other ecs_service_name r = raise (action_unsupported other)

  unfoldable pub apply_scaling_decision :
      String → SessionAutoScalingResult → Exec (System W F) SessionAutoScalingResult
  unfolding scale_out_now request_scale_in
  apply_scaling_decision ecs_service_name r = apply_action r.action ecs_service_name r

  abbrev pub note_execution :
      SessionAutoScalingResult → Bool → Exec (System W F) SessionAutoScalingResult
  note_execution r false = pure r
  note_execution r true = do
    at ← clock u
    λ sys. (ok r, record sys { policy = record_execution sys.policy r.service_name r.action at })

  -- Step 11: what is approved is carried out, and only what was executed is recorded.
  unfoldable pub carry_out :
      ServiceDef → SessionAutoScalingResult × Bool → Exec (System W F) SessionAutoScalingResult
  unfolding apply_scaling_decision
  carry_out def (r, false) = pure r
  carry_out def (r, true) = do
    done ← wrap (apply_failed r.service_name) (apply_scaling_decision def.ecs_service_name r)
    note_execution done done.executed

  abbrev pub delete_if_stopped : String → String → Bool → Exec (System W F) (Unit {0})
  delete_if_stopped s t false = pure tt
  delete_if_stopped s t true =
      wrap (delete_failed t) (call (task_session_port.delete_task_session_state s t))

  -- Step 12: the reports of stopped tasks are looked at again, and deleted if still stopped.
  unfoldable pub stop_expired_tasks : String → ℕ → List String → Exec (System W F) (Unit {0})
  stop_expired_tasks s now [] = pure tt
  stop_expired_tasks s now (t ∷ ts) =
      let rest = stop_expired_tasks s now ts in
      do
        stopped ← wrap (recheck_failed t) (call (task_session_port.should_stop_task s t now))
        delete_if_stopped s t stopped
        rest

  -- Step 13: a line for each normal task.
  unfoldable pub session_report_list :
      Dict SessionReport → List String → Exec (System W F) (List SessionReportResult)
  session_report_list reported [] = pure []
  session_report_list reported (t ∷ ts) =
      let rest = session_report_list reported ts in
      if str_eq t "" then rest else do
        task ← attempt (call (ecs_port.describe_task cluster_name t))
        lines ← rest
        pure (
            record {
              task_id = t;
              session_count = count_of (lookup t reported);
              status = status_of task;
            }
            ∷ lines)

  abbrev pub with_events :
      SessionAutoScalingResult
      → Option (Option ServiceStatus)
      → Exec (System W F) SessionAutoScalingResult
  with_events r none = pure r
  with_events r (some none) = nil_dereference
  with_events r (some (some status)) = pure (record r { ecs_events = first_event status.events })

  -- Step 14. An error of the call is logged only; a nil status with no error is dereferenced.
  unfoldable pub attach_ecs_service_diagnostics :
      String → SessionAutoScalingResult → Exec (System W F) SessionAutoScalingResult
  attach_ecs_service_diagnostics ecs_service_name r = do
    status ← attempt (call (ecs_port.describe_service cluster_name ecs_service_name))
    with_events r status

  -- Steps 12 to 14. The error of the clean-up is dropped.
  unfoldable pub report :
      String
      → ServiceDef
      → Observation
      → SessionAutoScalingResult
      → Exec (System W F) SessionAutoScalingResult
  unfolding stop_expired_tasks session_report_list attach_ecs_service_diagnostics
  report s def o r = do
    now ← clock u
    ignore (stop_expired_tasks s now o.stop_candidates)
    lines ← session_report_list o.reported (normal_task_of o)
    attach_ecs_service_diagnostics def.ecs_service_name (record r { session_report = lines })

  unfoldable pub evaluate_and_scale : String → Exec (System W F) SessionAutoScalingResult
  unfolding observe judge carry_out report
  evaluate_and_scale s = do
    def ← find_service u s
    o ← observe s def
    verdict ← judge s o
    done ← carry_out def verdict
    report s def o done
