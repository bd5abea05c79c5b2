-- ===== src/Domain.antt =====
-- internal/domain: the records that the use cases pass around. Counts are the nonnegative values that
-- ECS reports and that the HTTP layer lets in, so they are natural numbers; a time is the number of
-- nanoseconds since the zero time.Time, so IsZero is a comparison with 0. A log text is the
-- constructor of the message with the integers it prints.
use legacy_messenger_ecs_con.Base.{ℕ, ℤ, String, Bool, List, Option}

-- serviceevaluation.ScalingAction
pub data ScalingAction : Type 0 where
  scale_out scale_in scale_in_candidate keep not_scalable skip : ScalingAction

-- servicescale.ECSServiceControlState
pub record EcsServiceControlState : Type 0 where
  pub ecs_service_name : String
  pub desired_count : ℕ
  pub running_count : ℕ
  pub pending_count : ℕ
  pub status : String

pub record SessionReportResult : Type 0 where
  pub task_id : String
  pub session_count : ℕ
  pub status : String

pub record ServiceEvent : Type 0 where
  pub message : String
  pub created_at : ℕ

-- The texts that SessionAutoScalingResult.Reason can hold. The coverage that the text of
-- `coverage_insufficient` prints is left out.
pub data Reason : Type 0 where
  required_exceeds_current required_below_current count_appropriate : Reason
  not_converged : ℕ → ℕ → ℕ → Reason
  not_required : Reason
  unsupported_action : ScalingAction → Reason
  max_reached : Reason
  scale_out_pending : ℕ → Reason
  scale_out_cooldown_active : ℕ → Reason
  scale_out_not_persistent : ℕ → ℕ → Reason
  scale_out_no_gain : Reason
  scale_out_approved : ℕ → ℕ → Reason
  min_reached : Reason
  scale_in_pending : ℕ → Reason
  coverage_insufficient : Reason
  stabilizing : ℕ → Reason
  scale_in_cooldown_active : ℕ → Reason
  scale_in_not_persistent : ℕ → ℕ → Reason
  scale_in_no_gain : Reason
  scale_in_approved : ℕ → ℕ → Reason
  scale_out_executed : ℕ → ℕ → Reason
  job_requested : ℕ → ℕ → Reason

-- scale.SessionAutoScalingResult
pub record SessionAutoScalingResult : Type 0 where
  pub service_name : String
  pub total_session_count : ℕ
  pub running_task_count : ℕ
  pub current_desired_count : ℕ
  pub recommended_desired_count : ℕ
  pub action : ScalingAction
  pub executed : Bool
  pub reason : Reason
  pub session_report : List SessionReportResult
  pub ecs_events : List ServiceEvent

-- scalein.ScaleInStatus
pub data ScaleInStatus : Type 0 where
  requested draining applied completed failed : ScaleInStatus

-- The error texts of the scaling use cases and of the adapters, with the names and states that they print. `external` is
-- an error that a port returns.
pub data Error : Type 0 where
  external : String → Error
  service_name_required : Error
  service_not_found : String → Error
  job_already_active : String → ScaleInStatus → Error
  job_not_found : String → Error
  invalid_transition : ScaleInStatus → ScaleInStatus → Error
  target_empty : String → Error
  target_already_selected : String → String → Error
  cannot_apply : ScaleInStatus → Error
  cannot_complete : String → ScaleInStatus → Error
  control_state_failed : Error → Error
  reports_failed : Error → Error
  running_tasks_failed : Error → Error
  expired_reports_failed : Error
  invalid_reports_failed : Error → Error
  apply_failed : String → Error → Error
  update_failed : String → ℕ → ℕ → Error → Error
  request_failed : String → Error → Error
  action_unsupported : ScalingAction → Error
  recheck_failed : String → Error → Error
  delete_failed : String → Error → Error
  no_target : String → Error
  protect_failed : Error → Error
  drain_failed : String → Error → Error
  applied_time_empty : String → String → Error
  completion_timeout : String → String → Error
  describe_failed : Error → Error
  invalid_task_status : String → String → Error
  remove_failed : String → Error → Error
  marshal_failed : Error → Error
  save_failed : Error → Error
  get_failed : Error → Error
  read_failed : Error → Error
  unmarshal_failed : String → Error → Error
  expired_failed : String → Error → Error
  invalid_expired_member : String → Error
  invalid_stop_member : String → Error
  score_failed : Error → Error
  state_delete_failed : Error → Error
  negative_desired_count : ℤ → Error
  fake_service_not_found : String → Error
  fake_protected_not_found : String → Error
  fake_no_task : String → Error
  fake_task_unknown : String → Error
  invalid_desired_count : Error
  service_not_scalable : String → Error
  desired_count_out_of_range : ℤ → ℕ → ℕ → Error
  not_registered : String → Error
  ecs_service_name_empty : String → Error
  cannot_redeploy : String → Error
  deployment_in_progress : String → Error
  no_host_port : ℕ → Error
  list_failed : String → Error → Error
  cluster_name_required : Error
  ecs_service_name_required : Error
  list_tasks_failed : Error → Error
  list_running_failed : String → Error → Error
  describe_running_failed : String → Error → Error
  describe_tasks_failed : Error → Error
  task_failure : String → String → Error
  describe_services_failed : Error → Error
  describe_ecs_service_failed : String → Error → Error
  state_not_described : Error → Error
  ecs_service_not_found : String → Error
  ecs_task_not_found : String → Error
  task_not_found : String → Error
  service_failure : String → String → Error
  no_load_balancer : String → Error
  no_target_group_arn : String → Error
  update_service_failed : Error → Error
  empty_service : Error
  redeploy_failed : Error → Error
  no_protected_tasks : String → Bool → Error
  protection_failed : String → List String → Bool → Error → Error
  describe_task_failed : String → Error → Error
  describe_task_failure : String → String → Error
  container_instances_failed : Error → Error
  container_instance_not_found : String → Error
  instance_id_empty : String → Error
  target_group_arn_required : Error
  target_health_failed : String → Error → Error
  target_groups_failed : Error → Error
  target_group_not_found : String → Error
  load_balancer_not_found : String → Error
  load_balancer_arn_required : Error
  invalid_load_balancer_arn : String → Error
  metric_failed : Error → Error
  metric_not_found : Error
  instances_failed : Error → Error
  instance_not_found : String → Error
  private_ip_empty : String → Error
  container_instance_empty : String → Error
  host_port_not_found : String → ℕ → Error
  resolve_failed : String → String → Error → Error
  request_not_created : String → Error → Error
  call_failed : String → Error → Error
  unexpected_status : String → ℕ → Error
  notification_failed : String → ℕ → Option String → Error
  task_not_resolved : String → Error → Error
  alb_only : String → String → Error
  service_status_failed : Error → Error
  target_group_failed : Error → Error
  load_balancer_failed : Error → Error
  connection_count_failed : Error → Error

-- scalein.ScaleInJob
pub record ScaleInJob : Type 0 where
  pub service_name : String
  pub ecs_service_name : String
  pub status : ScaleInStatus
  pub target_task_id : String
  pub protected_task_ids : List String
  pub current_desired_count : ℕ
  pub target_desired_count : ℕ
  pub zero_session_streak : ℕ
  pub requested_at : ℕ
  pub applied_at : ℕ
  pub updated_at : ℕ
  pub last_error : Option Error

-- task.TaskSessionReport
pub record TaskSessionReport : Type 0 where
  pub service_name : String
  pub task_id : String
  pub session_count : ℕ
  pub reported_at : ℕ
  pub expires_at : ℕ

-- task.TaskSessionValue
pub record TaskSessionValue : Type 0 where
  pub session_count : ℕ
  pub reported_at : ℕ
