-- ===== src/Aws/Ports.antt =====
-- internal/ports, filled by the clients of AWS.
use legacy_messenger_ecs_con.Base.{ℕ, pos}
use legacy_messenger_ecs_con.System.{EcsPort}
use legacy_messenger_ecs_con.Pressure.{PressurePorts}
use legacy_messenger_ecs_con.Aws.Sdk.{EcsSdk, ElbSdk, CloudWatchSdk}
use legacy_messenger_ecs_con.Aws.Services.{
  describe_service, get_service_target_group_arn, get_service_control_state,
  update_service_desired_count,
}
use legacy_messenger_ecs_con.Aws.Tasks.{get_running_task_ids, update_task_protection, describe_task}
use legacy_messenger_ecs_con.Aws.Elb.{get_load_balancer_arn_by_target_group_arn}
use legacy_messenger_ecs_con.Aws.CloudWatch.{get_alb_active_connection_count}

-- `pages` bounds the pages of ListTasks.
unfoldable pub aws_ecs : {W : Type 0} → EcsSdk W → ℕ → EcsPort W
aws_ecs sdk pages = record {
  describe_service = describe_service sdk;
  describe_task = describe_task sdk;
  get_service_control_state = get_service_control_state sdk;
  update_service_desired_count =
      λ cluster name n. update_service_desired_count sdk cluster name (pos n);
  get_running_task_ids = get_running_task_ids sdk pages;
  update_task_protection = update_task_protection sdk;
}

unfoldable pub pressure_ports :
    {W F : Type 0} → EcsSdk W → ElbSdk W → CloudWatchSdk W F → PressurePorts W F
pressure_ports ecs elb cloud_watch = record {
  describe_service = describe_service ecs;
  get_service_target_group_arn = get_service_target_group_arn ecs;
  get_load_balancer_arn_by_target_group_arn = get_load_balancer_arn_by_target_group_arn elb;
  get_alb_active_connection_count = get_alb_active_connection_count cloud_watch;
}
