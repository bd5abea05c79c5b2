-- ===== src/Aws/Services.antt =====
-- internal/adapters/aws/ecs_client.go: the calls about a service.
use legacy_messenger_ecs_con.Base.{
  ℕ, ◌-◌, ◌%◌, ◌^◌, ℤ, pos, negsuc, String, Option, none, some, List, [], ◌∷◌, map, str_eq, ltb,
  if◌then◌else◌,
}
use legacy_messenger_ecs_con.Domain.{
  EcsServiceControlState, ServiceEvent, Error, cluster_name_required, ecs_service_name_required,
  describe_services_failed, describe_ecs_service_failed, state_not_described, service_failure,
  no_load_balancer, no_target_group_arn, negative_desired_count, update_service_failed,
  empty_service, redeploy_failed, ecs_service_not_found,
}
use legacy_messenger_ecs_con.Exec.{Exec, pure, raise, wrap, ◌>>=◌, ◌>>◌}
use legacy_messenger_ecs_con.System.{ServiceStatus, DeploymentStatus}
use legacy_messenger_ecs_con.ServiceControl.{ServiceRedeployResult, ServiceDeployment}
use legacy_messenger_ecs_con.Aws.Sdk.{
  Service, Deployment, Event, LoadBalancer, Failure, DescribeServicesOutput, EcsSdk, to_string,
  to_int,
}

-- service.ServiceTargetGroup
pub record ServiceTargetGroup : Type 0 where
  pub target_group_arn : String
  pub container_name : String
  pub container_port : Option ℕ

abbrev pub deployment_status : Deployment → DeploymentStatus
deployment_status d = record {
  status = to_string d.status;
  desired_count = d.desired_count;
  running_count = d.running_count;
  pending_count = d.pending_count;
  rollout_state = d.rollout_state;
}

-- The event's time, or the zero time.
abbrev pub service_event : Event → ServiceEvent
service_event e = record { message = to_string e.message; created_at = to_int e.created_at }

unfoldable pub to_service_status : String → String → Service → ServiceStatus
to_service_status cluster name svc = record {
  service_name = name;
  cluster_name = cluster;
  ecs_service_name = name;
  status = to_string svc.status;
  desired_count = svc.desired_count;
  running_count = svc.running_count;
  pending_count = svc.pending_count;
  task_definition = to_string svc.task_definition;
  deployments = map deployment_status svc.deployments;
  events = map service_event svc.events;
}

unfoldable pub to_ecs_service_control_state : Service → EcsServiceControlState
to_ecs_service_control_state svc = record {
  ecs_service_name = to_string svc.service_name;
  desired_count = svc.desired_count;
  running_count = svc.running_count;
  pending_count = svc.pending_count;
  status = to_string svc.status;
}

abbrev service_deployment : Deployment → ServiceDeployment
service_deployment d = record {
  id = to_string d.id;
  status = to_string d.status;
  rollout_state = d.rollout_state;
  rollout_state_reason = to_string d.rollout_state_reason;
  task_definition = to_string d.task_definition;
  desired_count = d.desired_count;
  running_count = d.running_count;
  pending_count = d.pending_count;
  created_at = d.created_at;
  updated_at = d.updated_at;
}

-- The fields that the use case fills in are empty.
unfoldable pub map_service_to_redeploy_result : String → Service → ServiceRedeployResult
map_service_to_redeploy_result cluster svc = record {
  service_name = "";
  ecs_service_name = to_string svc.service_name;
  cluster_name = cluster;
  action = "";
  status = "";
  reason = "";
  desired_count = svc.desired_count;
  running_count = svc.running_count;
  pending_count = svc.pending_count;
  deployments = map service_deployment svc.deployments;
  message = "";
}

-- A target group for each load balancer that names one.
unfoldable pub target_groups_of : List LoadBalancer → List ServiceTargetGroup
target_groups_of [] = []
target_groups_of (lb ∷ balancers) =
    if str_eq (to_string lb.target_group_arn) ""
    then target_groups_of balancers
    else record {
      target_group_arn = to_string lb.target_group_arn;
      container_name = to_string lb.container_name;
      container_port = lb.container_port;
    }
      ∷ target_groups_of balancers

-- int32(n)
unfoldable pub int32 : ℕ → ℤ
int32 n = let low = n % 2 ^ 32 in if ltb low (2 ^ 31) then pos low else negsuc (2 ^ 32 - low - 1)

module _ {W : Type 0} (sdk : EcsSdk W) where
  abbrev pub required : Error → String → Exec W (Unit {0})
  required e name = if str_eq name "" then raise e else pure tt

  -- if clusterName == "" { ... }; if ecsServiceName == "" { ... }
  abbrev pub names_required : String → String → Exec W (Unit {0})
  names_required cluster name =
      required cluster_name_required cluster >> required ecs_service_name_required name

  abbrev pub first_service : String → List Service → Exec W Service
  first_service name [] = raise (ecs_service_not_found name)
  first_service name (svc ∷ services) = pure svc

  unfoldable pub describe_ecs_service : String → String → Exec W Service
  describe_ecs_service cluster name = do
    names_required cluster name
    out ← wrap (describe_ecs_service_failed name) (sdk.describe_services cluster (name ∷ []))
    first_service name out.services

  unfoldable pub describe_service : String → String → Exec W (Option ServiceStatus)
  unfolding describe_ecs_service to_service_status
  describe_service cluster name = do
    names_required cluster name
    svc ← describe_ecs_service cluster name
    pure (some (to_service_status cluster name svc))

  unfoldable pub get_service_target_groups : String → String → Exec W (List ServiceTargetGroup)
  unfolding describe_ecs_service target_groups_of
  get_service_target_groups cluster name = do
    svc ← describe_ecs_service cluster name
    pure (target_groups_of svc.load_balancers)

  abbrev first_target_group_arn : String → List LoadBalancer → Exec W String
  first_target_group_arn name [] = raise (no_load_balancer name)
  first_target_group_arn name (lb ∷ balancers) =
      if str_eq (to_string lb.target_group_arn) ""
      then raise (no_target_group_arn name)
      else pure (to_string lb.target_group_arn)

  unfoldable pub get_service_target_group_arn : String → String → Exec W String
  get_service_target_group_arn cluster name = do
    names_required cluster name
    out ← wrap describe_services_failed (sdk.describe_services cluster (name ∷ []))
    svc ← first_service name out.services
    first_target_group_arn name svc.load_balancers

  abbrev pub described : String → DescribeServicesOutput → List Failure → Exec W Service
  described name out (f ∷ failures) = raise (service_failure (to_string f.arn) (to_string f.reason))
  described name out [] = first_service name out.services

  unfoldable pub get_service_control_state : String → String → Exec W EcsServiceControlState
  unfolding to_ecs_service_control_state
  get_service_control_state cluster name = do
    out ← wrap state_not_described (sdk.describe_services cluster (name ∷ []))
    svc ← described name out out.failures
    pure (to_ecs_service_control_state svc)

  abbrev pub returned : Option Service → Exec W Service
  returned none = raise empty_service
  returned (some svc) = pure svc

  unfoldable pub update_service_desired_count : String → String → ℤ → Exec W EcsServiceControlState
  unfolding int32 to_ecs_service_control_state
  update_service_desired_count cluster name (negsuc n) = raise (negative_desired_count (negsuc n))
  update_service_desired_count cluster name (pos n) = do
    out ← wrap update_service_failed (sdk.set_desired_count cluster name (int32 n))
    svc ← returned out
    pure (to_ecs_service_control_state svc)

  unfoldable pub force_new_deployment : String → String → Exec W ServiceRedeployResult
  unfolding map_service_to_redeploy_result
  force_new_deployment cluster name = do
    out ← wrap redeploy_failed (sdk.force_new_deployment cluster name)
    svc ← returned out
    pure (map_service_to_redeploy_result cluster svc)
