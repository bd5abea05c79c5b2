-- ===== src/ServiceControl.antt =====
-- internal/application/usecase/service_scale_usecase.go and service_control_usecase.go: the requests of an
-- operator for a desired count and for a new deployment.
pub mod Requests
use legacy_messenger_ecs_con.Base.{
  ℕ, ℤ, pos, negsuc, String, Bool, true, false, not, ◌&&◌, ◌||◌, Option, none, some, List, [], ◌∷◌,
  Dict, lookup, str_eq, ltb, ◌==◌, if◌then◌else◌,
}
use legacy_messenger_ecs_con.Base.Results.{Result, ok, err, panic}
use legacy_messenger_ecs_con.Domain.{
  EcsServiceControlState, Error, invalid_desired_count, service_not_found, service_not_scalable,
  desired_count_out_of_range, not_registered, ecs_service_name_empty, cannot_redeploy,
  deployment_in_progress,
}
use legacy_messenger_ecs_con.Exec.{Exec, pure, raise, nil_dereference, ◌>>=◌, ◌>>◌}
use legacy_messenger_ecs_con.System.{ServiceDef, ServiceStatus, DeploymentStatus, EcsPort}

-- servicescale.ServiceScaleResult
pub record ServiceScaleResult : Type 0 where
  pub service_name : String
  pub ecs_service_name : String
  pub cluster_name : String
  pub previous_desired_count : ℕ
  pub desired_count : ℕ
  pub running_count : ℕ
  pub pending_count : ℕ
  pub status : String
  pub message : String

-- servicecontrol.ServiceDeployment
pub record ServiceDeployment : Type 0 where
  pub id : String
  pub status : String
  pub rollout_state : String
  pub rollout_state_reason : String
  pub task_definition : String
  pub desired_count : ℕ
  pub running_count : ℕ
  pub pending_count : ℕ
  pub created_at : Option ℕ
  pub updated_at : Option ℕ

-- servicecontrol.ServiceRedeployResult
pub record ServiceRedeployResult : Type 0 where
  pub service_name : String
  pub ecs_service_name : String
  pub cluster_name : String
  pub action : String
  pub status : String
  pub reason : String
  pub desired_count : ℕ
  pub running_count : ℕ
  pub pending_count : ℕ
  pub deployments : List ServiceDeployment
  pub message : String

unfoldable pub has_deployment_in_progress : List DeploymentStatus → Bool
has_deployment_in_progress [] = false
has_deployment_in_progress (d ∷ deployments) =
    if str_eq d.status "PRIMARY" && str_eq d.rollout_state "IN_PROGRESS"
    then true
    else if str_eq d.status "ACTIVE"
    then true
    else has_deployment_in_progress deployments

module _ {W : Type 0} (ecs_port : EcsPort W) (cluster_name : String)
    (registry : Dict ServiceDef) where
  abbrev scale_result :
      String
      → String
      → ServiceDef
      → String
      → EcsServiceControlState
      → EcsServiceControlState
      → ServiceScaleResult
  scale_result status message def s before after = record {
    service_name = s;
    ecs_service_name = def.ecs_service_name;
    cluster_name = cluster_name;
    previous_desired_count = before.desired_count;
    desired_count = after.desired_count;
    running_count = after.running_count;
    pending_count = after.pending_count;
    status = status;
    message = message;
  }

  abbrev pub scale_registered : String → ℕ → Option ServiceDef → Exec W ServiceScaleResult
  scale_registered s desired none = raise (service_not_found s)
  scale_registered s desired (some def) =
      if not def.scalable
      then raise (service_not_scalable s)
      else if ltb desired def.min_count || ltb def.max_count desired
      then raise (desired_count_out_of_range (pos desired) def.min_count def.max_count)
      else do
        before ← ecs_port.get_service_control_state cluster_name def.ecs_service_name
        if before.desired_count == desired
            then pure (scale_result "NOOP" "desiredCount is already set" def s before before)
            else do
              after ←
                  ecs_port.update_service_desired_count cluster_name def.ecs_service_name desired
              pure (scale_result "SCALING_REQUESTED" "scale request accepted" def s before after)

  unfoldable pub update_service_desird_count : String → ℤ → Exec W ServiceScaleResult
  update_service_desird_count s (negsuc n) = raise invalid_desired_count
  update_service_desird_count s (pos desired) = scale_registered s desired (lookup s registry)

  module _ (force_new_deployment : String → String → Exec W ServiceRedeployResult) where
    abbrev pub redeploy_described :
        String → String → ServiceDef → Option ServiceStatus → Exec W ServiceRedeployResult
    redeploy_described s reason def none = nil_dereference
    redeploy_described s reason def (some before) =
        if before.desired_count == 0
        then raise (cannot_redeploy s)
        else if has_deployment_in_progress before.deployments
        then raise (deployment_in_progress s)
        else do
          result ← force_new_deployment cluster_name def.ecs_service_name
          pure (record result {
            service_name = s;
            ecs_service_name = def.ecs_service_name;
            cluster_name = cluster_name;
            action = "REDEPLOY";
            status = "STARTED";
            reason = reason;
            message = "force new deployment requested";
          })

    abbrev pub redeploy_registered :
        String → String → Option ServiceDef → Exec W ServiceRedeployResult
    redeploy_registered s reason none = raise (not_registered s)
    redeploy_registered s reason (some def) =
        if str_eq def.ecs_service_name "" then raise (ecs_service_name_empty s) else do
          before ← ecs_port.describe_service cluster_name def.ecs_service_name
          redeploy_described s reason def before

    unfoldable pub service_redeploy : String → String → Exec W ServiceRedeployResult
    unfolding has_deployment_in_progress
    service_redeploy s reason = redeploy_registered s reason (lookup s registry)
