-- ===== src/Tests/Operator.antt =====
-- The request of an operator for a new deployment.
use legacy_messenger_ecs_con.Base.{refl, String, some, [], ◌∷◌, Dict, lookup}
use legacy_messenger_ecs_con.Base.Results.{ok}
use legacy_messenger_ecs_con.Exec.{Exec, pure, ◌>>=◌}
use legacy_messenger_ecs_con.System.{ServiceDef, EcsPort}
use legacy_messenger_ecs_con.ServiceControl.{
  ServiceRedeployResult, service_redeploy, has_deployment_in_progress,
}
use legacy_messenger_ecs_con.ServiceControl.Requests.{Ready, service_redeploy-Ready}
use legacy_messenger_ecs_con.Tests.Sample.{World, quiet, chat, ecs}

abbrev registry : Dict ServiceDef
registry = ("chat", chat) ∷ []

-- ECS describes the service.
abbrev described : EcsPort World
described = record ecs {
  describe_service = λ c s w. (
    ok (
        some (record {
          service_name = "chat";
          cluster_name = "main";
          ecs_service_name = "chat-ecs";
          status = "ACTIVE";
          desired_count = 3;
          running_count = 3;
          pending_count = 0;
          task_definition = "chat:1";
          deployments = [];
          events = [];
        })),
    w,
  );
}

abbrev redeployed : ServiceRedeployResult
redeployed = record {
  service_name = "chat";
  ecs_service_name = "chat-ecs";
  cluster_name = "main";
  action = "REDEPLOY";
  status = "STARTED";
  reason = "new image";
  desired_count = 3;
  running_count = 3;
  pending_count = 0;
  deployments = [];
  message = "force new deployment requested";
}

abbrev force : String → String → Exec World ServiceRedeployResult
force cluster s w = (ok redeployed, w)

service_redeploy-Ready_example : Ready described "main" registry force "chat" quiet
unfolding lookup service_redeploy has_deployment_in_progress ◌>>=◌ pure
service_redeploy-Ready_example =
    service_redeploy-Ready described "main" registry force "chat" "new image" quiet redeployed refl
