-- ===== src/Observation.antt =====
-- internal/application/usecase/service_observation_usecase.go and task_observation_usecase.go: the status of
-- the services and the tasks that are shown.
pub mod Listed
use legacy_messenger_ecs_con.Base.{
  String, Option, none, some, List, [], ◌∷◌, ◌++◌, Dict, lookup, str_eq, if◌then◌else◌,
}
use legacy_messenger_ecs_con.Domain.{
  Error, service_not_found, ecs_service_name_empty, cluster_name_required, list_failed,
}
use legacy_messenger_ecs_con.Exec.{Exec, pure, raise, wrap, nil_dereference, ◌>>=◌}
use legacy_messenger_ecs_con.System.{ServiceDef, ServiceStatus, DeploymentStatus}

-- service.ServiceList
pub record ServiceList : Type 0 where
  pub service_name : String
  pub ecs_service_name : String
  pub status : String
  pub deployments : List DeploymentStatus

module _ {W : Type 0} (describe_service : String → String → Exec W (Option ServiceStatus))
    (cluster_name : String) (registry : Dict ServiceDef) where
  abbrev pub described : Option ServiceStatus → Exec W ServiceStatus
  described none = nil_dereference
  described (some status) = pure status

  abbrev named : String → ServiceDef → ServiceStatus → ServiceStatus
  named s def status = record status { service_name = s; ecs_service_name = def.ecs_service_name }

  abbrev pub status_registered : String → Option ServiceDef → Exec W ServiceStatus
  status_registered s none = raise (service_not_found s)
  status_registered s (some def) =
      if str_eq def.ecs_service_name "" then raise (ecs_service_name_empty s) else do
        result ← describe_service cluster_name def.ecs_service_name
        status ← described result
        pure (named s def status)

  unfoldable pub get_service_status : String → Exec W ServiceStatus
  get_service_status s = status_registered s (lookup s registry)

  abbrev pub entry : String → ServiceDef → ServiceStatus → ServiceList
  entry s def status = record {
    service_name = s;
    ecs_service_name = def.ecs_service_name;
    status = status.status;
    deployments = status.deployments;
  }

  -- The loop over the registry, with the list so far. Go leaves the order open.
  unfoldable pub list_services : List ServiceList → Dict ServiceDef → Exec W (List ServiceList)
  list_services services [] = pure services
  list_services services ((s, def) ∷ defs) = do
    result ←
        wrap (list_failed def.ecs_service_name) (describe_service cluster_name def.ecs_service_name)
    status ← described result
    list_services (services ++ (entry s def status ∷ [])) defs

  unfoldable pub get_service_list : Exec W (List ServiceList)
  unfolding list_services
  get_service_list =
      if str_eq cluster_name "" then raise cluster_name_required else list_services [] registry

-- ECSPort.DescribeTasks, whatever the tasks are.
module _ {W A : Type 0} (describe_tasks : String → String → String → Exec W (List A))
    (cluster_name : String) (registry : Dict ServiceDef) where
  abbrev tasks_registered : String → String → Option ServiceDef → Exec W (List A)
  tasks_registered s desired none = raise (service_not_found s)
  tasks_registered s desired (some def) =
      if str_eq def.ecs_service_name ""
      then raise (ecs_service_name_empty s)
      else describe_tasks cluster_name def.ecs_service_name desired

  unfoldable pub get_task_status : String → String → Exec W (List A)
  get_task_status s desired = tasks_registered s desired (lookup s registry)
