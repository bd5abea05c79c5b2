-- ===== src/Observation/Listed.antt =====
-- internal/application/usecase/service_observation_usecase.go: the list has each registered service once, and
-- the in-memory ECS gives no status.
use legacy_messenger_ecs_con.Base.{
  ◌≡◌, ap, ◌∙◌, String, Option, none, some, List, [], ◌∷◌, ◌++◌, map, Dict, str_eq,
}
use mathlib.Core.List.{append_assoc, append-nil, map-append}
use legacy_messenger_ecs_con.Base.Results.{ok}
use legacy_messenger_ecs_con.Domain.{cluster_name_required, list_failed}
use legacy_messenger_ecs_con.Exec.{Exec, ◌>>=◌}
use legacy_messenger_ecs_con.Exec.Inversion.{bind_ok, bind_wrap_ok, guard_ok, pure_ok, nil_ok}
use legacy_messenger_ecs_con.System.{ServiceDef, ServiceStatus}
use legacy_messenger_ecs_con.Observation.{
  ServiceList, described, entry, list_services, get_service_list,
}

abbrev pub listed_names : List ServiceList → List (String × String)
listed_names services = map (λ (x : ServiceList). (x.service_name, x.ecs_service_name)) services

abbrev pub registered_names : Dict ServiceDef → List (String × String)
registered_names registry =
    map (λ (e : String × ServiceDef). (e.0, (e.1).ecs_service_name)) registry

module _ {W : Type 0} (describe_service : String → String → Exec W (Option ServiceStatus))
    (cluster_name : String) (registry : Dict ServiceDef) where
  described_ok :
      (o : Option ServiceStatus) (w : W) (status : ServiceStatus)
      → (described describe_service cluster_name registry o w).0 ≡ ok status
      → o ≡ some status
  described_ok none w status e = absurd (nil_ok w status e)
  described_ok (some x) w status e = ap (λ (y : ServiceStatus). some y) (pure_ok x status w e)

  list_services-names :
      (services : List ServiceList) (defs : Dict ServiceDef) (w : W) (result : List ServiceList)
      → (list_services describe_service cluster_name registry services defs w).0 ≡ ok result
      → listed_names result ≡ listed_names services ++ registered_names defs
  unfolding list_services
  list_services-names services [] w result e = simp (← pure_ok services result w e, append-nil)
  list_services-names services ((s, def) ∷ defs) w result e =
      let more = λ (status : ServiceStatus).
        list_services describe_service cluster_name registry
          (services ++ (entry describe_service cluster_name registry s def status ∷ [])) defs in
      let ask = describe_service cluster_name def.ecs_service_name in
      let (o, asked, rest) =
        bind_wrap_ok (list_failed def.ecs_service_name) ask
          (λ o. described describe_service cluster_name registry o >>= more) w result e in
      let (status, known, left) =
        bind_ok (described describe_service cluster_name registry o) more (ask w).1 result rest in
      list_services-names
        (services ++ (entry describe_service cluster_name registry s def status ∷ [])) defs _ result
        left
      ∙ simp (map-append, append_assoc)

  -- Whatever ECS answers: a list that GetServiceList returns has one entry for each registered service, in the
  -- order in which the registry is read, under its name and its name in ECS.
  get_service_list-names :
      (w : W) (result : List ServiceList)
      → (get_service_list describe_service cluster_name registry w).0 ≡ ok result
      → listed_names result ≡ registered_names registry
  unfolding get_service_list
  get_service_list-names w result e =
      let (named, listed) =
        guard_ok (str_eq cluster_name "") cluster_name_required
          (list_services describe_service cluster_name registry [] registry) w result e in
      list_services-names [] registry w result listed
