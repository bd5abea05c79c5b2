-- ===== src/Aws/Health.antt =====
-- internal/adapters/aws behind internal/application/usecase/target_health_usecase.go: the health of a
-- service, asked of ECS and ELB.
use legacy_messenger_ecs_con.Base.{
  ◌≡◌, sym, ◌∙◌, String, true, List, [], ◌∷◌, map, All, Dict, lowers_to,
}
use legacy_messenger_ecs_con.Base.Results.{ok}
use legacy_messenger_ecs_con.Exec.{pure, ◌>>=◌}
use legacy_messenger_ecs_con.System.{ServiceDef}
use legacy_messenger_ecs_con.TargetHealth.{
  healthy, TargetGroupHealth, TargetHealthResponse, TargetPorts, get_target_health,
}
use legacy_messenger_ecs_con.TargetHealth.Status.{IsAllHealthy, get_target_health-Sound}
use legacy_messenger_ecs_con.Aws.Sdk.{EcsSdk, ElbSdk}
use legacy_messenger_ecs_con.Aws.Services.{ServiceTargetGroup, get_service_target_groups}
use legacy_messenger_ecs_con.Aws.Elb.{describe_target_health}
use legacy_messenger_ecs_con.Aws.Elb.Counts.{
  IsTallied, describe_target_health-IsTallied, tally-all, IsTallied-counted,
}

module _ {W : Type 0} (ecs : EcsSdk W) (elb : ElbSdk W) where
  -- The clients as the ports of the use case, which reads the ARNs of the groups.
  unfoldable pub target_ports : TargetPorts W
  target_ports = record {
    get_service_target_groups = λ cluster name. do
      groups ← get_service_target_groups ecs cluster name
      pure (map (λ (g : ServiceTargetGroup). g.target_group_arn) groups);
    describe_target_health = describe_target_health elb;
  }

abbrev pub IsServed : TargetGroupHealth → Type 0
IsServed tg = All (λ entry. lowers_to entry.state "healthy" ≡ true) tg.targets

served :
    (tgs : List TargetGroupHealth) → All IsTallied tgs → All IsAllHealthy tgs → All IsServed tgs
served [] t h = tt
served (tg ∷ tgs) (t, ts) (h, hs) =
    (tally-all "healthy" tg.targets (sym t.healthy_count ∙ h.0 ∙ t.total), served tgs ts hs)

-- Of the use case over the clients of ECS and ELB, whatever AWS answers: where the answer is HEALTHY, the
-- state of every target of every group in it is healthy in lower case.
pub get_target_health-IsServed :
    {W : Type 0} (ecs : EcsSdk W) (elb : ElbSdk W) (cluster_name : String)
    (registry : Dict ServiceDef) (s : String) (w : W) (response : TargetHealthResponse)
    → (get_target_health (target_ports ecs elb) cluster_name registry s w).0 ≡ ok response
    → response.overall_status ≡ healthy
    → All IsServed response.target_groups
unfolding target_ports
get_target_health-IsServed ecs elb cluster_name registry s w response e h =
    let sound =
      get_target_health-Sound (target_ports ecs elb) cluster_name registry IsTallied
        (describe_target_health-IsTallied elb) IsTallied-counted s w response e in
    served response.target_groups sound.0 (sound.1 h)
