-- ===== src/TargetHealth.antt =====
-- internal/application/usecase/target_health_usecase.go: the health of the targets of a service, over the
-- target groups that ECS names and ELB describes.
pub mod Status
use legacy_messenger_ecs_con.Base.{
  ℕ, ◌+◌, String, Bool, true, false, ◌||◌, Option, none, some, List, [], ◌∷◌, ◌++◌, Dict, lookup,
  ltb, ◌==◌, if◌then◌else◌,
}
use legacy_messenger_ecs_con.Base.Results.{Result, ok, err, panic}
use legacy_messenger_ecs_con.Domain.{Error, service_not_found}
use legacy_messenger_ecs_con.Exec.{Exec, pure, raise, nil_dereference, ◌>>=◌, ◌>>◌}
use legacy_messenger_ecs_con.System.{ServiceDef}

pub data TargetHealthOverallStatus : Type 0 where
  healthy degraded transitioning unknown : TargetHealthOverallStatus

-- targethealth.TargetHealthEntry
pub record TargetHealthEntry : Type 0 where
  pub target_id : String
  pub port : ℕ
  pub availability_zone : String
  pub state : String
  pub reason : String
  pub description : String

-- targethealth.TargetGroupHealth
pub record TargetGroupHealth : Type 0 where
  pub target_group_arn : String
  pub target_group_name : String
  pub load_balancer_type : String
  pub total : ℕ
  pub healthy_count : ℕ
  pub unhealthy : ℕ
  pub initial : ℕ
  pub draining : ℕ
  pub unused : ℕ
  pub unavailable : ℕ
  pub targets : List TargetHealthEntry

pub record TargetHealthSummary : Type 0 where
  pub total : ℕ
  pub healthy_count : ℕ
  pub unhealthy : ℕ
  pub initial : ℕ
  pub draining : ℕ
  pub unused : ℕ
  pub unavailable : ℕ

pub record TargetHealthResponse : Type 0 where
  pub service_name : String
  pub ecs_service_name : String
  pub cluster_name : String
  pub overall_status : TargetHealthOverallStatus
  pub summary : TargetHealthSummary
  pub target_groups : List TargetGroupHealth

-- What the use case calls of ports.ECSPort and ports.ELBPort. ELB returns a pointer.
pub record TargetPorts (W : Type 0) : Type 0 where
  pub get_service_target_groups : String → String → Exec W (List String)
  pub describe_target_health : String → String → Exec W (Option TargetGroupHealth)

abbrev pub no_targets : TargetHealthSummary
no_targets = record {
  total = 0;
  healthy_count = 0;
  unhealthy = 0;
  initial = 0;
  draining = 0;
  unused = 0;
  unavailable = 0;
}

unfoldable pub add_summary : TargetHealthSummary → TargetGroupHealth → TargetHealthSummary
add_summary summary tg = record {
  total = summary.total + tg.total;
  healthy_count = summary.healthy_count + tg.healthy_count;
  unhealthy = summary.unhealthy + tg.unhealthy;
  initial = summary.initial + tg.initial;
  draining = summary.draining + tg.draining;
  unused = summary.unused + tg.unused;
  unavailable = summary.unavailable + tg.unavailable;
}

unfoldable pub evaluate_overall_status : TargetHealthSummary → TargetHealthOverallStatus
evaluate_overall_status summary =
    if summary.total == 0
    then unknown
    else if ltb 0 summary.unhealthy || ltb 0 summary.unavailable
    then degraded
    else if summary.healthy_count == summary.total
    then healthy
    else if ltb 0 summary.initial || ltb 0 summary.draining
    then transitioning
    else degraded

module _ {W : Type 0} (ports : TargetPorts W) (cluster_name : String)
    (registry : Dict ServiceDef) where
  abbrev group_or_nil : Option TargetGroupHealth → Exec W TargetGroupHealth
  group_or_nil none = nil_dereference
  group_or_nil (some tg) = pure tg

  -- The loop over the target groups, with the groups and the summary so far.
  unfoldable pub add_groups :
      String
      → List TargetGroupHealth
      → TargetHealthSummary
      → List String
      → Exec W (List TargetGroupHealth × TargetHealthSummary)
  unfolding add_summary
  add_groups balancer groups summary [] = pure (groups, summary)
  add_groups balancer groups summary (arn ∷ arns) = do
    described ← ports.describe_target_health arn balancer
    tg ← group_or_nil described
    add_groups balancer (groups ++ (tg ∷ [])) (add_summary summary tg) arns

  abbrev respond :
      String
      → ServiceDef
      → TargetHealthOverallStatus
      → List TargetGroupHealth × TargetHealthSummary
      → TargetHealthResponse
  respond s def status (groups, summary) = record {
    service_name = s;
    ecs_service_name = def.ecs_service_name;
    cluster_name = cluster_name;
    overall_status = status;
    summary = summary;
    target_groups = groups;
  }

  unfoldable pub respond_to : String → ServiceDef → List String → Exec W TargetHealthResponse
  unfolding add_groups evaluate_overall_status
  respond_to s def [] = pure (respond s def unknown ([], no_targets))
  respond_to s def (arn ∷ arns) = do
    counted ← add_groups def.load_balancer_type [] no_targets (arn ∷ arns)
    pure (respond s def (evaluate_overall_status counted.1) counted)

  abbrev pub health_registered : String → Option ServiceDef → Exec W TargetHealthResponse
  health_registered s none = raise (service_not_found s)
  health_registered s (some def) = do
    target_groups ← ports.get_service_target_groups cluster_name def.ecs_service_name
    respond_to s def target_groups

  unfoldable pub get_target_health : String → Exec W TargetHealthResponse
  unfolding respond_to
  get_target_health s = health_registered s (lookup s registry)
