-- ===== src/Aws/Elb.antt =====
-- internal/adapters/aws/elb_client.go: the health of the targets of a group, and the load balancer of a
-- group.
pub mod Counts
use legacy_messenger_ecs_con.Base.{
  ℕ, suc, String, Option, none, some, List, [], ◌∷◌, ◌++◌, str_eq, if◌then◌else◌, lowers_to,
}
use legacy_messenger_ecs_con.Domain.{
  Error, target_group_arn_required, target_health_failed, target_groups_failed,
  target_group_not_found, load_balancer_not_found,
}
use legacy_messenger_ecs_con.Exec.{Exec, pure, raise, wrap, nil_dereference, ◌>>=◌}
use legacy_messenger_ecs_con.TargetHealth.{TargetHealthEntry, TargetGroupHealth}
use legacy_messenger_ecs_con.Aws.Sdk.{
  TargetDescription, TargetHealth, TargetHealthDescription, ElbSdk, to_string, to_int,
}
use legacy_messenger_ecs_con.Aws.Names.{extract_target_group_name}

-- The switch over the state in lower case. Another state is counted in the total only.
unfoldable pub increase_target_group_health_count : TargetGroupHealth → String → TargetGroupHealth
unfolding lowers_to
increase_target_group_health_count group state =
    let tg = record group { total = suc group.total } in
    if lowers_to state "healthy"
    then record tg { healthy_count = suc tg.healthy_count }
    else if lowers_to state "unhealthy"
    then record tg { unhealthy = suc tg.unhealthy }
    else if lowers_to state "initial"
    then record tg { initial = suc tg.initial }
    else if lowers_to state "draining"
    then record tg { draining = suc tg.draining }
    else if lowers_to state "unused"
    then record tg { unused = suc tg.unused }
    else if lowers_to state "unavailable"
    then record tg { unavailable = suc tg.unavailable }
    else tg

abbrev pub entry_of : TargetDescription → Option TargetHealth → TargetHealthEntry
entry_of target none = record {
  target_id = to_string target.id;
  port = to_int target.port;
  availability_zone = to_string target.availability_zone;
  state = "";
  reason = "";
  description = "";
}
entry_of target (some health) = record {
  target_id = to_string target.id;
  port = to_int target.port;
  availability_zone = to_string target.availability_zone;
  state = health.state;
  reason = health.reason;
  description = to_string health.description;
}

unfoldable pub add_entry : TargetGroupHealth → TargetHealthEntry → TargetGroupHealth
add_entry group entry =
    increase_target_group_health_count (record group { targets = group.targets ++ (entry ∷ []) })
      entry.state

abbrev pub empty_group : String → String → TargetGroupHealth
empty_group arn balancer = record {
  target_group_arn = arn;
  target_group_name = extract_target_group_name arn;
  load_balancer_type = balancer;
  total = 0;
  healthy_count = 0;
  unhealthy = 0;
  initial = 0;
  draining = 0;
  unused = 0;
  unavailable = 0;
  targets = [];
}

module _ {W : Type 0} (sdk : ElbSdk W) where
  abbrev target_or_nil : Option TargetDescription → Exec W TargetDescription
  target_or_nil none = nil_dereference
  target_or_nil (some target) = pure target

  -- The loop over the descriptions.
  unfoldable pub add_targets :
      TargetGroupHealth → List TargetHealthDescription → Exec W TargetGroupHealth
  unfolding add_entry increase_target_group_health_count
  add_targets group [] = pure group
  add_targets group (desc ∷ descs) = do
    target ← target_or_nil desc.target
    add_targets (add_entry group (entry_of target desc.target_health)) descs

  unfoldable pub describe_target_health : String → String → Exec W (Option TargetGroupHealth)
  unfolding add_targets
  describe_target_health arn balancer =
      if str_eq arn "" then raise target_group_arn_required else do
        descs ← wrap (target_health_failed arn) (sdk.describe_target_health arn)
        group ← add_targets (empty_group arn balancer) descs
        pure (some group)

  abbrev first_arn : String → List String → Exec W String
  first_arn arn [] = raise (load_balancer_not_found arn)
  first_arn arn (balancer ∷ balancers) = pure balancer

  abbrev first_group : String → List (List String) → Exec W String
  first_group arn [] = raise (target_group_not_found arn)
  first_group arn (balancers ∷ groups) = first_arn arn balancers

  unfoldable pub get_load_balancer_arn_by_target_group_arn : String → Exec W String
  get_load_balancer_arn_by_target_group_arn arn =
      if str_eq arn "" then raise target_group_arn_required else do
        groups ← wrap target_groups_failed (sdk.describe_target_groups (arn ∷ []))
        first_group arn groups
