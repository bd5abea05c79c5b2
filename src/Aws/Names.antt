-- ===== src/Aws/Names.antt =====
-- internal/adapters/aws: the names that are cut out of an ARN.
pub mod Ids
use legacy_messenger_ecs_con.Base.{
  ℕ, suc, ◌+◌, ◌≡◌, refl, ap, sym, String, Option, none, some, List, [], ◌∷◌, ◌==◌, if◌then◌else◌,
  Bool, true, false, Bool-cases, Option-cases, inl, inr, str_eq, str_eq_iff, arith, split, last,
  text_length, text_from, last_index, index,
}
use legacy_messenger_ecs_con.Base.Results.{Result, ok, err}
use legacy_messenger_ecs_con.Domain.{Error, invalid_load_balancer_arn}
use Prim.Native.Char.{Char, code}

-- ecs_client.go: extractID.
unfoldable pub extract_id : String → String
unfolding split last
extract_id arn = if str_eq arn "" then "" else last (split b'/' arn)

abbrev after_slash : String → Option ℕ → String
after_slash arn none = arn
after_slash arn (some i) = if suc i == text_length arn then arn else text_from (suc i) arn

-- ecs_client.go: extractTaskID.
unfoldable pub extract_task_id : String → String
unfolding last_index text_length text_from
extract_task_id arn = after_slash arn (last_index b'/' arn)

abbrev second : List String → String
second [] = ""
second (part ∷ []) = ""
second (part ∷ next ∷ parts) = next

-- elb_client.go: extractTargetGroupName.
unfoldable pub extract_target_group_name : String → String
unfolding split last
extract_target_group_name arn = second (split b'/' (last (split b':' arn)))

abbrev pub marker : String
marker = ":loadbalancer/"

abbrev after_marker : String → Option ℕ → Result Error String
after_marker arn none = err (invalid_load_balancer_arn arn)
after_marker arn (some i) = ok (text_from (i + text_length marker) arn)

-- cloud_watch_client.go: extractLoadBalancerDimension.
unfoldable pub extract_load_balancer_dimension : String → Result Error String
unfolding index text_length text_from
extract_load_balancer_dimension arn = after_marker arn (index marker arn)
