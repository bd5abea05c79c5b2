-- ===== src/Tests/Requests.antt =====
-- The clients of AWS and of the agents on the answers of `Cloud`.
use legacy_messenger_ecs_con.Base.{◌≡◌, refl, none, [], ◌∷◌, map, str_eq, if◌then◌else◌, arith}
use legacy_messenger_ecs_con.Base.Results.{ok}
use legacy_messenger_ecs_con.Exec.{◌>>=◌}
use legacy_messenger_ecs_con.TargetHealth.{TargetGroupHealth}
use legacy_messenger_ecs_con.Aws.Names.{extract_id, extract_task_id, extract_target_group_name}
use legacy_messenger_ecs_con.Aws.Names.Ids.{extract_task_id-extract_id}
use legacy_messenger_ecs_con.Aws.Tasks.{get_running_task_ids, running_ids}
use legacy_messenger_ecs_con.Aws.Tasks.Running.{Pages, final, more, get_running_task_ids-all}
use legacy_messenger_ecs_con.Aws.Elb.{describe_target_health}
use legacy_messenger_ecs_con.Aws.Elb.Counts.{IsTallied, describe_target_health-IsTallied}
use legacy_messenger_ecs_con.Tests.Sample.{quiet}
use legacy_messenger_ecs_con.Tests.Cloud.{task_of, cloud, first_page, last_page, balancers}

two-Pages : Pages cloud "main" "chat-ecs" quiet none ("arn/main/a" ∷ "arn/main/b" ∷ []) 2
two-Pages = more first_page refl refl (final last_page refl refl)

get_running_task_ids-all_example :
    get_running_task_ids cloud 5 "main" "chat-ecs" quiet
    ≡ (ok (running_ids (map task_of ("arn/main/a" ∷ "arn/main/b" ∷ []))), quiet)
get_running_task_ids-all_example =
    get_running_task_ids-all cloud "main" "chat-ecs" quiet task_of (λ arns p q. refl)
      ("arn/main/a" ∷ "arn/main/b" ∷ []) 2 5 refl refl two-Pages (omega arith)

-- The ids of both pages.
both_run : running_ids (map task_of ("arn/main/a" ∷ "arn/main/b" ∷ [])) ≡ "a" ∷ "b" ∷ []
unfolding running_ids extract_id
both_run = refl

extract_task_id-extract_id_example :
    extract_task_id "arn/main/"
    ≡ (if str_eq (extract_id "arn/main/") "" then "arn/main/" else extract_id "arn/main/")
extract_task_id-extract_id_example = extract_task_id-extract_id "arn/main/"

-- One of the two targets is healthy.
abbrev counted : TargetGroupHealth
counted = record {
  target_group_arn = "a:targetgroup/chat/1";
  target_group_name = "chat";
  load_balancer_type = "alb";
  total = 2;
  healthy_count = 1;
  unhealthy = 0;
  initial = 0;
  draining = 1;
  unused = 0;
  unavailable = 0;
  targets =
      record {
        target_id = "i-1";
        port = 32768;
        availability_zone = "";
        state = "Healthy";
        reason = "";
        description = "";
      }
      ∷ record {
        target_id = "i-1";
        port = 32768;
        availability_zone = "";
        state = "draining";
        reason = "";
        description = "";
      }
      ∷ [];
}

describe_target_health-IsTallied_example : IsTallied counted
unfolding describe_target_health ◌>>=◌ extract_target_group_name
describe_target_health-IsTallied_example =
    describe_target_health-IsTallied balancers "a:targetgroup/chat/1" "alb" quiet counted refl
