-- ===== src/Tests/Cloud.antt =====
-- Clients of AWS, Redis and the agents that answer for a service with two running tasks, of which ListTasks
-- names one on a page, and one healthy and one draining target.
use legacy_messenger_ecs_con.Base.{String, Option, none, some, List, [], ◌∷◌, map}
use legacy_messenger_ecs_con.Base.Results.{ok}
use legacy_messenger_ecs_con.Floats.Exact.{Fraction, fractions}
use legacy_messenger_ecs_con.Exec.{Exec}
use legacy_messenger_ecs_con.Store.{Redis, Codec}
use legacy_messenger_ecs_con.Aws.Sdk.{
  EcsSdk, ElbSdk, Ec2Sdk, CloudWatchSdk, Datapoint, Task, Service, ListTasksOutput,
  TargetHealthDescription,
}
use legacy_messenger_ecs_con.Agents.{HttpClient}
use legacy_messenger_ecs_con.Production.{Libraries}
use legacy_messenger_ecs_con.Tests.Sample.{World, sessions}

abbrev pub task_of : String → Task
task_of arn = record {
  task_arn = some arn;
  task_definition_arn = some "td/chat";
  last_status = some "RUNNING";
  desired_status = some "RUNNING";
  health_status = "HEALTHY";
  launch_type = "EC2";
  availability_zone = none;
  container_instance_arn = some "ci";
  capacity_provider_name = none;
  created_at = none;
  started_at = none;
  stopping_at = none;
  stopped_at = none;
  stop_code = "";
  stopped_reason = none;
  attachments = [];
  containers =
      record {
        name = some "chat";
        last_status = some "RUNNING";
        health_status = "HEALTHY";
        image = none;
        runtime_id = none;
        reason = none;
        exit_code = none;
        network_bindings =
            record {
              bind_ip = none;
              container_port = some 33002;
              host_port = some 32768;
              protocol = "tcp";
            }
            ∷ [];
        network_interfaces = [];
      }
      ∷ [];
}

abbrev pub chat_service : Service
chat_service = record {
  service_name = some "chat-ecs";
  status = some "ACTIVE";
  desired_count = 2;
  running_count = 2;
  pending_count = 0;
  task_definition = none;
  deployments = [];
  events = [];
  load_balancers =
      record { target_group_arn = some "tg"; container_name = none; container_port = none } ∷ [];
}

abbrev pub first_page : ListTasksOutput
first_page = record { task_arns = "arn/main/a" ∷ []; next_token = some "next" }

abbrev pub last_page : ListTasksOutput
last_page = record { task_arns = "arn/main/b" ∷ []; next_token = none }

abbrev page : Option String → ListTasksOutput
page none = first_page
page (some token) = last_page

abbrev answer : {A : Type 0} → A → Exec World A
answer a w = (ok a, w)

abbrev pub cloud : EcsSdk World
cloud = record {
  describe_services = λ c names. answer (record { services = chat_service ∷ []; failures = [] });
  list_tasks = λ c name d token. answer (page token);
  describe_tasks = λ c arns. answer (record { tasks = map task_of arns; failures = [] });
  set_desired_count = λ c name n. answer (some chat_service);
  force_new_deployment = λ c name. answer (some chat_service);
  update_task_protection = λ c ids b. answer [];
  describe_container_instances = λ c arns. answer (some "i-1" ∷ []);
}

abbrev pub instances : Ec2Sdk World
instances = record { describe_instances = λ ids. answer ((some "10.0.0.7" ∷ []) ∷ []) }

abbrev target_in : String → TargetHealthDescription
target_in state = record {
  target = some (record { id = some "i-1"; port = some 32768; availability_zone = none });
  target_health = some (record { state = state; reason = ""; description = none });
}

abbrev pub balancers_with : List TargetHealthDescription → ElbSdk World
balancers_with targets = record {
  describe_target_health = λ arn. answer targets;
  describe_target_groups = λ arns. answer ((("arn:loadbalancer/app/chat") ∷ []) ∷ []);
}

-- One target is healthy, one drains.
abbrev pub balancers : ElbSdk World
balancers = balancers_with (target_in "Healthy" ∷ target_in "draining" ∷ [])

abbrev pub well : ElbSdk World
well = balancers_with (target_in "healthy" ∷ target_in "Healthy" ∷ [])

abbrev pub datapoints : List (Datapoint Fraction)
datapoints =
    record { timestamp = some 5; average = some (fractions.of_int 300) }
    ∷ record { timestamp = some 2; average = some (fractions.of_int 100) }
    ∷ []

abbrev pub metrics : CloudWatchSdk World Fraction
metrics = record {
  get_metric_statistics = λ dimension start end_time period. answer datapoints;
  time_now = λ w. w.time;
}

abbrev pub agents : HttpClient World
agents = record {
  new_request = λ request. answer request;
  send = λ request. answer (record { status_code = 200; body = some "" });
}

abbrev store : Redis World
store = record {
  tx_pipelined = λ commands. answer tt;
  tx_h_get_all = λ key. answer (ok []);
  z_range_by_score_with_scores = λ key range. answer [];
  z_score = λ key member. answer none;
}

abbrev codec : Codec
codec = record {
  marshal = λ value. ok "";
  unmarshal = λ value. ok (sessions 0);
  format_int = λ n. "";
}

abbrev pub libraries : Libraries World
libraries = record {
  ecs = cloud;
  ec2 = instances;
  redis = store;
  json = codec;
  http = agents;
  time_now = λ w. w.time;
}
