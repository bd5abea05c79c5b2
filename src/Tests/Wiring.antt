-- ===== src/Tests/Wiring.antt =====
-- The scale-in over the clients of production, and the drain and the health over those of AWS.
use legacy_messenger_ecs_con.Base.{◌≡◌, refl, ap, arith, String, none, [], ◌∷◌, All, lookup}
use legacy_messenger_ecs_con.Base.Results.{ok, err}
use legacy_messenger_ecs_con.Domain.{Error, draining}
use legacy_messenger_ecs_con.Exec.{◌>>=◌}
use legacy_messenger_ecs_con.Exec.Alive.{Alive}
use legacy_messenger_ecs_con.Exec.Inversion.{or_else}
use legacy_messenger_ecs_con.Aws.Tasks.Running.{Ends}
use legacy_messenger_ecs_con.TargetHealth.{
  healthy, TargetHealthEntry, TargetHealthResponse, get_target_health,
}
use legacy_messenger_ecs_con.ScaleIn.{process}
use legacy_messenger_ecs_con.FakeEcs.{Outside, EcsClient, new_ecs_client}
use legacy_messenger_ecs_con.Aws.Names.{extract_task_id, extract_target_group_name}
use legacy_messenger_ecs_con.Aws.Services.{get_service_target_groups}
use legacy_messenger_ecs_con.Aws.Tasks.{describe_task, get_container_instance_ec2_id}
use legacy_messenger_ecs_con.Aws.Elb.{describe_target_health}
use legacy_messenger_ecs_con.Aws.Health.{target_ports, IsServed, get_target_health-IsServed}
use legacy_messenger_ecs_con.Endpoint.{aws_ports, get_private_ip, resolve_task_endpoint}
use legacy_messenger_ecs_con.Endpoint.Memory.{memory_ports, request_drain-refused}
use legacy_messenger_ecs_con.Endpoint.Resolved.{Located}
use legacy_messenger_ecs_con.Agents.{HttpClient, drain_request, post, request_drain}
use legacy_messenger_ecs_con.Agents.Delivered.{Delivered, request_drain-Delivered}
use legacy_messenger_ecs_con.Production.{new_clients}
use legacy_messenger_ecs_con.Production.Adapters.{LibrariesAlive}
use legacy_messenger_ecs_con.Production.Returns.{process-over_libraries}
use legacy_messenger_ecs_con.Base.{str_append}
use legacy_messenger_ecs_con.Tests.Sample.{World, quiet, chat, config, job, with_job}
use legacy_messenger_ecs_con.Tests.Cloud.{
  first_page, last_page, cloud, instances, well, agents, libraries,
}

answers : {A : Type 0} (a : A) → Alive {S = World} (λ w. (ok a, w))
answers a = record { returns = λ w e. cc }

libraries-LibrariesAlive : LibrariesAlive libraries
libraries-LibrariesAlive = record {
  describe_services = λ c names. answers _;
  list_tasks = λ c name d token. answers _;
  describe_tasks = λ c arns. answers _;
  set_desired_count = λ c name n. answers _;
  update_task_protection = λ c ids b. answers _;
  describe_container_instances = λ c arns. answers _;
  describe_instances = λ ids. answers _;
  tx_pipelined = λ commands. answers _;
  tx_h_get_all = λ key. answers _;
  h_reply = λ key w reply e p. cc;
  z_range = λ key range. answers _;
  unmarshal = λ value e. cc;
  new_request = λ request. answers _;
  send = λ request. answers _;
}

-- ListTasks of `cloud` has two pages.
cloud-Ends : (c s : String) (w : World) → Ends libraries.ecs c s 5 none w
cloud-Ends c s w first e next second f more =
    let same : last_page ≡ second =
      ap (or_else last_page) (rw (← ap (or_else first_page) e) at f) in
    absurd (ground (arith, (rw (← same) at more)))

process-over_libraries_example :
    (process
      (new_clients libraries 5 (("chat", chat) ∷ []) "main" config)
      (with_job (job draining "a" 2 0))).0
    ≡ ok tt
process-over_libraries_example =
    process-over_libraries libraries 5 (("chat", chat) ∷ []) "main" config libraries-LibrariesAlive
      cloud-Ends (with_job (job draining "a" 2 0))

request_drain-Delivered_example :
    (endpoint : String) × Located cloud instances "main" 33002 "a" quiet endpoint
    × Delivered agents
        (post (str_append "http://" (str_append endpoint "/rest/drain")) (drain_request "a"))
        (resolve_task_endpoint (aws_ports cloud instances) "main" 33002 "chat" "a" quiet).1
unfolding request_drain resolve_task_endpoint aws_ports describe_task get_container_instance_ec2_id
    get_private_ip extract_task_id ◌>>=◌
request_drain-Delivered_example =
    request_drain-Delivered agents cloud instances "main" 33002 "chat" "a" quiet tt refl

abbrev target_in_state : String → TargetHealthEntry
target_in_state state = record {
  target_id = "i-1";
  port = 32768;
  availability_zone = "";
  state = state;
  reason = "";
  description = "";
}

-- The answer for the service "chat", whose two targets are healthy.
abbrev all_well : TargetHealthResponse
all_well = record {
  service_name = "chat";
  ecs_service_name = "chat-ecs";
  cluster_name = "main";
  overall_status = healthy;
  summary = record {
    total = 2;
    healthy_count = 2;
    unhealthy = 0;
    initial = 0;
    draining = 0;
    unused = 0;
    unavailable = 0;
  };
  target_groups =
      record {
        target_group_arn = "tg";
        target_group_name = "";
        load_balancer_type = "network";
        total = 2;
        healthy_count = 2;
        unhealthy = 0;
        initial = 0;
        draining = 0;
        unused = 0;
        unavailable = 0;
        targets = target_in_state "healthy" ∷ target_in_state "Healthy" ∷ [];
      }
      ∷ [];
}

get_target_health-IsServed_example : All IsServed all_well.target_groups
unfolding target_ports get_target_health get_service_target_groups describe_target_health lookup
    extract_target_group_name ◌>>=◌
get_target_health-IsServed_example =
    get_target_health-IsServed cloud well "main" (("chat", chat) ∷ []) "chat" quiet all_well refl
      refl

abbrev outside : Outside World
outside = record {
  new_string = λ w. ("", w);
  trim_space = λ s. s;
  notifier = none;
  time_now = λ w. w.time;
}

abbrev silent : HttpClient (EcsClient World)
silent = record {
  new_request = λ request c. (ok request, c);
  send = λ request c. (ok (record { status_code = 200; body = none }), c);
}

request_drain-refused_example :
    (e : Error) × (request_drain silent
        (resolve_task_endpoint (memory_ports outside (λ id c. (ok "10.0.0.7", c))) "main" 33002)
        "chat"
        "a"
        (new_ecs_client [] quiet)
      ≡ (err e, new_ecs_client [] quiet))
request_drain-refused_example =
    request_drain-refused outside (λ id c. (ok "10.0.0.7", c)) silent "main" 33002 "chat" "a"
      (new_ecs_client [] quiet)
