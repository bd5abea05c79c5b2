-- ===== src/Tests/Sample.antt =====
-- A service with three running tasks, and ports that answer with what a world holds.
use legacy_messenger_ecs_con.Base.{
  ℕ, ◌*◌, String, true, false, Option, none, some, List, [], ◌∷◌, Dict,
}
use legacy_messenger_ecs_con.Base.Results.{ok, err}
use legacy_messenger_ecs_con.Floats.Exact.{Fraction, fractions}
use legacy_messenger_ecs_con.Domain.{
  ScalingAction, ScaleInStatus, ScaleInJob, EcsServiceControlState, SessionAutoScalingResult,
  count_appropriate, external,
}
use legacy_messenger_ecs_con.Policy.{ScalingPolicy, second}
use legacy_messenger_ecs_con.Demand.{SessionReport}
use legacy_messenger_ecs_con.Exec.{Exec}
use legacy_messenger_ecs_con.System.{
  ServiceDef, AutoScaleConfig, EcsTask, EcsPort, TaskSessionPort, TaskDrainPort, Services, System,
}

-- The time, the counts, the running tasks, their reports and the status of a described task.
pub record World : Type 0 where
  pub time : ℕ
  pub counts : EcsServiceControlState
  pub running : List String
  pub reports : Dict SessionReport
  pub expired : Dict String
  pub last_status : String

abbrev pub sessions : ℕ → SessionReport
sessions n = record { session_count = n }

abbrev pub counts_of : ℕ → ℕ → ℕ → EcsServiceControlState
counts_of desired running pending = record {
  ecs_service_name = "chat-ecs";
  desired_count = desired;
  running_count = running;
  pending_count = pending;
  status = "ACTIVE";
}

-- Task b has the fewest sessions.
abbrev pub quiet : World
quiet = record {
  time = 1000 * second;
  counts = counts_of 3 3 0;
  running = "a" ∷ "b" ∷ "c" ∷ [];
  reports = ("a", sessions 5) ∷ ("b", sessions 0) ∷ ("c", sessions 7) ∷ [];
  expired = [];
  last_status = "STOPPED";
}

abbrev pub config : AutoScaleConfig Fraction
config = record {
  interval = 10 * second;
  session_per_task = 100;
  scale_out_utilization = fractions.decimal 8 1;
  expires_period = 30;
  stop_candidate_period = 60;
  min_task_count = 1;
  max_task_count = 5;
  scale_in_applied_timeout = 0;
}

abbrev answer : {A : Type 0} → (World → A) → Exec World A
answer f w = (ok (f w), w)

abbrev described : World → EcsTask
described w = record {
  task_id = "b";
  task_arn = "arn-b";
  last_status = w.last_status;
  desired_status = "STOPPED";
  container_instance_arn = "";
  network_bindings = [];
}

-- The service is described by nil, as the in-memory client does.
abbrev pub ecs : EcsPort World
ecs = record {
  describe_service = λ c s. answer (λ w. none);
  describe_task = λ c t. answer described;
  get_service_control_state = λ c s. answer (λ w. w.counts);
  update_service_desired_count =
      λ c s n w. (ok (counts_of n 3 0), record w { counts = counts_of n 3 0 });
  get_running_task_ids = λ c s. answer (λ w. w.running);
  update_task_protection = λ c ts flag. answer (λ w. tt);
}

abbrev found : Option SessionReport → SessionReport
found none = sessions 0
found (some r) = r

abbrev pub reports_port : TaskSessionPort World Fraction
reports_port = record {
  get_task_session_report = λ s. answer (λ w. w.reports);
  get_invalid_report_task = λ s cfg. answer (λ w. (w.expired, []));
  should_stop_task = λ s t now. answer (λ w. false);
  delete_task_session_state = λ s t. answer (λ w. tt);
  get_task_session_report_by_task = λ s t. answer (λ w. sessions 0);
}

abbrev pub drain_port : TaskDrainPort World
drain_port = record { request_drain = λ s t. answer (λ w. tt) }

-- A drain agent that does not answer.
abbrev pub silent_port : TaskDrainPort World
silent_port = record { request_drain = λ s t w. (err (external "timeout"), w) }

abbrev pub chat : ServiceDef
chat = record {
  ecs_service_name = "chat-ecs";
  display_name = "Chat";
  scalable = true;
  min_count = 1;
  max_count = 5;
  load_balancer_type = "network";
  target_connections_per_task = 100;
}

abbrev pub services_with : TaskDrainPort World → Services World Fraction
services_with drain = record {
  task_session_port = reports_port;
  ecs_port = ecs;
  task_drain_port = drain;
  registry = ("chat", chat) ∷ [];
  cluster_name = "main";
  auto_scale = config;
  time_now = λ w. w.time;
}

abbrev pub services : Services World Fraction
services = services_with drain_port

abbrev pub job : ScaleInStatus → String → ℕ → ℕ → ScaleInJob
job status target streak applied_at = record {
  service_name = "chat";
  ecs_service_name = "chat-ecs";
  status = status;
  target_task_id = target;
  protected_task_ids = [];
  current_desired_count = 3;
  target_desired_count = 2;
  zero_session_streak = streak;
  requested_at = 900 * second;
  applied_at = applied_at;
  updated_at = 900 * second;
  last_error = none;
}

-- The policy as it is made, but for the number of scale-in requests in a row.
abbrev pub asked_down : ℕ → ScalingPolicy Fraction
asked_down n = record {
  min_desired_count = 1;
  max_desired_count = 10;
  max_scale_out_step = 2;
  max_scale_in_step = 1;
  scale_out_consecutive_count = 3;
  scale_in_consecutive_count = 5;
  scale_out_cooldown = 30 * second;
  scale_in_cooldown = 60 * second;
  min_report_coverage = fractions.of_int 1;
  scale_out_streak = λ _. 0;
  scale_in_streak = λ _. n;
  last_scale_out_at = λ _. 0;
  last_scale_in_at = λ _. 0;
}

abbrev pub with_job : ScaleInJob → System World Fraction
with_job entry = record {
  policy = asked_down 4;
  coordinator = record { jobs = ("chat", entry) ∷ [] };
  world = quiet;
}

abbrev pub without_job : System World Fraction
without_job = record { policy = asked_down 4; coordinator = record { jobs = [] }; world = quiet }

abbrev pub request_of : ScalingAction → ℕ → ℕ → SessionAutoScalingResult
request_of action current recommended = record {
  service_name = "chat";
  total_session_count = 12;
  running_task_count = 3;
  current_desired_count = current;
  recommended_desired_count = recommended;
  action = action;
  executed = false;
  reason = count_appropriate;
  session_report = [];
  ecs_events = [];
}

abbrev pub task_a : String
task_a = "a"

abbrev pub task_b : String
task_b = "b"
