-- ===== src/Tests/Metrics.antt =====
-- The connections and the pressure on the answers of `Cloud`, and a configuration without a port of SSH.
use legacy_messenger_ecs_con.Base.{
  ℕ, ◌≡◌, refl, ◌⊎◌, String, none, some, List, [], ◌∷◌, Dict, lookup, true, lowers_to, str_eq,
  if◌then◌else◌,
}
use legacy_messenger_ecs_con.Base.Results.{ok, err}
use legacy_messenger_ecs_con.Floats.Exact.{Fraction, fractions}
use legacy_messenger_ecs_con.Exec.{◌>>=◌}
use legacy_messenger_ecs_con.System.{ServiceDef}
use legacy_messenger_ecs_con.Evaluation.{high, ConnectionPressure}
use legacy_messenger_ecs_con.Aws.Sdk.{Datapoint}
use legacy_messenger_ecs_con.Aws.Names.{extract_load_balancer_dimension}
use legacy_messenger_ecs_con.Aws.Services.{describe_service, get_service_target_group_arn}
use legacy_messenger_ecs_con.Aws.Elb.{get_load_balancer_arn_by_target_group_arn}
use legacy_messenger_ecs_con.Aws.CloudWatch.{get_alb_active_connection_count}
use legacy_messenger_ecs_con.Aws.CloudWatch.Latest.{
  IsLatest, get_alb_active_connection_count-IsLatest,
}
use legacy_messenger_ecs_con.Aws.Ports.{pressure_ports}
use legacy_messenger_ecs_con.Pressure.{PressurePorts, connection_metric, calculate}
use legacy_messenger_ecs_con.Pressure.Measured.{IsMeasured, calculate-IsMeasured}
use legacy_messenger_ecs_con.Pressure.Advice.{
  Promise, evaluate_connection_pressure, evaluate_connection_pressure-Promise,
}
use legacy_messenger_ecs_con.Config.{Config, redis_port_invalid, load}
use legacy_messenger_ecs_con.Config.Numbers.{atoi}
use legacy_messenger_ecs_con.Config.Loaded.{IsLoaded, load-IsLoaded}
use legacy_messenger_ecs_con.Tests.Sample.{World, quiet, chat}
use legacy_messenger_ecs_con.Tests.Cloud.{cloud, balancers, metrics}

get_alb_active_connection_count-IsLatest_example :
    (dimension : String) × (start : ℕ) × (end_time : ℕ) × (seconds : ℕ) × (ds : List
      (Datapoint Fraction))
    × (extract_load_balancer_dimension "arn:loadbalancer/app/chat" ≡ ok dimension)
    × ((metrics.get_metric_statistics dimension start end_time seconds quiet).0 ≡ ok ds)
    × IsLatest ds (fractions.of_int 300)
unfolding get_alb_active_connection_count extract_load_balancer_dimension ◌>>=◌
get_alb_active_connection_count-IsLatest_example =
    get_alb_active_connection_count-IsLatest metrics "arn:loadbalancer/app/chat" 60 0 quiet
      (fractions.of_int 300) refl

abbrev web : ServiceDef
web = record chat { load_balancer_type = "ALB" }

abbrev known : Dict ServiceDef
known = ("chat", web) ∷ []

abbrev ports : PressurePorts World Fraction
ports = unfold pressure_ports in pressure_ports cloud balancers metrics

abbrev measured : ConnectionPressure Fraction
measured = record {
  service_name = "chat";
  ecs_service_name = "chat-ecs";
  cluster_name = "main";
  active_connection_count = fractions.of_int 300;
  running_task_count = 2;
  desired_count = 2;
  connection_per_task = fractions.div (fractions.of_int 15000) (fractions.of_int 100);
  target_connections_per_task = 100;
  pressure_status = high;
  metric = connection_metric;
}

calculate-IsMeasured_example :
    (def : ServiceDef) × (lookup "chat" known ≡ some def)
    × (lowers_to def.load_balancer_type "alb" ≡ true)
    × IsMeasured fractions ports "main" known "chat" def quiet measured
unfolding calculate pressure_ports describe_service get_service_target_group_arn
    get_load_balancer_arn_by_target_group_arn get_alb_active_connection_count
    extract_load_balancer_dimension lookup ◌>>=◌
calculate-IsMeasured_example =
    calculate-IsMeasured fractions ports "main" known "chat" quiet measured refl

evaluate_connection_pressure-Promise_example :
    let (status, advice) =
      evaluate_connection_pressure fractions
        (fractions.of_int 900)
        (fractions.of_int 300)
        3
        3
        1
        5
        100 in
    Promise fractions 3 1 5 100 advice.action advice.recommended_desired_count
evaluate_connection_pressure-Promise_example =
    evaluate_connection_pressure-Promise fractions (fractions.of_int 900) (fractions.of_int 300) 3 3
      1 5 100

-- REDIS_PORT is set, and SSH_PORT is not.
abbrev environment : String → String
environment name = if str_eq name "REDIS_PORT" then "6379" else ""

load-IsLoaded_example :
    ((atoi (environment "REDIS_PORT") ≡ none)
      × (load environment fractions ≡ err redis_port_invalid))
    ⊎ ((cfg : Config Fraction) × IsLoaded environment fractions cfg)
load-IsLoaded_example = load-IsLoaded environment fractions
