-- ===== src/Tests/Pressure.antt =====
-- The evaluation by connection pressure of a service of two tasks with 300 connections.
use legacy_messenger_ecs_con.Base.{String}
use legacy_messenger_ecs_con.Base.Results.{ok}
use legacy_messenger_ecs_con.Floats.Exact.{Fraction, fractions}
use legacy_messenger_ecs_con.Domain.{scale_out}
use legacy_messenger_ecs_con.Exec.{Exec}
use legacy_messenger_ecs_con.Pressure.{connection_metric}
use legacy_messenger_ecs_con.Evaluation.{high, ConnectionPressure, ScalingEvaluation, above}
use legacy_messenger_ecs_con.Tests.Sample.{World}

abbrev busy : ConnectionPressure Fraction
busy = record {
  service_name = "chat";
  ecs_service_name = "chat-ecs";
  cluster_name = "main";
  active_connection_count = fractions.of_int 300;
  running_task_count = 2;
  desired_count = 2;
  connection_per_task = fractions.of_int 150;
  target_connections_per_task = 100;
  pressure_status = high;
  metric = connection_metric;
}

abbrev measured : String → Exec World (ConnectionPressure Fraction)
measured s w = (ok busy, w)

abbrev grown : ScalingEvaluation Fraction
grown = record {
  service_name = "chat";
  ecs_service_name = "chat-ecs";
  cluster_name = "main";
  action = scale_out;
  reason = above;
  current = record {
    active_connection_count = fractions.of_int 300;
    running_task_count = 2;
    desired_count = 2;
    connection_per_task = fractions.of_int 150;
  };
  policy = record {
    target_connections_per_task = 100;
    scale_out_threshold = 80;
    scale_in_threshold = 30;
    min_count = 1;
    max_count = 5;
  };
  recommendation = record { current_desired_count = 2; recommended_desired_count = 3 };
}
