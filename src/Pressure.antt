-- ===== src/Pressure.antt =====
-- internal/application/service/connection_pressure_calculator.go and connection_pressure_helpers.go: the
-- connections per task of a service behind an application load balancer.
pub mod Measured
pub mod Advice
use legacy_messenger_ecs_con.Base.{
  ℕ, ◌*◌, String, Bool, true, false, not, Option, none, some, List, Dict, lookup, str_eq, ltb, ◌==◌,
  if◌then◌else◌, lowers_to,
}
use legacy_messenger_ecs_con.Floats.{Float64}
use legacy_messenger_ecs_con.Domain.{
  Error, service_name_required, service_not_found, ecs_service_name_empty, alb_only,
  service_status_failed, target_group_failed, load_balancer_failed, connection_count_failed,
}
use legacy_messenger_ecs_con.Policy.{second}
use legacy_messenger_ecs_con.Exec.{Exec, pure, raise, wrap, nil_dereference, ◌>>=◌, ◌>>◌}
use legacy_messenger_ecs_con.System.{ServiceDef, ServiceStatus}
use legacy_messenger_ecs_con.Evaluation.{
  ConnectionPressureStatus, low, normal, high, ConnectionPressureMetric, ConnectionPressure,
}

-- What the calculator calls of ports.ECSPort, ports.ELBPort and ports.CloudWatchPort. The period is in
-- seconds, the lookback in nanoseconds.
pub record PressurePorts (W F : Type 0) : Type 0 where
  pub describe_service : String → String → Exec W (Option ServiceStatus)
  pub get_service_target_group_arn : String → String → Exec W String
  pub get_load_balancer_arn_by_target_group_arn : String → Exec W String
  pub get_alb_active_connection_count : String → ℕ → ℕ → Exec W F

abbrev pub default_metric_period_seconds : ℕ
default_metric_period_seconds = 60

abbrev pub default_metric_lookback_minutes : ℕ
default_metric_lookback_minutes = 5

abbrev pub connection_metric : ConnectionPressureMetric
connection_metric = record {
  namespace = "AWS/ApplicationELB";
  metric_name = "ActiveConnectionCount";
  stat = "Sum";
  period_seconds = default_metric_period_seconds;
  lookback_minutes = default_metric_lookback_minutes;
}

-- A target that is not positive gives way to 1500.
unfoldable pub effective_target : ℕ → ℕ
effective_target target = if ltb 0 target then target else 1500

module _ (fl : Float64) where
  open fl use {F, of_int, decimal, mul, div, round, le}

  unfoldable pub evaluate_pressure_status : F → ℕ → ConnectionPressureStatus
  unfolding effective_target
  evaluate_pressure_status connection_per_task target =
      let limit = of_int (effective_target target) in
      if le (mul limit (decimal 8 1)) connection_per_task
      then high
      else if le connection_per_task (mul limit (decimal 3 1))
      then low
      else normal

  -- At two places.
  unfoldable pub round_float : F → F
  round_float value = div (round (mul value (of_int 100))) (of_int 100)

  -- 0 where no task runs.
  unfoldable pub connections_per_task : F → ℕ → F
  connections_per_task active running_task_count =
      if ltb 0 running_task_count then div active (of_int running_task_count) else of_int 0

  module _ {W : Type 0} (ports : PressurePorts W F) (cluster_name : String)
      (registry : Dict ServiceDef) where
    abbrev pub pressure_of : String → ServiceDef → ServiceStatus → F → ConnectionPressure F
    pressure_of s def status active =
        let per_task = connections_per_task active status.running_count in
        let target = effective_target def.target_connections_per_task in
        record {
          service_name = s;
          ecs_service_name = def.ecs_service_name;
          cluster_name = cluster_name;
          active_connection_count = active;
          running_task_count = status.running_count;
          desired_count = status.desired_count;
          connection_per_task = round_float per_task;
          target_connections_per_task = target;
          pressure_status = evaluate_pressure_status per_task target;
          metric = connection_metric;
        }

    -- The result of DescribeService is read only at the end.
    abbrev pub measure :
        String → ServiceDef → Option ServiceStatus → F → Exec W (ConnectionPressure F)
    measure s def none active = nil_dereference
    measure s def (some status) active = pure (pressure_of s def status active)

    abbrev pub count_connections :
        String → ServiceDef → Option ServiceStatus → String → Exec W (ConnectionPressure F)
    count_connections s def status balancer =
        wrap connection_count_failed (
          ports.get_alb_active_connection_count balancer default_metric_period_seconds
            (default_metric_lookback_minutes * (60 * second)))
        >>= measure s def status

    abbrev pub find_balancer :
        String → ServiceDef → Option ServiceStatus → String → Exec W (ConnectionPressure F)
    find_balancer s def status group =
        wrap load_balancer_failed (ports.get_load_balancer_arn_by_target_group_arn group)
        >>= count_connections s def status

    abbrev pub find_group :
        String → ServiceDef → Option ServiceStatus → Exec W (ConnectionPressure F)
    find_group s def status =
        wrap target_group_failed
          (ports.get_service_target_group_arn cluster_name def.ecs_service_name)
        >>= find_balancer s def status

    abbrev pub read_pressure : String → ServiceDef → Exec W (ConnectionPressure F)
    read_pressure s def =
        wrap service_status_failed (ports.describe_service cluster_name def.ecs_service_name)
        >>= find_group s def

    abbrev pub calculate_alb : String → ServiceDef → Exec W (ConnectionPressure F)
    calculate_alb s def =
        if not (lowers_to def.load_balancer_type "alb")
        then raise (alb_only s def.load_balancer_type)
        else read_pressure s def

    abbrev pub calculate_registered : String → Option ServiceDef → Exec W (ConnectionPressure F)
    calculate_registered s none = raise (service_not_found s)
    calculate_registered s (some def) =
        if str_eq def.ecs_service_name ""
        then raise (ecs_service_name_empty s)
        else calculate_alb s def

    unfoldable pub calculate : String → Exec W (ConnectionPressure F)
    unfolding lowers_to effective_target evaluate_pressure_status round_float connections_per_task
    calculate s =
        if str_eq s ""
        then raise service_name_required
        else calculate_registered s (lookup s registry)
