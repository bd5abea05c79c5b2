-- ===== src/Evaluation.antt =====
-- internal/application/usecase/service_evaluation_usecase.go and scaling_evaluation_helpers.go: the
-- recommendation by connection pressure, which is shown and not carried out. The calculator of the
-- pressure stands behind an interface and is a parameter here; `Pressure` models it.
pub mod Recommendation
use legacy_messenger_ecs_con.Base.{
  ℕ, ◌+◌, ◌-◌, String, Bool, true, false, not, ◌==◌, ltb, leb, str_eq, Option, if◌then◌else◌,
}
use legacy_messenger_ecs_con.Floats.{Float64}
use legacy_messenger_ecs_con.Domain.{
  ScalingAction, scale_out, scale_in, keep, not_scalable, service_name_required,
}
use legacy_messenger_ecs_con.Exec.{Exec, pure, raise, ◌>>=◌}
use legacy_messenger_ecs_con.System.{ServiceDef, Services, System, call, find_service}

pub data ConnectionPressureStatus : Type 0 where
  low normal high : ConnectionPressureStatus

pub record ConnectionPressureMetric : Type 0 where
  pub namespace : String
  pub metric_name : String
  pub stat : String
  pub period_seconds : ℕ
  pub lookback_minutes : ℕ

pub record ConnectionPressure (F : Type 0) : Type 0 where
  pub service_name : String
  pub ecs_service_name : String
  pub cluster_name : String
  pub active_connection_count : F
  pub running_task_count : ℕ
  pub desired_count : ℕ
  pub connection_per_task : F
  pub target_connections_per_task : ℕ
  pub pressure_status : ConnectionPressureStatus
  pub metric : ConnectionPressureMetric

-- serviceevaluation.ScalingCurrentStatus
pub record ScalingCurrentStatus (F : Type 0) : Type 0 where
  pub active_connection_count : F
  pub running_task_count : ℕ
  pub desired_count : ℕ
  pub connection_per_task : F

-- serviceevaluation.ScalingPolicyStatus
pub record ScalingPolicyStatus : Type 0 where
  pub target_connections_per_task : ℕ
  pub scale_out_threshold : ℕ
  pub scale_in_threshold : ℕ
  pub min_count : ℕ
  pub max_count : ℕ

-- serviceevaluation.ScalingRecommendationStatus
pub record ScalingRecommendationStatus : Type 0 where
  pub current_desired_count : ℕ
  pub recommended_desired_count : ℕ

-- The six texts of the field Reason.
pub data PressureReason : Type 0 where
  within_threshold service_not_scalable above_at_max above below_at_min below : PressureReason

-- serviceevaluation.ScalingEvaluation
pub record ScalingEvaluation (F : Type 0) : Type 0 where
  pub service_name : String
  pub ecs_service_name : String
  pub cluster_name : String
  pub action : ScalingAction
  pub reason : PressureReason
  pub current : ScalingCurrentStatus F
  pub policy : ScalingPolicyStatus
  pub recommendation : ScalingRecommendationStatus

module _ (fl : Float64) where
  open fl use {F, of_int, decimal, mul, div, ceil_int, trunc_int, le}

  -- A target that is not positive gives way to 1500.
  abbrev pub target_or_default : ℕ → ℕ
  target_or_default target = if target == 0 then 1500 else target

  unfoldable pub calculate_recommended_desired_count : F → ℕ → ℕ → ℕ → ℕ
  calculate_recommended_desired_count active target min_count max_count =
      let recommended = ceil_int (div active (of_int (target_or_default target))) in
      let raised = if ltb recommended min_count then min_count else recommended in
      if ltb max_count raised then max_count else raised

  -- What the branches over the pressure set: the action, the reason and the recommended count.
  abbrev pub Decision : Type 0
  Decision = ScalingAction × PressureReason × ℕ

  abbrev grow : ServiceDef → ConnectionPressure F → ℕ → Decision
  grow def pressure recommended =
      let more =
        if leb recommended pressure.desired_count
        then pressure.desired_count + 1
        else recommended in
      if leb def.max_count pressure.desired_count
      then (keep, above_at_max, pressure.desired_count)
      else (scale_out, above, (if ltb def.max_count more then def.max_count else more))

  abbrev shrink : ServiceDef → ConnectionPressure F → ℕ → Decision
  shrink def pressure recommended =
      let fewer =
        if leb pressure.desired_count recommended
        then pressure.desired_count - 1
        else recommended in
      if leb pressure.desired_count def.min_count
      then (keep, below_at_min, pressure.desired_count)
      else (scale_in, below, (if ltb fewer def.min_count then def.min_count else fewer))

  abbrev pub scale_out_threshold_of : ℕ → ℕ
  scale_out_threshold_of target = trunc_int (mul (of_int target) (decimal 8 1))

  abbrev pub scale_in_threshold_of : ℕ → ℕ
  scale_in_threshold_of target = trunc_int (mul (of_int target) (decimal 3 1))

  unfoldable pub decide : ServiceDef → ConnectionPressure F → Decision
  unfolding calculate_recommended_desired_count
  decide def pressure =
      let target = target_or_default def.target_connections_per_task in
      let recommended =
        calculate_recommended_desired_count pressure.active_connection_count target def.min_count
          def.max_count in
      if not def.scalable
      then (not_scalable, service_not_scalable, pressure.desired_count)
      else if le (of_int (scale_out_threshold_of target)) pressure.connection_per_task
      then grow def pressure recommended
      else if le pressure.connection_per_task (of_int (scale_in_threshold_of target))
      then shrink def pressure recommended
      else (keep, within_threshold, pressure.desired_count)

  abbrev evaluation_of : String → String → ServiceDef → ConnectionPressure F → ScalingEvaluation F
  evaluation_of cluster s def pressure =
      let target = target_or_default def.target_connections_per_task in
      let (action, reason, recommended) = decide def pressure in
      record {
        service_name = s;
        ecs_service_name = def.ecs_service_name;
        cluster_name = cluster;
        action = action;
        reason = reason;
        current = record {
          active_connection_count = pressure.active_connection_count;
          running_task_count = pressure.running_task_count;
          desired_count = pressure.desired_count;
          connection_per_task = pressure.connection_per_task;
        };
        policy = record {
          target_connections_per_task = target;
          scale_out_threshold = scale_out_threshold_of target;
          scale_in_threshold = scale_in_threshold_of target;
          min_count = def.min_count;
          max_count = def.max_count;
        };
        recommendation = record {
          current_desired_count = pressure.desired_count;
          recommended_desired_count = recommended;
        };
      }

module _ (fl : Float64) {W : Type 0} (u : Services W fl.F)
    (calculate : String → Exec W (ConnectionPressure fl.F)) where
  open fl use {F}

  -- serviceEvaluationUsecase.Evaluate
  unfoldable pub evaluate_service : String → Exec (System W F) (ScalingEvaluation F)
  unfolding decide
  evaluate_service s = if str_eq s "" then raise service_name_required else do
    def ← find_service u s
    pressure ← call (calculate s)
    pure (evaluation_of fl u.cluster_name s def pressure)
