-- ===== src/Pressure/Advice.antt =====
-- internal/application/usecase/connection_pressure_usecase.go: the recommendation by the pressure, which no
-- caller reads yet.
use legacy_messenger_ecs_con.Base.{
  ℕ, ◌+◌, ◌-◌, ◌≤◌, ◌<◌, ◌≡◌, ◌⊎◌, ◌&&◌, ltb, leb, ◌==◌, if◌then◌else◌, arith,
}
use legacy_messenger_ecs_con.Floats.{Float64}

-- The texts of ScalingRecommendation.Action and of the status.
pub data Advice : Type 0 where
  no_action check_service scale_up watch scale_down_candidate : Advice

pub data Pressure : Type 0 where
  unknown critical elevated warning light normal : Pressure

-- connectionpressure.ScalingRecommendation, whose reason follows from the status.
pub record ScalingRecommendation : Type 0 where
  pub action : Advice
  pub recommended_desired_count : ℕ

abbrev pub max_int : ℕ → ℕ → ℕ
max_int a b = if ltb b a then a else b

module _ (fl : Float64) where
  open fl use {F, of_int, decimal, mul, div, ceil_int, le}

  -- A target and a limit of 0 stand for ones that are not positive.
  unfoldable pub calculate_scale_out_desired_count : F → ℕ → ℕ → ℕ → ℕ
  calculate_scale_out_desired_count active target current max_count =
      let required = ceil_int (div active (of_int target)) in
      let raised = if leb required current then current + 1 else required in
      if target == 0
      then current
      else if ltb 0 max_count && ltb max_count raised
      then max_count
      else raised

  unfoldable pub evaluate_connection_pressure :
      F → F → ℕ → ℕ → ℕ → ℕ → ℕ → Pressure × ScalingRecommendation
  unfolding calculate_scale_out_desired_count
  evaluate_connection_pressure active per_task running desired min_count max_count target =
      let limit = of_int target in
      let more = calculate_scale_out_desired_count active target desired max_count in
      if running == 0
      then (
        unknown,
        record { action = check_service; recommended_desired_count = max_int desired min_count },
      )
      else if le (mul limit (decimal 12 1)) per_task
      then (critical, record { action = scale_up; recommended_desired_count = more })
      else if le limit per_task
      then (elevated, record { action = scale_up; recommended_desired_count = more })
      else if le (mul limit (decimal 8 1)) per_task
      then (warning, record { action = watch; recommended_desired_count = desired })
      else if le per_task (mul limit (decimal 4 1)) && ltb min_count desired
      then (
        light,
        record {
          action = scale_down_candidate;
          recommended_desired_count =
              if ltb (desired - 1) min_count then min_count else desired - 1;
        },
      )
      else (normal, record { action = no_action; recommended_desired_count = desired })

  -- What an action promises of the recommended count. Out of a full range the count may not grow.
  abbrev pub Promise : ℕ → ℕ → ℕ → ℕ → Advice → ℕ → Type 0
  Promise desired min_count max_count target no_action n = n ≡ desired
  Promise desired min_count max_count target watch n = n ≡ desired
  Promise desired min_count max_count target check_service n = (desired ≤ n) × (min_count ≤ n)
  Promise desired min_count max_count target scale_down_candidate n =
      (min_count ≤ n) × (n < desired)
  Promise desired min_count max_count target scale_up n =
      ((target ≡ 0) × (n ≡ desired))
      ⊎ ((0 < max_count) × (max_count ≤ desired) × (n ≡ max_count))
      ⊎ ((desired < n) × ((max_count ≡ 0) ⊎ (n ≤ max_count)))

  -- Of every recommendation: without an action or to watch it keeps the desired count; to check the service
  -- it lies below neither the desired count nor the minimum; to scale in it is lower than the desired count
  -- and not below the minimum; to scale out it is higher than the desired count and not above a positive
  -- maximum, but for a target of 0, which keeps the count, and a desired count at or above a positive
  -- maximum, which gives the maximum.
  pub evaluate_connection_pressure-Promise :
      (active per_task : F) (running desired min_count max_count target : ℕ)
      → let (status, advice) =
          evaluate_connection_pressure active per_task running desired min_count max_count target in
        Promise desired min_count max_count target advice.action advice.recommended_desired_count
  unfolding evaluate_connection_pressure calculate_scale_out_desired_count
  evaluate_connection_pressure-Promise active per_task running desired min_count max_count target =
      ground arith
