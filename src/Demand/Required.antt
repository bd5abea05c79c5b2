-- ===== src/Demand/Required.antt =====
-- How many tasks the sessions need.
use legacy_messenger_ecs_con.Base.{
  ℕ, ◌+◌, ◌-◌, ◌/◌, ◌≤◌, ◌<◌, ◌≡◌, ◌⊎◌, true, false, String, arith, ltb, if◌then◌else◌,
}
use legacy_messenger_ecs_con.Floats.{Float64, IsIeee, exact_limit}
use legacy_messenger_ecs_con.Domain.{scale_out, scale_in, keep}
use legacy_messenger_ecs_con.Demand.{
  TaskSessionInfo, calculate_required_task_count, evaluate_scaling_demand,
}

module _ (fl : Float64) where
  open fl use {F, of_int, decimal, mul, div, ceil_int, lt, le}

  -- The number of tasks is between the two limits, if these are in order, whatever the floats do.
  pub required_bounds :
      (total per_task : ℕ) (u : F) (min_count max_count : ℕ)
      → min_count ≤ max_count
      → let n = calculate_required_task_count fl total per_task u min_count max_count in
        (min_count ≤ n) × (n ≤ max_count)
  unfolding calculate_required_task_count
  required_bounds total per_task u min_count max_count h = ground arith

  -- More sessions never need fewer tasks, as long as the capacity is a positive float, the limits are in order
  -- and the quotient stays within the whole numbers that floats hold.
  pub required_mono :
      IsIeee fl
      → (a b per_task : ℕ) (u : F) (min_count max_count : ℕ) → a ≤ b
      → min_count ≤ max_count
      → lt (of_int 0) (mul (of_int per_task) u) ≡ true
      → le (div (of_int b) (mul (of_int per_task) u)) (of_int exact_limit) ≡ true
      → calculate_required_task_count fl a per_task u min_count max_count
        ≤ calculate_required_task_count fl b per_task u min_count max_count
  unfolding calculate_required_task_count
  required_mono ieee a b per_task u min_count max_count h m pos small =
      let capacity = mul (of_int per_task) u in
      let up = ieee.ceil_mono _ _ (ieee.div_mono a b capacity h pos) small in ground (arith, up)

  -- With fewer than 2 ^ 53 sessions and the default configuration (100 sessions per task, utilization
  -- 0.8, one to five tasks), and where 100 * 0.8 is the float 80, the number of tasks is the number of sessions divided by 80,
  -- rounded up and held between 1 and 5.
  pub required_default :
      IsIeee fl
      → (total : ℕ) → total < exact_limit
      → mul (of_int 100) (decimal 8 1) ≡ of_int 80
      → calculate_required_task_count fl total 100 (decimal 8 1) 1 5 ≡ (
          if ltb ((total + 79) / 80) 1
          then 1
          else if ltb 5 ((total + 79) / 80)
          then 5
          else (total + 79) / 80)
  unfolding calculate_required_task_count
  required_default ieee total h e =
      let ceil = ieee.ceil-ratio total 80 (omega arith) h (omega arith) in
      let pos = ieee.le-of_int 80 0 (omega arith) (omega arith) in
      let top : (total + 80 - 1) / 80 ≡ (total + 79) / 80 = omega arith in
      rw e (rw (pos, ceil, top))

-- The demand asks to grow, to shrink or to keep, as the required count is above, below or at the
-- current one, and recommends the required count; nothing counts as executed.
demand_lem :
    {F : Type 0} (s : String) (info : TaskSessionInfo F) (current running required : ℕ)
    → let r = evaluate_scaling_demand s info current running required in
      (r.service_name ≡ s)
      × (r.current_desired_count ≡ current)
      × (r.recommended_desired_count ≡ required)
      × (r.executed ≡ false)
      × (((r.action ≡ scale_out) × (current < required))
          ⊎ ((r.action ≡ scale_in) × (required < current))
          ⊎ ((r.action ≡ keep) × (required ≡ current)))
unfolding evaluate_scaling_demand
demand_lem s info current running required = ground arith
