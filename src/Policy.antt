-- ===== src/Policy.antt =====
-- internal/application/usecase/scaling_policy.go: may a scaling decision be carried out now? The
-- policy keeps, for each service, how often in a row a direction was asked for, and when it was last
-- carried out. The mutex makes each method one step, so a method is a function of the state.
pub mod Approval
pub mod History
pub mod Persistence
pub mod Cooldown
use legacy_messenger_ecs_con.Base.{
  ℕ, ◌+◌, ◌-◌, ◌*◌, String, Bool, true, false, ◌&&◌, ◌==◌, ltb, leb, not, if◌then◌else◌, update,
}
use legacy_messenger_ecs_con.Floats.{Float64}
use legacy_messenger_ecs_con.Domain.{
  ScalingAction, scale_out, scale_in, keep, skip, scale_in_candidate, not_scalable,
  EcsServiceControlState, SessionAutoScalingResult, Reason, not_converged, not_required,
  unsupported_action, max_reached, scale_out_pending, scale_out_cooldown_active,
  scale_out_not_persistent, scale_out_no_gain, scale_out_approved, min_reached, scale_in_pending,
  coverage_insufficient, stabilizing, scale_in_cooldown_active, scale_in_not_persistent,
  scale_in_no_gain, scale_in_approved,
}

pub record ScalingPolicy (F : Type 0) : Type 0 where
  pub min_desired_count : ℕ
  pub max_desired_count : ℕ
  pub max_scale_out_step : ℕ
  pub max_scale_in_step : ℕ
  pub scale_out_consecutive_count : ℕ
  pub scale_in_consecutive_count : ℕ
  pub scale_out_cooldown : ℕ
  pub scale_in_cooldown : ℕ
  pub min_report_coverage : F
  pub scale_out_streak : String → ℕ
  pub scale_in_streak : String → ℕ
  pub last_scale_out_at : String → ℕ
  pub last_scale_in_at : String → ℕ

abbrev pub second : ℕ
second = 1_000_000_000

unfoldable pub new_scaling_policy : (fl : Float64) → ScalingPolicy fl.F
new_scaling_policy fl = record {
  min_desired_count = 1;
  max_desired_count = 10;
  max_scale_out_step = 2;
  max_scale_in_step = 1;
  scale_out_consecutive_count = 3;
  scale_in_consecutive_count = 5;
  scale_out_cooldown = 30 * second;
  scale_in_cooldown = 60 * second;
  min_report_coverage = fl.of_int 1;
  scale_out_streak = λ _. 0;
  scale_in_streak = λ _. 0;
  last_scale_out_at = λ _. 0;
  last_scale_in_at = λ _. 0;
}

unfoldable pub is_ecs_converged : EcsServiceControlState → Bool
is_ecs_converged state = state.pending_count == 0 && state.running_count == state.desired_count

-- `!last.IsZero() && now.Sub(last) < cooldown`. The difference may be negative, so the test is
-- written as `now < last + cooldown`.
unfoldable pub in_cooldown : ℕ → ℕ → ℕ → Bool
in_cooldown last cooldown now = not (last == 0) && ltb now (last + cooldown)

-- The state after the call, the decision, and whether it may be carried out.
abbrev pub Verdict : Type 0 → Type 0
Verdict F = ScalingPolicy F × SessionAutoScalingResult × Bool

module _ {F : Type 0} where
  abbrev deny : ScalingPolicy F → SessionAutoScalingResult → Reason → Verdict F
  deny p r why = (p, record r { reason = why }, false)

  unfoldable pub reset_streak : ScalingPolicy F → String → ScalingPolicy F
  reset_streak p s = record p {
    scale_out_streak = update p.scale_out_streak s 0;
    scale_in_streak = update p.scale_in_streak s 0;
  }

  -- p.scaleInStreak[serviceName] = 0; p.scaleOutStreak[serviceName]++
  abbrev count_scale_out : ScalingPolicy F → String → ScalingPolicy F
  count_scale_out p s = record p {
    scale_in_streak = update p.scale_in_streak s 0;
    scale_out_streak = update p.scale_out_streak s (p.scale_out_streak s + 1);
  }

  abbrev clear_scale_out : ScalingPolicy F → String → ScalingPolicy F
  clear_scale_out p s = record p { scale_out_streak = update p.scale_out_streak s 0 }

  abbrev clear_scale_in : ScalingPolicy F → String → ScalingPolicy F
  clear_scale_in p s = record p { scale_in_streak = update p.scale_in_streak s 0 }

  abbrev count_scale_in : ScalingPolicy F → String → ScalingPolicy F
  count_scale_in p s = record p {
    scale_in_streak = update p.scale_in_streak s (p.scale_in_streak s + 1);
  }

  -- The recommended count, held to one step and to the maximum.
  unfoldable pub scale_out_target : ScalingPolicy F → SessionAutoScalingResult → ℕ
  scale_out_target p r =
      let limit = r.current_desired_count + p.max_scale_out_step in
      let stepped =
        if ltb limit r.recommended_desired_count then limit else r.recommended_desired_count in
      if ltb p.max_desired_count stepped then p.max_desired_count else stepped

  -- One step below the current count, held to the recommended count and to the minimum. Where the
  -- code's difference is negative, the model's is 0, and both are raised to the recommended count.
  unfoldable pub scale_in_target : ScalingPolicy F → SessionAutoScalingResult → ℕ
  scale_in_target p r =
      let stepped = r.current_desired_count - p.max_scale_in_step in
      let held =
        if ltb stepped r.recommended_desired_count then r.recommended_desired_count else stepped in
      if ltb held p.min_desired_count then p.min_desired_count else held

  unfoldable pub evaluate_scale_out :
      ScalingPolicy F → SessionAutoScalingResult → EcsServiceControlState → ℕ → Verdict F
  unfolding in_cooldown
  evaluate_scale_out p₀ r ecs now =
      let s = r.service_name in
      let p = count_scale_out p₀ s in
      let last = p.last_scale_out_at s in
      let streak = p.scale_out_streak s in
      let target = scale_out_target p r in
      if leb p.max_desired_count r.current_desired_count
      then deny p r max_reached
      else if ltb 0 ecs.pending_count
      then deny p r (scale_out_pending ecs.pending_count)
      else if in_cooldown last p.scale_out_cooldown now
      then deny p r (scale_out_cooldown_active (last + p.scale_out_cooldown - now))
      else if ltb streak p.scale_out_consecutive_count
      then deny p r (scale_out_not_persistent streak p.scale_out_consecutive_count)
      else if leb target r.current_desired_count
      then deny p r scale_out_no_gain
      else (
        clear_scale_out p s,
        record r { recommended_desired_count = target; reason = scale_out_approved streak target },
        true,
      )

module _ {F : Type 0} (lt : F → F → Bool) where
  unfoldable pub evaluate_scale_in :
      ScalingPolicy F → SessionAutoScalingResult → EcsServiceControlState → F → ℕ → Verdict F
  unfolding in_cooldown
  evaluate_scale_in p₀ r ecs coverage now =
      let s = r.service_name in
      let p = clear_scale_out p₀ s in
      let counted = count_scale_in p s in
      let last_out = p.last_scale_out_at s in
      let last_in = p.last_scale_in_at s in
      let streak = counted.scale_in_streak s in
      let target = scale_in_target p r in
      if leb r.current_desired_count p.min_desired_count
      then deny (clear_scale_in p s) r min_reached
      else if ltb 0 ecs.pending_count
      then deny (clear_scale_in p s) r (scale_in_pending ecs.pending_count)
      else if lt coverage p.min_report_coverage
      then deny (clear_scale_in p s) r coverage_insufficient
      else if in_cooldown last_out p.scale_in_cooldown now
      then deny (clear_scale_in p s) r (stabilizing (last_out + p.scale_in_cooldown - now))
      else if in_cooldown last_in p.scale_in_cooldown now
      then deny (clear_scale_in p s) r
          (scale_in_cooldown_active (last_in + p.scale_in_cooldown - now))
      else if ltb streak p.scale_in_consecutive_count
      then deny counted r (scale_in_not_persistent streak p.scale_in_consecutive_count)
      else if leb r.current_desired_count target
      then deny counted r scale_in_no_gain
      else (
        clear_scale_in counted s,
        record r { recommended_desired_count = target; reason = scale_in_approved streak target },
        true,
      )

  abbrev dispatch :
      ScalingAction
      → ScalingPolicy F
      → SessionAutoScalingResult
      → EcsServiceControlState
      → F
      → ℕ
      → Verdict F
  dispatch keep p r ecs coverage now =
      (reset_streak p r.service_name, record r { executed = false; reason = not_required }, false)
  dispatch scale_out p r ecs coverage now = evaluate_scale_out p r ecs now
  dispatch scale_in p r ecs coverage now = evaluate_scale_in p r ecs coverage now
  dispatch other p r ecs coverage now = (
    reset_streak p r.service_name,
    record r { executed = false; reason = unsupported_action r.action },
    false,
  )

  unfoldable pub evaluate :
      ScalingPolicy F → SessionAutoScalingResult → EcsServiceControlState → F → ℕ → Verdict F
  unfolding is_ecs_converged reset_streak
  evaluate p r ecs coverage now =
      if not (is_ecs_converged ecs)
      then (
        reset_streak p r.service_name,
        record r {
          action = skip;
          executed = false;
          reason = not_converged ecs.desired_count ecs.running_count ecs.pending_count;
        },
        false,
      )
      else dispatch r.action p r ecs coverage now

module _ {F : Type 0} where
  -- The string argument is one of the two actions, or neither.
  unfoldable pub record_execution : ScalingPolicy F → String → ScalingAction → ℕ → ScalingPolicy F
  record_execution p s scale_out at = record p {
    last_scale_out_at = update p.last_scale_out_at s at;
  }
  record_execution p s scale_in at = record p { last_scale_in_at = update p.last_scale_in_at s at }
  record_execution p s other at = p
