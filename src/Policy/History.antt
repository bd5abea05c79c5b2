-- ===== src/Policy/History.antt =====
-- The policy over a history of calls: what one call keeps, and what every history keeps.
use legacy_messenger_ecs_con.Base.{ℕ, ◌≡◌, ◌⊎◌, ◌≢◌, Bool, String, List, [], ◌∷◌, arith, str_eq_iff}
use legacy_messenger_ecs_con.Domain.{
  ScalingAction, EcsServiceControlState, SessionAutoScalingResult,
}
use legacy_messenger_ecs_con.Policy.{
  ScalingPolicy, evaluate, evaluate_scale_out, evaluate_scale_in, record_execution,
}

-- A call of one of the two methods that change the policy.
pub data Call (F : Type 0) : Type 0 where
  evaluates : SessionAutoScalingResult → EcsServiceControlState → F → ℕ → Call F
  records : String → ScalingAction → ℕ → Call F

module _ {F : Type 0} where
  -- The settings, which no method writes.
  pub record SameSettings (p q : ScalingPolicy F) : Type 0 where
    pub min_same : q.min_desired_count ≡ p.min_desired_count
    pub max_same : q.max_desired_count ≡ p.max_desired_count
    pub out_step_same : q.max_scale_out_step ≡ p.max_scale_out_step
    pub in_step_same : q.max_scale_in_step ≡ p.max_scale_in_step
    pub out_count_same : q.scale_out_consecutive_count ≡ p.scale_out_consecutive_count
    pub in_count_same : q.scale_in_consecutive_count ≡ p.scale_in_consecutive_count
    pub out_cooldown_same : q.scale_out_cooldown ≡ p.scale_out_cooldown
    pub in_cooldown_same : q.scale_in_cooldown ≡ p.scale_in_cooldown
    pub coverage_same : q.min_report_coverage ≡ p.min_report_coverage

  -- The four entries of a service.
  pub record SameEntries (p q : ScalingPolicy F) (s : String) : Type 0 where
    pub out_streak_same : q.scale_out_streak s ≡ p.scale_out_streak s
    pub in_streak_same : q.scale_in_streak s ≡ p.scale_in_streak s
    pub out_at_same : q.last_scale_out_at s ≡ p.last_scale_out_at s
    pub in_at_same : q.last_scale_in_at s ≡ p.last_scale_in_at s

  -- A service is never asked to grow and to shrink at once.
  abbrev pub IsExclusive : ScalingPolicy F → String → Type 0
  IsExclusive p s = (p.scale_out_streak s ≡ 0) ⊎ (p.scale_in_streak s ≡ 0)

module _ {F : Type 0} (lt : F → F → Bool) where
  unfoldable pub step : ScalingPolicy F → Call F → ScalingPolicy F
  step p (evaluates r ecs c now) = (evaluate lt p r ecs c now).0
  step p (records s action at) = record_execution p s action at

  -- The state after a history of calls, the newest first.
  unfoldable pub after : ScalingPolicy F → List (Call F) → ScalingPolicy F
  after p [] = p
  after p (call ∷ calls) = step (after p calls) call

  step-SameSettings : (p : ScalingPolicy F) (call : Call F) → SameSettings p (step p call)
  unfolding step evaluate evaluate_scale_out evaluate_scale_in record_execution
  step-SameSettings p (evaluates r ecs c now) = ground arith
  step-SameSettings p (records s action at) = ground arith

  pub after-SameSettings :
      (p : ScalingPolicy F) (calls : List (Call F)) → SameSettings p (after p calls)
  unfolding after
  after-SameSettings p [] = ground arith
  after-SameSettings p (call ∷ calls) =
      ground (arith, after-SameSettings p calls, step-SameSettings (after p calls) call)

  -- An evaluation changes no entry of another service.
  evaluate-other_service :
      (p : ScalingPolicy F) (r : SessionAutoScalingResult) (ecs : EcsServiceControlState) (c : F)
      (now : ℕ) (s : String)
      → r.service_name ≢ s
      → SameEntries p (evaluate lt p r ecs c now).0 s
  unfolding evaluate evaluate_scale_out evaluate_scale_in
  evaluate-other_service p r ecs c now s other = ground (arith, str_eq_iff r.service_name s)

  -- No evaluation changes the times at which scaling was last carried out.
  pub evaluate-keeps_times :
      (p : ScalingPolicy F) (r : SessionAutoScalingResult) (ecs : EcsServiceControlState) (c : F)
      (now : ℕ) (s : String)
      → ((evaluate lt p r ecs c now).0.last_scale_out_at s ≡ p.last_scale_out_at s)
        × ((evaluate lt p r ecs c now).0.last_scale_in_at s ≡ p.last_scale_in_at s)
  unfolding evaluate evaluate_scale_out evaluate_scale_in
  evaluate-keeps_times p r ecs c now s = ground arith

  step-IsExclusive :
      (p : ScalingPolicy F) (call : Call F) (s : String)
      → IsExclusive p s
      → IsExclusive (step p call) s
  unfolding step evaluate evaluate_scale_out evaluate_scale_in record_execution
  step-IsExclusive p (evaluates r ecs c now) s h = ground (arith, str_eq_iff r.service_name s)
  step-IsExclusive p (records t action at) s h = ground arith

  -- Whatever the history of calls, if a service starts with at most one of its two streaks above 0,
  -- at most one of them is above 0 afterwards.
  pub after-IsExclusive :
      (p : ScalingPolicy F) (calls : List (Call F)) (s : String)
      → IsExclusive p s
      → IsExclusive (after p calls) s
  unfolding after
  after-IsExclusive p [] s h = h
  after-IsExclusive p (call ∷ calls) s h =
      step-IsExclusive (after p calls) call s (after-IsExclusive p calls s h)
