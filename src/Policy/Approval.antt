-- ===== src/Policy/Approval.antt =====
-- When scaling_policy.go lets a decision be carried out, and with which count.

use legacy_messenger_ecs_con.Base.{
  ℕ, suc, ◌+◌, ◌≤◌, ◌<◌, ◌≡◌, ◌⊎◌, ◌↔◌, ◌≢◌, Bool, true, false, arith, str_eq_refl,
}
use legacy_messenger_ecs_con.Domain.{
  scale_out, scale_in, EcsServiceControlState, SessionAutoScalingResult, scale_out_pending,
  scale_in_pending,
}
use legacy_messenger_ecs_con.Policy.{
  ScalingPolicy, evaluate, evaluate_scale_out, evaluate_scale_in, scale_out_target, scale_in_target,
}

-- Every task that is wanted runs, and none is being started.
abbrev pub IsConverged : EcsServiceControlState → Type 0
IsConverged ecs = (ecs.pending_count ≡ 0) × (ecs.running_count ≡ ecs.desired_count)

-- Nothing was recorded yet, or the cooldown has passed since.
abbrev pub IsCool : ℕ → ℕ → ℕ → Type 0
IsCool last cooldown now = (last ≡ 0) ⊎ (last + cooldown ≤ now)

module _ {F : Type 0} where
  pub record MayScaleOut (p : ScalingPolicy F) (r : SessionAutoScalingResult)
      (ecs : EcsServiceControlState) (now : ℕ) : Type 0 where
    pub converged : IsConverged ecs
    pub below_max : r.current_desired_count < p.max_desired_count
    pub cool : IsCool (p.last_scale_out_at r.service_name) p.scale_out_cooldown now
    pub persistent : p.scale_out_consecutive_count ≤ suc (p.scale_out_streak r.service_name)
    pub gains : r.current_desired_count < r.recommended_desired_count
    pub steps : 0 < p.max_scale_out_step

module _ {F : Type 0} (lt : F → F → Bool) where
  pub record MayScaleIn (p : ScalingPolicy F) (r : SessionAutoScalingResult)
      (ecs : EcsServiceControlState) (c : F) (now : ℕ) : Type 0 where
    pub converged : IsConverged ecs
    pub above_min : p.min_desired_count < r.current_desired_count
    pub covered : lt c p.min_report_coverage ≡ false
    pub stable : IsCool (p.last_scale_out_at r.service_name) p.scale_in_cooldown now
    pub cool : IsCool (p.last_scale_in_at r.service_name) p.scale_in_cooldown now
    pub persistent : p.scale_in_consecutive_count ≤ suc (p.scale_in_streak r.service_name)
    pub gains : r.recommended_desired_count < r.current_desired_count
    pub steps : 0 < p.max_scale_in_step

  -- A request to scale out is approved exactly when the service has converged, is below the maximum,
  -- is out of its cooldown, has been asked for often enough in a row (this time included), the
  -- recommended count is higher and the step is not zero.
  pub evaluate-scale_out_iff :
      (p : ScalingPolicy F) (r : SessionAutoScalingResult) (ecs : EcsServiceControlState) (c : F)
      (now : ℕ)
      → r.action ≡ scale_out
      → ((evaluate lt p r ecs c now).2 ≡ true) ↔ MayScaleOut p r ecs now
  unfolding evaluate evaluate_scale_out scale_out_target
  evaluate-scale_out_iff p r ecs c now h = (
    (λ e. ground (arith, str_eq_refl r.service_name)),
    (λ m. ground (arith, str_eq_refl r.service_name)),
  )

  -- A request to scale in is approved exactly when the service has converged, is above the minimum,
  -- the coverage of session reports is not below the limit, the scale-in cooldown has passed since
  -- both the last scale-out and the last scale-in, it has been asked for often enough in a row (this
  -- time included), the recommended count is lower and the step is not zero.
  pub evaluate-scale_in_iff :
      (p : ScalingPolicy F) (r : SessionAutoScalingResult) (ecs : EcsServiceControlState) (c : F)
      (now : ℕ)
      → r.action ≡ scale_in
      → ((evaluate lt p r ecs c now).2 ≡ true) ↔ MayScaleIn p r ecs c now
  unfolding evaluate evaluate_scale_in scale_in_target
  evaluate-scale_in_iff p r ecs c now h = (
    (λ e. ground (arith, str_eq_refl r.service_name)),
    (λ m. ground (arith, str_eq_refl r.service_name)),
  )

  abbrev pub Gain : ScalingPolicy F → SessionAutoScalingResult → SessionAutoScalingResult → Type 0
  Gain p r q =
      (r.action ≡ scale_out)
      × (r.current_desired_count < q.recommended_desired_count)
      × (q.recommended_desired_count ≤ r.current_desired_count + p.max_scale_out_step)
      × (q.recommended_desired_count ≤ p.max_desired_count)
      × (q.recommended_desired_count ≤ r.recommended_desired_count)

  abbrev pub Shrink : ScalingPolicy F → SessionAutoScalingResult → SessionAutoScalingResult → Type 0
  Shrink p r q =
      (r.action ≡ scale_in)
      × (q.recommended_desired_count < r.current_desired_count)
      × (r.current_desired_count ≤ q.recommended_desired_count + p.max_scale_in_step)
      × (p.min_desired_count ≤ q.recommended_desired_count)
      × (r.recommended_desired_count ≤ q.recommended_desired_count)

  -- An approved decision asked for one of the two directions. Scaling out, the approved count is above
  -- the current one, by one step at most, and exceeds neither the maximum nor what was recommended.
  -- Scaling in, it is below the current one, by one step at most, and is not less than the minimum
  -- nor than what was recommended.
  pub evaluate-target_bounds :
      (p : ScalingPolicy F) (r : SessionAutoScalingResult) (ecs : EcsServiceControlState) (c : F)
      (now : ℕ)
      → (evaluate lt p r ecs c now).2 ≡ true
      → Gain p r (evaluate lt p r ecs c now).1 ⊎ Shrink p r (evaluate lt p r ecs c now).1
  unfolding evaluate evaluate_scale_out evaluate_scale_in scale_out_target scale_in_target
  evaluate-target_bounds p r ecs c now h = ground (arith, str_eq_refl r.service_name)

  -- The guards on pending tasks inside the two directions never answer: a service with pending tasks
  -- has not converged, and is turned away before.
  evaluate-never_pending :
      (p : ScalingPolicy F) (r : SessionAutoScalingResult) (ecs : EcsServiceControlState) (c : F)
      (now n : ℕ)
      → ((evaluate lt p r ecs c now).1.reason ≢ scale_out_pending n)
        × ((evaluate lt p r ecs c now).1.reason ≢ scale_in_pending n)
  unfolding evaluate evaluate_scale_out evaluate_scale_in
  evaluate-never_pending p r ecs c now n =
      (ground (arith, str_eq_refl r.service_name), ground (arith, str_eq_refl r.service_name))

  -- An approved decision is for the action and the service that it was asked for.
  pub evaluate-keeps_action :
      (p : ScalingPolicy F) (r : SessionAutoScalingResult) (ecs : EcsServiceControlState) (c : F)
      (now : ℕ)
      → (evaluate lt p r ecs c now).2 ≡ true
      → ((evaluate lt p r ecs c now).1.action ≡ r.action)
        × ((evaluate lt p r ecs c now).1.service_name ≡ r.service_name)
        × ((evaluate lt p r ecs c now).1.current_desired_count ≡ r.current_desired_count)
  unfolding evaluate evaluate_scale_out evaluate_scale_in
  evaluate-keeps_action p r ecs c now h = ground (arith, str_eq_refl r.service_name)
