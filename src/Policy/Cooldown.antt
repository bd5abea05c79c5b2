-- ===== src/Policy/Cooldown.antt =====
-- What a recorded execution forbids until its cooldown has passed.
use legacy_messenger_ecs_con.Base.{
  ℕ, ◌+◌, ◌≤◌, ◌<◌, ◌≡◌, refl, ◌⊎◌, inl, inr, Bool, true, String, List, [], ◌∷◌, All, arith,
  str_eq_refl,
}
use legacy_messenger_ecs_con.Domain.{
  scale_out, scale_in, EcsServiceControlState, SessionAutoScalingResult,
}
use legacy_messenger_ecs_con.Policy.{ScalingPolicy, evaluate, record_execution}
use legacy_messenger_ecs_con.Policy.Approval.{
  evaluate-target_bounds, evaluate-scale_out_iff, evaluate-scale_in_iff,
}
use legacy_messenger_ecs_con.Policy.History.{
  Call, evaluates, records, step, after, after-SameSettings, evaluate-keeps_times,
}

-- A call that records no execution.
abbrev pub IsEvaluation : {F : Type 0} → Call F → Type 0
IsEvaluation (evaluates r ecs c now) = Unit
IsEvaluation (records s action at) = ⊥

module _ {F : Type 0} (lt : F → F → Bool) where
  after-keeps_times :
      (p : ScalingPolicy F) (calls : List (Call F)) (s : String)
      → All IsEvaluation calls
      → ((after lt p calls).last_scale_out_at s ≡ p.last_scale_out_at s)
        × ((after lt p calls).last_scale_in_at s ≡ p.last_scale_in_at s)
  unfolding after step
  after-keeps_times p [] s h = (refl, refl)
  after-keeps_times p (evaluates r ecs c now ∷ calls) s h = ground (
    arith,
    after-keeps_times p calls s h.1,
    evaluate-keeps_times lt (after lt p calls) r ecs c now s,
  )
  after-keeps_times p (records t action at ∷ calls) s h = absurd h.0

  -- Once a scale-out is recorded at a time other than 0, and whatever is evaluated since: an approved
  -- decision for the service is a scale-out after the scale-out cooldown has passed, or a scale-in
  -- after the scale-in cooldown has passed.
  pub scale_out_cooldowns :
      (p : ScalingPolicy F) (at : ℕ) (calls : List (Call F)) (r : SessionAutoScalingResult)
      (ecs : EcsServiceControlState) (c : F) (now : ℕ)
      → 0 < at
      → All IsEvaluation calls
      → let q = after lt (record_execution p r.service_name scale_out at) calls in
        (evaluate lt q r ecs c now).2 ≡ true
        → ((r.action ≡ scale_out) × (at + p.scale_out_cooldown ≤ now))
          ⊎ ((r.action ≡ scale_in) × (at + p.scale_in_cooldown ≤ now))
  unfolding record_execution
  scale_out_cooldowns p at calls r ecs c now h evals e =
      let q = record_execution p r.service_name scale_out at in
      let times = after-keeps_times q calls r.service_name evals in
      let same = after-SameSettings lt q calls in
      elim (evaluate-target_bounds lt (after lt q calls) r ecs c now e) [
        | inl (a, _, _, _, _) ↦
            let ok = (evaluate-scale_out_iff lt (after lt q calls) r ecs c now a).0 e in
            inl (a, ground (arith, ok.cool, times.0, same, str_eq_refl r.service_name))
        | inr (a, _, _, _, _) ↦
            let ok = (evaluate-scale_in_iff lt (after lt q calls) r ecs c now a).0 e in
            inr (a, ground (arith, ok.stable, times.0, same, str_eq_refl r.service_name))
      ]

  -- Once a scale-in is recorded at a time other than 0, and whatever is evaluated since, no scale-in of
  -- the service is approved before the scale-in cooldown has passed.
  scale_in_cooldowns :
      (p : ScalingPolicy F) (at : ℕ) (calls : List (Call F)) (r : SessionAutoScalingResult)
      (ecs : EcsServiceControlState) (c : F) (now : ℕ)
      → 0 < at
      → All IsEvaluation calls
      → r.action ≡ scale_in
      → let q = after lt (record_execution p r.service_name scale_in at) calls in
        (evaluate lt q r ecs c now).2 ≡ true → at + p.scale_in_cooldown ≤ now
  unfolding record_execution
  scale_in_cooldowns p at calls r ecs c now h evals a e =
      let q = record_execution p r.service_name scale_in at in
      let times = after-keeps_times q calls r.service_name evals in
      let same = after-SameSettings lt q calls in
      let ok = (evaluate-scale_in_iff lt (after lt q calls) r ecs c now a).0 e in
      ground (arith, ok.cool, times.1, same, str_eq_refl r.service_name)
