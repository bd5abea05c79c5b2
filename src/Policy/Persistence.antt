-- ===== src/Policy/Persistence.antt =====
-- A decision is carried out only after the same direction was asked for several times in a row.
use legacy_messenger_ecs_con.Base.{
  ℕ, suc, ◌≤◌, ◌≡◌, Bool, true, false, not, ◌&&◌, String, List, [], ◌∷◌, arith, str_eq, str_eq_iff,
  if◌then◌else◌,
}
use legacy_messenger_ecs_con.Domain.{
  ScalingAction, scale_out, scale_in, EcsServiceControlState, SessionAutoScalingResult,
}
use legacy_messenger_ecs_con.Policy.{
  ScalingPolicy, is_ecs_converged, evaluate, evaluate_scale_out, evaluate_scale_in,
  record_execution,
}
use legacy_messenger_ecs_con.Policy.Approval.{evaluate-scale_out_iff, evaluate-scale_in_iff}
use legacy_messenger_ecs_con.Policy.History.{
  Call, evaluates, records, step, after, after-SameSettings,
}

abbrev asks_out : ScalingAction → Bool
asks_out scale_out = true
asks_out _ = false

abbrev asks_in : ScalingAction → Bool
asks_in scale_in = true
asks_in _ = false

module _ {F : Type 0} where
  -- How many of the newest evaluations of the service, without a break, asked a converged service to
  -- scale out. Calls for other services do not count and do not break the row.
  abbrev pub asked_out : String → List (Call F) → ℕ
  asked_out s [] = 0
  asked_out s (records t action at ∷ calls) = asked_out s calls
  asked_out s (evaluates r ecs c now ∷ calls) =
      let older = asked_out s calls in
      if str_eq r.service_name s
      then if is_ecs_converged ecs && asks_out r.action then suc older else 0
      else older

module _ {F : Type 0} (lt : F → F → Bool) (least : F) where
  -- The same for scaling in, where the reports must also have covered the service.
  abbrev pub asked_in : String → List (Call F) → ℕ
  asked_in s [] = 0
  asked_in s (records t action at ∷ calls) = asked_in s calls
  asked_in s (evaluates r ecs c now ∷ calls) =
      let older = asked_in s calls in
      if str_eq r.service_name s
      then if is_ecs_converged ecs && asks_in r.action && not (lt c least) then suc older else 0
      else older

module _ {F : Type 0} (lt : F → F → Bool) where
  step-out_streak :
      (p : ScalingPolicy F) (call : Call F) (calls : List (Call F)) (s : String)
      → p.scale_out_streak s ≤ asked_out s calls
      → (step lt p call).scale_out_streak s ≤ asked_out s (call ∷ calls)
  unfolding step evaluate evaluate_scale_out evaluate_scale_in record_execution
  step-out_streak p (evaluates r ecs c now) calls s h = ground (arith, str_eq_iff r.service_name s)
  step-out_streak p (records t action at) calls s h = ground arith

  step-in_streak :
      (p : ScalingPolicy F) (least : F) (call : Call F) (calls : List (Call F)) (s : String)
      → p.min_report_coverage ≡ least
      → p.scale_in_streak s ≤ asked_in lt least s calls
      → (step lt p call).scale_in_streak s ≤ asked_in lt least s (call ∷ calls)
  unfolding step evaluate evaluate_scale_out evaluate_scale_in record_execution
  step-in_streak p least (evaluates r ecs c now) calls s e h =
      ground (arith, str_eq_iff r.service_name s)
  step-in_streak p least (records t action at) calls s e h = ground arith

  after-out_streak :
      (p : ScalingPolicy F) (calls : List (Call F)) (s : String)
      → p.scale_out_streak s ≡ 0
      → (after lt p calls).scale_out_streak s ≤ asked_out s calls
  unfolding after
  after-out_streak p [] s h = omega arith
  after-out_streak p (call ∷ calls) s h =
      step-out_streak (after lt p calls) call calls s (after-out_streak p calls s h)

  after-in_streak :
      (p : ScalingPolicy F) (calls : List (Call F)) (s : String)
      → p.scale_in_streak s ≡ 0
      → (after lt p calls).scale_in_streak s ≤ asked_in lt p.min_report_coverage s calls
  unfolding after
  after-in_streak p [] s h = omega arith
  after-in_streak p (call ∷ calls) s h =
      step-in_streak (after lt p calls) p.min_report_coverage call calls s
        (after-SameSettings lt p calls).coverage_same (after-in_streak p calls s h)

  -- From a state with no scale-out streak for the service, after any history of calls: if a request
  -- to scale out is approved, then this evaluation and those of the service before it, without a
  -- break, asked a converged service to scale out, at least as often as the setting requires.
  pub evaluate-scale_out_persistent :
      (p : ScalingPolicy F) (calls : List (Call F)) (r : SessionAutoScalingResult)
      (ecs : EcsServiceControlState) (c : F) (now : ℕ)
      → p.scale_out_streak r.service_name ≡ 0
      → r.action ≡ scale_out
      → (evaluate lt (after lt p calls) r ecs c now).2 ≡ true
      → p.scale_out_consecutive_count ≤ suc (asked_out r.service_name calls)
  evaluate-scale_out_persistent p calls r ecs c now h a e =
      let ok = (evaluate-scale_out_iff lt (after lt p calls) r ecs c now a).0 e in
      omega (
        arith,
        ok.persistent,
        (after-SameSettings lt p calls).out_count_same,
        after-out_streak p calls r.service_name h,
      )

  -- From a state with no scale-in streak for the service, after any history of calls: if a request to
  -- scale in is approved, then this evaluation and those of the service before it, without a break,
  -- asked a converged service with sufficient report coverage to scale in, at least as often as the
  -- setting requires.
  pub evaluate-scale_in_persistent :
      (p : ScalingPolicy F) (calls : List (Call F)) (r : SessionAutoScalingResult)
      (ecs : EcsServiceControlState) (c : F) (now : ℕ)
      → p.scale_in_streak r.service_name ≡ 0
      → r.action ≡ scale_in
      → (evaluate lt (after lt p calls) r ecs c now).2 ≡ true
      → p.scale_in_consecutive_count ≤ suc (asked_in lt p.min_report_coverage r.service_name calls)
  evaluate-scale_in_persistent p calls r ecs c now h a e =
      let ok = (evaluate-scale_in_iff lt (after lt p calls) r ecs c now a).0 e in
      omega (
        arith,
        ok.persistent,
        (after-SameSettings lt p calls).in_count_same,
        after-in_streak p calls r.service_name h,
      )
