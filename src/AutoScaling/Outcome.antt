-- ===== src/AutoScaling/Outcome.antt =====
-- What an evaluation answers: when it says that it executed something, and when it cannot answer.
use legacy_messenger_ecs_con.Base.{
  ◌≡◌, refl, inl, inr, ◌≢◌, String, Bool, true, false, none, arith, str_eq_refl,
}
use legacy_messenger_ecs_con.Base.Results.{Result, ok, err, panic, Result-cases}
use legacy_messenger_ecs_con.Floats.{Float64}
use legacy_messenger_ecs_con.Domain.{
  ScalingAction, scale_out, scale_in, SessionAutoScalingResult, EcsServiceControlState, Error,
}
use legacy_messenger_ecs_con.Policy.{record_execution}
use legacy_messenger_ecs_con.Exec.{Exec, pure, ◌>>=◌, continue}
use legacy_messenger_ecs_con.System.{ServiceDef, Services, System, call, coordinate, clock}
use legacy_messenger_ecs_con.AutoScaling.{
  apply_scaling_decision, carry_out, attach_ecs_service_diagnostics, report, evaluate_and_scale,
}

-- The method never returns without an error.
record Fails {S A : Type 0} (m : Exec S A) : Type 0 where
  never : (s : S) (a : A) → (m s).0 ≢ ok a

module _ {S A B : Type 0} where
  continue-Fails :
      (r : Result Error A) (f : A → Exec S B) (s : S) (b : B)
      → ((a : A) → Fails (f a))
      → (continue r f s).0 ≢ ok b
  unfolding continue
  continue-Fails (ok a) f s b h = (h a).never s b
  continue-Fails (err e) f s b h = λ e. cc
  continue-Fails panic f s b h = λ e. cc

  bind-Fails : (m : Exec S A) (f : A → Exec S B) → ((a : A) → Fails (f a)) → Fails (m >>= f)
  unfolding ◌>>=◌
  bind-Fails m f h = record { never = λ s b. continue-Fails (m s).0 f (m s).1 b h }

module _ (fl : Float64) {W : Type 0} (u : Services W fl.F) where
  open fl use {F}
  open u use {ecs_port, cluster_name}

  attach-Fails :
      ((c e : String) (w : W) → (ecs_port.describe_service c e w).0 ≡ ok none)
      → (e : String) (r : SessionAutoScalingResult)
      → Fails (attach_ecs_service_diagnostics fl u e r)
  unfolding attach_ecs_service_diagnostics ◌>>=◌ call
  attach-Fails nil e r = record { never = λ s b. ground (arith, nil cluster_name e s.world) }

  -- With an ECS port that describes a service by nil and no error, as the in-memory client does, no
  -- evaluation of any service ever returns a result.
  pub evaluate_and_scale-nil_status :
      ((c e : String) (w : W) → (ecs_port.describe_service c e w).0 ≡ ok none)
      → (s : String) (x : System W F) (r : SessionAutoScalingResult)
      → (evaluate_and_scale fl u s x).0 ≢ ok r
  unfolding evaluate_and_scale report
  evaluate_and_scale-nil_status nil s x r =
      (bind-Fails _ _ λ def. bind-Fails _ _ λ o. bind-Fails _ _ λ v. bind-Fails _ _ λ done.
          bind-Fails _ _ λ now.
            bind-Fails _ _
              λ _. bind-Fails _ _ λ lines. attach-Fails nil def.ecs_service_name _).never
        x r

  abbrev pub Accepted : ServiceDef → SessionAutoScalingResult → System W F → Type 0
  Accepted def r x =
      (state : EcsServiceControlState) × ((ecs_port.update_service_desired_count cluster_name
          def.ecs_service_name r.recommended_desired_count x.world).0
        ≡ ok state)

  -- The same for a given action.
  executed_action :
      (a : ScalingAction) (def : ServiceDef) (r : SessionAutoScalingResult) (x : System W F)
      (q : SessionAutoScalingResult)
      → r.action ≡ a
      → (carry_out fl u def (r, true) x).0 ≡ ok q
      → q.executed ≡ true
      → (a ≡ scale_out)
        × Accepted def r x
        × (q.recommended_desired_count ≡ r.recommended_desired_count)
        × ((carry_out fl u def (r, true) x).1.policy.last_scale_out_at r.service_name
            ≡ u.time_now
                (ecs_port.update_service_desired_count cluster_name def.ecs_service_name
                  r.recommended_desired_count x.world).1)
  unfolding carry_out ◌>>=◌ apply_scaling_decision call clock coordinate record_execution
  executed_action scale_out def r x q act e d =
      elim (Result-cases
        (ecs_port.update_service_desired_count cluster_name def.ecs_service_name
          r.recommended_desired_count x.world).0) [
            | inl (state, accepted) ↦ (
              refl,
              (state, accepted),
              ground (arith, accepted),
              ground (arith, accepted, str_eq_refl r.service_name),
            )
            | inr (inl (why, refused)) ↦ absurd (ground (arith, refused))
            | inr (inr broken) ↦ absurd (ground (arith, broken))
          ]
  executed_action scale_in def r x q act e d = absurd (ground arith)
  executed_action other def r x q act e d = absurd (ground arith)

  -- An answer that counts as executed comes from an approved scale-out whose new count ECS accepted:
  -- the count is the approved one, and the service's last scale-out is recorded at the time of the
  -- world that ECS left.
  pub carry_out-executed :
      (def : ServiceDef) (r : SessionAutoScalingResult) (b : Bool) (x : System W F)
      (q : SessionAutoScalingResult)
      → r.executed ≡ false
      → (carry_out fl u def (r, b) x).0 ≡ ok q
      → q.executed ≡ true
      → (b ≡ true)
        × (r.action ≡ scale_out)
        × Accepted def r x
        × (q.recommended_desired_count ≡ r.recommended_desired_count)
        × ((carry_out fl u def (r, b) x).1.policy.last_scale_out_at r.service_name
            ≡ u.time_now
                (ecs_port.update_service_desired_count cluster_name def.ecs_service_name
                  r.recommended_desired_count x.world).1)
  carry_out-executed def r false x q h e d = absurd (unfold carry_out pure in ground arith)
  carry_out-executed def r true x q h e d =
      let (act, state, count, at) = executed_action r.action def r x q refl e d in
      (refl, act, state, count, at)
