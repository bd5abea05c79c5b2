-- ===== src/Evaluation/Recommendation.antt =====
-- Which count the evaluation by connection pressure recommends, and when it answers.
use legacy_messenger_ecs_con.Base.{
  ◌≡◌, inl, inr, ◌≢◌, String, some, lookup, arith, Option-cases, str_eq_iff,
}
use legacy_messenger_ecs_con.Base.Results.{ok, Result-cases}
use legacy_messenger_ecs_con.Floats.{Float64}
use legacy_messenger_ecs_con.Exec.{Exec, pure, raise, ◌>>=◌}
use legacy_messenger_ecs_con.System.{ServiceDef, Services, System, call, find_service}
use legacy_messenger_ecs_con.Evaluation.{
  ConnectionPressure, ScalingEvaluation, decide, evaluate_service,
}

module _ (fl : Float64) {W : Type 0} (u : Services W fl.F)
    (calculate : String → Exec W (ConnectionPressure fl.F)) where
  open fl use {F}

  -- The service is named and registered, and its pressure was calculated; the evaluation shows what was
  -- decided for them, and neither the policy nor the table of jobs is changed.
  abbrev pub IsAnswer :
      String
      → System W F
      → System W F
      → ScalingEvaluation F
      → ServiceDef
      → ConnectionPressure F
      → Type 0
  IsAnswer s x y r def pressure =
      (s ≢ "")
      × (lookup s u.registry ≡ some def)
      × ((calculate s x.world).0 ≡ ok pressure)
      × (r.service_name ≡ s)
      × (r.action ≡ (decide fl def pressure).0)
      × (r.recommendation.recommended_desired_count ≡ (decide fl def pressure).2)
      × (y.policy ≡ x.policy)
      × (y.coordinator ≡ x.coordinator)

  -- An evaluation that answers is for a service that is named and registered, and whose pressure was
  -- calculated; it shows what was decided for that service and that pressure, and changes neither the
  -- policy nor the table of jobs.
  evaluate_service-answers :
      (s : String) (x y : System W F) (r : ScalingEvaluation F)
      → evaluate_service fl u calculate s x ≡ (ok r, y)
      → (def : ServiceDef) × (pressure : ConnectionPressure F) × IsAnswer s x y r def pressure
  unfolding evaluate_service ◌>>=◌ call find_service raise pure
  evaluate_service-answers s x y r h = elim (Option-cases (lookup s u.registry)) [
    | inl e ↦ absurd (grind (arith, e))
    | inr (def, e) ↦ elim (Result-cases (calculate s x.world).0) [
      | inl (pressure, k) ↦ (def, pressure, grind (arith, e, k, str_eq_iff s ""))
      | inr (inl (c, k)) ↦ absurd (grind (arith, e, k))
      | inr (inr k) ↦ absurd (grind (arith, e, k))
    ]
  ]
