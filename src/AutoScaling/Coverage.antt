-- ===== src/AutoScaling/Coverage.antt =====
-- A scale-in is asked for only when every running task is accounted for.
use legacy_messenger_ecs_con.Base.{
  ◌<◌, ◌≡◌, refl, sym, subst, ◌∙◌, ap, ◌⊎◌, inl, inr, String, true, false, some, lookup, length,
  All, arith, Option-cases, Bool-cases, ltb,
}
use legacy_messenger_ecs_con.Base.Results.{Result, ok, err, panic}
use legacy_messenger_ecs_con.Floats.{Float64, IsIeee, exact_limit}
use legacy_messenger_ecs_con.Domain.{scale_in, Error}
use legacy_messenger_ecs_con.Policy.{ScalingPolicy}
use legacy_messenger_ecs_con.Policy.Approval.{
  IsConverged, evaluate-scale_in_iff, evaluate-keeps_action,
}
use legacy_messenger_ecs_con.Demand.{
  calculate_total_session_count, report_coverage_of, evaluate_scaling_demand,
}
use legacy_messenger_ecs_con.Demand.Partition.{IsFresh, normal-complete_iff, length-normal_le}
use legacy_messenger_ecs_con.Exec.{◌>>=◌, continue}
use legacy_messenger_ecs_con.System.{ServiceDef, Services, System, find_service}
use legacy_messenger_ecs_con.AutoScaling.{
  Observation, normal_task_of, observe, info_of, demand_of, judge, carry_out, report,
  evaluate_and_scale,
}
use legacy_messenger_ecs_con.AutoScaling.Control.{observe-SameControl, decided, verdict_of}

module _ (fl : Float64) (ieee : IsIeee fl) {W : Type 0} (u : Services W fl.F) where
  open fl use {F, of_int, lt}

  -- Full coverage means a fresh report of every running task.
  covered-IsFresh :
      (o : Observation)
      → length o.running_task_ids < exact_limit
      → lt (info_of fl u o).report_coverage (of_int 1) ≡ false
      → All (IsFresh o.expired_report o.reported) o.running_task_ids
  unfolding info_of calculate_total_session_count report_coverage_of
  covered-IsFresh o small covered = elim (Bool-cases (ltb 0 (length o.running_task_ids))) [
    | inl some_run ↦
        let n = length (normal_task_of o) in
        let m = length o.running_task_ids in
        let le = length-normal_le o.expired_report o.reported o.running_task_ids in
        let law = ieee.ratio-lt-one n m (ground arith) (omega arith) small in
        (normal-complete_iff o.expired_report o.reported o.running_task_ids).0
          (ground (arith, law, some_run, covered))
    | inr none_run ↦
        (normal-complete_iff o.expired_report o.reported o.running_task_ids).0 (ground arith)
  ]

  -- What the table of jobs changes for: the service is registered, and ECS and the session reports
  -- were observed in a state in which the service had converged, fewer tasks were needed than wanted,
  -- and every running task had a report that had not expired.
  pub record IsJustified (s : String) (x : System W F) (def : ServiceDef) (o : Observation)
      : Type 0 where
    pub registered : lookup s u.registry ≡ some def
    pub observed : (observe fl u s def x).0 ≡ ok o
    pub converged : IsConverged o.ecs_state
    pub needless : (demand_of fl u s o).recommended_desired_count < o.ecs_state.desired_count
    pub covered : All (IsFresh o.expired_report o.reported) o.running_task_ids

  demand_current :
      (s : String) (o : Observation)
      → (demand_of fl u s o).current_desired_count ≡ o.ecs_state.desired_count
  unfolding demand_of evaluate_scaling_demand
  demand_current s o = ground arith

  approved-IsJustified :
      (s : String) (def : ServiceDef) (o : Observation) (x : System W F)
      → lookup s u.registry ≡ some def
      → (observe fl u s def x).0 ≡ ok o
      → length o.running_task_ids < exact_limit
      → x.policy.min_report_coverage ≡ of_int 1
      → let y = (observe fl u s def x).1 in
        (verdict_of fl u s o y).1 ≡ true
        → (verdict_of fl u s o y).0.action ≡ scale_in
        → IsJustified s x def o
  approved-IsJustified s def o x reg obs small least b a =
      let y = (observe fl u s def x).1 in
      let same = ((observe-SameControl fl u s def).run x).same_policy in
      let d = demand_of fl u s o in
      let c = (info_of fl u o).report_coverage in
      let kept = evaluate-keeps_action lt y.policy d o.ecs_state c (u.time_now y.world) b in
      let may =
        (evaluate-scale_in_iff lt y.policy d o.ecs_state c (u.time_now y.world) (sym kept.0 ∙ a)).0
          b in
      record {
        registered = reg;
        observed = obs;
        converged = may.converged;
        needless = omega (arith, may.gains, demand_current s o);
        covered = covered-IsFresh o small (
            subst (λ (m : F). lt c m ≡ false)
              (ap (λ (p : ScalingPolicy F). p.min_report_coverage) same ∙ least) may.covered);
      }

  after_observation :
      (s : String) (def : ServiceDef) (x : System W F) (r : Result Error Observation)
      → (observe fl u s def x).0 ≡ r
      → x.policy.min_report_coverage ≡ of_int 1
      → ((o : Observation)
          → (observe fl u s def x).0 ≡ ok o
          → length o.running_task_ids < exact_limit)
      → lookup s u.registry ≡ some def
      → let y = (observe fl u s def x).1 in
        ((continue r
            (λ o. do
              verdict ← judge fl u s o
              done ← carry_out fl u def verdict
              report fl u s def o done)
            y).1.coordinator
          ≡ x.coordinator)
        ⊎ ((o : Observation) × IsJustified s x def o)
  unfolding continue
  after_observation s def x (ok o) e least small reg =
      let same = ((observe-SameControl fl u s def).run x).same_coordinator in
      elim (decided fl u s def o (observe fl u s def x).1) [
        | inl kept ↦ inl (kept ∙ same)
        | inr (b, a) ↦ inr (o, approved-IsJustified s def o x reg e (small o e) least b a)
      ]
  after_observation s def x (err w) e least small reg =
      inl ((observe-SameControl fl u s def).run x).same_coordinator
  after_observation s def x panic e least small reg =
      inl ((observe-SameControl fl u s def).run x).same_coordinator

  -- With the full coverage required, and fewer than 2 ^ 53 running tasks: an evaluation leaves the
  -- table of scale-in jobs as it was, unless the service is registered and was observed to have
  -- converged, to need fewer tasks than it wants, and to have for every running task a report that has
  -- not expired.
  pub evaluate_and_scale-covered :
      (s : String) (x : System W F)
      → x.policy.min_report_coverage ≡ of_int 1
      → ((def : ServiceDef) (o : Observation)
          → (observe fl u s def x).0 ≡ ok o
          → length o.running_task_ids < exact_limit)
      → ((evaluate_and_scale fl u s x).1.coordinator ≡ x.coordinator)
        ⊎ ((def : ServiceDef) × (o : Observation) × IsJustified s x def o)
  unfolding evaluate_and_scale find_service ◌>>=◌
  evaluate_and_scale-covered s x least small = elim (Option-cases (lookup s u.registry)) [
    | inl e ↦ inl (rw (e, evaluate_and_scale))
    | inr (def, e) ↦
        elim (after_observation s def x (observe fl u s def x).0 refl least (small def) e) [
          | inl same ↦ inl (rw (e, evaluate_and_scale) same)
          | inr (o, why) ↦ inr (def, o, why)
        ]
  ]
