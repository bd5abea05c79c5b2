-- ===== src/Scheduler/Scaling.antt =====
-- What an evaluation does to the policy and to the table of jobs.
use legacy_messenger_ecs_con.Base.{◌<◌, refl, String, Bool, true, false}
use legacy_messenger_ecs_con.Floats.{Float64}
use legacy_messenger_ecs_con.Domain.{ScalingAction, scale_out, scale_in, SessionAutoScalingResult}
use legacy_messenger_ecs_con.Policy.History
use legacy_messenger_ecs_con.Coordinator.Entries.{requests, perform}
use legacy_messenger_ecs_con.Coordinator.Invariant.{IsTimed}
use legacy_messenger_ecs_con.Exec.{Exec, Respects, wrap-Respects}
use legacy_messenger_ecs_con.System.{
  Services, System, ServiceDef, find_service, find_service-SameControl,
}
use legacy_messenger_ecs_con.AutoScaling.{
  Observation, demand_of, info_of, judge, carry_out, evaluate_and_scale, apply_action,
  note_execution, request_scale_in, scale_out_now,
}
use legacy_messenger_ecs_con.AutoScaling.Control.{observe-SameControl, report-SameControl}
use legacy_messenger_ecs_con.Scheduler.Effects.{
  Follows, unchanged_traced, call_traced, pure_traced, raise_traced, bind_traced, coordinate_traced,
  policy_traced, clock_traced,
}

module _ (fl : Float64) {W : Type 0} (u : Services W fl.F) (runs : (w : W) → 0 < u.time_now w) where
  open fl use {F, lt}

  abbrev Effect : {A : Type 0} → Exec (System W F) A → Type 0
  Effect = Respects (Follows lt IsTimed)

  judge_traced : (s : String) (o : Observation) → Effect (judge fl u s o)
  unfolding judge History.step
  judge_traced s o = clock_traced lt IsTimed u _ runs λ now _.
      policy_traced lt IsTimed _ (λ x.
        History.evaluates (demand_of fl u s o) o.ecs_state (info_of fl u o).report_coverage now)

  note_execution_traced :
      (r : SessionAutoScalingResult) (b : Bool) → Effect (note_execution fl u r b)
  unfolding History.step
  note_execution_traced r true =
      clock_traced lt IsTimed u _ runs
        λ now _. policy_traced lt IsTimed _ (λ x. History.records r.service_name r.action now)
  note_execution_traced r false = pure_traced lt IsTimed r

  apply_action_traced :
      (a : ScalingAction) (e : String) (r : SessionAutoScalingResult)
      → Effect (apply_action fl u a e r)
  unfolding scale_out_now request_scale_in perform
  apply_action_traced scale_out e r =
      bind_traced lt IsTimed _ _ (wrap-Respects _ _ (call_traced lt IsTimed _))
        λ _. pure_traced lt IsTimed _
  apply_action_traced scale_in e r = clock_traced lt IsTimed u _ runs λ now timed.
      bind_traced lt IsTimed _ _
        (wrap-Respects _ _ (coordinate_traced lt IsTimed _ (requests _ now) timed (λ c. refl)))
        λ _. pure_traced lt IsTimed _
  apply_action_traced other e r = raise_traced lt IsTimed _

  carry_out_traced :
      (def : ServiceDef) (r : SessionAutoScalingResult) (b : Bool)
      → Effect (carry_out fl u def (r, b))
  unfolding carry_out
  carry_out_traced def r false = pure_traced lt IsTimed r
  carry_out_traced def r true =
      bind_traced lt IsTimed _ _
        (wrap-Respects _ _ (apply_action_traced r.action def.ecs_service_name r))
        λ done. note_execution_traced done done.executed

  find_service_traced : (s : String) → Effect (find_service u s)
  find_service_traced s = unchanged_traced lt IsTimed _ (find_service-SameControl u s)

  pub evaluate_and_scale_traced : (s : String) → Effect (evaluate_and_scale fl u s)
  unfolding evaluate_and_scale
  evaluate_and_scale_traced s = bind_traced lt IsTimed _ _ (find_service_traced s) λ def.
      bind_traced lt IsTimed _ _ (unchanged_traced lt IsTimed _ (observe-SameControl fl u s def))
        λ o. bind_traced lt IsTimed _ _ (judge_traced s o) λ v.
          bind_traced lt IsTimed _ _ (carry_out_traced def v.0 v.1)
            λ done. unchanged_traced lt IsTimed _ (report-SameControl fl u s def o done)
