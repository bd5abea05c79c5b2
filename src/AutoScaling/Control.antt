-- ===== src/AutoScaling/Control.antt =====
-- Which steps of an evaluation change the policy and the table of jobs.
use legacy_messenger_ecs_con.Base.{
  ℕ, ◌≡◌, refl, ◌∙◌, ◌⊎◌, inl, inr, ◌≢◌, String, Bool, true, false, Option, none, some, List, [],
  ◌∷◌, Dict, str_eq, if-cases,
}
use legacy_messenger_ecs_con.Base.Results.{Result, ok, err, panic}
use legacy_messenger_ecs_con.Floats.{Float64}
use legacy_messenger_ecs_con.Domain.{
  ScalingAction, scale_out, scale_in, SessionAutoScalingResult, Error,
}
use legacy_messenger_ecs_con.Policy.{evaluate}
use legacy_messenger_ecs_con.Demand.{SessionReport}
use legacy_messenger_ecs_con.Exec.{
  Exec, Respects, pure, ◌>>=◌, continue, passes_on, bind-Respects, raise-Respects, wrap-Respects,
}
use legacy_messenger_ecs_con.System.{
  ServiceDef, ServiceStatus, Services, System, SameControl, SameControl-refl, bind-SameControl,
  keeps_control, clock,
}
use legacy_messenger_ecs_con.AutoScaling.{
  Observation, observe, info_of, demand_of, judge, carry_out, stop_expired_tasks,
  session_report_list, attach_ecs_service_diagnostics, with_events, report, delete_if_stopped,
  apply_action, note_execution, scale_out_now,
}

module _ (fl : Float64) {W : Type 0} (u : Services W fl.F) where
  open fl use {F, lt}

  pub observe-SameControl :
      (s : String) (def : ServiceDef) → Respects SameControl (observe fl u s def)
  unfolding observe
  observe-SameControl s def = search (keeps_control, passes_on) depth 12

  delete_if_stopped-SameControl :
      (s t : String) (b : Bool) → Respects SameControl (delete_if_stopped fl u s t b)
  delete_if_stopped-SameControl s t true = search (keeps_control, passes_on)
  delete_if_stopped-SameControl s t false = search (keeps_control, passes_on)

  stop_expired_tasks-SameControl :
      (s : String) (now : ℕ) (ts : List String)
      → Respects SameControl (stop_expired_tasks fl u s now ts)
  unfolding stop_expired_tasks
  stop_expired_tasks-SameControl s now [] = search (keeps_control, passes_on)
  stop_expired_tasks-SameControl s now (t ∷ ts) =
      bind-SameControl _ _ (search (keeps_control, passes_on)) (λ stopped.
        bind-SameControl _ _ (delete_if_stopped-SameControl s t stopped)
          (λ _. stop_expired_tasks-SameControl s now ts))

  session_report_list-SameControl :
      (reported : Dict SessionReport) (ts : List String)
      → Respects SameControl (session_report_list fl u reported ts)
  unfolding session_report_list
  session_report_list-SameControl reported [] = search (keeps_control, passes_on)
  session_report_list-SameControl reported (t ∷ ts) =
      if-cases (Respects SameControl) (str_eq t "")
        (λ _. session_report_list-SameControl reported ts)
        (λ _. bind-SameControl _ _ (search (keeps_control, passes_on)) (λ task.
          bind-SameControl _ _ (session_report_list-SameControl reported ts)
            (λ lines. search keeps_control)))

  with_events-SameControl :
      (r : SessionAutoScalingResult) (status : Option (Option ServiceStatus))
      → Respects SameControl (with_events fl u r status)
  with_events-SameControl r none = search (keeps_control, passes_on)
  with_events-SameControl r (some none) = search (keeps_control, passes_on)
  with_events-SameControl r (some (some status)) = search (keeps_control, passes_on)

  pub report-SameControl :
      (s : String) (def : ServiceDef) (o : Observation) (r : SessionAutoScalingResult)
      → Respects SameControl (report fl u s def o r)
  unfolding report attach_ecs_service_diagnostics
  report-SameControl s def o r =
      search
        (
          keeps_control, passes_on, stop_expired_tasks-SameControl, session_report_list-SameControl,
          with_events-SameControl,
        )
        depth 10

-- The table of jobs is not changed.
abbrev SameJobs : {W F : Type 0} → System W F → System W F → Type 0
SameJobs x y = y.coordinator ≡ x.coordinator

module _ {W F A B : Type 0} where
  bind-SameJobs :
      (m : Exec (System W F) A) (f : A → Exec (System W F) B)
      → Respects SameJobs m
      → ((a : A) → Respects SameJobs (f a))
      → Respects SameJobs (m >>= f)
  bind-SameJobs = bind-Respects (λ x. refl) (λ x y z h k. k ∙ h)

module _ {W F A : Type 0} where
  SameJobs-SameControl : {m : Exec (System W F) A} → Respects SameControl m → Respects SameJobs m
  SameJobs-SameControl h = record { run = λ s. (h.run s).same_coordinator }

module _ {W F A B : Type 0} where
  continue-SameControl :
      (r : Result Error A) (f : A → Exec (System W F) B) (x : System W F)
      → ((a : A) → Respects SameControl (f a))
      → (continue r f x).1.coordinator ≡ x.coordinator
  unfolding continue
  continue-SameControl (ok a) f x h = ((h a).run x).same_coordinator
  continue-SameControl (err e) f x h = refl
  continue-SameControl panic f x h = refl

  -- Steps that change no control leave the table as the step before them left it.
  pub then-SameControl :
      (m : Exec (System W F) A) (f : A → Exec (System W F) B)
      → ((a : A) → Respects SameControl (f a))
      → (x : System W F) → ((m >>= f) x).1.coordinator ≡ (m x).1.coordinator
  unfolding ◌>>=◌
  then-SameControl m f h x = continue-SameControl (m x).0 f (m x).1 h

module _ (fl : Float64) {W : Type 0} (u : Services W fl.F) where
  open fl use {F, lt}

  apply_action-SameJobs :
      (a : ScalingAction) (e : String) (r : SessionAutoScalingResult)
      → a ≢ scale_in
      → Respects SameJobs (apply_action fl u a e r)
  unfolding scale_out_now
  apply_action-SameJobs scale_out e r h = SameJobs-SameControl (search (keeps_control, passes_on))
  apply_action-SameJobs scale_in e r h = absurd (h refl)
  apply_action-SameJobs other e r h = SameJobs-SameControl (raise-Respects SameControl-refl _)

  note_execution-SameJobs :
      (r : SessionAutoScalingResult) (b : Bool) → Respects SameJobs (note_execution fl u r b)
  note_execution-SameJobs r true =
      bind-SameJobs _ _ (SameJobs-SameControl (search keeps_control))
        (λ at. record { run = λ s. refl })
  note_execution-SameJobs r false = SameJobs-SameControl (search keeps_control)

  scale_in-cases : (a : ScalingAction) → (a ≡ scale_in) ⊎ (a ≢ scale_in)
  scale_in-cases scale_in = inl refl
  scale_in-cases _ = inr (λ e. cc)

  -- Carrying out a decision leaves the table of jobs as it was, unless it is an approved scale-in.
  pub carry_out-jobs :
      (def : ServiceDef) (r : SessionAutoScalingResult) (b : Bool) (x : System W F)
      → ((carry_out fl u def (r, b) x).1.coordinator ≡ x.coordinator)
        ⊎ ((b ≡ true) × (r.action ≡ scale_in))
  unfolding carry_out pure
  carry_out-jobs def r false x = inl refl
  carry_out-jobs def r true x = elim (scale_in-cases r.action) [
    | inl e ↦ inr (refl, e)
    | inr e ↦ inl (
        (bind-SameJobs _ _
            (wrap-Respects _ _ (apply_action-SameJobs r.action def.ecs_service_name r e))
            (λ done. note_execution-SameJobs done done.executed)).run
          x)
  ]

  judge_coordinator :
      (s : String) (o : Observation) (x : System W F)
      → (judge fl u s o x).1.coordinator ≡ x.coordinator
  unfolding judge ◌>>=◌ clock
  judge_coordinator s o x = refl

  -- The policy is asked in the state that the observation left, at the time of that state.
  abbrev pub verdict_of : String → Observation → System W F → SessionAutoScalingResult × Bool
  verdict_of s o x =
      let (p, r, approved) =
        evaluate lt x.policy (demand_of fl u s o) o.ecs_state (info_of fl u o).report_coverage
          (u.time_now x.world) in
      (r, approved)

  judge_result :
      (s : String) (o : Observation) (x : System W F) → (judge fl u s o x).0 ≡ ok (verdict_of s o x)
  unfolding judge ◌>>=◌ clock
  judge_result s o x = refl

  -- After the observation.
  pub decided :
      (s : String) (def : ServiceDef) (o : Observation) (x : System W F)
      → let v = verdict_of s o x in
        ((do verdict ← judge fl u s o; done ← carry_out fl u def verdict; report fl u s def o done)
            x).1.coordinator
          ≡ x.coordinator
        ⊎ ((v.1 ≡ true) × (v.0.action ≡ scale_in))
  unfolding judge ◌>>=◌ clock
  decided s def o x =
      let v = verdict_of s o x in
      let y = (judge fl u s o x).1 in
      let last =
        then-SameControl (carry_out fl u def v) (λ done. report fl u s def o done)
          (λ done. report-SameControl fl u s def o done) y in
      elim (carry_out-jobs def v.0 v.1 y) [ inl same ↦ inl (last ∙ same) | inr found ↦ inr found ]
