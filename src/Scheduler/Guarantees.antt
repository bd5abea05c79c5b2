-- ===== src/Scheduler/Guarantees.antt =====
-- What holds of the policy and of the table of jobs in every run of the timers from the start.
use legacy_messenger_ecs_con.Base.{
  ◌<◌, ◌≡◌, refl, sym, subst, ◌∙◌, ap, inl, String, List, some, lookup,
}
use legacy_messenger_ecs_con.Floats.{Float64}
use legacy_messenger_ecs_con.Domain.{completed}
use legacy_messenger_ecs_con.Policy.{ScalingPolicy, new_scaling_policy}
use legacy_messenger_ecs_con.Policy.History.{
  SameSettings, IsExclusive, after-SameSettings, after-IsExclusive,
}
use legacy_messenger_ecs_con.Coordinator.{ScaleInCoordinator, new_scale_in_coordinator}
use legacy_messenger_ecs_con.Coordinator.Entries.{Call}
use legacy_messenger_ecs_con.Coordinator.Graph
use legacy_messenger_ecs_con.Coordinator.Graph.{state_of, Route, completed-Route}
use legacy_messenger_ecs_con.Coordinator.Invariant.{Inv, after-Inv}
use legacy_messenger_ecs_con.System.{Services, System}
use legacy_messenger_ecs_con.Scheduler.{Tick, run}
use legacy_messenger_ecs_con.Scheduler.Ticks.{run-Follows}

module _ (fl : Float64) {W : Type 0} where
  open fl use {F}

  -- The state in which the server starts, over any world.
  abbrev pub start : W → System W F
  start w = record {
    policy = new_scaling_policy fl;
    coordinator = new_scale_in_coordinator;
    world = w;
  }

  -- The table of jobs is well formed, the settings of the policy are those of the start, and no service
  -- has both a scale-out and a scale-in streak.
  pub record IsSound (x : System W F) : Type 0 where
    pub well_formed : Inv x.coordinator
    pub settings : SameSettings (new_scaling_policy fl) x.policy
    pub exclusive : (s : String) → IsExclusive x.policy s

  module _ (u : Services W F) (runs : (w : W) → 0 < u.time_now w) where
    -- Whatever the ports answer and in whatever order the timers fire, where the clock is past the
    -- zero time, a run from the start leaves a well-formed table of jobs, the settings of the policy
    -- as they were, and no service with both a scale-out and a scale-in streak.
    pub run-IsSound : (ts : List Tick) (w : W) → IsSound (run fl u ts (start w)).1
    run-IsSound ts w =
        let h = run-Follows fl u runs ts (start w) in
        record {
          well_formed = subst Inv (sym h.table) (after-Inv h.calls h.allowed);
          settings =
              subst (SameSettings (new_scaling_policy fl)) (sym h.settled)
                (after-SameSettings fl.lt (new_scaling_policy fl) h.asked);
          exclusive = λ s.
              subst (λ (p : ScalingPolicy F). IsExclusive p s) (sym h.settled)
                (after-IsExclusive fl.lt (new_scaling_policy fl) h.asked s
                  (unfold new_scaling_policy in inl refl));
        }

    -- Where the clock is past the zero time: a job that is completed after a run from the start was requested, marked draining, marked applied
    -- and completed, in this order, by calls of the coordinator that lead from the empty table to the
    -- one that the run left.
    pub run-Route :
        (ts : List Tick) (w : W) (s : String)
        → state_of (run fl u ts (start w)).1.coordinator s ≡ some completed
        → (calls : List Call) × ((run fl u ts (start w)).1.coordinator
            ≡ Graph.after new_scale_in_coordinator calls)
          × Route s completed calls
    run-Route ts w s e =
        let h = run-Follows fl u runs ts (start w) in
        (
          h.calls,
          h.table,
          completed-Route new_scale_in_coordinator h.calls s
              (unfold state_of new_scale_in_coordinator lookup in refl)
              (ap (λ (c : ScaleInCoordinator). state_of c s) (sym h.table) ∙ e),
        )
