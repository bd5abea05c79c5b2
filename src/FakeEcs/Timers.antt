-- ===== src/FakeEcs/Timers.antt =====
-- internal/adapters/fake/fake_ecs_client.go: the timers that make pending tasks run.
use legacy_messenger_ecs_con.Base.{
  suc, ◌-◌, ◌<◌, ◌≡◌, refl, sym, subst, ap, ◌∙◌, ◌⊎◌, inl, inr, String, ◌||◌, Option, none, some,
  lookup, lookup-insert, arith, str_eq, leb, ◌==◌, if◌then◌else◌, Option-cases, Bool-cases,
}
use legacy_messenger_ecs_con.Domain.{EcsServiceControlState}
use legacy_messenger_ecs_con.Exec.{pure, ignore}
use legacy_messenger_ecs_con.FakeEcs.{
  EcsClient, TaskStatus, TaskLifecycleNotifier, Outside, notify_running,
  transition_pending_task_to_running,
}
use legacy_messenger_ecs_con.FakeEcs.Counts.{counts, IsBounded}

module _ {W : Type 0} (o : Outside W) where
  -- A notification changes nothing but the world outside.
  pub notify_running-service_states :
      (m : Option (TaskLifecycleNotifier W)) (s : String) (task : TaskStatus) (c : EcsClient W)
      → (notify_running o m s task c).1.service_states ≡ c.service_states
  unfolding pure ignore
  notify_running-service_states none s task c = refl
  notify_running-service_states (some n) s task c = refl

  pub notify_running-tasks :
      (m : Option (TaskLifecycleNotifier W)) (s : String) (task : TaskStatus) (c : EcsClient W)
      → (notify_running o m s task c).1.tasks ≡ c.tasks
  unfolding pure ignore
  notify_running-tasks none s task c = refl
  notify_running-tasks (some n) s task c = refl

  abbrev pub started : EcsServiceControlState → EcsServiceControlState
  started state = record state {
    pending_count = state.pending_count - 1;
    running_count = suc state.running_count;
  }

  -- What a timer does to the counts.
  transition-counts :
      (s t i : String) (c : EcsClient W)
      → (counts i (transition_pending_task_to_running o s t c).1 ≡ counts i c)
        ⊎ ((state : EcsServiceControlState) × (counts s c ≡ some state)
            × (state.running_count < state.desired_count)
            × (counts i (transition_pending_task_to_running o s t c).1
                ≡ (if str_eq s i then some (started state) else counts i c)))
  unfolding transition_pending_task_to_running pure
  transition-counts s t i c = elim (Option-cases (lookup s c.service_states)) [
    | inl e ↦ inl (rw e refl)
    | inr (state, e) ↦ elim (Option-cases (lookup t c.tasks)) [
      | inl f ↦ inl (rw (e, f) refl)
      | inr (task, f) ↦ elim (Bool-cases (str_eq task.last_status "PENDING")) [
        | inr g ↦ inl (rw (e, f, g) refl)
        | inl g ↦
            elim (Bool-cases
              (state.pending_count == 0 || leb state.desired_count state.running_count)) [
                | inl h ↦ inl (rw (e, f, g, h) refl)
                | inr h ↦ inr (
                  state,
                  e,
                  ground (arith, h),
                  rw (e, f, g, h)
                      (ap (lookup i) (notify_running-service_states o.notifier s _ _)
                        ∙ lookup-insert s i _ c.service_states),
                )
              ]
      ]
    ]
  ]

  -- Whichever task a timer is for: where no service runs more tasks than are desired, none does after it.
  pub transition_pending_task_to_running-IsBounded :
      (s t : String) (c : EcsClient W)
      → ((i : String) → IsBounded (counts i c))
      → (i : String) → IsBounded (counts i (transition_pending_task_to_running o s t c).1)
  transition_pending_task_to_running-IsBounded s t c v i = elim (transition-counts s t i c) [
    | inl e ↦ subst IsBounded (sym e) (v i)
    | inr (state, f, less, e) ↦ subst IsBounded (sym e) (ground (arith, v i))
  ]
