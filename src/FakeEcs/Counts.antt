-- ===== src/FakeEcs/Counts.antt =====
-- internal/adapters/fake/fake_ecs_client.go: the counts of the services.
use legacy_messenger_ecs_con.Base.{
  ℕ, zero, suc, ℤ, pos, negsuc, ◌+◌, ◌^◌, ◌≤◌, ◌<◌, ◌≡◌, refl, sym, subst, ap, ◌∙◌, ◌⊎◌, inl, inr,
  String, false, Option, none, some, List, lookup, lookup-insert, arith, str_eq, str_eq_refl, ltb,
  ltb→lt, lt→ltb, ◌==◌, if◌then◌else◌, Option-cases, Bool-cases,
}
use legacy_messenger_ecs_con.Base.Results.{ok, panic, Result-cases}
use legacy_messenger_ecs_con.Domain.{EcsServiceControlState}
use legacy_messenger_ecs_con.Exec.{pure, raise, ◌>>=◌, continue}
use legacy_messenger_ecs_con.FakeEcs.{
  EcsClient, TaskStatus, TaskLifecycleNotifier, Outside, create_tasks, widened, scale_out_to,
  scale_in_to, update_service_desired_count, stop_unprotected, stop_task, notify_stopped,
  unprotected, change_count,
}

-- The counts that a service is left with, whether the call returns or not.
abbrev pub counts : {W : Type 0} → String → EcsClient W → Option EcsServiceControlState
counts s c = lookup s c.service_states

-- No service runs more tasks than are desired.
abbrev pub IsBounded : Option EcsServiceControlState → Type 0
IsBounded none = Unit
IsBounded (some state) = state.running_count ≤ state.desired_count

module _ {W : Type 0} (o : Outside W) where
  pub create_tasks-service_states :
      (s : String) (n : ℕ) (c : EcsClient W)
      → (create_tasks o s n c).1.service_states ≡ c.service_states
  unfolding create_tasks
  create_tasks-service_states s zero c = refl
  create_tasks-service_states s (suc n) c = create_tasks-service_states s n _

  scale_out-counts :
      (s i : String) (n : ℕ) (old : EcsServiceControlState) (c : EcsClient W)
      → counts i (scale_out_to o s n old c).1
        ≡ (if str_eq s i then some (widened n old) else counts i c)
  unfolding scale_out_to
  scale_out-counts s i n old c = elim (Bool-cases (ltb n (old.running_count + old.pending_count))) [
    | inl e ↦ rw e (lookup-insert s i _ c.service_states)
    | inr e ↦ rw e (simp (create_tasks-service_states, lookup-insert))
  ]

  notify_stopped-service_states :
      (m : Option (TaskLifecycleNotifier W)) (s t : String) (c : EcsClient W)
      → (notify_stopped o m s t c).1.service_states ≡ c.service_states
  unfolding pure
  notify_stopped-service_states none s t c = refl
  notify_stopped-service_states (some n) s t c = refl

  stop_task-service_states :
      (s : String) (task : Option TaskStatus) (c : EcsClient W)
      → (stop_task o s task c).1.service_states ≡ c.service_states
  unfolding pure ◌>>=◌ continue
  stop_task-service_states s none c = refl
  stop_task-service_states s (some task) c =
      notify_stopped-service_states o.notifier s task.task_id _

  stop_unprotected-service_states :
      (s : String) (ids : Option (List String)) (c : EcsClient W)
      → (stop_unprotected o s ids c).1.service_states ≡ c.service_states
  unfolding raise
  stop_unprotected-service_states s none c = refl
  stop_unprotected-service_states s (some ids) c =
      stop_task-service_states s (unprotected ids c.tasks) c

  scale_in-counts :
      (s i : String) (n : ℕ) (old : EcsServiceControlState) (c : EcsClient W)
      → (counts i (scale_in_to o s n old c).1 ≡ counts i c)
        ⊎ (counts i (scale_in_to o s n old c).1 ≡ (
            if str_eq s i
            then some (record old { desired_count = n; running_count = n })
            else counts i c))
  unfolding scale_in_to ◌>>=◌ continue pure raise
  scale_in-counts s i n old c =
      let kept = stop_unprotected-service_states s c.protected_task c in
      elim (Result-cases (stop_unprotected o s c.protected_task c).0) [
        | inl (a, e) ↦ inr (rw e (lookup-insert s i _ _ ∙ simp (kept)))
        | inr (inl (d, e)) ↦ inl (rw e (ap (lookup i) kept))
        | inr (inr e) ↦ inl (rw e (ap (lookup i) kept))
      ]

  scale_out-IsBounded :
      (s : String) (n : ℕ) (old : EcsServiceControlState) (c : EcsClient W)
      → old.desired_count < n
      → IsBounded (some old)
      → ((i : String) → IsBounded (counts i c))
      → (i : String) → IsBounded (counts i (scale_out_to o s n old c).1)
  scale_out-IsBounded s n old c more own v i =
      subst IsBounded (sym (scale_out-counts s i n old c)) (ground (arith, v i))

  scale_in-IsBounded :
      (s : String) (n : ℕ) (old : EcsServiceControlState) (c : EcsClient W)
      → ((i : String) → IsBounded (counts i c))
      → (i : String) → IsBounded (counts i (scale_in_to o s n old c).1)
  scale_in-IsBounded s n old c v i = elim (scale_in-counts s i n old c) [
    | inl e ↦ subst IsBounded (sym e) (v i)
    | inr e ↦ subst IsBounded (sym e) (ground (arith, v i))
  ]

  change_count-IsBounded :
      (s : String) (n : ℕ) (old : EcsServiceControlState) (c : EcsClient W)
      → IsBounded (some old)
      → ((i : String) → IsBounded (counts i c))
      → (i : String) → IsBounded (counts i (change_count o s n old c).1)
  unfolding pure lookup change_count
  change_count-IsBounded s n old c own v i = elim (Bool-cases (ltb old.desired_count n)) [
    | inl more ↦ rw more (scale_out-IsBounded s n old c (ltb→lt old.desired_count n more) own v i)
    | inr less ↦ elim (Bool-cases (n == old.desired_count)) [
      | inl same ↦ rw (less, same) (v i)
      | inr other ↦ rw (less, other) (scale_in-IsBounded s n old c v i)
    ]
  ]

  -- Whatever count is asked for and whatever the notifier answers: where no service runs more tasks than
  -- are desired, none does after the call, also where the call returns an error or panics.
  update_service_desired_count-IsBounded :
      (s : String) (n : ℤ) (c : EcsClient W)
      → ((i : String) → IsBounded (counts i c))
      → (i : String) → IsBounded (counts i (update_service_desired_count o s n c).1)
  unfolding update_service_desired_count ◌>>=◌ continue pure raise
  update_service_desired_count-IsBounded s (negsuc n) c v i = v i
  update_service_desired_count-IsBounded s (pos n) c v i =
      elim (Option-cases (lookup s c.service_states)) [
        | inl e ↦ rw e (v i)
        | inr (old, e) ↦ rw e (change_count-IsBounded s n old c (subst IsBounded e (v s)) v i)
      ]

  pub update-more :
      (s : String) (n : ℕ) (old : EcsServiceControlState) (c : EcsClient W)
      → lookup s c.service_states ≡ some old
      → old.desired_count < n
      → update_service_desired_count o s (pos n) c ≡ scale_out_to o s n old c
  unfolding update_service_desired_count ◌>>=◌ continue pure change_count
  update-more s n old c found more = rw (found, lt→ltb old.desired_count n more) refl

  scale_out-panics :
      (s : String) (n : ℕ) (old : EcsServiceControlState) (c : EcsClient W)
      → n < old.running_count + old.pending_count
      → (scale_out_to o s n old c).0 ≡ panic
  unfolding scale_out_to
  scale_out-panics s n old c few = rw (lt→ltb n (old.running_count + old.pending_count) few) refl

  scale_out-returns :
      (s : String) (n : ℕ) (old : EcsServiceControlState) (c : EcsClient W)
      → old.running_count + old.pending_count ≤ n
      → (scale_out_to o s n old c).0 ≡ ok (widened n old)
  unfolding scale_out_to
  scale_out-returns s n old c room =
      let no : ltb n (old.running_count + old.pending_count) ≡ false = ground arith in rw no refl

  -- A known service that is asked for more tasks than are desired, where the count asked for and the number of
  -- tasks that run and are pending stay below 2 ^ 31, which an int32 holds: where fewer are asked for than run or
  -- are pending, the call panics, with the new desired count already stored; else it returns a state in
  -- which the tasks that run and are pending are as many as were asked for, and stores it.
  pub update_service_desired_count-scale_out :
      (s : String) (n : ℕ) (old : EcsServiceControlState) (c : EcsClient W)
      → lookup s c.service_states ≡ some old
      → n < 2 ^ 31
      → old.running_count + old.pending_count < 2 ^ 31
      → old.desired_count < n
      → (n < old.running_count + old.pending_count
          → ((update_service_desired_count o s (pos n) c).0 ≡ panic)
            × (counts s (update_service_desired_count o s (pos n) c).1
                ≡ some (record old { desired_count = n })))
        × (old.running_count + old.pending_count ≤ n
            → (state : EcsServiceControlState) × ((update_service_desired_count o s (pos n) c).0
                ≡ ok state)
              × (counts s (update_service_desired_count o s (pos n) c).1 ≡ some state)
              × (state.desired_count ≡ n)
              × (state.running_count ≡ old.running_count)
              × (state.running_count + state.pending_count ≡ n))
  update_service_desired_count-scale_out s n old c found _ _ more =
      let left = scale_out-counts s s n old c in
      rw (update-more s n old c found more) (
        (λ few. (scale_out-panics s n old c few, left ∙ ground (arith, str_eq_refl s))),
        (λ room. (
          _,
          scale_out-returns s n old c room,
          left ∙ simp (str_eq_refl),
          refl,
          refl,
          ground arith,
        )),
      )
