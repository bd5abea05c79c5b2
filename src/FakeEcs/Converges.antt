-- ===== src/FakeEcs/Converges.antt =====
-- internal/adapters/fake/fake_ecs_client.go: a scale-out comes to rest once its timers have gone off.
use legacy_messenger_ecs_con.Base.{
  ℕ, zero, suc, pos, ◌+◌, ◌^◌, ◌-◌, ◌≤◌, ◌<◌, ◌≡◌, refl, sym, subst, ap, ◌∙◌, ◌≢◌, String, true,
  false, ◌||◌, some, List, [], ◌∷◌, length, All, lookup, lookup-insert_self, lookup-insert_ne,
  arith, str_eq, str_eq_iff, ltb, lt→ltb, leb, ◌==◌,
}
use legacy_messenger_ecs_con.Base.Results.{Result}
use legacy_messenger_ecs_con.Domain.{Error, EcsServiceControlState}
use legacy_messenger_ecs_con.FakeEcs.{
  EcsClient, TaskStatus, Outside, Timer, create_tasks, timers_of, scale_out_to,
  update_service_desired_count, put_state, widened, transition_pending_task_to_running,
}
use legacy_messenger_ecs_con.FakeEcs.Counts.{counts, update-more, create_tasks-service_states}
use legacy_messenger_ecs_con.FakeEcs.Timers.{
  started, notify_running-service_states, notify_running-tasks,
}

-- No two of the timers are for one task.
abbrev pub Apart : List Timer → Type 0
Apart [] = Unit
Apart (k ∷ ks) = All (λ (j : Timer). k.task_id ≢ j.task_id) ks × Apart ks

-- The task waits to run.
abbrev pub IsPending : {W : Type 0} → EcsClient W → String → Type 0
IsPending c t =
    (task : TaskStatus) × (lookup t c.tasks ≡ some task) × (task.last_status ≡ "PENDING")

module _ {W : Type 0} (o : Outside W) where
  -- The timers go off one after the other.
  unfoldable pub fire : List Timer → EcsClient W → EcsClient W
  fire [] c = c
  fire (k ∷ ks) c = fire ks (transition_pending_task_to_running o k.service_name k.task_id c).1

  module _ (s t : String) (state : EcsServiceControlState) (c : EcsClient W) (waits : IsPending c t)
      (found : counts s c ≡ some state) where
    transition-starts :
        0 < state.pending_count
        → state.running_count < state.desired_count
        → counts s (transition_pending_task_to_running o s t c).1 ≡ some (started o state)
    unfolding transition_pending_task_to_running
    transition-starts some_pending room =
        let (task, known, pending) = waits in
        let status : str_eq task.last_status "PENDING" ≡ true =
          (str_eq_iff task.last_status "PENDING").1 pending in
        let ready : (state.pending_count == 0 || leb state.desired_count state.running_count)
            ≡ false =
          ground arith in
        rw (found, known, status, ready)
          (ap (lookup s) (notify_running-service_states o o.notifier s _ _)
            ∙ lookup-insert_self s _ c.service_states)

    transition-tasks :
        (j : String)
        → t ≢ j
        → 0 < state.pending_count
        → state.running_count < state.desired_count
        → lookup j (transition_pending_task_to_running o s t c).1.tasks ≡ lookup j c.tasks
    unfolding transition_pending_task_to_running
    transition-tasks j other some_pending room =
        let (task, known, pending) = waits in
        let status : str_eq task.last_status "PENDING" ≡ true =
          (str_eq_iff task.last_status "PENDING").1 pending in
        let ready : (state.pending_count == 0 || leb state.desired_count state.running_count)
            ≡ false =
          ground arith in
        rw (found, known, status, ready)
          (ap (lookup j) (notify_running-tasks o o.notifier s _ _)
            ∙ lookup-insert_ne t j _ c.tasks other)

  -- Pending tasks stay so under a change that leaves their entries as they were.
  keeps_waiting :
      (c d : EcsClient W) (t : String) (ks : List Timer)
      → ((j : String) → t ≢ j → lookup j d.tasks ≡ lookup j c.tasks)
      → All (λ (k : Timer). t ≢ k.task_id) ks
      → All (λ (k : Timer). IsPending c k.task_id) ks
      → All (λ (k : Timer). IsPending d k.task_id) ks
  keeps_waiting c d t [] same a p = tt
  keeps_waiting c d t (k ∷ ks) same a p =
      ((p.0.0, same k.task_id a.0 ∙ p.0.1, p.0.2), keeps_waiting c d t ks same a.1 p.1)

  fire-counts :
      (s : String) (ks : List Timer) (state : EcsServiceControlState) (c : EcsClient W)
      → All (λ (k : Timer). k.service_name ≡ s) ks
      → Apart ks
      → All (λ (k : Timer). IsPending c k.task_id) ks
      → counts s c ≡ some state
      → length ks ≤ state.pending_count
      → state.running_count + length ks ≤ state.desired_count
      → counts s (fire ks c)
        ≡ some (record state {
          pending_count = state.pending_count - length ks;
          running_count = state.running_count + length ks;
        })
  unfolding fire
  fire-counts s [] state c own apart pending found few room = found ∙ ground arith
  fire-counts s (k ∷ ks) state c own apart pending found few room =
      let d : EcsClient W = (transition_pending_task_to_running o s k.task_id c).1 in
      let next =
        transition-starts s k.task_id state c pending.0 found (omega arith) (omega arith) in
      let same = λ (j : String) (other : k.task_id ≢ j).
        transition-tasks s k.task_id state c pending.0 found j other (omega arith) (omega arith) in
      rw own.0 (
        fire-counts s ks (started o state) d own.1 apart.1
          (keeps_waiting c d k.task_id ks same apart.0 pending.1) next (omega arith) (omega arith)
        ∙ (let runs : suc state.running_count + length ks ≡ state.running_count + suc (length ks) =
              omega arith in
            let waits : state.pending_count - 1 - length ks
                ≡ state.pending_count - suc (length ks) =
              omega arith in
            rw (runs, waits) refl))

  -- A task that is not among the new ones keeps its entry.
  create_tasks-keeps :
      (s t : String) (n order : ℕ) (c : EcsClient W)
      → All (λ (k : Timer). t ≢ k.task_id) (timers_of s order (create_tasks o s n c).0)
      → lookup t (create_tasks o s n c).1.tasks ≡ lookup t c.tasks
  unfolding create_tasks
  create_tasks-keeps s t zero order c a = refl
  create_tasks-keeps s t (suc n) order c a =
      create_tasks-keeps s t n (suc order) _ a.1 ∙ lookup-insert_ne _ t _ c.tasks (λ e. a.0 (sym e))

  create_tasks-IsPending :
      (s : String) (n order : ℕ) (c : EcsClient W)
      → Apart (timers_of s order (create_tasks o s n c).0)
      → All
          (λ (k : Timer). IsPending (create_tasks o s n c).1 k.task_id)
          (timers_of s order (create_tasks o s n c).0)
  unfolding create_tasks
  create_tasks-IsPending s zero order c a = tt
  create_tasks-IsPending s (suc n) order c a = (
    (_, create_tasks-keeps s _ n (suc order) _ a.0 ∙ lookup-insert_self _ _ c.tasks, refl),
    create_tasks-IsPending s n (suc order) _ a.1,
  )

  create_tasks-timers :
      (s : String) (n order : ℕ) (c : EcsClient W)
      → (length (timers_of s order (create_tasks o s n c).0) ≡ n)
        × All (λ (k : Timer). k.service_name ≡ s) (timers_of s order (create_tasks o s n c).0)
  unfolding create_tasks
  create_tasks-timers s zero order c = (refl, tt)
  create_tasks-timers s (suc n) order c =
      let (size, own) = create_tasks-timers s n (suc order) _ in (ap suc size, (refl, own))

  create_tasks-keeps_timers :
      (s : String) (n : ℕ) (c : EcsClient W) → (create_tasks o s n c).1.timers ≡ c.timers
  unfolding create_tasks
  create_tasks-keeps_timers s zero c = refl
  create_tasks-keeps_timers s (suc n) c = create_tasks-keeps_timers s n _

  -- The client that makes the new tasks, and the client with them and their timers.
  abbrev made : String → ℕ → EcsServiceControlState → EcsClient W → List String × EcsClient W
  made s n old c =
      create_tasks o s (n - (old.running_count + old.pending_count))
        (put_state o s (widened n old) c)

  abbrev waiting : String → List String × EcsClient W → EcsClient W
  waiting s (ids, last) = record last { timers = timers_of s 0 ids }

  scale_out-leaves :
      (s : String) (n : ℕ) (old : EcsServiceControlState) (c : EcsClient W)
      → old.running_count + old.pending_count ≤ n
      → c.timers ≡ []
      → (scale_out_to o s n old c).1 ≡ waiting s (made s n old c)
  unfolding scale_out_to
  scale_out-leaves s n old c room none_yet =
      let no : ltb n (old.running_count + old.pending_count) ≡ false = ground arith in
      let fresh =
        create_tasks-keeps_timers s (n - (old.running_count + old.pending_count))
          (put_state o s (widened n old) c)
        ∙ none_yet in
      rw (no, fresh) refl

  -- A known service at rest that is asked for more tasks, but fewer than 2 ^ 31, where no timer is waiting and the new tasks have
  -- different names: once the timers of the call have gone off, the service runs as many tasks as were
  -- asked for and none is pending.
  pub update_service_desired_count-converges :
      (s : String) (n : ℕ) (old : EcsServiceControlState) (c : EcsClient W)
      → lookup s c.service_states ≡ some old
      → old.running_count ≡ old.desired_count
      → old.pending_count ≡ 0
      → old.desired_count < n
      → n < 2 ^ 31
      → c.timers ≡ []
      → Apart (update_service_desired_count o s (pos n) c).1.timers
      → counts s (
          fire
            (update_service_desired_count o s (pos n) c).1.timers
            (update_service_desired_count o s (pos n) c).1)
        ≡ some (record old { desired_count = n; running_count = n })
  update_service_desired_count-converges s n old c found rest idle more _ quiet apart =
      let e = update-more o s n old c found more in
      let left : (update_service_desired_count o s (pos n) c).1 ≡ waiting s (made s n old c) =
        ap (λ (r : Result Error EcsServiceControlState × EcsClient W). r.1) e
        ∙ scale_out-leaves s n old c (omega arith) quiet in
      let apart' = subst (λ (d : EcsClient W). Apart d.timers) left apart in
      let (size, own) =
        create_tasks-timers s (n - (old.running_count + old.pending_count)) 0
          (put_state o s (widened n old) c) in
      let stored : counts s (waiting s (made s n old c)) ≡ some (widened n old) =
        ap (lookup s) (create_tasks-service_states o s _ _)
        ∙ lookup-insert_self s _ c.service_states in
      let new : ℕ = length (timers_of s 0 (made s n old c).0) in
      let less = lt→ltb (old.running_count + old.pending_count) n (omega arith) in
      let grown : (widened n old).pending_count
          ≡ old.pending_count + (n - (old.running_count + old.pending_count)) =
        rw less refl in
      let sum : old.running_count + (n - (old.running_count + old.pending_count)) ≡ n =
        omega arith in
      let few : new ≤ (widened n old).pending_count = omega (arith, size, grown) in
      let ran : old.running_count + new ≡ n = omega (arith, size) in
      let over : (widened n old).pending_count - new ≡ old.pending_count =
        omega (arith, size, grown) in
      ap (λ (d : EcsClient W). counts s (fire d.timers d)) left
      ∙ fire-counts s _ (widened n old) (waiting s (made s n old c)) own apart'
          (create_tasks-IsPending s _ 0 _ apart') stored few (omega (arith, size, sum))
      ∙ (rw (ran, over) refl)
