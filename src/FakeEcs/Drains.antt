-- ===== src/FakeEcs/Drains.antt =====
-- internal/adapters/fake/fake_ecs_client.go: a lower count stops the task that the scale-in drained.
use legacy_messenger_ecs_con.Base.{
  ℕ, pos, ◌<◌, ◌≡◌, refl, subst, ap, ◌∙◌, ◌↔◌, inl, inr, String, true, false, Option, none, some,
  List, [], ◌∷◌, All, Has, IsDistinct, Dict, lookup, insert, lookup-insert, lookup-insert_self,
  lookup-All, arith, str_eq, str_eq_iff, ltb, ◌==◌, if◌then◌else◌, Option-cases, Bool-cases,
}
use legacy_messenger_ecs_con.Base.Results.{Result, ok}
use legacy_messenger_ecs_con.Domain.{Error, EcsServiceControlState}
use legacy_messenger_ecs_con.Exec.{pure, continue, ◌>>=◌}
use legacy_messenger_ecs_con.ScaleIn.{survivors}
use legacy_messenger_ecs_con.ScaleIn.Target.{survivors_iff}
use legacy_messenger_ecs_con.FakeEcs.{
  EcsClient, TaskStatus, TaskLifecycleNotifier, Outside, includes, unprotected, running_of,
  scale_in_to, change_count, stop_unprotected, stop_task, notify_stopped,
  update_service_desired_count, update_task_protection,
}
use legacy_messenger_ecs_con.FakeEcs.Counts.{counts}

-- Each task stands under its own name, once.
pub record IsKeyed (tasks : Dict TaskStatus) : Type 0 where
  pub own : All (λ (e : String × TaskStatus). e.1.task_id ≡ e.0) tasks
  pub distinct : IsDistinct tasks

abbrev pub IsRunning : TaskStatus → Type 0
IsRunning task = task.last_status ≡ "RUNNING"

includes_iff : (t : String) (ids : List String) → (includes t ids ≡ true) ↔ Has t ids
includes_iff t [] = ground arith
includes_iff t (x ∷ xs) = ground (arith, str_eq_iff x t, includes_iff t xs)

running_of-Has :
    (tasks : Dict TaskStatus) (t : String) (task : TaskStatus)
    → All (λ (e : String × TaskStatus). e.1.task_id ≡ e.0) tasks
    → lookup t tasks ≡ some task
    → IsRunning task
    → Has t (running_of tasks)
unfolding running_of lookup
running_of-Has [] t task k e runs = absurd (ground arith)
running_of-Has ((i, v) ∷ tasks) t task k e runs = ground (
  arith,
  str_eq_iff i t,
  str_eq_iff v.last_status "RUNNING",
  running_of-Has tasks t task k.1,
  k.0,
)

-- The task that is stopped is one that runs and is not protected.
unprotected-some :
    (ids : List String) (tasks : Dict TaskStatus) (task : TaskStatus)
    → IsKeyed tasks
    → unprotected ids tasks ≡ some task
    → (lookup task.task_id tasks ≡ some task) × IsRunning task × (includes task.task_id ids ≡ false)
unfolding unprotected lookup
unprotected-some ids [] task k e = absurd (ground arith)
unprotected-some ids ((i, v) ∷ tasks) task k e = ground (
  arith,
  str_eq_iff i task.task_id,
  str_eq_iff v.last_status "RUNNING",
  unprotected-some ids tasks task (record { own = k.own.1; distinct = k.distinct.1 }),
  k.own.0,
  k.distinct.0,
)

unprotected-none :
    (ids : List String) (tasks : Dict TaskStatus) (t : String) (task : TaskStatus)
    → IsKeyed tasks
    → unprotected ids tasks ≡ none
    → lookup t tasks ≡ some task
    → IsRunning task
    → includes t ids ≡ true
unfolding unprotected lookup
unprotected-none ids [] t task k e found runs = absurd (ground arith)
unprotected-none ids ((i, v) ∷ tasks) t task k e found runs = ground (
  arith,
  str_eq_iff i t,
  str_eq_iff v.last_status "RUNNING",
  unprotected-none ids tasks t task (record { own = k.own.1; distinct = k.distinct.1 }),
  k.own.0,
)

module _ {W : Type 0} (o : Outside W) where
  -- The tasks but the target are protected.
  abbrev pub protect_survivors : String → EcsClient W → EcsClient W
  protect_survivors t c = (update_task_protection o (survivors t (running_of c.tasks)) true c).1

  only_target :
      (t : String) (task found : TaskStatus) (tasks : Dict TaskStatus)
      → IsKeyed tasks
      → lookup t tasks ≡ some task
      → unprotected (survivors t (running_of tasks)) tasks ≡ some found
      → found ≡ task
  only_target t task found tasks k here e =
      let (there, runs, free) = unprotected-some (survivors t (running_of tasks)) tasks found k e in
      let listed = running_of-Has tasks found.task_id found k.own there runs in
      let kept = survivors_iff t found.task_id (running_of tasks) in
      let chosen = includes_iff found.task_id (survivors t (running_of tasks)) in
      let same : found.task_id ≡ t = elim (Bool-cases (str_eq found.task_id t)) [
        | inl e ↦ (str_eq_iff found.task_id t).0 e
        | inr e ↦
            let protected =
              chosen.1
                (kept.1 (listed, λ h. ground (arith, (str_eq_iff found.task_id t).1 h, e))) in
            absurd (ground (arith, protected, free))
      ] in
      ground (arith, same, here, subst (λ (u : String). lookup u tasks ≡ some found) same there)

  target-unprotected :
      (t : String) (task : TaskStatus) (tasks : Dict TaskStatus)
      → IsKeyed tasks
      → lookup t tasks ≡ some task
      → IsRunning task
      → unprotected (survivors t (running_of tasks)) tasks ≡ some task
  target-unprotected t task tasks k here runs =
      elim (Option-cases (unprotected (survivors t (running_of tasks)) tasks)) [
        | inl e ↦ absurd (
            ground (
              arith,
              unprotected-none (survivors t (running_of tasks)) tasks t task k e here runs,
              includes_iff t (survivors t (running_of tasks)),
              survivors_iff t t (running_of tasks),
            ))
        | inr (found, e) ↦ e ∙ ap some (only_target t task found tasks k here e)
      ]

  notify_stopped-tasks :
      (m : Option (TaskLifecycleNotifier W)) (s t : String) (c : EcsClient W)
      → (notify_stopped o m s t c).1.tasks ≡ c.tasks
  unfolding pure
  notify_stopped-tasks none s t c = refl
  notify_stopped-tasks (some n) s t c = refl

  update-less :
      (s : String) (n : ℕ) (old : EcsServiceControlState) (c : EcsClient W)
      → lookup s c.service_states ≡ some old
      → n < old.desired_count
      → update_service_desired_count o s (pos n) c ≡ scale_in_to o s n old c
  unfolding update_service_desired_count ◌>>=◌ continue pure change_count
  update-less s n old c found less =
      let no : ltb old.desired_count n ≡ false = ground arith in
      let other : (n == old.desired_count) ≡ false = ground arith in rw (found, no, other) refl

  stop_task-tasks :
      (s : String) (task : TaskStatus) (c : EcsClient W)
      → (stop_task o s (some task) c).1.tasks
        ≡ insert task.task_id (record task { last_status = "STOPPED" }) c.tasks
  unfolding ◌>>=◌ continue
  stop_task-tasks s task c = notify_stopped-tasks o.notifier s task.task_id _

  scale_in-stops :
      (s : String) (n : ℕ) (old : EcsServiceControlState) (ids : List String) (task : TaskStatus)
      (c : EcsClient W)
      → unprotected ids c.tasks ≡ some task
      → c.protected_task ≡ some ids
      → ((d : EcsClient W)
          → (r : Unit {0}) × ((notify_stopped o o.notifier s task.task_id d).0 ≡ ok r))
      → ((scale_in_to o s n old c).0 ≡ ok (record old { desired_count = n; running_count = n }))
        × ((scale_in_to o s n old c).1.tasks
            ≡ insert task.task_id (record task { last_status = "STOPPED" }) c.tasks)
        × (counts s (scale_in_to o s n old c).1
            ≡ some (record old { desired_count = n; running_count = n }))
  unfolding scale_in_to ◌>>=◌ continue
  scale_in-stops s n old ids task c first set takes =
      let told =
        (takes (record c {
          tasks = insert task.task_id (record task { last_status = "STOPPED" }) c.tasks;
        })).1 in
      let stop : stop_unprotected o s c.protected_task c ≡ stop_task o s (some task) c =
        ap (λ (p : Option (List String)). stop_unprotected o s p c) set
        ∙ ap (λ (p : Option TaskStatus). stop_task o s p c) first in
      let answer : (stop_unprotected o s c.protected_task c).0 ≡ ok tt =
        ap (λ (r : Result Error (Unit {0}) × EcsClient W). r.0) stop ∙ told in
      rw answer (
        refl,
        ap (λ (r : Result Error (Unit {0}) × EcsClient W). r.1.tasks) stop
            ∙ stop_task-tasks s task c,
        lookup-insert_self s _ _,
      )

  -- In a table where each task stands once, under its own name: a known service that is asked for fewer
  -- tasks than are desired, while all running tasks but one are
  -- protected as StartDrain protects them, and the notifier takes the news: that task is stopped, every
  -- other task keeps its entry, and the service is left with the count that was asked for.
  pub update_service_desired_count-stops_target :
      (s t : String) (n : ℕ) (old : EcsServiceControlState) (task : TaskStatus) (c : EcsClient W)
      → IsKeyed c.tasks
      → lookup s c.service_states ≡ some old
      → n < old.desired_count
      → lookup t c.tasks ≡ some task
      → IsRunning task
      → ((d : EcsClient W)
          → (r : Unit {0}) × ((notify_stopped o o.notifier s task.task_id d).0 ≡ ok r))
      → ((update_service_desired_count o s (pos n) (protect_survivors t c)).0
          ≡ ok (record old { desired_count = n; running_count = n }))
        × ((u : String)
            → lookup u (update_service_desired_count o s (pos n) (protect_survivors t c)).1.tasks
              ≡ (if str_eq t u
                  then some (record task { last_status = "STOPPED" })
                  else lookup u c.tasks))
        × (counts s (update_service_desired_count o s (pos n) (protect_survivors t c)).1
            ≡ some (record old { desired_count = n; running_count = n }))
  unfolding update_service_desired_count update_task_protection
  update_service_desired_count-stops_target s t n old task c k found less here runs takes =
      let d : EcsClient W = protect_survivors t c in
      let own : task.task_id ≡ t =
        lookup-All (λ (e : String × TaskStatus). e.1.task_id ≡ e.0) t task c.tasks k.own here in
      let (answer, tasks, left) =
        scale_in-stops s n old (survivors t (running_of c.tasks)) task d
          (target-unprotected t task c.tasks k here runs) refl takes in
      rw (update-less s n old d found less) (
        answer,
        (λ u. ap (lookup u) tasks ∙ lookup-insert task.task_id u _ c.tasks ∙ rw own refl),
        left,
      )
