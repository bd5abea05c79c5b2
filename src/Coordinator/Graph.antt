-- ===== src/Coordinator/Graph.antt =====
-- The life of a scale-in job, as the edges between its states.
use legacy_messenger_ecs_con.Base.{
  ℕ, ◌≡◌, refl, ap, subst, ◌⊎◌, inl, inr, String, Option, none, some, List, [], ◌∷◌, arith, lookup,
  lookup-insert_self, str_eq, str_eq_iff, Bool-cases,
}
use legacy_messenger_ecs_con.Domain.{
  ScaleInStatus, requested, draining, applied, completed, failed, ScaleInJob,
}
use legacy_messenger_ecs_con.Coordinator.{
  ScaleInCoordinator, request, mark_draining, increase_zero_session_streak,
  reset_zero_session_streak, mark_applied, mark_failed, complete,
}
use legacy_messenger_ecs_con.Coordinator.Entries.{
  Call, requests, drains, counts, resets, applies, fails, completes, service_of, perform,
  perform-frame,
}

-- The state of a service's job, if it has one.
abbrev pub entry_state : Option ScaleInJob → Option ScaleInStatus
entry_state none = none
entry_state (some job) = some job.status

unfoldable pub state_of : ScaleInCoordinator → String → Option ScaleInStatus
state_of c s = entry_state (lookup s c.jobs)

infix 40 ◌⟶◌
pub data ◌⟶◌ : Option ScaleInStatus → Option ScaleInStatus → Type 0 where
  stay : {x : Option ScaleInStatus} → x ⟶ x
  first : none ⟶ some requested
  again_completed : some completed ⟶ some requested
  again_failed : some failed ⟶ some requested
  drain : some requested ⟶ some draining
  apply : some draining ⟶ some applied
  finish : some applied ⟶ some completed
  give_up : {x : ScaleInStatus} → some x ⟶ some failed

ruleset edges = (stay, first, again_completed, again_failed, drain, apply, finish, give_up)

own_edge :
    (c : ScaleInCoordinator) (call : Call)
    → state_of c (service_of call) ⟶ state_of (perform c call).1 (service_of call)
unfolding state_of perform request mark_draining increase_zero_session_streak
    reset_zero_session_streak mark_applied mark_failed complete
own_edge c (requests job now) = grind (arith, lookup-insert_self, edges)
own_edge c (drains s target protected now) = grind (arith, lookup-insert_self, edges)
own_edge c (counts s now) = grind (arith, lookup-insert_self, edges)
own_edge c (resets s now) = grind (arith, lookup-insert_self, edges)
own_edge c (applies s now) = grind (arith, lookup-insert_self, edges)
own_edge c (fails s cause now) = grind (arith, lookup-insert_self, edges)
own_edge c (completes s now) = grind (arith, lookup-insert_self, edges)

-- Whatever is called, with whatever outcome, the job of every service stays in its state or follows an
-- edge of the diagram: it is requested when there is none or the old one has ended, and goes from
-- requested to draining to applied to completed, or to failed.
perform-⟶ :
    (c : ScaleInCoordinator) (call : Call) (s : String)
    → state_of c s ⟶ state_of (perform c call).1 s
unfolding state_of
perform-⟶ c call s = elim (Bool-cases (str_eq (service_of call) s)) [
  | inl e ↦
      subst (λ (t : String). state_of c t ⟶ state_of (perform c call).1 t)
        ((str_eq_iff (service_of call) s).0 e) (own_edge c call)
  | inr e ↦
      rw ((perform-frame c call).1 s (λ same. cc ((str_eq_iff (service_of call) s).1 same))) stay
]

-- Which call moves a job, and between which states.
abbrev Cause : Call → Option ScaleInStatus → Option ScaleInStatus → Type 0
Cause (requests job now) x y = y ≡ some requested
Cause (drains s target protected now) x y = (x ≡ some requested) × (y ≡ some draining)
Cause (counts s now) x y = ⊥
Cause (resets s now) x y = ⊥
Cause (applies s now) x y = (x ≡ some draining) × (y ≡ some applied)
Cause (fails s cause now) x y = y ≡ some failed
Cause (completes s now) x y = (x ≡ some applied) × (y ≡ some completed)

own-Cause :
    (c : ScaleInCoordinator) (call : Call)
    → (state_of (perform c call).1 (service_of call) ≡ state_of c (service_of call))
      ⊎ Cause call (state_of c (service_of call)) (state_of (perform c call).1 (service_of call))
unfolding state_of perform request mark_draining increase_zero_session_streak
    reset_zero_session_streak mark_applied mark_failed complete
own-Cause c (requests job now) = grind (arith, lookup-insert_self)
own-Cause c (drains s target protected now) = grind (arith, lookup-insert_self)
own-Cause c (counts s now) = grind (arith, lookup-insert_self)
own-Cause c (resets s now) = grind (arith, lookup-insert_self)
own-Cause c (applies s now) = grind (arith, lookup-insert_self)
own-Cause c (fails s cause now) = grind (arith, lookup-insert_self)
own-Cause c (completes s now) = grind (arith, lookup-insert_self)

perform-Cause :
    (c : ScaleInCoordinator) (call : Call) (s : String)
    → (state_of (perform c call).1 s ≡ state_of c s)
      ⊎ ((service_of call ≡ s) × Cause call (state_of c s) (state_of (perform c call).1 s))
perform-Cause c call s = elim (Bool-cases (str_eq (service_of call) s)) [
  | inl e ↦
      let same = (str_eq_iff (service_of call) s).0 e in
      subst
        (λ (t : String).
          (state_of (perform c call).1 t ≡ state_of c t)
          ⊎ ((service_of call ≡ t) × Cause call (state_of c t) (state_of (perform c call).1 t)))
        same (with_service (own-Cause c call))
  | inr e ↦ inl (
      unfold state_of in
      ap entry_state
        ((perform-frame c call).1 s (λ same. cc ((str_eq_iff (service_of call) s).1 same))))
]
  where
    with_service :
        (state_of (perform c call).1 (service_of call) ≡ state_of c (service_of call))
          ⊎ Cause call
              (state_of c (service_of call))
              (state_of (perform c call).1 (service_of call))
        → (state_of (perform c call).1 (service_of call) ≡ state_of c (service_of call))
          ⊎ ((service_of call ≡ service_of call)
              × Cause call
                  (state_of c (service_of call))
                  (state_of (perform c call).1 (service_of call)))
    with_service (inl e) = inl e
    with_service (inr e) = inr (refl, e)

-- The table after a history of calls, the newest first.
unfoldable pub after : ScaleInCoordinator → List Call → ScaleInCoordinator
after c [] = c
after c (call ∷ calls) = (perform (after c calls) call).1

-- The calls that brought the job of a service to a state stand in the history, in this order:
-- a request, then a drain mark, then an applied mark, then a completion.
pub data Route (s : String) : ScaleInStatus → List Call → Type 0 where
  asked :
      {job : ScaleInJob} {now : ℕ} {calls : List Call}
      → job.service_name ≡ s
      → Route s requested (requests job now ∷ calls)
  drained :
      {target : String} {protected : List String} {now : ℕ} {calls : List Call}
      → Route s requested calls
      → Route s draining (drains s target protected now ∷ calls)
  lowered :
      {now : ℕ} {calls : List Call}
      → Route s draining calls
      → Route s applied (applies s now ∷ calls)
  ended :
      {now : ℕ} {calls : List Call}
      → Route s applied calls
      → Route s completed (completes s now ∷ calls)
  before :
      {x : ScaleInStatus} {call : Call} {calls : List Call}
      → Route s x calls
      → Route s x (call ∷ calls)

-- What the induction carries: a job that has not failed came along the path to its state.
abbrev HasRoute : String → Option ScaleInStatus → List Call → Type 0
HasRoute s none calls = Unit
HasRoute s (some failed) calls = Unit
HasRoute s (some x) calls = Route s x calls

HasRoute-before :
    (s : String) (x : Option ScaleInStatus) (call : Call) (calls : List Call)
    → HasRoute s x calls
    → HasRoute s x (call ∷ calls)
HasRoute-before s none call calls h = tt
HasRoute-before s (some failed) call calls h = tt
HasRoute-before s (some requested) call calls h = before h
HasRoute-before s (some draining) call calls h = before h
HasRoute-before s (some applied) call calls h = before h
HasRoute-before s (some completed) call calls h = before h

HasRoute-Cause :
    (s : String) (x y : Option ScaleInStatus) (call : Call) (calls : List Call)
    → service_of call ≡ s
    → Cause call x y
    → HasRoute s x calls
    → HasRoute s y (call ∷ calls)
HasRoute-Cause s x y (requests job now) calls e k h = rw k (asked e)
HasRoute-Cause s x y (drains t target protected now) calls e k h =
    rw (k.1, e) (drained (rw k.0 at h))
HasRoute-Cause s x y (counts t now) calls e k h = absurd k
HasRoute-Cause s x y (resets t now) calls e k h = absurd k
HasRoute-Cause s x y (applies t now) calls e k h = rw (k.1, e) (lowered (rw k.0 at h))
HasRoute-Cause s x y (fails t cause now) calls e k h = rw k tt
HasRoute-Cause s x y (completes t now) calls e k h = rw (k.1, e) (ended (rw k.0 at h))

after-HasRoute :
    (c : ScaleInCoordinator) (calls : List Call) (s : String)
    → state_of c s ≡ none
    → HasRoute s (state_of (after c calls) s) calls
unfolding after
after-HasRoute c [] s e = rw e tt
after-HasRoute c (call ∷ calls) s e = elim (perform-Cause (after c calls) call s) [
  | inl same ↦
      rw same
        (HasRoute-before s (state_of (after c calls) s) call calls (after-HasRoute c calls s e))
  | inr (own, cause) ↦
      HasRoute-Cause s (state_of (after c calls) s) _ call calls own cause
        (after-HasRoute c calls s e)
]

-- A job whose table entry is completed after any history of calls, from a table with no entry for the
-- service, was requested, marked draining, marked applied and completed, in this order.
pub completed-Route :
    (c : ScaleInCoordinator) (calls : List Call) (s : String)
    → state_of c s ≡ none
    → state_of (after c calls) s ≡ some completed
    → Route s completed calls
completed-Route c calls s e done = rw done at (after-HasRoute c calls s e)
