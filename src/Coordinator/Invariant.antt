-- ===== src/Coordinator/Invariant.antt =====
-- What holds of the table of jobs between two calls.
use legacy_messenger_ecs_con.Base.{
  ℕ, ◌<◌, ◌≡◌, inl, inr, ◌≢◌, String, some, List, [], ◌∷◌, All, arith, lookup, insert, lookup-All,
  insert-All, IsDistinct, insert-IsDistinct, str_eq, str_eq_iff, Option-cases, if-cases, not,
}
use legacy_messenger_ecs_con.Base.Results.{err}
use legacy_messenger_ecs_con.Domain.{
  requested, draining, applied, completed, ScaleInJob, target_already_selected,
}
use legacy_messenger_ecs_con.Coordinator.{
  ScaleInCoordinator, new_scale_in_coordinator, request, mark_draining,
  increase_zero_session_streak, reset_zero_session_streak, mark_applied, mark_failed, complete,
  is_active_entry, Outcome, drain_entry, is_requested, is_draining, is_applied,
}
use legacy_messenger_ecs_con.Coordinator.Entries.{
  Call, requests, drains, counts, resets, applies, fails, completes, perform,
}
use legacy_messenger_ecs_con.Coordinator.Graph.{after}

-- A job stands under its own service name. It has a target from the moment it drains and none before,
-- and the time of its application from then on.
pub record IsWellFormed (s : String) (job : ScaleInJob) : Type 0 where
  pub key : job.service_name ≡ s
  pub unassigned :
      job.status ≡ requested → (job.target_task_id ≡ "") × (job.protected_task_ids ≡ [])
  pub target_draining : job.status ≡ draining → job.target_task_id ≢ ""
  pub target_applied : job.status ≡ applied → job.target_task_id ≢ ""
  pub target_completed : job.status ≡ completed → job.target_task_id ≢ ""
  pub timed_applied : job.status ≡ applied → 0 < job.applied_at
  pub timed_completed : job.status ≡ completed → 0 < job.applied_at

abbrev pub Entry : String × ScaleInJob → Type 0
Entry e = IsWellFormed e.0 e.1

pub record Inv (c : ScaleInCoordinator) : Type 0 where
  pub entries : All Entry c.jobs
  pub distinct : IsDistinct c.jobs

pub entry-IsWellFormed :
    (c : ScaleInCoordinator) (s : String) (job : ScaleInJob)
    → Inv c
    → lookup s c.jobs ≡ some job
    → IsWellFormed s job
entry-IsWellFormed c s job v e = lookup-All Entry s job c.jobs v.entries e

-- The clock is past the zero time.
abbrev pub IsTimed : Call → Type 0
IsTimed (requests job now) = 0 < now
IsTimed (drains s target protected now) = 0 < now
IsTimed (counts s now) = 0 < now
IsTimed (resets s now) = 0 < now
IsTimed (applies s now) = 0 < now
IsTimed (fails s cause now) = 0 < now
IsTimed (completes s now) = 0 < now

put-Inv :
    (c : ScaleInCoordinator) (s : String) (job : ScaleInJob)
    → Inv c
    → IsWellFormed s job
    → Inv (record { jobs = insert s job c.jobs })
put-Inv c s job v w = record {
  entries = insert-All Entry s job c.jobs w v.entries;
  distinct = insert-IsDistinct s job c.jobs v.distinct;
}

abbrev Kept : {A : Type 0} → Outcome A → Type 0
Kept o = Inv o.1

request-Inv :
    (c : ScaleInCoordinator) (job : ScaleInJob) (now : ℕ) → Inv c → Kept (request c job now)
unfolding request
request-Inv c job now v =
    if-cases Kept (is_active_entry (lookup job.service_name c.jobs)) (λ _. v)
      (λ _. put-Inv c job.service_name _ v (ground arith))

drain_entry-Inv :
    (c : ScaleInCoordinator) (s target : String) (protected : List String) (now : ℕ)
    (job : ScaleInJob)
    → Inv c
    → IsWellFormed s job
    → Kept (drain_entry c s target protected now (some job))
drain_entry-Inv c s target protected now job v w =
    if-cases Kept (not (is_requested job.status)) (λ _. v)
      λ _.
        if-cases Kept (str_eq target "") (λ _. v)
          λ named.
            if-cases Kept (not (str_eq job.target_task_id "")) (λ _. v)
              λ _. put-Inv c s _ v (ground (arith, w.key, str_eq_iff target ""))

-- Every call keeps the table well formed.
pub perform-Inv :
    (c : ScaleInCoordinator) (call : Call) → IsTimed call → Inv c → Inv (perform c call).1
unfolding perform mark_draining increase_zero_session_streak reset_zero_session_streak mark_applied
    mark_failed complete
perform-Inv c (requests job now) t v = request-Inv c job now v
perform-Inv c (drains s target protected now) t v = elim (Option-cases (lookup s c.jobs)) [
  | inl e ↦ rw e v
  | inr (job, e) ↦
      rw e (drain_entry-Inv c s target protected now job v (entry-IsWellFormed c s job v e))
]
perform-Inv c (counts s now) t v = elim (Option-cases (lookup s c.jobs)) [
  | inl e ↦ rw e v
  | inr (job, e) ↦
      let w = entry-IsWellFormed c s job v e in rw e (put-Inv c s _ v (ground (arith, w)))
]
perform-Inv c (resets s now) t v = elim (Option-cases (lookup s c.jobs)) [
  | inl e ↦ rw e v
  | inr (job, e) ↦
      let w = entry-IsWellFormed c s job v e in rw e (put-Inv c s _ v (ground (arith, w)))
]
perform-Inv c (applies s now) t v = elim (Option-cases (lookup s c.jobs)) [
  | inl e ↦ rw e v
  | inr (job, e) ↦
      let w = entry-IsWellFormed c s job v e in
      rw e (
        if-cases Kept (not (is_draining job.status)) (λ _. v)
          λ d. put-Inv c s _ v (ground (arith, w)))
]
perform-Inv c (fails s cause now) t v = elim (Option-cases (lookup s c.jobs)) [
  | inl e ↦ rw e v
  | inr (job, e) ↦
      let w = entry-IsWellFormed c s job v e in rw e (put-Inv c s _ v (ground (arith, w)))
]
perform-Inv c (completes s now) t v = elim (Option-cases (lookup s c.jobs)) [
  | inl e ↦ rw e v
  | inr (job, e) ↦
      let w = entry-IsWellFormed c s job v e in
      rw e (
        if-cases Kept (not (is_applied job.status)) (λ _. v)
          λ d. put-Inv c s _ v (ground (arith, w)))
]

-- From the empty table, and after any history of calls made at times after the zero time, the table is
-- well formed: each key once and each job under its own service name; a requested job has neither
-- target nor protected tasks; a job that drains, is applied or is completed has a target; an applied
-- or completed one has the time of its application.
pub after-Inv : (calls : List Call) → All IsTimed calls → Inv (after new_scale_in_coordinator calls)
unfolding after new_scale_in_coordinator
after-Inv [] t = record { entries = tt; distinct = tt }
after-Inv (call ∷ calls) t =
    perform-Inv (after new_scale_in_coordinator calls) call t.0 (after-Inv calls t.1)

-- In a well-formed table a job is never refused its drain mark because it already has a target: that
-- guard of MarkDraining never answers.
mark_draining-never_selected :
    (c : ScaleInCoordinator) (s target : String) (protected : List String) (now : ℕ) (t u : String)
    → Inv c
    → (mark_draining c s target protected now).0 ≢ err (target_already_selected t u)
unfolding mark_draining
mark_draining-never_selected c s target protected now t u v e =
    elim (Option-cases (lookup s c.jobs)) [
      | inl missing ↦ ground arith
      | inr (job, found) ↦
          let w = entry-IsWellFormed c s job v found in
          ground (arith, w.unassigned, str_eq_iff job.target_task_id "")
    ]
