-- ===== src/Coordinator/Entries.antt =====
-- Any sequence of calls of the coordinator, and what one call does to the entries.
use legacy_messenger_ecs_con.Base.{
  ℕ, ◌≡◌, ap, ◌⊎◌, inl, inr, ◌≢◌, Bool, true, false, String, Option, List, arith, lookup,
  lookup-insert_ne,
}
use legacy_messenger_ecs_con.Base.Results.{Result, ok}
use legacy_messenger_ecs_con.Domain.{ScaleInJob, Error}
use legacy_messenger_ecs_con.Coordinator.{
  ScaleInCoordinator, request, mark_draining, increase_zero_session_streak,
  reset_zero_session_streak, mark_applied, mark_failed, complete,
}

pub data Call : Type 0 where
  requests : ScaleInJob → ℕ → Call
  drains : String → String → List String → ℕ → Call
  counts : String → ℕ → Call
  resets : String → ℕ → Call
  applies : String → ℕ → Call
  fails : String → Option Error → ℕ → Call
  completes : String → ℕ → Call

abbrev pub service_of : Call → String
service_of (requests job now) = job.service_name
service_of (drains s target protected now) = s
service_of (counts s now) = s
service_of (resets s now) = s
service_of (applies s now) = s
service_of (fails s cause now) = s
service_of (completes s now) = s

abbrev pub is_ok : {A : Type 0} → Result Error A → Bool
is_ok (ok a) = true
is_ok _ = false

-- Whether the call succeeds, and the table that it leaves.
unfoldable pub perform : ScaleInCoordinator → Call → Bool × ScaleInCoordinator
perform c (requests job now) = let (r, d) = request c job now in (is_ok r, d)
perform c (drains s target protected now) =
    let (r, d) = mark_draining c s target protected now in (is_ok r, d)
perform c (counts s now) = let (r, d) = increase_zero_session_streak c s now in (is_ok r, d)
perform c (resets s now) = let (r, d) = reset_zero_session_streak c s now in (is_ok r, d)
perform c (applies s now) = let (r, d) = mark_applied c s now in (is_ok r, d)
perform c (fails s cause now) = let (r, d) = mark_failed c s cause now in (is_ok r, d)
perform c (completes s now) = let (r, d) = complete c s now in (is_ok r, d)

-- A call that fails leaves the table as it was, and no call changes the entry of another service.
pub perform-frame :
    (c : ScaleInCoordinator) (call : Call)
    → ((perform c call).0 ≡ false → (perform c call).1 ≡ c)
      × ((s : String) → service_of call ≢ s → lookup s (perform c call).1.jobs ≡ lookup s c.jobs)
unfolding perform request mark_draining increase_zero_session_streak reset_zero_session_streak
    mark_applied mark_failed complete
perform-frame c (requests job now) = (ground arith, (λ s h. grind (arith, lookup-insert_ne)))
perform-frame c (drains t target protected now) =
    (ground arith, (λ s h. grind (arith, lookup-insert_ne)))
perform-frame c (counts t now) = (ground arith, (λ s h. grind (arith, lookup-insert_ne)))
perform-frame c (resets t now) = (ground arith, (λ s h. grind (arith, lookup-insert_ne)))
perform-frame c (applies t now) = (ground arith, (λ s h. grind (arith, lookup-insert_ne)))
perform-frame c (fails t cause now) = (ground arith, (λ s h. grind (arith, lookup-insert_ne)))
perform-frame c (completes t now) = (ground arith, (λ s h. grind (arith, lookup-insert_ne)))

-- A call that fails, and a call for another service, leaves the entry of a service as it was.
pub perform-keeps_entry :
    (c : ScaleInCoordinator) (call : Call) (s : String)
    → ((perform c call).0 ≡ false) ⊎ (service_of call ≢ s)
    → lookup s (perform c call).1.jobs ≡ lookup s c.jobs
perform-keeps_entry c call s (inl failing) =
    ap (λ (d : ScaleInCoordinator). lookup s d.jobs) ((perform-frame c call).0 failing)
perform-keeps_entry c call s (inr other) = (perform-frame c call).1 s other
