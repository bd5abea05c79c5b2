-- ===== src/Coordinator.antt =====
-- internal/application/usecase/scale_in_coordinator.go, with MarkFailed and Complete of
-- scale_in_usecase.go: the table of scale-in jobs that the two schedulers share. The mutex makes each
-- method one step. `now` is what time.Now() returns in the call; a method's pointer to a job is the
-- entry of the table, so a write through it is a write of the entry.
pub mod Entries
pub mod Graph
pub mod Invariant
pub mod Active
use legacy_messenger_ecs_con.Base.{
  ℕ, suc, ◌+◌, String, Bool, true, false, not, Option, none, some, List, [], ◌∷◌, Dict, lookup,
  insert, str_eq, if◌then◌else◌,
}
use legacy_messenger_ecs_con.Base.Results.{Result, ok, err, panic}
use legacy_messenger_ecs_con.Domain.{
  ScaleInStatus, requested, draining, applied, completed, failed, ScaleInJob, Error,
  job_already_active, job_not_found, invalid_transition, target_empty, target_already_selected,
  cannot_apply, cannot_complete,
}

pub record ScaleInCoordinator : Type 0 where
  pub jobs : Dict ScaleInJob

-- What a method returns, and the table that it leaves.
abbrev pub Outcome : Type 0 → Type 0
Outcome A = Result Error A × ScaleInCoordinator

unfoldable pub new_scale_in_coordinator : ScaleInCoordinator
new_scale_in_coordinator = record { jobs = [] }

abbrev pub is_active_scale_in_status : ScaleInStatus → Bool
is_active_scale_in_status requested = true
is_active_scale_in_status draining = true
is_active_scale_in_status applied = true
is_active_scale_in_status _ = false

abbrev pub is_active_entry : Option ScaleInJob → Bool
is_active_entry none = false
is_active_entry (some job) = is_active_scale_in_status job.status

abbrev entry_status : Option ScaleInJob → ScaleInStatus
entry_status none = failed
entry_status (some job) = job.status

abbrev put : ScaleInCoordinator → String → ScaleInJob → ScaleInCoordinator
put c s job = record { jobs = insert s job c.jobs }

unfoldable pub request : ScaleInCoordinator → ScaleInJob → ℕ → Outcome Unit
request c job now =
    let current = lookup job.service_name c.jobs in
    if is_active_entry current
    then (err (job_already_active job.service_name (entry_status current)), c)
    else (
      ok tt,
      put c job.service_name (record job {
        status = requested;
        target_task_id = "";
        protected_task_ids = [];
        requested_at = now;
        updated_at = now;
      }),
    )

-- The jobs that are requested, draining or applied, in the order in which the table is gone through.
-- Go leaves that order open; the theorems below hold of any table, so of any order.
unfoldable pub active_jobs : Dict ScaleInJob → List ScaleInJob
active_jobs [] = []
active_jobs ((s, job) ∷ m) =
    if is_active_scale_in_status job.status then job ∷ active_jobs m else active_jobs m

unfoldable pub get_active_jobs : ScaleInCoordinator → List ScaleInJob
unfolding active_jobs
get_active_jobs c = active_jobs c.jobs

abbrev pub is_requested : ScaleInStatus → Bool
is_requested requested = true
is_requested _ = false

abbrev pub is_draining : ScaleInStatus → Bool
is_draining draining = true
is_draining _ = false

abbrev pub is_applied : ScaleInStatus → Bool
is_applied applied = true
is_applied _ = false

abbrev pub drain_entry :
    ScaleInCoordinator → String → String → List String → ℕ → Option ScaleInJob → Outcome Unit
drain_entry c s target protected now none = (err (job_not_found s), c)
drain_entry c s target protected now (some job) =
    if not (is_requested job.status)
    then (err (invalid_transition job.status draining), c)
    else if str_eq target ""
    then (err (target_empty s), c)
    else if not (str_eq job.target_task_id "")
    then (err (target_already_selected s job.target_task_id), c)
    else (
      ok tt,
      put c s (record job {
        target_task_id = target;
        protected_task_ids = protected;
        status = draining;
        updated_at = now;
      }),
    )

unfoldable pub mark_draining : ScaleInCoordinator → String → String → List String → ℕ → Outcome Unit
mark_draining c s target protected now = drain_entry c s target protected now (lookup s c.jobs)

abbrev increase_entry : ScaleInCoordinator → String → ℕ → Option ScaleInJob → Outcome ℕ
increase_entry c s now none = (err (job_not_found s), c)
increase_entry c s now (some job) = (
  ok (suc job.zero_session_streak),
  put c s (record job { zero_session_streak = suc job.zero_session_streak; updated_at = now }),
)

unfoldable pub increase_zero_session_streak : ScaleInCoordinator → String → ℕ → Outcome ℕ
increase_zero_session_streak c s now = increase_entry c s now (lookup s c.jobs)

abbrev reset_entry : ScaleInCoordinator → String → ℕ → Option ScaleInJob → Outcome Unit
reset_entry c s now none = (err (job_not_found s), c)
reset_entry c s now (some job) =
    (ok tt, put c s (record job { zero_session_streak = 0; updated_at = now }))

unfoldable pub reset_zero_session_streak : ScaleInCoordinator → String → ℕ → Outcome Unit
reset_zero_session_streak c s now = reset_entry c s now (lookup s c.jobs)

abbrev apply_entry : ScaleInCoordinator → String → ℕ → Option ScaleInJob → Outcome Unit
apply_entry c s now none = (err (job_not_found s), c)
apply_entry c s now (some job) =
    if not (is_draining job.status)
    then (err (cannot_apply job.status), c)
    else (ok tt, put c s (record job { status = applied; applied_at = now; updated_at = now }))

unfoldable pub mark_applied : ScaleInCoordinator → String → ℕ → Outcome Unit
mark_applied c s now = apply_entry c s now (lookup s c.jobs)

-- A nil cause leaves the last error as it was.
abbrev last_error_of : Option Error → Option Error → Option Error
last_error_of none old = old
last_error_of (some cause) old = some cause

abbrev fail_entry :
    ScaleInCoordinator → String → Option Error → ℕ → Option ScaleInJob → Outcome Unit
fail_entry c s cause now none = (err (job_not_found s), c)
fail_entry c s cause now (some job) = (
  ok tt,
  put c s (record job {
    status = failed;
    updated_at = now;
    last_error = last_error_of cause job.last_error;
  }),
)

unfoldable pub mark_failed : ScaleInCoordinator → String → Option Error → ℕ → Outcome Unit
mark_failed c s cause now = fail_entry c s cause now (lookup s c.jobs)

abbrev complete_entry : ScaleInCoordinator → String → ℕ → Option ScaleInJob → Outcome Unit
complete_entry c s now none = (err (job_not_found s), c)
complete_entry c s now (some job) =
    if not (is_applied job.status)
    then (err (cannot_complete s job.status), c)
    else (ok tt, put c s (record job { status = completed; updated_at = now }))

unfoldable pub complete : ScaleInCoordinator → String → ℕ → Outcome Unit
complete c s now = complete_entry c s now (lookup s c.jobs)
