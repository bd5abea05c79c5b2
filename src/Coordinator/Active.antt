-- ===== src/Coordinator/Active.antt =====
-- The jobs in progress: which ones the scheduler is handed, and that a service has one at most.
use legacy_messenger_ecs_con.Base.{
  ℕ, ◌≡◌, sym, subst, inl, inr, ◌≢◌, ◌↔◌, true, false, String, none, some, [], ◌∷◌, All, Has, Dict,
  arith, lookup, IsDistinct, str_eq, str_eq_iff, str_eq_refl, Option-cases, Bool-cases,
}
use legacy_messenger_ecs_con.Base.Results.{ok}
use legacy_messenger_ecs_con.Domain.{ScaleInJob}
use legacy_messenger_ecs_con.Coordinator.{
  ScaleInCoordinator, request, active_jobs, get_active_jobs, is_active_scale_in_status,
}
use legacy_messenger_ecs_con.Coordinator.Invariant.{Entry, Inv, entry-IsWellFormed}

-- A job that is active and stands in the table under its service.
abbrev pub IsActiveIn : Dict ScaleInJob → ScaleInJob → Type 0
IsActiveIn m job =
    (lookup job.service_name m ≡ some job) × (is_active_scale_in_status job.status ≡ true)

lookup_fresh :
    (i s : String) (m : Dict ScaleInJob) (job : ScaleInJob)
    → lookup i m ≡ none
    → lookup s m ≡ some job
    → str_eq i s ≡ false
lookup_fresh i s m job e f = elim (Bool-cases (str_eq i s)) [
  | inl same ↦ absurd (ground (arith, str_eq_iff i s))
  | inr other ↦ other
]

pub active_sound :
    (m : Dict ScaleInJob) (job : ScaleInJob)
    → All Entry m
    → IsDistinct m
    → Has job (active_jobs m)
    → IsActiveIn m job
unfolding active_jobs lookup
active_sound [] job v d h = absurd h
active_sound ((i, w) ∷ m) job v d h = elim (Bool-cases (is_active_scale_in_status w.status)) [
  | inl active ↦ elim (rw active at h) [
    | inl e ↦ ground (arith, v.0.key, str_eq_refl i)
    | inr older ↦ later (active_sound m job v.1 d.1 older)
  ]
  | inr idle ↦ later (active_sound m job v.1 d.1 (rw idle at h))
]
  where
    later : IsActiveIn m job → IsActiveIn ((i, w) ∷ m) job
    later (found, active) = (rw (lookup_fresh i job.service_name m job d.0 found) found, active)

pub active_complete :
    (m : Dict ScaleInJob) (s : String) (job : ScaleInJob)
    → lookup s m ≡ some job
    → is_active_scale_in_status job.status ≡ true
    → Has job (active_jobs m)
unfolding active_jobs lookup
active_complete [] s job e a = absurd (ground arith)
active_complete ((i, w) ∷ m) s job e a = elim (Bool-cases (str_eq i s)) [
  | inl same ↦ ground (arith, same)
  | inr other ↦ let rest = active_complete m s job (ground arith) a in ground (arith, rest)
]

-- In a well-formed table, GetActiveJobs gives exactly the jobs that are requested, draining or applied
-- and stand in the table under their service.
pub get_active_jobs_iff :
    (c : ScaleInCoordinator) (job : ScaleInJob)
    → Inv c
    → Has job (get_active_jobs c) ↔ (
        (lookup job.service_name c.jobs ≡ some job) × (is_active_scale_in_status job.status ≡ true))
unfolding get_active_jobs
get_active_jobs_iff c job v = (
  active_sound c.jobs job v.entries v.distinct,
  (λ h. active_complete c.jobs job.service_name job h.0 h.1),
)

-- In a well-formed table, a new job is accepted exactly when no active job of its service is listed.
pub request_iff :
    (c : ScaleInCoordinator) (job : ScaleInJob) (now : ℕ)
    → Inv c
    → ((request c job now).0 ≡ ok tt)
      ↔ ((old : ScaleInJob) → Has old (get_active_jobs c) → old.service_name ≢ job.service_name)
unfolding request
request_iff c job now v = (
  (λ e old h same.
      let found = (get_active_jobs_iff c old v).0 h in
      let here = subst (λ (s : String). lookup s c.jobs ≡ some old) same found.0 in
      ground (arith, here, found.1)),
  (λ none_active. elim (Option-cases (lookup job.service_name c.jobs)) [
    | inl missing ↦ rw (missing, request)
    | inr (old, found) ↦ elim (Bool-cases (is_active_scale_in_status old.status)) [
      | inl active ↦
          let key = (entry-IsWellFormed c job.service_name old v found).key in
          let here = subst (λ (s : String). lookup s c.jobs ≡ some old) (sym key) found in
          absurd (none_active old ((get_active_jobs_iff c old v).1 (here, active)) key)
      | inr idle ↦ rw (found, request) (rw idle)
    ]
  ]),
)
