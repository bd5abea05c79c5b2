-- ===== src/Scheduler/Isolation.antt =====
-- A tick over the jobs gives each active job its own step, and the jobs of other services are not
-- touched by it.
use legacy_messenger_ecs_con.Base.{
  ◌<◌, ◌≡◌, refl, sym, subst, ap, ◌∙◌, ◌≢◌, inl, inr, String, Bool, true, Option, some, List, [],
  ◌∷◌, All, Has, Dict, lookup, IsDistinct, arith, Bool-cases,
}
use legacy_messenger_ecs_con.Base.Results.{ok, Result-cases}
use legacy_messenger_ecs_con.Domain.{ScaleInJob}
use legacy_messenger_ecs_con.Coordinator.{
  ScaleInCoordinator, active_jobs, get_active_jobs, is_active_scale_in_status,
}
use legacy_messenger_ecs_con.Coordinator.Entries.{Call, perform-keeps_entry}
use legacy_messenger_ecs_con.Coordinator.Graph
use legacy_messenger_ecs_con.Coordinator.Invariant.{Entry, Inv}
use legacy_messenger_ecs_con.Coordinator.Active.{active_sound, get_active_jobs_iff}
use legacy_messenger_ecs_con.Exec.{continue, ◌>>=◌}
use legacy_messenger_ecs_con.System.{Services, System}
use legacy_messenger_ecs_con.ScaleIn.{process_or_fail, process_jobs, process}
use legacy_messenger_ecs_con.ScaleIn.Steps.{process_or_fail-no_error}
use legacy_messenger_ecs_con.ScaleIn.Alive.{PortsAlive, process_or_fail-Alive}
use legacy_messenger_ecs_con.Scheduler.Jobs.{Own, process_or_fail_traced}

after-keeps_entry :
    (c : ScaleInCoordinator) (calls : List Call) (owner s : String)
    → owner ≢ s
    → All (Own owner) calls
    → lookup s (Graph.after c calls).jobs ≡ lookup s c.jobs
unfolding Graph.after
after-keeps_entry c [] owner s other h = refl
after-keeps_entry c (call ∷ calls) owner s other h =
    perform-keeps_entry (Graph.after c calls) call s (inr (λ e. other (sym h.0.1 ∙ e)))
    ∙ after-keeps_entry c calls owner s other h.1

-- No two of the jobs are of one service.
abbrev OnePerService : List ScaleInJob → Type 0
OnePerService [] = Unit
OnePerService (j ∷ js) =
    All (λ (k : ScaleInJob). k.service_name ≢ j.service_name) js × OnePerService js

All_of_Has :
    {P : ScaleInJob → Type 0} (js : List ScaleInJob)
    → ((j : ScaleInJob) → Has j js → P j)
    → All P js
All_of_Has [] f = tt
All_of_Has (j ∷ js) f = (f j (inl refl), All_of_Has js (λ k h. f k (inr h)))

All_at :
    (P : ScaleInJob → Type 0) (js : List ScaleInJob) (j : ScaleInJob) → All P js → Has j js → P j
All_at P [] j a h = absurd h
All_at P (k ∷ js) j a (inl e) = subst P e a.0
All_at P (k ∷ js) j a (inr h) = All_at P js j a.1 h

active_jobs-OnePerService :
    (m : Dict ScaleInJob) → All Entry m → IsDistinct m → OnePerService (active_jobs m)
unfolding active_jobs
active_jobs-OnePerService [] v d = tt
active_jobs-OnePerService ((i, w) ∷ m) v d =
    elim (Bool-cases (is_active_scale_in_status w.status)) [
      | inl active ↦ rw active (
        All_of_Has (active_jobs m) (λ k h e.
            let found = (active_sound m k v.1 d.1 h).0 in
            ground (arith, v.0.key, d.0, ap (λ (s : String). lookup s m) (e ∙ v.0.key))),
        active_jobs-OnePerService m v.1 d.1,
      )
      | inr idle ↦ rw idle (active_jobs-OnePerService m v.1 d.1)
    ]

abbrev pub entry : {W F : Type 0} → String → System W F → Option ScaleInJob
entry s x = lookup s x.coordinator.jobs

module _ {W F : Type 0} (lt : F → F → Bool) (u : Services W F)
    (runs : (w : W) → 0 < u.time_now w) where
  -- Where the clock is past the zero time, the step of a job, with whatever outcome, leaves the entry
  -- of every other service as it was.
  pub process_or_fail-isolated :
      (job : ScaleInJob) (s : String) (x : System W F)
      → job.service_name ≢ s
      → lookup s (process_or_fail u job x).1.coordinator.jobs ≡ lookup s x.coordinator.jobs
  process_or_fail-isolated job s x other =
      let h = (process_or_fail_traced lt u runs job.service_name job refl).run x in
      ap (λ (c : ScaleInCoordinator). lookup s c.jobs) h.table
      ∙ after-keeps_entry x.coordinator h.calls job.service_name s other h.allowed

  others-isolated :
      (jobs : List ScaleInJob) (s : String) (x : System W F)
      → All (λ (k : ScaleInJob). k.service_name ≢ s) jobs
      → entry s (process_jobs u jobs x).1 ≡ entry s x
  unfolding process_jobs ◌>>=◌ continue
  others-isolated [] s x h = refl
  others-isolated (job ∷ jobs) s x h =
      let own = process_or_fail-isolated job s x h.0 in
      elim (Result-cases (process_or_fail u job x).0) [
        | inl (a, e) ↦ rw e (others-isolated jobs s (process_or_fail u job x).1 h.1 ∙ own)
        | inr (inl (d, e)) ↦ rw e own
        | inr (inr e) ↦ rw e own
      ]

  -- The turn of a job in a tick that leaves the state: the state before it, in which the job stands
  -- in the table, and the entry that its step left, which is that of the end.
  pub record Turn (job : ScaleInJob) (end : System W F) : Type 0 where
    pub before : System W F
    pub found : entry job.service_name before ≡ some job
    pub after : entry job.service_name end ≡ entry job.service_name (process_or_fail u job before).1

  process_or_fail-ok :
      (alive : PortsAlive u) (job : ScaleInJob) (x : System W F)
      → (process_or_fail u job x).0 ≡ ok tt
  process_or_fail-ok alive job x = elim (Result-cases (process_or_fail u job x).0) [
    | inl (a, h) ↦ h
    | inr (inl (e, h)) ↦ absurd (process_or_fail-no_error u job x e h)
    | inr (inr h) ↦ absurd ((process_or_fail-Alive u alive job).returns x h)
  ]

  process_jobs-Turn :
      (alive : PortsAlive u) (jobs : List ScaleInJob) (job : ScaleInJob) (x : System W F)
      → OnePerService jobs
      → Has job jobs
      → entry job.service_name x ≡ some job
      → Turn job (process_jobs u jobs x).1
  unfolding process_jobs ◌>>=◌ continue
  process_jobs-Turn alive [] job x d h e = absurd h
  process_jobs-Turn alive (j ∷ js) job x d (inl same) e =
      let step : (process_or_fail u j x).0 ≡ ok tt = process_or_fail-ok alive j x in
      rw step (
        subst (λ (k : ScaleInJob). Turn k (process_jobs u js (process_or_fail u j x).1).1) same
          (record {
            before = x;
            found = subst (λ (k : ScaleInJob). entry k.service_name x ≡ some k) (sym same) e;
            after = others-isolated js j.service_name (process_or_fail u j x).1 d.0;
          }))
  process_jobs-Turn alive (j ∷ js) job x d (inr later) e =
      let step : (process_or_fail u j x).0 ≡ ok tt = process_or_fail-ok alive j x in
      let other = λ (same : j.service_name ≡ job.service_name).
        All_at (λ (k : ScaleInJob). k.service_name ≢ j.service_name) js job d.0 later (sym same) in
      rw step (
        process_jobs-Turn alive js job (process_or_fail u j x).1 d.1 later
          (process_or_fail-isolated j job.service_name x other ∙ e))

  -- In a tick over a well-formed table, where no port dereferences nil, every active job has its turn.
  pub process-Turn :
      (alive : PortsAlive u) (job : ScaleInJob) (x : System W F)
      → Inv x.coordinator
      → entry job.service_name x ≡ some job
      → is_active_scale_in_status job.status ≡ true
      → Turn job (process u x).1
  unfolding process get_active_jobs
  process-Turn alive job x v e a =
      process_jobs-Turn alive (active_jobs x.coordinator.jobs) job x
        (active_jobs-OnePerService x.coordinator.jobs v.entries v.distinct)
        (unfold get_active_jobs in (get_active_jobs_iff x.coordinator job v).1 (e, a)) e
