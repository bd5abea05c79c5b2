-- ===== src/Scheduler/Jobs.antt =====
-- What a step of a scale-in job does to the policy and to the table of jobs: calls for its own service.
use legacy_messenger_ecs_con.Base.{
  ◌+◌, ◌<◌, ◌==◌, ◌≡◌, refl, String, Bool, true, false, Option, none, some, List, [], ◌∷◌, ltb,
  str_eq,
}
use legacy_messenger_ecs_con.Domain.{
  scale_in, ScaleInStatus, requested, draining, applied, ScaleInJob,
}
use legacy_messenger_ecs_con.Policy.History
use legacy_messenger_ecs_con.Demand.{TaskInfo}
use legacy_messenger_ecs_con.Coordinator.Entries.{
  Call, drains, counts, resets, applies, fails, completes, perform, service_of,
}
use legacy_messenger_ecs_con.Coordinator.Invariant.{IsTimed}
use legacy_messenger_ecs_con.Exec.{Exec, Respects, ignore-Respects, wrap-Respects}
use legacy_messenger_ecs_con.System.{Services, System}
use legacy_messenger_ecs_con.ScaleIn.{
  or_no_target, pick_target, protect, survivors, timeout, process_status, start_drain, check_drain,
  lower_desired_count, check_completion, check_stopped, finish_job, process_job, process_or_fail,
  select_scale_in_target,
}
use legacy_messenger_ecs_con.Scheduler.Effects.{
  Follows, call_traced, pure_traced, raise_traced, bind_traced, coordinate_traced, policy_traced,
  clock_traced, handle_traced, if_traced,
}

-- A call for one service, past the zero time.
abbrev pub Own : String → Call → Type 0
Own s k = IsTimed k × (service_of k ≡ s)

module _ {W F : Type 0} (lt : F → F → Bool) (u : Services W F) (runs : (w : W) → 0 < u.time_now w)
    (owner : String) where
  abbrev Owned : {A : Type 0} → Exec (System W F) A → Type 0
  Owned = Respects (Follows lt (Own owner))

  or_no_target_traced : (s : String) (t : Option TaskInfo) → Owned (or_no_target u s t)
  or_no_target_traced s none = raise_traced lt (Own owner) _
  or_no_target_traced s (some t) = pure_traced lt (Own owner) t

  select_scale_in_target_traced :
      (s : String) (running : List String) → Owned (select_scale_in_target u s running)
  unfolding select_scale_in_target
  select_scale_in_target_traced s running =
      bind_traced lt (Own owner) _ _ (wrap-Respects _ _ (call_traced lt (Own owner) _)) λ reports.
        bind_traced lt (Own owner) _ _ (wrap-Respects _ _ (call_traced lt (Own owner) _))
          λ invalid. or_no_target_traced s (pick_target reports invalid.0 running none)

  protect_traced : (ts : List String) (flag : Bool) → Owned (protect u ts flag)
  protect_traced [] flag = pure_traced lt (Own owner) tt
  protect_traced (t ∷ ts) flag = call_traced lt (Own owner) _

  start_drain_traced : (job : ScaleInJob) → job.service_name ≡ owner → Owned (start_drain u job)
  unfolding start_drain perform
  start_drain_traced job same =
      bind_traced lt (Own owner) _ _ (wrap-Respects _ _ (call_traced lt (Own owner) _)) λ running.
        bind_traced lt (Own owner) _ _ (select_scale_in_target_traced job.service_name running)
          λ target.
            bind_traced lt (Own owner) _ _
              (wrap-Respects _ _ (protect_traced (survivors target.task_id running) true))
              λ _.
                bind_traced lt (Own owner) _ _
                  (handle_traced lt (Own owner) _ _ (call_traced lt (Own owner) _) λ cause.
                    bind_traced lt (Own owner) _ _
                      (ignore-Respects _ (protect_traced (survivors target.task_id running) false))
                      λ _. raise_traced lt (Own owner) _)
                  λ _. clock_traced lt (Own owner) u _ runs λ now timed.
                    coordinate_traced lt (Own owner) _
                      (drains job.service_name target.task_id (survivors target.task_id running)
                        now)
                      (timed, same) (λ c. refl)

  lower_desired_count_traced :
      (job : ScaleInJob) → job.service_name ≡ owner → Owned (lower_desired_count u job)
  unfolding lower_desired_count History.step perform
  lower_desired_count_traced job same =
      bind_traced lt (Own owner) _ _ (call_traced lt (Own owner) _) λ _.
        clock_traced lt (Own owner) u _ runs λ now _.
          bind_traced lt (Own owner) _ _
            (policy_traced lt (Own owner) _ (λ x. History.records job.service_name scale_in now))
            λ _. clock_traced lt (Own owner) u _ runs λ at timed.
              coordinate_traced lt (Own owner) _ (applies job.service_name at) (timed, same)
                (λ c. refl)

  check_drain_traced : (job : ScaleInJob) → job.service_name ≡ owner → Owned (check_drain u job)
  unfolding check_drain perform
  check_drain_traced job same =
      bind_traced lt (Own owner) _ _ (call_traced lt (Own owner) _) λ report.
        clock_traced lt (Own owner) u _ runs λ now timed.
          if_traced lt (Own owner) (ltb 0 report.session_count) _ _
            (coordinate_traced lt (Own owner) _ (resets job.service_name now) (timed, same)
              (λ c. refl))
            (bind_traced lt (Own owner) _ _
              (coordinate_traced lt (Own owner) _ (counts job.service_name now) (timed, same)
                (λ c. refl))
              λ streak.
                if_traced lt (Own owner) (ltb streak 3) _ _ (pure_traced lt (Own owner) tt)
                  (lower_desired_count_traced job same))

  finish_job_traced : (job : ScaleInJob) → job.service_name ≡ owner → Owned (finish_job u job)
  unfolding finish_job perform
  finish_job_traced job same =
      bind_traced lt (Own owner) _ _ (wrap-Respects _ _ (call_traced lt (Own owner) _)) λ _.
        bind_traced lt (Own owner) _ _ (wrap-Respects _ _ (call_traced lt (Own owner) _)) λ running.
          bind_traced lt (Own owner) _ _ (wrap-Respects _ _ (call_traced lt (Own owner) _)) λ _.
            clock_traced lt (Own owner) u _ runs λ now timed.
              coordinate_traced lt (Own owner) _ (completes job.service_name now) (timed, same)
                (λ c. refl)

  check_completion_traced :
      (job : ScaleInJob) → job.service_name ≡ owner → Owned (check_completion u job)
  unfolding check_completion check_stopped
  check_completion_traced job same = clock_traced lt (Own owner) u _ runs λ now _.
      if_traced lt (Own owner) (job.applied_at == 0) _ _ (raise_traced lt (Own owner) _) (
        if_traced lt (Own owner) (ltb (job.applied_at + timeout u) now) _ _
          (raise_traced lt (Own owner) _)
          (bind_traced lt (Own owner) _ _ (wrap-Respects _ _ (call_traced lt (Own owner) _))
            λ state. if_traced lt (Own owner) _ _ _ (pure_traced lt (Own owner) tt) (
              bind_traced lt (Own owner) _ _ (wrap-Respects _ _ (call_traced lt (Own owner) _))
                λ task.
                  if_traced lt (Own owner) (str_eq task.last_status "STOPPED") _ _
                    (finish_job_traced job same)
                    (if_traced lt (Own owner) _ _ _ (pure_traced lt (Own owner) tt)
                      (raise_traced lt (Own owner) _)))))

  process_status_traced :
      (x : ScaleInStatus) (job : ScaleInJob)
      → job.service_name ≡ owner
      → Owned (process_status u x job)
  process_status_traced requested job same = start_drain_traced job same
  process_status_traced draining job same = check_drain_traced job same
  process_status_traced applied job same = check_completion_traced job same
  process_status_traced _ job same = pure_traced lt (Own owner) tt

  pub process_or_fail_traced :
      (job : ScaleInJob) → job.service_name ≡ owner → Owned (process_or_fail u job)
  unfolding process_or_fail process_job perform
  process_or_fail_traced job same =
      handle_traced lt (Own owner) _ _ (process_status_traced job.status job same) λ cause.
        clock_traced lt (Own owner) u _ runs λ now timed. ignore-Respects _ (
          coordinate_traced lt (Own owner) _ (fails job.service_name (some cause) now) (timed, same)
            (λ c. refl))
