-- ===== src/Scheduler/Ticks.antt =====
-- What any sequence of ticks does to the policy and to the table of jobs.
use legacy_messenger_ecs_con.Base.{◌<◌, refl, List, [], ◌∷◌}
use legacy_messenger_ecs_con.Floats.{Float64}
use legacy_messenger_ecs_con.Domain.{ScaleInJob}
use legacy_messenger_ecs_con.Coordinator.{get_active_jobs}
use legacy_messenger_ecs_con.Coordinator.Invariant.{IsTimed}
use legacy_messenger_ecs_con.Exec.{Respects, ignore-Respects}
use legacy_messenger_ecs_con.System.{Services, System}
use legacy_messenger_ecs_con.ScaleIn.{process_or_fail, process_jobs, process}
use legacy_messenger_ecs_con.Scheduler.{Tick, scaling, scale_in_jobs, execute, run}
use legacy_messenger_ecs_con.Scheduler.Effects.{Follows, Follows-mono, pure_traced, bind_traced}
use legacy_messenger_ecs_con.Scheduler.Scaling.{evaluate_and_scale_traced}
use legacy_messenger_ecs_con.Scheduler.Jobs.{Own, process_or_fail_traced}

module _ (fl : Float64) {W : Type 0} (u : Services W fl.F) (runs : (w : W) → 0 < u.time_now w) where
  open fl use {F, lt}

  any_job_traced : (job : ScaleInJob) → Respects (Follows lt IsTimed) (process_or_fail u job)
  any_job_traced job = record {
    run = λ x.
        Follows-mono lt (Own job.service_name) IsTimed (λ k h. h.0) x _
          ((process_or_fail_traced lt u runs job.service_name job refl).run x);
  }

  process_jobs_traced :
      (jobs : List ScaleInJob) → Respects (Follows lt IsTimed) (process_jobs u jobs)
  unfolding process_jobs
  process_jobs_traced [] = pure_traced lt IsTimed tt
  process_jobs_traced (job ∷ jobs) =
      bind_traced lt IsTimed _ _ (any_job_traced job) λ _. process_jobs_traced jobs

  pub process_traced : Respects (Follows lt IsTimed) (process u)
  unfolding process
  process_traced = record { run = λ x. (process_jobs_traced (get_active_jobs x.coordinator)).run x }

  execute_traced : (t : Tick) → Respects (Follows lt IsTimed) (execute fl u t)
  unfolding execute
  execute_traced (scaling s) = ignore-Respects _ (evaluate_and_scale_traced fl u runs s)
  execute_traced scale_in_jobs = ignore-Respects _ process_traced

  run_traced : (ts : List Tick) → Respects (Follows lt IsTimed) (run fl u ts)
  unfolding run
  run_traced [] = pure_traced lt IsTimed tt
  run_traced (t ∷ ts) = bind_traced lt IsTimed _ _ (execute_traced t) λ _. run_traced ts

  -- Whatever the ports answer and in whatever order the timers fire, where the clock is past the zero
  -- time: the policy and the table of jobs that a run leaves come from those that it found by calls of
  -- the methods of the policy and of the coordinator, the latter at times past the zero time.
  pub run-Follows : (ts : List Tick) (x : System W F) → Follows lt IsTimed x (run fl u ts x).1
  run-Follows ts x = (run_traced ts).run x
