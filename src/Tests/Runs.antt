-- ===== src/Tests/Runs.antt =====
-- Runs of the timers over ports that answer, with a clock that stands still.
use legacy_messenger_ecs_con.Base.{
  ◌*◌, ◌<◌, ◌≡◌, refl, some, List, [], ◌∷◌, lookup, insert, arith, str_eq_iff,
}
use legacy_messenger_ecs_con.Base.Results.{ok}
use legacy_messenger_ecs_con.Floats.Exact.{Fraction, fractions}
use legacy_messenger_ecs_con.Policy.{
  second, evaluate, evaluate_scale_in, new_scaling_policy, scale_in_target,
}
use legacy_messenger_ecs_con.Demand.{
  evaluate_scaling_demand, calculate_required_task_count, calculate_total_session_count,
  get_separated_running_task,
}
use legacy_messenger_ecs_con.AutoScaling.{evaluate_and_scale}
use legacy_messenger_ecs_con.Domain.{draining, applied, completed, ScaleInJob}
use legacy_messenger_ecs_con.Coordinator.{
  new_scale_in_coordinator, request, get_active_jobs, mark_draining, increase_zero_session_streak,
  mark_applied, complete,
}
use legacy_messenger_ecs_con.Coordinator.Entries.{Call}
use legacy_messenger_ecs_con.Coordinator.Graph
use legacy_messenger_ecs_con.Coordinator.Graph.{state_of, Route}
use legacy_messenger_ecs_con.Coordinator.Invariant.{Inv}
use legacy_messenger_ecs_con.Exec.{◌>>=◌}
use legacy_messenger_ecs_con.System.{Services, call, coordinate, clock, find_service}
use legacy_messenger_ecs_con.ScaleIn.{pick_target, survivors, process, process_or_fail}
use legacy_messenger_ecs_con.ScaleIn.Alive.{PortsAlive}
use legacy_messenger_ecs_con.Scheduler.{Tick, scaling, scale_in_jobs, run}
use legacy_messenger_ecs_con.Scheduler.Guarantees.{start, IsSound, run-IsSound, run-Route}
use legacy_messenger_ecs_con.Scheduler.Isolation.{process_or_fail-isolated}
use legacy_messenger_ecs_con.Scheduler.Completion.{TimedOut, process-TimedOut}
use legacy_messenger_ecs_con.Tests.Sample.{World, quiet, counts_of, ecs, services, job, with_job}

-- The counts are reached, and the target has stopped.
abbrev steady : Services World Fraction
steady = record services {
  ecs_port = record ecs {
    describe_service = λ c s w. (
      ok (
          some (record {
            service_name = "chat";
            cluster_name = "main";
            ecs_service_name = "chat-ecs";
            status = "ACTIVE";
            desired_count = 2;
            running_count = 2;
            pending_count = 0;
            task_definition = "chat:1";
            deployments = [];
            events = [];
          })),
      w,
    );
    get_service_control_state = λ c s w. (ok (counts_of 2 2 0), w);
    describe_task = λ c t w. (
      ok (record {
        task_id = "b";
        task_arn = "arn-b";
        container_instance_arn = "";
        network_bindings = [];
        last_status = "STOPPED";
        desired_status = "STOPPED";
      }),
      w,
    );
  };
  time_now = λ w. 1000 * second;
}

steady-runs : (w : World) → 0 < steady.time_now w
steady-runs w = omega arith

steady-PortsAlive : PortsAlive steady
steady-PortsAlive = record {
  control = λ c s. record { returns = λ w e. ground (arith, e) };
  update = λ c s n. record { returns = λ w e. ground (arith, e) };
  running = λ c s. record { returns = λ w e. ground (arith, e) };
  protection = λ c ts b. record { returns = λ w e. ground (arith, e) };
  describe = λ c t. record { returns = λ w e. ground (arith, e) };
  reports = λ s. record { returns = λ w e. ground (arith, e) };
  invalid = λ s. record { returns = λ w e. ground (arith, e) };
  report = λ s t. record { returns = λ w e. ground (arith, e) };
  remove = λ s t. record { returns = λ w e. ground (arith, e) };
  drain = λ s t. record { returns = λ w e. ground (arith, e) };
}

abbrev ticks : List Tick
ticks = scaling "chat" ∷ scale_in_jobs ∷ scaling "chat" ∷ scale_in_jobs ∷ []

run-IsSound_example : IsSound fractions (run fractions steady ticks (start fractions quiet)).1
run-IsSound_example = run-IsSound fractions steady steady-runs ticks quiet

process_or_fail-isolated_example :
    lookup "mail"
      (process_or_fail steady
        (job draining "b" 2 0)
        (with_job (job draining "b" 2 0))).1.coordinator.jobs
    ≡ lookup "mail" (with_job (job draining "b" 2 0)).coordinator.jobs
process_or_fail-isolated_example =
    process_or_fail-isolated fractions.lt steady steady-runs (job draining "b" 2 0) "mail"
      (with_job (job draining "b" 2 0)) (λ e. ground (arith, (str_eq_iff "chat" "mail").1 e))

-- Applied at the second 1, with a timeout of five minutes at most.
abbrev overdue : ScaleInJob
overdue = record (job applied "b" 3 0) { applied_at = second }

overdue-Inv : Inv (with_job overdue).coordinator
unfolding lookup
overdue-Inv = record {
  entries = (
    record {
      key = refl;
      unassigned = λ e. ground (arith, e);
      target_draining = λ e f. ground (arith, (str_eq_iff "b" "").1 f);
      target_applied = λ e f. ground (arith, (str_eq_iff "b" "").1 f);
      target_completed = λ e. ground (arith, e);
      timed_applied = λ e. omega arith;
      timed_completed = λ e. ground (arith, e);
    },
    tt,
  );
  distinct = (refl, tt);
}

process-TimedOut_example : TimedOut overdue (process steady (with_job overdue)).1
process-TimedOut_example =
    process-TimedOut fractions steady steady-PortsAlive steady-runs overdue (with_job overdue)
      overdue-Inv (unfold lookup in refl) refl (λ w. omega arith)

abbrev whole : List Tick
whole =
    scaling "chat"
    ∷ scaling "chat"
    ∷ scaling "chat"
    ∷ scaling "chat"
    ∷ scaling "chat"
    ∷ scale_in_jobs
    ∷ scale_in_jobs
    ∷ scale_in_jobs
    ∷ scale_in_jobs
    ∷ scale_in_jobs
    ∷ []

-- From the start: five evaluations ask for a task less, and five ticks over the jobs drain the one with
-- the fewest sessions.
whole-completed :
    state_of (run fractions steady whole (start fractions quiet)).1.coordinator "chat"
    ≡ some completed
unfolding state_of lookup run ◌>>=◌ evaluate_and_scale find_service call clock evaluate
    evaluate_scaling_demand calculate_required_task_count calculate_total_session_count
    get_separated_running_task evaluate_scale_in new_scaling_policy new_scale_in_coordinator
    scale_in_target coordinate request process get_active_jobs insert pick_target survivors
    mark_draining increase_zero_session_streak mark_applied complete
whole-completed = refl

run-Route_example :
    (calls : List Call) × ((run fractions steady whole (start fractions quiet)).1.coordinator
      ≡ Graph.after new_scale_in_coordinator calls)
    × Route "chat" completed calls
run-Route_example = run-Route fractions steady steady-runs whole quiet "chat" whole-completed
