-- ===== src/Tests/Ticks.antt =====
-- One tick of the scale-in scheduler on a job in each of its states.
use legacy_messenger_ecs_con.Base.{◌*◌, ◌≤◌, ◌≡◌, refl, [], ◌∷◌, lookup, insert}
use legacy_messenger_ecs_con.Base.Results.{ok}
use legacy_messenger_ecs_con.Domain.{
  requested, draining, applied, completed, ScaleInJob, EcsServiceControlState,
}
use legacy_messenger_ecs_con.Policy.{second}
use legacy_messenger_ecs_con.Coordinator.{
  complete, mark_draining, mark_applied, increase_zero_session_streak,
}
use legacy_messenger_ecs_con.Exec.{◌>>=◌}
use legacy_messenger_ecs_con.System.{EcsTask, call, clock, coordinate}
use legacy_messenger_ecs_con.ScaleIn.{
  pick_target, survivors, start_drain, check_drain, check_completion, lower_desired_count,
}
use legacy_messenger_ecs_con.ScaleIn.Steps.{
  check_drain-applied, check_completion-completed, Finished,
}
use legacy_messenger_ecs_con.ScaleIn.Drain.{LeastDrained, start_drain-least}
use legacy_messenger_ecs_con.Tests.Sample.{quiet, reports_port, services, job, with_job, sessions}

abbrev drained : ScaleInJob
drained = job draining "b" 2 0

abbrev lowered : ScaleInJob
lowered = record drained {
  status = applied;
  zero_session_streak = 3;
  applied_at = 1000 * second;
  updated_at = 1000 * second;
}

check_drain-applied_example :
    ((reports_port.get_task_session_report_by_task "chat" "b" quiet).0 ≡ ok (sessions 0)) × 2 ≤ 2
unfolding lookup insert check_drain lower_desired_count ◌>>=◌ clock call coordinate
    increase_zero_session_streak mark_applied
check_drain-applied_example =
    check_drain-applied services drained drained lowered (with_job drained) refl refl refl refl

abbrev waiting : ScaleInJob
waiting = job applied "b" 3 (900 * second)

abbrev ended : ScaleInJob
ended = record waiting { status = completed; updated_at = 1000 * second }

check_completion-completed_example :
    (state : EcsServiceControlState) × (task : EcsTask) × Finished services waiting
      (with_job waiting)
      state
      task
unfolding lookup insert check_completion ◌>>=◌ clock call coordinate complete
check_completion-completed_example =
    check_completion-completed services waiting waiting ended (with_job waiting) refl refl refl refl

abbrev asked : ScaleInJob
asked = job requested "" 0 0

abbrev started : ScaleInJob
started = record asked {
  status = draining;
  target_task_id = "b";
  protected_task_ids = "a" ∷ "c" ∷ [];
  updated_at = 1000 * second;
}

start_drain-least_example : LeastDrained services asked started quiet
unfolding lookup insert start_drain ◌>>=◌ call pick_target survivors clock coordinate mark_draining
start_drain-least_example =
    start_drain-least services asked asked started (with_job asked) refl refl refl refl
