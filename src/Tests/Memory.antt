-- ===== src/Tests/Memory.antt =====
-- The ECS client in memory: a service of one task that grows to three, and one of three that shrinks.
use legacy_messenger_ecs_con.Base.{
  ℕ, suc, pos, ◌+◌, ◌≤◌, ◌<◌, ◌≡◌, refl, String, none, some, [], ◌∷◌, lookup, arith, str_eq,
  str_eq_iff, if◌then◌else◌,
}
use legacy_messenger_ecs_con.Base.Results.{ok, panic}
use legacy_messenger_ecs_con.Domain.{EcsServiceControlState}
use legacy_messenger_ecs_con.Exec.{pure, ◌>>=◌}
use legacy_messenger_ecs_con.FakeEcs.{
  EcsClient, TaskStatus, Outside, update_service_desired_count, transition_pending_task_to_running,
  create_tasks, scale_out_to,
}
use legacy_messenger_ecs_con.FakeEcs.Counts.{
  counts, IsBounded, update_service_desired_count-scale_out,
}
use legacy_messenger_ecs_con.FakeEcs.Timers.{transition_pending_task_to_running-IsBounded}
use legacy_messenger_ecs_con.FakeEcs.Converges.{Apart, fire, update_service_desired_count-converges}
use legacy_messenger_ecs_con.FakeEcs.Drains.{
  IsKeyed, protect_survivors, update_service_desired_count-stops_target,
}
use legacy_messenger_ecs_con.Tests.Sample.{counts_of}
use legacy_messenger_ecs_con.Tests.Server.{ones}

-- The world counts the names that were given.
abbrev lone : Outside ℕ
unfolding ones
lone = record {
  new_string = λ n. (ones n, suc n);
  trim_space = λ s. s;
  notifier = none;
  time_now = λ n. n;
}

abbrev task : String → TaskStatus
task t = record {
  task_id = t;
  last_status = "RUNNING";
  desired_status = "RUNNING";
  created_at = none;
  started_at = none;
}

abbrev client : EcsServiceControlState → EcsClient ℕ
client state = record {
  service_states = ("chat", state) ∷ [];
  tasks = ("a", task "a") ∷ ("b", task "b") ∷ [];
  protected_task = none;
  timers = [];
  world = 0;
}

all-IsBounded : (i : String) → IsBounded (counts i (client (counts_of 3 1 2)))
unfolding lookup
all-IsBounded i = ground (arith, str_eq_iff "chat" i)

transition_pending_task_to_running-IsBounded_example : IsBounded (
    counts "chat" (transition_pending_task_to_running lone "chat" "a" (client (counts_of 3 1 2))).1)
transition_pending_task_to_running-IsBounded_example =
    transition_pending_task_to_running-IsBounded lone "chat" "a" (client (counts_of 3 1 2))
      all-IsBounded "chat"

-- Two tasks run, two are pending, and three are asked for.
abbrev crowded : EcsServiceControlState
crowded = counts_of 2 2 2

update_service_desired_count-scale_out_example :
    (3 < 4
      → ((update_service_desired_count lone "chat" (pos 3) (client crowded)).0 ≡ panic)
        × (counts "chat" (update_service_desired_count lone "chat" (pos 3) (client crowded)).1
            ≡ some (record crowded { desired_count = 3 })))
    × (4 ≤ 3
        → (state : EcsServiceControlState) × ((update_service_desired_count lone "chat"
              (pos 3)
              (client crowded)).0
            ≡ ok state)
          × (counts "chat" (update_service_desired_count lone "chat" (pos 3) (client crowded)).1
              ≡ some state)
          × (state.desired_count ≡ 3)
          × (state.running_count ≡ 2)
          × (state.running_count + state.pending_count ≡ 3))
unfolding lookup
update_service_desired_count-scale_out_example =
    update_service_desired_count-scale_out lone "chat" 3 crowded (client crowded) refl (omega arith)
      (omega arith) (omega arith)

abbrev resting : EcsServiceControlState
resting = counts_of 1 1 0

abbrev widening : EcsClient ℕ
widening = (update_service_desired_count lone "chat" (pos 3) (client resting)).1

widening-Apart : Apart widening.timers
unfolding lookup ones update_service_desired_count ◌>>=◌ pure scale_out_to create_tasks lone
widening-Apart = (((λ e. ground (arith, (str_eq_iff "chat-" "chat-1").1 e)), tt), (tt, tt))

update_service_desired_count-converges_example :
    counts "chat" (fire lone widening.timers widening)
    ≡ some (record resting { desired_count = 3; running_count = 3 })
unfolding lookup
update_service_desired_count-converges_example =
    update_service_desired_count-converges lone "chat" 3 resting (client resting) refl refl refl
      (omega arith) (omega arith) refl widening-Apart

client-IsKeyed : IsKeyed (client (counts_of 2 2 0)).tasks
unfolding lookup
client-IsKeyed = record { own = (refl, (refl, tt)); distinct = (refl, (refl, tt)) }

update_service_desired_count-stops_target_example :
    ((update_service_desired_count lone "chat"
        (pos 1)
        (protect_survivors lone "b" (client (counts_of 2 2 0)))).0
      ≡ ok (counts_of 1 1 0))
    × ((u : String)
        → lookup u
            (update_service_desired_count lone "chat"
              (pos 1)
              (protect_survivors lone "b" (client (counts_of 2 2 0)))).1.tasks
          ≡ (if str_eq "b" u
              then some (record (task "b") { last_status = "STOPPED" })
              else lookup u (client (counts_of 2 2 0)).tasks))
    × (counts "chat"
          (update_service_desired_count lone "chat"
            (pos 1)
            (protect_survivors lone "b" (client (counts_of 2 2 0)))).1
        ≡ some (counts_of 1 1 0))
unfolding lookup lone
update_service_desired_count-stops_target_example =
    update_service_desired_count-stops_target lone "chat" "b" 1 (counts_of 2 2 0) (task "b")
      (client (counts_of 2 2 0)) client-IsKeyed refl (omega arith) refl refl
      (λ d. (tt, unfold pure in refl))
