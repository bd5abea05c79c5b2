-- ===== src/FakeEcs/State.antt =====
-- internal/adapters/fake/fake_ecs_client.go: what the client in memory keeps, and the tests and updates of
-- it that call nothing outside.
use legacy_messenger_ecs_con.Base.{
  ℕ, suc, ◌+◌, ◌-◌, String, Bool, false, not, ◌&&◌, ◌||◌, Option, none, some, List, [], ◌∷◌, Dict,
  str_eq, ltb, if◌then◌else◌,
}
use legacy_messenger_ecs_con.Domain.{EcsServiceControlState}
use legacy_messenger_ecs_con.Exec.{Exec}

-- task.TaskStatus, with the fields that the client writes.
pub record TaskStatus : Type 0 where
  pub task_id : String
  pub last_status : String
  pub desired_status : String
  pub created_at : Option ℕ
  pub started_at : Option ℕ

-- ports.TaskLifecycleNotifier
pub record TaskLifecycleNotifier (W : Type 0) : Type 0 where
  pub notify_task_running : String → String → Option ℕ → Exec W (Unit {0})
  pub notify_task_stopped : String → String → Exec W (Unit {0})

-- What the client takes from outside: uuid.NewString, strings.TrimSpace, the notifier, which may be nil,
-- and the clock.
pub record Outside (W : Type 0) : Type 0 where
  pub new_string : W → String × W
  pub trim_space : String → String
  pub notifier : Option (TaskLifecycleNotifier W)
  pub time_now : W → ℕ

-- A goroutine that waits to make a task run. The order in its scale-out sets how long it waits.
pub record Timer : Type 0 where
  pub service_name : String
  pub task_id : String
  pub order : ℕ

pub record EcsClient (W : Type 0) : Type 0 where
  pub service_states : Dict EcsServiceControlState
  pub tasks : Dict TaskStatus
  pub protected_task : Option (List String)
  pub timers : List Timer
  pub world : W

unfoldable pub new_ecs_client : {W : Type 0} → Dict EcsServiceControlState → W → EcsClient W
new_ecs_client initial_states w = record {
  service_states = initial_states;
  tasks = [];
  protected_task = none;
  timers = [];
  world = w;
}

abbrev pub includes : String → List String → Bool
includes t [] = false
includes t (x ∷ xs) = str_eq x t || includes t xs

-- The first task of the map that runs and is not protected. Go leaves the order open; the theorems below
-- hold of any listing.
unfoldable pub unprotected : List String → Dict TaskStatus → Option TaskStatus
unprotected ids [] = none
unprotected ids ((k, task) ∷ tasks) =
    if str_eq task.last_status "RUNNING" && not (includes task.task_id ids)
    then some task
    else unprotected ids tasks

unfoldable pub running_of : Dict TaskStatus → List String
running_of [] = []
running_of ((k, task) ∷ tasks) =
    let rest = running_of tasks in
    if str_eq task.last_status "RUNNING" then task.task_id ∷ rest else rest

abbrev pub timers_of : String → ℕ → List String → List Timer
timers_of s order [] = []
timers_of s order (t ∷ ts) =
    record { service_name = s; task_id = t; order = order } ∷ timers_of s (suc order) ts

-- The pending tasks grow by those that are missing, if any. int32(n) is n, for the counts below 2 ^ 31 that the
-- model is for.
abbrev pub widened : ℕ → EcsServiceControlState → EcsServiceControlState
widened desired old =
    let current = old.running_count + old.pending_count in
    record old {
      desired_count = desired;
      pending_count =
          if ltb current desired
          then old.pending_count + (desired - current)
          else old.pending_count;
    }
