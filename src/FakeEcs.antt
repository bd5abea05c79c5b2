-- ===== src/FakeEcs.antt =====
-- internal/adapters/fake/fake_ecs_client.go: the ECS client in memory, which the scaling use cases run
-- over where there is no AWS. Each method holds the mutex, or reads what its callers wrote, so it is one
-- step; the goroutine of a new task waits for a timer and is a step of its own. The UUIDs, the notifier and
-- the clock are parameters. The context of a call is taken to be live. An int32 is a number that does not
-- reach 2 ^ 31, and a call with a count past it, where Go wraps around, is not modelled.
pub mod Counts
pub mod Timers
pub mod Converges
pub mod Drains
mod State
unfoldable pub use State.*
use legacy_messenger_ecs_con.Base.{
  ℕ, zero, suc, ℤ, pos, negsuc, ◌+◌, ◌-◌, String, Bool, true, false, not, ◌&&◌, ◌||◌, Option, none,
  some, List, [], ◌∷◌, ◌++◌, Dict, lookup, insert, str_eq, str_append, ltb, leb, ◌==◌,
  if◌then◌else◌,
}
use legacy_messenger_ecs_con.Base.Results.{Result, ok, err, panic}
use legacy_messenger_ecs_con.Domain.{
  EcsServiceControlState, Error, negative_desired_count, fake_service_not_found,
  fake_protected_not_found, fake_no_task, fake_task_unknown,
}
use legacy_messenger_ecs_con.Exec.{Exec, pure, raise, ignore, ◌>>=◌, ◌>>◌}
use legacy_messenger_ecs_con.System.{EcsTask, EcsPort}

module _ {W : Type 0} (o : Outside W) where
  open o use {new_string, trim_space, notifier, time_now}

  -- A call of the world outside.
  abbrev outside : {A : Type 0} → Exec W A → Exec (EcsClient W) A
  outside m c = let (r, w) = m c.world in (r, record c { world = w })

  abbrev state_or_error :
      String → Option EcsServiceControlState → Exec (EcsClient W) EcsServiceControlState
  state_or_error s none = raise (fake_service_not_found s)
  state_or_error s (some state) = pure state

  unfoldable pub get_service_control_state : String → Exec (EcsClient W) EcsServiceControlState
  get_service_control_state s c = state_or_error s (lookup s c.service_states) c

  unfoldable pub create_task_id : String → W → String × W
  create_task_id s w =
      let (id, next) = new_string w in (str_append (str_append (trim_space s) "-") id, next)

  -- The loop that makes so many pending tasks: their names, and the client with them.
  unfoldable pub create_tasks : String → ℕ → EcsClient W → List String × EcsClient W
  unfolding create_task_id
  create_tasks s zero c = ([], c)
  create_tasks s (suc missing) c =
      let (task_id, next) = create_task_id s c.world in
      let (ids, last) = create_tasks s missing (record c {
        tasks =
            insert task_id
              (record {
                task_id = task_id;
                last_status = "PENDING";
                desired_status = "RUNNING";
                created_at = some (time_now next);
                started_at = none;
              })
              c.tasks;
        world = next;
      }) in
      (task_id ∷ ids, last)

  abbrev pub put_state : String → EcsServiceControlState → EcsClient W → EcsClient W
  put_state s state c = record c { service_states = insert s state c.service_states }

  -- The conversions to int32 keep a count below 2 ^ 31, and the sum of the two counts is one: the definition
  -- stands for calls with such counts only. The slice for the new tasks has the capacity of their number, so a negative number panics.
  unfoldable pub scale_out_to :
      String → ℕ → EcsServiceControlState → Exec (EcsClient W) EcsServiceControlState
  unfolding create_tasks
  scale_out_to s desired old c =
      let current = old.running_count + old.pending_count in
      let missing = desired - current in
      let state = widened desired old in
      let (ids, last) = create_tasks s missing (put_state s state c) in
      if ltb desired current
      then (panic, put_state s state c)
      else (ok state, record last { timers = last.timers ++ timers_of s 0 ids })

  abbrev pub notify_stopped :
      Option (TaskLifecycleNotifier W) → String → String → Exec (EcsClient W) (Unit {0})
  notify_stopped none s t = pure tt
  notify_stopped (some n) s t = outside (n.notify_task_stopped s t)

  abbrev pub stop_task : String → Option TaskStatus → Exec (EcsClient W) (Unit {0})
  stop_task s none = pure tt
  stop_task s (some task) = do
    λ c. (
      ok tt,
      record c { tasks = insert task.task_id (record task { last_status = "STOPPED" }) c.tasks },
    )
    notify_stopped notifier s task.task_id

  abbrev pub stop_unprotected : String → Option (List String) → Exec (EcsClient W) (Unit {0})
  stop_unprotected s none c = raise (fake_protected_not_found s) c
  stop_unprotected s (some ids) c = stop_task s (unprotected ids c.tasks) c

  unfoldable pub scale_in_to :
      String → ℕ → EcsServiceControlState → Exec (EcsClient W) EcsServiceControlState
  scale_in_to s desired old start =
      (do
        let state : EcsServiceControlState = record old {
          desired_count = desired;
          running_count = desired;
        }
        stop_unprotected s start.protected_task
        λ c. (ok state, put_state s state c))
        start

  abbrev pub change_count :
      String → ℕ → EcsServiceControlState → Exec (EcsClient W) EcsServiceControlState
  unfolding scale_out_to scale_in_to
  change_count s desired state =
      if ltb state.desired_count desired
      then scale_out_to s desired state
      else if desired == state.desired_count
      then pure state
      else scale_in_to s desired state

  unfoldable pub update_service_desired_count :
      String → ℤ → Exec (EcsClient W) EcsServiceControlState
  unfolding scale_out_to scale_in_to
  update_service_desired_count s (negsuc n) c = raise (negative_desired_count (negsuc n)) c
  update_service_desired_count s (pos desired) c =
      (do state ← state_or_error s (lookup s c.service_states); change_count s desired state) c

  abbrev pub notify_running :
      Option (TaskLifecycleNotifier W) → String → TaskStatus → Exec (EcsClient W) (Unit {0})
  notify_running none s task = pure tt
  notify_running (some n) s task =
      ignore (outside (n.notify_task_running s task.task_id task.started_at))

  abbrev pub run_task :
      String
      → String
      → Option EcsServiceControlState
      → Option TaskStatus
      → Exec (EcsClient W) (Unit {0})
  run_task s t none task = pure tt
  run_task s t (some state) none = pure tt
  run_task s t (some state) (some task) =
      if not (str_eq task.last_status "PENDING")
      then pure tt
      else if state.pending_count == 0 || leb state.desired_count state.running_count
      then pure tt
      else λ c.
          let started : TaskStatus = record task {
            last_status = "RUNNING";
            started_at = some (time_now c.world);
          } in
          notify_running notifier s started (record c {
            tasks = insert t started c.tasks;
            service_states =
                insert s
                  (record state {
                    pending_count = state.pending_count - 1;
                    running_count = suc state.running_count;
                  })
                  c.service_states;
          })

  -- The timer of a task goes off.
  unfoldable pub transition_pending_task_to_running :
      String → String → Exec (EcsClient W) (Unit {0})
  transition_pending_task_to_running s t c =
      run_task s t (lookup s c.service_states) (lookup t c.tasks) c

  abbrev running_or_error : String → Dict TaskStatus → Exec (EcsClient W) (List String)
  running_or_error cluster [] = raise (fake_no_task cluster)
  running_or_error cluster (e ∷ tasks) = unfold running_of in pure (running_of (e ∷ tasks))

  -- The name of the service is not read.
  unfoldable pub get_running_task_ids : String → String → Exec (EcsClient W) (List String)
  unfolding running_of
  get_running_task_ids cluster s c = running_or_error cluster c.tasks c

  -- The flag is not read.
  unfoldable pub update_task_protection : List String → Bool → Exec (EcsClient W) (Unit {0})
  update_task_protection ids flag c = (ok tt, record c { protected_task = some ids })

  abbrev task_or_error : String → Option TaskStatus → Exec (EcsClient W) EcsTask
  task_or_error t none = raise (fake_task_unknown t)
  task_or_error t (some task) = pure (record {
    task_id = "";
    task_arn = "";
    last_status = task.last_status;
    desired_status = "";
    container_instance_arn = "";
    network_bindings = [];
  })

  unfoldable pub describe_task : String → Exec (EcsClient W) EcsTask
  describe_task t c = task_or_error t (lookup t c.tasks) c

  -- The client as the port of the use cases. DescribeService returns nil.
  unfoldable pub fake_ecs : EcsPort (EcsClient W)
  unfolding get_service_control_state update_service_desired_count get_running_task_ids
      update_task_protection describe_task
  fake_ecs = record {
    describe_service = λ cluster s. pure none;
    describe_task = λ cluster t. describe_task t;
    get_service_control_state = λ cluster s. get_service_control_state s;
    update_service_desired_count = λ cluster s n. update_service_desired_count s (pos n);
    get_running_task_ids = get_running_task_ids;
    update_task_protection = λ cluster ids flag. update_task_protection ids flag;
  }
