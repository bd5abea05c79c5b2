-- ===== src/Aws/Tasks.antt =====
-- internal/adapters/aws/ecs_client.go: the calls about tasks.
pub mod Statuses
pub mod Addresses
pub mod Running
pub mod Described
use legacy_messenger_ecs_con.Base.{
  ℕ, zero, suc, ◌-◌, String, Bool, Option, none, some, List, [], ◌∷◌, ◌++◌, map, length, str_eq,
  if◌then◌else◌,
}
use legacy_messenger_ecs_con.Domain.{
  Error, list_running_failed, describe_running_failed, task_failure, no_protected_tasks,
  protection_failed, describe_task_failed, describe_task_failure, ecs_task_not_found,
  task_not_found, container_instances_failed, container_instance_not_found, instance_id_empty,
}
use legacy_messenger_ecs_con.Exec.{Exec, pure, raise, never_returns, wrap, ◌>>=◌, ◌>>◌}
use legacy_messenger_ecs_con.System.{NetworkBindingInfo, EcsTask}
use legacy_messenger_ecs_con.Aws.Sdk.{
  running, Task, Container, NetworkBinding, Failure, DescribeTasksOutput, ListTasksOutput, EcsSdk,
  to_string, to_int,
}
use legacy_messenger_ecs_con.Aws.Names.{extract_id, extract_task_id}
use legacy_messenger_ecs_con.Aws.Services.{names_required}

abbrev network_binding : NetworkBinding → NetworkBindingInfo
network_binding b = record {
  bind_ip = to_string b.bind_ip;
  container_port = to_int b.container_port;
  host_port = to_int b.host_port;
  protocol = b.protocol;
}

abbrev pub to_network_bindings : List NetworkBinding → List NetworkBindingInfo
to_network_bindings = map network_binding

-- xs[:n] and xs[n:], where n past the end stands for the end.
unfoldable pub take : ℕ → List String → List String
take zero xs = []
take (suc n) [] = []
take (suc n) (x ∷ xs) = x ∷ take n xs

unfoldable pub drop : ℕ → List String → List String
drop zero xs = xs
drop (suc n) [] = []
drop (suc n) (x ∷ xs) = drop n xs

-- The ids of the tasks that run, of the loop over `describeOut.Tasks`.
unfoldable pub running_ids : List Task → List String
running_ids [] = []
running_ids (task ∷ tasks) =
    if str_eq (to_string task.last_status) "RUNNING"
    then if str_eq (extract_id (to_string task.task_arn)) ""
      then running_ids tasks
      else extract_id (to_string task.task_arn) ∷ running_ids tasks
    else running_ids tasks

-- The first task with the id.
unfoldable pub find_task : String → List Task → Option Task
find_task id [] = none
find_task id (task ∷ tasks) =
    if str_eq (extract_task_id (to_string task.task_arn)) id then some task else find_task id tasks

unfoldable pub bindings_of : List Container → List NetworkBindingInfo
bindings_of [] = []
bindings_of (container ∷ containers) =
    to_network_bindings container.network_bindings ++ bindings_of containers

unfoldable pub to_ecs_task : Task → EcsTask
unfolding bindings_of
to_ecs_task task = record {
  task_id = extract_task_id (to_string task.task_arn);
  task_arn = to_string task.task_arn;
  last_status = to_string task.last_status;
  desired_status = to_string task.desired_status;
  container_instance_arn = to_string task.container_instance_arn;
  network_bindings = bindings_of task.containers;
}

module _ {W : Type 0} (sdk : EcsSdk W) where
  -- The loop over the pages of ListTasks, with the ARNs so far. A run with more than `fuel` pages is one that
  -- never returns.
  unfoldable pub list_running :
      ℕ → String → String → List String → Option String → Exec W (List String)
  list_running zero cluster name arns token = never_returns
  list_running (suc fuel) cluster name arns token = do
    out ← wrap (list_running_failed name) (sdk.list_tasks cluster name running token)
    let collected = arns ++ out.task_arns
    let rest = list_running fuel cluster name collected out.next_token
    if str_eq (to_string out.next_token) "" then pure collected else rest

  abbrev pub without_failure : List Failure → Exec W (Unit {0})
  without_failure [] = pure tt
  without_failure (f ∷ failures) = raise (task_failure (to_string f.arn) (to_string f.reason))

  -- The loop over the slices of 100 ARNs, with the ids so far and the ARNs from `start` on.
  unfoldable pub describe_running :
      ℕ → String → String → List String → List String → Exec W (List String)
  unfolding take drop running_ids
  describe_running fuel cluster name ids [] = pure ids
  describe_running zero cluster name ids (arn ∷ arns) = never_returns
  describe_running (suc fuel) cluster name ids (arn ∷ arns) = do
    out ← wrap (describe_running_failed name) (sdk.describe_tasks cluster (take 100 (arn ∷ arns)))
    without_failure out.failures
    describe_running fuel cluster name (ids ++ running_ids out.tasks) (drop 100 (arn ∷ arns))

  -- The code reads pages until one names no next page. `pages` is how many of them a run may read; a run that
  -- reads more stands for one that does not return.
  unfoldable pub get_running_task_ids : ℕ → String → String → Exec W (List String)
  unfolding list_running describe_running
  get_running_task_ids pages cluster name = do
    names_required sdk cluster name
    arns ← list_running pages cluster name [] none
    describe_running (length arns) cluster name [] arns

  -- The failures that the answer lists are not read.
  unfoldable pub update_task_protection : String → List String → Bool → Exec W (Unit {0})
  update_task_protection cluster [] flag = raise (no_protected_tasks cluster flag)
  update_task_protection cluster (id ∷ ids) flag = do
    wrap (protection_failed cluster (id ∷ ids) flag)
        (sdk.update_task_protection cluster (id ∷ ids) flag)
    pure tt

  abbrev pub task_described : String → List Failure → Exec W (Unit {0})
  task_described id [] = pure tt
  task_described id (f ∷ failures) = raise (describe_task_failure id (to_string f.reason))

  abbrev pub task_found : String → Option Task → Exec W EcsTask
  task_found id none = raise (task_not_found id)
  task_found id (some task) = pure (to_ecs_task task)

  abbrev pub matched : String → List Task → Exec W EcsTask
  matched id [] = raise (ecs_task_not_found id)
  matched id (task ∷ tasks) = task_found id (find_task id (task ∷ tasks))

  unfoldable pub describe_task : String → String → Exec W EcsTask
  unfolding find_task to_ecs_task
  describe_task cluster id = do
    out ← wrap (describe_task_failed id) (sdk.describe_tasks cluster (id ∷ []))
    task_described id out.failures
    matched id out.tasks

  abbrev pub instance_id : String → List (Option String) → Exec W String
  instance_id arn [] = raise (container_instance_not_found arn)
  instance_id arn (id ∷ ids) =
      if str_eq (to_string id) "" then raise (instance_id_empty arn) else pure (to_string id)

  unfoldable pub get_container_instance_ec2_id : String → String → Exec W String
  get_container_instance_ec2_id cluster arn = do
    ids ← wrap container_instances_failed (sdk.describe_container_instances cluster (arn ∷ []))
    instance_id arn ids
