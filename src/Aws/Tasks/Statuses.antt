-- ===== src/Aws/Tasks/Statuses.antt =====
-- internal/adapters/aws/ecs_client.go: the tasks of a service with their containers and addresses.
use legacy_messenger_ecs_con.Base.{
  ℕ, ℤ, String, not, ◌&&◌, Option, none, List, [], ◌∷◌, ◌++◌, map, str_eq, if◌then◌else◌,
}
use legacy_messenger_ecs_con.Domain.{list_tasks_failed, describe_tasks_failed}
use legacy_messenger_ecs_con.Exec.{Exec, pure, wrap, ◌>>=◌, ◌>>◌}
use legacy_messenger_ecs_con.System.{NetworkBindingInfo}
use legacy_messenger_ecs_con.Aws.Sdk.{
  DesiredStatus, stopped, pending, running, Task, Container, NetworkInterface, EcsSdk, to_string,
}
use legacy_messenger_ecs_con.Aws.Names.{extract_id}
use legacy_messenger_ecs_con.Aws.Services.{names_required}
use legacy_messenger_ecs_con.Aws.Tasks.{to_network_bindings, bindings_of}

-- task.NetworkInterfaceInfo
pub record NetworkInterfaceInfo : Type 0 where
  pub attachment_id : String
  pub private_ipv4_address : String

-- task.ContainerStatus
pub record ContainerStatus : Type 0 where
  pub name : String
  pub last_status : String
  pub health_status : String
  pub image : String
  pub runtime_id : String
  pub reason : String
  pub exit_code : Option ℤ
  pub network_bindings : List NetworkBindingInfo
  pub network_interfaces : List NetworkInterfaceInfo

-- The texts of TaskNetworkInfo.ModeHint.
pub data ModeHint : Type 0 where
  unknown bridge awsvpc : ModeHint

-- task.TaskNetworkInfo
pub record TaskNetworkInfo : Type 0 where
  pub mode_hint : ModeHint
  pub bindings : List NetworkBindingInfo
  pub interfaces : List NetworkInterfaceInfo
  pub private_ipv4 : String

-- task.TaskStatus, without the private address, which no adapter sets.
pub record TaskStatus : Type 0 where
  pub task_id : String
  pub task_arn : String
  pub task_definition : String
  pub last_status : String
  pub desired_status : String
  pub health_status : String
  pub launch_type : String
  pub availability_zone : String
  pub container_instance_arn : String
  pub capacity_provider_name : String
  pub created_at : Option ℕ
  pub started_at : Option ℕ
  pub stopping_at : Option ℕ
  pub stopped_at : Option ℕ
  pub stop_code : String
  pub stopped_reason : String
  pub containers : List ContainerStatus
  pub network : TaskNetworkInfo

abbrev network_interface : NetworkInterface → NetworkInterfaceInfo
network_interface ni = record {
  attachment_id = to_string ni.attachment_id;
  private_ipv4_address = to_string ni.private_ipv4_address;
}

abbrev pub to_network_interfaces : List NetworkInterface → List NetworkInterfaceInfo
to_network_interfaces = map network_interface

abbrev container_status : Container → ContainerStatus
container_status c = record {
  name = to_string c.name;
  last_status = to_string c.last_status;
  health_status = c.health_status;
  image = to_string c.image;
  runtime_id = to_string c.runtime_id;
  reason = to_string c.reason;
  exit_code = c.exit_code;
  network_bindings = to_network_bindings c.network_bindings;
  network_interfaces = to_network_interfaces c.network_interfaces;
}

unfoldable pub to_container_statuses : List Container → List ContainerStatus
to_container_statuses = map container_status

unfoldable pub interfaces_of : List Container → List NetworkInterfaceInfo
interfaces_of [] = []
interfaces_of (container ∷ containers) =
    to_network_interfaces container.network_interfaces ++ interfaces_of containers

-- The loop that keeps the first address that is not empty.
unfoldable pub first_address : String → List NetworkInterfaceInfo → String
first_address found [] = found
first_address found (ni ∷ interfaces) =
    first_address
      (if not (str_eq ni.private_ipv4_address "") && str_eq found ""
        then ni.private_ipv4_address
        else found)
      interfaces

-- The loops of the containers, each with the address so far.
unfoldable pub private_address : String → List Container → String
unfolding first_address
private_address found [] = found
private_address found (container ∷ containers) =
    private_address (first_address found (to_network_interfaces container.network_interfaces))
      containers

abbrev hint : List NetworkBindingInfo → String → ModeHint
hint [] address = if str_eq address "" then unknown else awsvpc
hint (b ∷ bindings) address = if str_eq address "" then bridge else awsvpc

unfoldable pub to_task_network_info : List Container → TaskNetworkInfo
unfolding bindings_of interfaces_of private_address
to_task_network_info containers = record {
  mode_hint = hint (bindings_of containers) (private_address "" containers);
  bindings = bindings_of containers;
  interfaces = interfaces_of containers;
  private_ipv4 = private_address "" containers;
}

unfoldable pub to_task_status : Task → TaskStatus
unfolding to_container_statuses to_task_network_info
to_task_status task = record {
  task_id = extract_id (to_string task.task_arn);
  task_arn = to_string task.task_arn;
  task_definition = extract_id (to_string task.task_definition_arn);
  last_status = to_string task.last_status;
  desired_status = to_string task.desired_status;
  health_status = task.health_status;
  launch_type = task.launch_type;
  availability_zone = to_string task.availability_zone;
  container_instance_arn = to_string task.container_instance_arn;
  capacity_provider_name = to_string task.capacity_provider_name;
  created_at = task.created_at;
  started_at = task.started_at;
  stopping_at = task.stopping_at;
  stopped_at = task.stopped_at;
  stop_code = task.stop_code;
  stopped_reason = to_string task.stopped_reason;
  containers = to_container_statuses task.containers;
  network = to_task_network_info task.containers;
}

unfoldable pub to_ecs_desired_status : String → DesiredStatus
to_ecs_desired_status status =
    if str_eq status "STOPPED"
    then stopped
    else if str_eq status "PENDING"
    then pending
    else running

module _ {W : Type 0} (sdk : EcsSdk W) where
  abbrev describe_listed : String → List String → Exec W (List TaskStatus)
  describe_listed cluster [] = pure []
  describe_listed cluster (arn ∷ arns) = do
    out ← wrap describe_tasks_failed (sdk.describe_tasks cluster (arn ∷ arns))
    pure (map to_task_status out.tasks)

  -- One page of ListTasks is read, and all of it is described in one call.
  unfoldable pub describe_tasks : String → String → String → Exec W (List TaskStatus)
  unfolding to_ecs_desired_status to_task_status
  describe_tasks cluster name status = do
    names_required sdk cluster name
    out ← wrap list_tasks_failed (sdk.list_tasks cluster name (to_ecs_desired_status status) none)
    describe_listed cluster out.task_arns
