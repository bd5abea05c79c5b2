-- ===== src/Endpoint.antt =====
-- internal/adapters/aws/task_endpoint_resolver.go and ec2_client.go: where the management port of a task is
-- reached.
pub mod Resolved
pub mod Memory
use legacy_messenger_ecs_con.Base.{
  ℕ, ℤ, pos, negsuc, String, Bool, false, Option, none, some, List, [], ◌∷◌, str_eq, str_append,
  ◌==◌, if◌then◌else◌, sprint_int,
}
use legacy_messenger_ecs_con.Domain.{
  Error, instances_failed, instance_not_found, private_ip_empty, container_instance_empty,
  host_port_not_found, task_not_resolved,
}
use legacy_messenger_ecs_con.Exec.{Exec, pure, raise, wrap, ◌>>=◌}
use legacy_messenger_ecs_con.System.{NetworkBindingInfo, EcsTask}
use legacy_messenger_ecs_con.Aws.Sdk.{EcsSdk, Ec2Sdk, to_string}
use legacy_messenger_ecs_con.Aws.Services.{int32}
use legacy_messenger_ecs_con.Aws.Tasks.{describe_task, get_container_instance_ec2_id}

-- What the resolver calls of ports.ECSPort and ports.EC2Port.
pub record EndpointPorts (W : Type 0) : Type 0 where
  pub describe_task : String → String → Exec W EcsTask
  pub get_container_instance_ec2_id : String → String → Exec W String
  pub get_private_ip : String → Exec W String

module _ {W : Type 0} (sdk : Ec2Sdk W) where
  abbrev pub address : String → Option String → Exec W String
  address id ip =
      if str_eq (to_string ip) "" then raise (private_ip_empty id) else pure (to_string ip)

  abbrev pub first_address : String → List (List (Option String)) → Exec W String
  first_address id [] = raise (instance_not_found id)
  first_address id ([] ∷ reservations) = raise (instance_not_found id)
  first_address id ((ip ∷ instances) ∷ reservations) = address id ip

  -- EC2Client.GetPrivateIP
  unfoldable pub get_private_ip : String → Exec W String
  get_private_ip id = do
    reservations ← wrap instances_failed (sdk.describe_instances (id ∷ []))
    first_address id reservations

-- The clients of AWS as the ports of the resolver.
unfoldable pub aws_ports : {W : Type 0} → EcsSdk W → Ec2Sdk W → EndpointPorts W
aws_ports ecs ec2 = record {
  describe_task = describe_task ecs;
  get_container_instance_ec2_id = get_container_instance_ec2_id ecs;
  get_private_ip = get_private_ip ec2;
}

abbrev pub is_port : ℤ → ℕ → Bool
is_port (pos n) port = port == n
is_port (negsuc n) port = false

-- The host port of the first binding of the container port, or 0.
unfoldable pub host_port_of : ℕ → List NetworkBindingInfo → ℕ
unfolding int32
host_port_of port [] = 0
host_port_of port (binding ∷ bindings) =
    if is_port (int32 port) binding.container_port
    then binding.host_port
    else host_port_of port bindings

module _ {W : Type 0} (ports : EndpointPorts W) (cluster_name : String) (management_port : ℕ) where
  abbrev pub join : ℕ → String → Exec W String
  join host_port private_ip = pure (str_append private_ip (str_append ":" (sprint_int host_port)))

  abbrev pub reach : ℕ → String → Exec W String
  reach host_port instance_id = ports.get_private_ip instance_id >>= join host_port

  abbrev pub reach_port : String → String → ℕ → Exec W String
  reach_port task_id arn host_port =
      if host_port == 0
      then raise (host_port_not_found task_id management_port)
      else ports.get_container_instance_ec2_id cluster_name arn >>= reach host_port

  abbrev pub endpoint_of : String → EcsTask → Exec W String
  endpoint_of task_id task =
      if str_eq task.container_instance_arn ""
      then raise (container_instance_empty task_id)
      else reach_port task_id task.container_instance_arn
          (host_port_of management_port task.network_bindings)

  unfoldable pub resolve_task_endpoint : String → String → Exec W String
  unfolding host_port_of sprint_int
  resolve_task_endpoint service_name task_id =
      wrap (task_not_resolved task_id) (ports.describe_task cluster_name task_id)
      >>= endpoint_of task_id
