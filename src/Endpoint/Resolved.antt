-- ===== src/Endpoint/Resolved.antt =====
-- internal/adapters/aws/task_endpoint_resolver.go: what an endpoint that is resolved stands for.
use legacy_messenger_ecs_con.Base.{
  ℕ, ℤ, pos, negsuc, ◌≡◌, ◌≢◌, refl, sym, ap, inl, inr, true, String, Option, List, [], ◌∷◌, ◌++◌,
  All, str_eq, str_eq_iff, str_append, ◌==◌, sprint_int, arith, Bool-cases,
}
use legacy_messenger_ecs_con.Base.Results.{ok}
use legacy_messenger_ecs_con.Domain.{
  task_not_resolved, container_instance_empty, host_port_not_found, instances_failed,
  private_ip_empty,
}
use legacy_messenger_ecs_con.Exec.{pure, wrap, ◌>>=◌}
use legacy_messenger_ecs_con.Exec.Inversion.{bind_ok, wrap_ok, guard_ok, pure_ok, raise_ok}
use legacy_messenger_ecs_con.System.{NetworkBindingInfo, EcsTask}
use legacy_messenger_ecs_con.Aws.Sdk.{EcsSdk, Ec2Sdk, to_string}
use legacy_messenger_ecs_con.Aws.Services.{int32}
use legacy_messenger_ecs_con.Aws.Tasks.{describe_task, get_container_instance_ec2_id}
use legacy_messenger_ecs_con.Aws.Tasks.Described.{Answered, describe_task-Answered}
use legacy_messenger_ecs_con.Endpoint.{
  get_private_ip, aws_ports, is_port, host_port_of, endpoint_of, resolve_task_endpoint,
  first_address, join, reach, reach_port,
}

first_address_set :
    {W : Type 0} (ec2 : Ec2Sdk W) (id : String) (reservations : List (List (Option String))) (w : W)
    (ip : String)
    → (first_address ec2 id reservations w).0 ≡ ok ip
    → ip ≢ ""
first_address_set ec2 id [] w ip e = absurd (raise_ok _ w ip e)
first_address_set ec2 id ([] ∷ reservations) w ip e = absurd (raise_ok _ w ip e)
first_address_set ec2 id ((found ∷ instances) ∷ reservations) w ip e =
    let (set, rest) =
      guard_ok (str_eq (to_string found) "") (private_ip_empty id) (pure (to_string found)) w ip
        e in
    let same = pure_ok (to_string found) ip w rest in
    rw (← same) (ground (arith, set, str_eq_iff (to_string found) ""))

private_ip_set :
    {W : Type 0} (ec2 : Ec2Sdk W) (id : String) (w : W) (ip : String)
    → (get_private_ip ec2 id w).0 ≡ ok ip
    → ip ≢ ""
unfolding get_private_ip
private_ip_set ec2 id w ip e =
    let (reservations, asked, rest) =
      bind_ok (wrap instances_failed (ec2.describe_instances (id ∷ []))) (first_address ec2 id) w ip
        e in
    first_address_set ec2 id reservations _ ip rest

-- The host port is that of a binding of the container port, and no binding before it is for that port.
pub record IsFirst (port : ℤ) (bindings : List NetworkBindingInfo) (host_port : ℕ) : Type 0 where
  pub earlier : List NetworkBindingInfo
  pub binding : NetworkBindingInfo
  pub later : List NetworkBindingInfo
  pub listed : bindings ≡ earlier ++ (binding ∷ later)
  pub for_port : port ≡ pos binding.container_port
  pub others : All (λ (b : NetworkBindingInfo). port ≢ pos b.container_port) earlier
  pub to_host : binding.host_port ≡ host_port

is_port_iff :
    (port : ℤ) (n : ℕ)
    → (is_port port n ≡ true → port ≡ pos n) × (port ≡ pos n → is_port port n ≡ true)
is_port_iff (pos k) n = ((λ e. ap pos (ground (arith, e))), (λ e. ground (arith, e)))
is_port_iff (negsuc k) n = ((λ e. absurd (ground (arith, e))), (λ e. absurd (ground (arith, e))))

host_port_of-IsFirst :
    (port : ℕ) (bindings : List NetworkBindingInfo)
    → host_port_of port bindings ≢ 0
    → IsFirst (int32 port) bindings (host_port_of port bindings)
unfolding host_port_of
host_port_of-IsFirst port [] h = absurd (h refl)
host_port_of-IsFirst port (b ∷ bindings) h =
    elim (Bool-cases (is_port (int32 port) b.container_port)) [
      | inl e ↦ rw e (record {
        earlier = [];
        binding = b;
        later = bindings;
        listed = refl;
        for_port = (is_port_iff (int32 port) b.container_port).0 e;
        others = tt;
        to_host = refl;
      })
      | inr e ↦
          let found = host_port_of-IsFirst port bindings (rw e at h) in
          rw e (record {
            earlier = b ∷ found.earlier;
            binding = found.binding;
            later = found.later;
            listed = ap (λ (bs : List NetworkBindingInfo). b ∷ bs) found.listed;
            for_port = found.for_port;
            others = (
              (λ k.
                  let hit = (is_port_iff (int32 port) b.container_port).1 k in
                  absurd (ground (arith, hit, e))),
              found.others,
            );
            to_host = found.to_host;
          })
    ]

module _ {W : Type 0} (ecs : EcsSdk W) (ec2 : Ec2Sdk W) (cluster_name : String)
    (management_port : ℕ) (task_id : String) (w : W) (endpoint : String) where
  -- The task that ECS described with the first binding of the management port, as an int32, the instance that
  -- ECS names for the task's container instance in the world that this call left, and the address that EC2
  -- names for the instance in the world after that.
  pub record Located : Type 0 where
    pub task : EcsTask
    pub host_port : ℕ
    pub instance_id : String
    pub private_ip : String
    pub described : Answered ecs cluster_name task_id w task
    pub bound : IsFirst (int32 management_port) task.network_bindings host_port
    pub port_set : host_port ≢ 0
    pub hosted :
        (get_container_instance_ec2_id ecs cluster_name task.container_instance_arn
          (describe_task ecs cluster_name task_id w).1).0
        ≡ ok instance_id
    pub addressed :
        (get_private_ip ec2 instance_id
          (get_container_instance_ec2_id ecs cluster_name task.container_instance_arn
            (describe_task ecs cluster_name task_id w).1).1).0
        ≡ ok private_ip
    pub address_set : private_ip ≢ ""
    pub joined : endpoint ≡ str_append private_ip (str_append ":" (sprint_int host_port))

  -- Over the clients of AWS, whatever they answer: an endpoint that ResolveTaskEndpoint returns is the
  -- address and the port of `Located`: that of the task asked for, with a host port that is not 0 and an
  -- address that is not empty.
  pub resolve_task_endpoint-Located :
      (service_name : String)
      → (resolve_task_endpoint
          (aws_ports ecs ec2)
          cluster_name
          management_port
          service_name
          task_id
          w).0
        ≡ ok endpoint
      → Located
  unfolding resolve_task_endpoint aws_ports wrap
  resolve_task_endpoint-Located service_name e =
      let ports = aws_ports ecs ec2 in
      let ask = wrap (task_not_resolved task_id) (describe_task ecs cluster_name task_id) in
      let (task, described, rest) =
        bind_ok ask (endpoint_of ports cluster_name management_port task_id) w endpoint e in
      let arn = task.container_instance_arn in
      let host_port = host_port_of management_port task.network_bindings in
      let at_instance = (ask w).1 in
      let at_address = (get_container_instance_ec2_id ecs cluster_name arn at_instance).1 in
      let (hosted_by, known) =
        guard_ok (str_eq arn "") (container_instance_empty task_id)
          (reach_port ports cluster_name management_port task_id arn host_port) at_instance endpoint
          rest in
      let (port_set, left) =
        guard_ok (host_port == 0) (host_port_not_found task_id management_port)
          (get_container_instance_ec2_id ecs cluster_name arn
            >>= reach ports cluster_name management_port host_port)
          at_instance endpoint known in
      let (instance_id, hosted, on_host) =
        bind_ok (get_container_instance_ec2_id ecs cluster_name arn)
          (reach ports cluster_name management_port host_port) at_instance endpoint left in
      let (ip, addressed, done) =
        bind_ok (get_private_ip ec2 instance_id) (join ports cluster_name management_port host_port)
          at_address endpoint on_host in
      record {
        task = task;
        host_port = host_port;
        instance_id = instance_id;
        private_ip = ip;
        described =
            describe_task-Answered ecs cluster_name task_id w task
              (wrap_ok (task_not_resolved task_id) (describe_task ecs cluster_name task_id) w task
                described).0;
        bound =
            host_port_of-IsFirst management_port task.network_bindings (ground (arith, port_set));
        port_set = ground (arith, port_set);
        hosted = hosted;
        addressed = addressed;
        address_set = private_ip_set ec2 instance_id at_address ip addressed;
        joined =
            sym (pure_ok (str_append ip (str_append ":" (sprint_int host_port))) endpoint _ done);
      }
