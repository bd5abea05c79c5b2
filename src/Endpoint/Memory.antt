-- ===== src/Endpoint/Memory.antt =====
-- internal/bootstrap/clients.go: the resolver and the drain client over the in-memory ECS, which is what
-- NewClients builds in mock mode.
use legacy_messenger_ecs_con.Base.{◌≡◌, refl, inl, inr, String, ℕ, lookup, Option-cases}
use legacy_messenger_ecs_con.Base.Results.{err}
use legacy_messenger_ecs_con.Domain.{Error}
use legacy_messenger_ecs_con.Exec.{Exec, pure, raise, wrap, continue, ◌>>=◌}
use legacy_messenger_ecs_con.FakeEcs
use legacy_messenger_ecs_con.FakeEcs.{Outside, EcsClient}
use legacy_messenger_ecs_con.Endpoint.{EndpointPorts, resolve_task_endpoint}
use legacy_messenger_ecs_con.Agents.{HttpClient, request_drain}

-- The in-memory client, which gives an empty id for every container instance, with the client of EC2.
unfoldable pub memory_ports :
    {W : Type 0} → Outside W → (String → Exec (EcsClient W) String) → EndpointPorts (EcsClient W)
memory_ports o get_private_ip = record {
  describe_task = λ cluster t. FakeEcs.describe_task o t;
  get_container_instance_ec2_id = λ cluster arn. pure "";
  get_private_ip = get_private_ip;
}

module _ {W : Type 0} (o : Outside W) (get_private_ip : String → Exec (EcsClient W) String)
    (http : HttpClient (EcsClient W)) where
  resolve_task_endpoint-refused :
      (cluster_name : String) (port : ℕ) (s t : String) (c : EcsClient W)
      → (e : Error) × (resolve_task_endpoint (memory_ports o get_private_ip) cluster_name port s t c
          ≡ (err e, c))
  unfolding resolve_task_endpoint memory_ports FakeEcs.describe_task ◌>>=◌ continue pure raise wrap
  resolve_task_endpoint-refused cluster_name port s t c = elim (Option-cases (lookup t c.tasks)) [
    | inl e ↦ rw e (_, refl)
    | inr (task, e) ↦ rw e (_, refl)
  ]

  -- Over the in-memory ECS every request for a drain returns an error and changes nothing, so that no
  -- request is sent, whatever the task, the tasks that run and the answers of EC2 and of the agents.
  pub request_drain-refused :
      (cluster_name : String) (port : ℕ) (s t : String) (c : EcsClient W)
      → (e : Error) × (request_drain http
            (resolve_task_endpoint (memory_ports o get_private_ip) cluster_name port)
            s
            t
            c
          ≡ (err e, c))
  unfolding request_drain ◌>>=◌ continue
  request_drain-refused cluster_name port s t c =
      let (e, refused) = resolve_task_endpoint-refused cluster_name port s t c in
      (e, rw refused refl)
