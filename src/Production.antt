-- ===== src/Production.antt =====
-- internal/bootstrap/clients.go: NewClients outside mock mode, as the ports of the scaling use cases.
pub mod Adapters
pub mod Sessions
pub mod Returns
use legacy_messenger_ecs_con.Base.{ℕ, String, Dict}
use legacy_messenger_ecs_con.System.{ServiceDef, AutoScaleConfig, Services}
use legacy_messenger_ecs_con.Store.{Redis, Codec, redis_client}
use legacy_messenger_ecs_con.Aws.Sdk.{EcsSdk, Ec2Sdk}
use legacy_messenger_ecs_con.Aws.Ports.{aws_ecs}
use legacy_messenger_ecs_con.Endpoint.{aws_ports, resolve_task_endpoint}
use legacy_messenger_ecs_con.Agents.{HttpClient, request_drain}

-- The clients of the libraries, and time.Now().
pub record Libraries (W : Type 0) : Type 0 where
  pub ecs : EcsSdk W
  pub ec2 : Ec2Sdk W
  pub redis : Redis W
  pub json : Codec
  pub http : HttpClient W
  pub time_now : W → ℕ

-- The management port that NewClients passes on.
abbrev pub management_port : ℕ
management_port = 33002

module _ {W F : Type 0} (lib : Libraries W) (pages : ℕ) where
  unfoldable pub new_clients : Dict ServiceDef → String → AutoScaleConfig F → Services W F
  unfolding aws_ecs aws_ports redis_client
  new_clients registry cluster_name auto_scale = record {
    task_session_port = redis_client lib.redis lib.json lib.time_now;
    ecs_port = aws_ecs lib.ecs pages;
    task_drain_port = record {
      request_drain =
          request_drain lib.http
            (resolve_task_endpoint (aws_ports lib.ecs lib.ec2) cluster_name management_port);
    };
    registry = registry;
    cluster_name = cluster_name;
    auto_scale = auto_scale;
    time_now = lib.time_now;
  }
