-- ===== src/Production/Returns.antt =====
-- internal/bootstrap/clients.go: the scale-in over the clients of production.
use legacy_messenger_ecs_con.Base.{ℕ, ◌≡◌, String, none, Dict}
use legacy_messenger_ecs_con.Base.Results.{ok}
use legacy_messenger_ecs_con.System.{ServiceDef, AutoScaleConfig, System}
use legacy_messenger_ecs_con.Store.{redis_client}
use legacy_messenger_ecs_con.Aws.Ports.{aws_ecs}
use legacy_messenger_ecs_con.ScaleIn.{process}
use legacy_messenger_ecs_con.ScaleIn.Alive.{PortsAlive, process-returns}
use legacy_messenger_ecs_con.Aws.Tasks.Running.{Ends}
use legacy_messenger_ecs_con.Production.{Libraries, management_port, new_clients}
use legacy_messenger_ecs_con.Production.Adapters.{
  LibrariesAlive, control-Alive, update-Alive, running-Alive, protection-Alive, describe-Alive,
}
use legacy_messenger_ecs_con.Production.Sessions.{
  reports-Alive, invalid-Alive, report-Alive, remove-Alive, drain-Alive,
}

module _ {W F : Type 0} (lib : Libraries W) (pages : ℕ) (registry : Dict ServiceDef)
    (cluster_name : String) (auto_scale : AutoScaleConfig F) (alive : LibrariesAlive lib)
    (ends : (c s : String) (w : W) → Ends lib.ecs c s pages none w) where
  new_clients-PortsAlive : PortsAlive (new_clients lib pages registry cluster_name auto_scale)
  unfolding new_clients redis_client aws_ecs
  new_clients-PortsAlive = record {
    control = control-Alive lib alive;
    update = update-Alive lib alive;
    running = λ c s. running-Alive lib alive pages c s (ends c s);
    protection = protection-Alive lib alive;
    describe = describe-Alive lib alive;
    reports = reports-Alive lib alive;
    invalid = λ s. invalid-Alive lib alive s auto_scale;
    report = report-Alive lib alive;
    remove = remove-Alive lib alive;
    drain = drain-Alive lib alive cluster_name management_port;
  }

  -- Over the clients that NewClients makes outside mock mode: where each call of the libraries returns a
  -- value or an error, and ECS ends the pages of ListTasks within the `pages` that a run may read, a tick
  -- over the active jobs returns, and with no error, whatever AWS, Redis and the agents answer and whatever
  -- state the jobs are in.
  pub process-over_libraries :
      (x : System W F)
      → (process (new_clients lib pages registry cluster_name auto_scale) x).0 ≡ ok tt
  process-over_libraries x =
      process-returns (new_clients lib pages registry cluster_name auto_scale)
        new_clients-PortsAlive x
