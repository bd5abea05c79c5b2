-- ===== src/System.antt =====
-- What the two scaling use cases share: the policy, the coordinator, the world behind the ports, and
-- the ports themselves (internal/ports), which are parameters. The world is whatever the ports read
-- and change; a port may answer differently at each call.
use legacy_messenger_ecs_con.Base.{
  ℕ, ◌≡◌, refl, ◌∙◌, String, Bool, Option, none, some, List, Dict, lookup,
}
use legacy_messenger_ecs_con.Base.Results.{ok}
use legacy_messenger_ecs_con.Domain.{EcsServiceControlState, ServiceEvent, service_not_found}
use legacy_messenger_ecs_con.Policy.{ScalingPolicy}
use legacy_messenger_ecs_con.Coordinator.{ScaleInCoordinator, Outcome}
use legacy_messenger_ecs_con.Demand.{SessionReport}
use legacy_messenger_ecs_con.Exec.{
  Exec, pure, raise, nil_dereference, Respects, bind-Respects, pure-Respects, raise-Respects,
  nil_dereference-Respects, ◌>>=◌,
}

-- configs.ServiceDef
pub record ServiceDef : Type 0 where
  pub ecs_service_name : String
  pub display_name : String
  pub scalable : Bool
  pub min_count : ℕ
  pub max_count : ℕ
  pub load_balancer_type : String
  pub target_connections_per_task : ℕ

-- configs.AutoScaleConfig. The timeout is a duration in nanoseconds; 0 stands for a value that is not
-- positive.
pub record AutoScaleConfig (F : Type 0) : Type 0 where
  pub interval : ℕ
  pub session_per_task : ℕ
  pub scale_out_utilization : F
  pub expires_period : ℕ
  pub stop_candidate_period : ℕ
  pub min_task_count : ℕ
  pub max_task_count : ℕ
  pub scale_in_applied_timeout : ℕ

-- service.DeploymentStatus
pub record DeploymentStatus : Type 0 where
  pub status : String
  pub desired_count : ℕ
  pub running_count : ℕ
  pub pending_count : ℕ
  pub rollout_state : String

-- service.ServiceStatus
pub record ServiceStatus : Type 0 where
  pub service_name : String
  pub cluster_name : String
  pub ecs_service_name : String
  pub status : String
  pub desired_count : ℕ
  pub running_count : ℕ
  pub pending_count : ℕ
  pub task_definition : String
  pub deployments : List DeploymentStatus
  pub events : List ServiceEvent

-- task.NetworkBindingInfo
pub record NetworkBindingInfo : Type 0 where
  pub bind_ip : String
  pub container_port : ℕ
  pub host_port : ℕ
  pub protocol : String

-- ecs.ECSTask, without the host port, which no adapter sets, and the private address, which only the client in
-- memory sets and nothing reads.
pub record EcsTask : Type 0 where
  pub task_id : String
  pub task_arn : String
  pub last_status : String
  pub desired_status : String
  pub container_instance_arn : String
  pub network_bindings : List NetworkBindingInfo

-- The methods of ports.ECSPort that the scaling use cases call. A result that Go returns by pointer
-- may be nil.
pub record EcsPort (W : Type 0) : Type 0 where
  pub describe_service : String → String → Exec W (Option ServiceStatus)
  pub describe_task : String → String → Exec W EcsTask
  pub get_service_control_state : String → String → Exec W EcsServiceControlState
  pub update_service_desired_count : String → String → ℕ → Exec W EcsServiceControlState
  pub get_running_task_ids : String → String → Exec W (List String)
  pub update_task_protection : String → List String → Bool → Exec W Unit

-- ports.TaskSessionPort
pub record TaskSessionPort (W F : Type 0) : Type 0 where
  pub get_task_session_report : String → Exec W (Dict SessionReport)
  pub get_invalid_report_task : String → AutoScaleConfig F → Exec W (Dict String × List String)
  pub should_stop_task : String → String → ℕ → Exec W Bool
  pub delete_task_session_state : String → String → Exec W Unit
  pub get_task_session_report_by_task : String → String → Exec W SessionReport

-- ports.TaskDrainPort
pub record TaskDrainPort (W : Type 0) : Type 0 where
  pub request_drain : String → String → Exec W Unit

-- The fields of the use case structs, and time.Now().
pub record Services (W F : Type 0) : Type 0 where
  pub task_session_port : TaskSessionPort W F
  pub ecs_port : EcsPort W
  pub task_drain_port : TaskDrainPort W
  pub registry : Dict ServiceDef
  pub cluster_name : String
  pub auto_scale : AutoScaleConfig F
  pub time_now : W → ℕ

pub record System (W F : Type 0) : Type 0 where
  pub policy : ScalingPolicy F
  pub coordinator : ScaleInCoordinator
  pub world : W

-- Neither the policy nor the table of jobs is changed.
pub record SameControl {W F : Type 0} (x y : System W F) : Type 0 where
  pub same_policy : y.policy ≡ x.policy
  pub same_coordinator : y.coordinator ≡ x.coordinator

module _ {W F A : Type 0} where
  -- A call of a port.
  unfoldable pub call : Exec W A → Exec (System W F) A
  call m s = let (r, w) = m s.world in (r, record s { world = w })

  -- A method of the coordinator.
  unfoldable pub coordinate : (ScaleInCoordinator → Outcome A) → Exec (System W F) A
  coordinate m s = let (r, c) = m s.coordinator in (r, record s { coordinator = c })

module _ {W F : Type 0} where
  unfoldable pub clock : Services W F → Exec (System W F) ℕ
  clock u s = (ok (u.time_now s.world), s)

  abbrev found : String → Option ServiceDef → Exec (System W F) ServiceDef
  found s none = raise (service_not_found s)
  found s (some d) = pure d

  -- ServiceRegistry.Find
  unfoldable pub find_service : Services W F → String → Exec (System W F) ServiceDef
  find_service u s = found s (lookup s u.registry)

  pub SameControl-refl : (x : System W F) → SameControl x x
  SameControl-refl x = record { same_policy = refl; same_coordinator = refl }

  pub SameControl-trans : (x y z : System W F) → SameControl x y → SameControl y z → SameControl x z
  SameControl-trans x y z h k = record {
    same_policy = k.same_policy ∙ h.same_policy;
    same_coordinator = k.same_coordinator ∙ h.same_coordinator;
  }

module _ {W F A : Type 0} where
  pub call-SameControl : (m : Exec W A) → Respects {S = System W F} SameControl (call m)
  unfolding call
  call-SameControl m = record { run = λ s. record { same_policy = refl; same_coordinator = refl } }

module _ {W F : Type 0} where
  pub clock-SameControl : (u : Services W F) → Respects SameControl (clock u)
  unfolding clock
  clock-SameControl u = record { run = SameControl-refl }

module _ {W F A : Type 0} where
  pub pure-SameControl : (a : A) → Respects {S = System W F} SameControl (pure a)
  pure-SameControl = pure-Respects SameControl-refl

  pub nil-SameControl : Respects {S = System W F} {A = A} SameControl nil_dereference
  nil-SameControl = nil_dereference-Respects SameControl-refl

module _ {W F A B : Type 0} where
  pub bind-SameControl :
      (m : Exec (System W F) A) (f : A → Exec (System W F) B)
      → Respects SameControl m
      → ((a : A) → Respects SameControl (f a))
      → Respects SameControl (m >>= f)
  bind-SameControl = bind-Respects SameControl-refl SameControl-trans

module _ {W F : Type 0} where
  found-SameControl :
      (s : String) (d : Option ServiceDef) → Respects SameControl (found {W = W} {F = F} s d)
  found-SameControl s none = raise-Respects SameControl-refl _
  found-SameControl s (some d) = pure-SameControl d

  pub find_service-SameControl :
      (u : Services W F) (s : String) → Respects SameControl (find_service u s)
  unfolding find_service
  find_service-SameControl u s = record {
    run = λ x. (found-SameControl s (lookup s u.registry)).run x;
  }

pub ruleset keeps_control =
    (call-SameControl, clock-SameControl, pure-SameControl, nil-SameControl, bind-SameControl)
