-- ===== src/Aws/Sdk.antt =====
-- The part of the AWS SDK for Go that the adapters read: of each type of the SDK the fields that are
-- read, and the calls as parameters. A nil pointer is `none`; a count and a port are nonnegative.
use legacy_messenger_ecs_con.Base.{ℕ, ℤ, String, Bool, Option, none, some, List}
use legacy_messenger_ecs_con.Exec.{Exec}

pub record Failure : Type 0 where
  pub arn : Option String
  pub reason : Option String

pub record LoadBalancer : Type 0 where
  pub target_group_arn : Option String
  pub container_name : Option String
  pub container_port : Option ℕ

pub record Deployment : Type 0 where
  pub id : Option String
  pub status : Option String
  pub rollout_state : String
  pub rollout_state_reason : Option String
  pub task_definition : Option String
  pub desired_count : ℕ
  pub running_count : ℕ
  pub pending_count : ℕ
  pub created_at : Option ℕ
  pub updated_at : Option ℕ

pub record Event : Type 0 where
  pub message : Option String
  pub created_at : Option ℕ

pub record Service : Type 0 where
  pub service_name : Option String
  pub status : Option String
  pub desired_count : ℕ
  pub running_count : ℕ
  pub pending_count : ℕ
  pub task_definition : Option String
  pub deployments : List Deployment
  pub events : List Event
  pub load_balancers : List LoadBalancer

pub record DescribeServicesOutput : Type 0 where
  pub services : List Service
  pub failures : List Failure

pub record NetworkBinding : Type 0 where
  pub bind_ip : Option String
  pub container_port : Option ℕ
  pub host_port : Option ℕ
  pub protocol : String

pub record NetworkInterface : Type 0 where
  pub attachment_id : Option String
  pub private_ipv4_address : Option String

pub record Container : Type 0 where
  pub name : Option String
  pub last_status : Option String
  pub health_status : String
  pub image : Option String
  pub runtime_id : Option String
  pub reason : Option String
  pub exit_code : Option ℤ
  pub network_bindings : List NetworkBinding
  pub network_interfaces : List NetworkInterface

pub record KeyValuePair : Type 0 where
  pub name : Option String
  pub value : Option String

pub record Attachment : Type 0 where
  pub details : List KeyValuePair

pub record Task : Type 0 where
  pub task_arn : Option String
  pub task_definition_arn : Option String
  pub last_status : Option String
  pub desired_status : Option String
  pub health_status : String
  pub launch_type : String
  pub availability_zone : Option String
  pub container_instance_arn : Option String
  pub capacity_provider_name : Option String
  pub created_at : Option ℕ
  pub started_at : Option ℕ
  pub stopping_at : Option ℕ
  pub stopped_at : Option ℕ
  pub stop_code : String
  pub stopped_reason : Option String
  pub containers : List Container
  pub attachments : List Attachment

pub record DescribeTasksOutput : Type 0 where
  pub tasks : List Task
  pub failures : List Failure

pub record ListTasksOutput : Type 0 where
  pub task_arns : List String
  pub next_token : Option String

pub data DesiredStatus : Type 0 where
  stopped pending running : DesiredStatus

-- The calls of ecs.Client, each with the fields of its input that the client sets.
pub record EcsSdk (W : Type 0) : Type 0 where
  pub describe_services : String → List String → Exec W DescribeServicesOutput
  pub list_tasks : String → String → DesiredStatus → Option String → Exec W ListTasksOutput
  pub describe_tasks : String → List String → Exec W DescribeTasksOutput
  pub set_desired_count : String → String → ℤ → Exec W (Option Service)
  pub force_new_deployment : String → String → Exec W (Option Service)
  pub update_task_protection : String → List String → Bool → Exec W (List Failure)
  pub describe_container_instances : String → List String → Exec W (List (Option String))

-- aws.ToString, and ptrString of the ECS client.
abbrev pub to_string : Option String → String
to_string none = ""
to_string (some s) = s

-- aws.ToInt32
abbrev pub to_int : Option ℕ → ℕ
to_int none = 0
to_int (some n) = n

pub record TargetDescription : Type 0 where
  pub id : Option String
  pub port : Option ℕ
  pub availability_zone : Option String

pub record TargetHealth : Type 0 where
  pub state : String
  pub reason : String
  pub description : Option String

pub record TargetHealthDescription : Type 0 where
  pub target : Option TargetDescription
  pub target_health : Option TargetHealth

-- The calls of elasticloadbalancingv2.Client. Of a target group the ARNs of its load balancers are read.
pub record ElbSdk (W : Type 0) : Type 0 where
  pub describe_target_health : String → Exec W (List TargetHealthDescription)
  pub describe_target_groups : List String → Exec W (List (List String))

-- ec2.Client: the reservations, each with the private addresses of its instances.
pub record Ec2Sdk (W : Type 0) : Type 0 where
  pub describe_instances : List String → Exec W (List (List (Option String)))

pub record Datapoint (F : Type 0) : Type 0 where
  pub timestamp : Option ℕ
  pub average : Option F

-- cloudwatch.Client.GetMetricStatistics for the average of ActiveConnectionCount of AWS/ApplicationELB: the
-- value of the dimension LoadBalancer, the start and the end in nanoseconds and the period in seconds.
pub record CloudWatchSdk (W F : Type 0) : Type 0 where
  pub get_metric_statistics : String → ℕ → ℕ → ℕ → Exec W (List (Datapoint F))
  pub time_now : W → ℕ
