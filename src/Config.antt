-- ===== src/Config.antt =====
-- configs/config.go and configs/service_registry.go: what is read from the environment and from the file of
-- the services. os.Getenv, os.ReadFile and the parser of YAML are parameters.
pub mod Numbers
pub mod Loaded
use legacy_messenger_ecs_con.Base.{
  ℕ, ◌*◌, ◌%◌, ◌^◌, ltb, ℤ, pos, negsuc, String, Bool, true, false, ◌||◌, Option, none, some, List,
  [], ◌∷◌, Dict, str_eq, ◌==◌, if◌then◌else◌,
}
use legacy_messenger_ecs_con.Base.Results.{Result, ok, err, panic}
use legacy_messenger_ecs_con.Floats.{Float64}
use legacy_messenger_ecs_con.Policy.{second}
use legacy_messenger_ecs_con.System.{ServiceDef, AutoScaleConfig}
use legacy_messenger_ecs_con.Config.Numbers.{atoi}

pub data ConfigError : Type 0 where
  redis_port_invalid ssh_port_invalid : ConfigError
  cluster_name_missing registry_empty : ConfigError
  registry_unreadable : String → ConfigError
  registry_unparsable : String → ConfigError

-- The user name and the database are never set.
pub record RedisConfig : Type 0 where
  pub host : String
  pub port : ℤ
  pub password : String

-- The timeout is never set.
pub record SshConfig : Type 0 where
  pub host : String
  pub port : ℤ
  pub user : String
  pub password : String

-- A nil SSH configuration is none. The services are not filled in.
pub record Config (F : Type 0) : Type 0 where
  pub port : String
  pub region : String
  pub cluster_name : String
  pub service_registry_path : String
  pub ssh : Option SshConfig
  pub redis : RedisConfig
  pub auto_scale : AutoScaleConfig F
  pub mock : Bool
  pub session_provider_url : String

module _ (getenv : String → String) where
  abbrev pub redis_at : ℤ → RedisConfig
  redis_at port = record {
    host = getenv "REDIS_HOST";
    port = port;
    password = getenv "REDIS_PASSWORD";
  }

  abbrev redis_of : Option ℤ → Result ConfigError RedisConfig
  redis_of none = err redis_port_invalid
  redis_of (some port) = ok (redis_at port)

  unfoldable pub init_redis : Result ConfigError RedisConfig
  init_redis = redis_of (atoi (getenv "REDIS_PORT"))

  abbrev ssh_of : Option ℤ → Result ConfigError SshConfig
  ssh_of none = err ssh_port_invalid
  ssh_of (some port) = ok (record {
    host = getenv "SSH_HOST";
    port = port;
    user = getenv "SSH_USER";
    password = getenv "SSH_PASSWORD";
  })

  unfoldable pub init_ssh : Result ConfigError SshConfig
  init_ssh = ssh_of (atoi (getenv "SSH_PORT"))

  -- A number, or a default where the text is none. 0 stands for a number that is not positive.
  abbrev number_or : ℕ → Option ℤ → ℕ
  number_or default none = default
  number_or default (some (pos n)) = n
  number_or default (some (negsuc n)) = 0

  abbrev timeout_seconds : ℕ → ℕ
  timeout_seconds n = if n == 0 then 300 else n

  -- time.Duration(n) * time.Second, an int64 that wraps around. 0 stands for a product that is negative too,
  -- which scale_in_usecase.go takes as it takes 0.
  unfoldable pub seconds : ℕ → ℕ
  seconds n = let wrapped = n * second % 2 ^ 64 in if ltb wrapped (2 ^ 63) then wrapped else 0

  unfoldable pub init_auto_scaling : (fl : Float64) → AutoScaleConfig fl.F
  unfolding seconds
  init_auto_scaling fl = record {
    interval = number_or 10 (atoi (getenv "AUTO_SCALE_INTERVAL"));
    session_per_task = number_or 100 (atoi (getenv "AUTO_SCALE_SESSION_PER_TASK"));
    scale_out_utilization = fl.decimal 8 1;
    expires_period = 30;
    stop_candidate_period = 60;
    min_task_count = 1;
    max_task_count = 5;
    scale_in_applied_timeout =
        seconds
          (timeout_seconds (number_or 0 (atoi (getenv "AUTO_SCALE_IN_APPLIED_TIMEOUT_SECONDS"))));
  }

  unfoldable pub init_mock : Bool
  init_mock = str_eq (getenv "MOCK_FLAG") "" || str_eq (getenv "MOCK_FLAG") "true"

  abbrev or_nil : {A : Type 0} → Result ConfigError A → Option A
  or_nil (ok a) = some a
  or_nil _ = none

  abbrev pub config_with : (fl : Float64) → Result ConfigError SshConfig → RedisConfig → Config fl.F
  config_with fl ssh redis = record {
    port = getenv "PORT";
    region = getenv "REGION";
    cluster_name = getenv "ECS_CLUSTER_NAME";
    service_registry_path = getenv "SERVICE_REGISTRY_PATH";
    ssh = or_nil ssh;
    redis = redis;
    auto_scale = init_auto_scaling fl;
    mock = init_mock;
    session_provider_url = getenv "SESSION_PROVIDER_URL";
  }

  abbrev config_of :
      (fl : Float64)
      → Result ConfigError SshConfig
      → Result ConfigError RedisConfig
      → Result ConfigError (Config fl.F)
  config_of fl ssh (err e) = err e
  config_of fl ssh panic = panic
  config_of fl ssh (ok redis) = ok (config_with fl ssh redis)

  -- The second assignment of `err` overwrites that of initSsh.
  unfoldable pub load : (fl : Float64) → Result ConfigError (Config fl.F)
  unfolding init_ssh init_redis init_auto_scaling init_mock
  load fl = config_of fl init_ssh init_redis

pub record ServiceRegistry : Type 0 where
  pub cluster_name : String
  pub services : Dict ServiceDef

module _ (read_file : String → Option String) (unmarshal : String → Option (Dict ServiceDef)) where
  abbrev pub registry_of : String → Option (Dict ServiceDef) → Result ConfigError ServiceRegistry
  registry_of path none = err (registry_unparsable path)
  registry_of path (some []) = err registry_empty
  registry_of path (some (e ∷ services)) =
      ok (record { cluster_name = ""; services = e ∷ services })

  abbrev pub registry_in : String → Option String → Result ConfigError ServiceRegistry
  registry_in path none = err (registry_unreadable path)
  registry_in path (some bytes) = registry_of path (unmarshal bytes)

  unfoldable pub new_service_registry : {F : Type 0} → Config F → Result ConfigError ServiceRegistry
  new_service_registry cfg =
      if str_eq cfg.cluster_name ""
      then err cluster_name_missing
      else registry_in cfg.service_registry_path (read_file cfg.service_registry_path)
