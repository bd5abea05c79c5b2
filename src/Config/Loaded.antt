-- ===== src/Config/Loaded.antt =====
-- configs/config.go and configs/service_registry.go: what a configuration that is loaded holds.
use legacy_messenger_ecs_con.Base.{
  ℕ, ◌*◌, ℤ, pos, negsuc, ◌≤◌, ◌<◌, ◌==◌, false, ◌≡◌, ◌≢◌, refl, ap, subst, ◌⊎◌, inl, inr, String,
  Option, none, some, [], ◌∷◌, Dict, str_eq, str_eq_iff, Bool-cases, Option-cases, arith,
}
use legacy_messenger_ecs_con.Base.Results.{Result, ok, err}
use legacy_messenger_ecs_con.Floats.{Float64}
use legacy_messenger_ecs_con.Policy.{second}
use legacy_messenger_ecs_con.System.{ServiceDef}
use legacy_messenger_ecs_con.Config.Numbers.{atoi}
use legacy_messenger_ecs_con.Config.{
  ConfigError, redis_port_invalid, Config, ServiceRegistry, init_ssh, init_redis, seconds,
  init_auto_scaling, redis_at, config_with, registry_of, registry_in, load, new_service_registry,
}

module _ (getenv : String → String) (fl : Float64) where
  abbrev pub given : Option ℤ
  given = atoi (getenv "AUTO_SCALE_IN_APPLIED_TIMEOUT_SECONDS")

  -- The timeout is 300 seconds where no number is given, or one that is not positive; else it is the number,
  -- where its nanoseconds stay below 2 ^ 63.
  pub record IsTimed (timeout : ℕ) : Type 0 where
    pub absent : given ≡ none → timeout ≡ 300 * second
    pub negative : (n : ℕ) → given ≡ some (negsuc n) → timeout ≡ 300 * second
    pub zeroed : given ≡ some (pos 0) → timeout ≡ 300 * second
    pub positive : (n : ℕ) → given ≡ some (pos n) → 0 < n → n ≤ 9223372036 → timeout ≡ n * second

  seconds_lem : (n : ℕ) → n ≤ 9223372036 → seconds getenv n ≡ n * second
  unfolding seconds
  seconds_lem n h = ground (arith, h)

  timeout_lem : IsTimed (init_auto_scaling getenv fl).scale_in_applied_timeout
  unfolding init_auto_scaling
  timeout_lem = record {
    absent = λ e. rw e (seconds_lem 300 (omega arith));
    negative = λ n e. rw e (seconds_lem 300 (omega arith));
    zeroed = λ e. rw e (seconds_lem 300 (omega arith));
    positive =
        λ n e p h. let set : (n == 0) ≡ false = ground arith in rw (e, set) (seconds_lem n h);
  }

  -- What holds of a configuration that is loaded.
  pub record IsLoaded (cfg : Config fl.F) : Type 0 where
    pub loaded : load getenv fl ≡ ok cfg
    pub redis_port : atoi (getenv "REDIS_PORT") ≡ some cfg.redis.port
    pub no_ssh : atoi (getenv "SSH_PORT") ≡ none → cfg.ssh ≡ none
    pub timeout_set : IsTimed cfg.auto_scale.scale_in_applied_timeout

  -- In every environment: Load returns an error exactly where the port of Redis is no number. Else it returns
  -- a configuration with that port and the timeout of the scale-in that `IsTimed` says, which leaves open only
  -- numbers of more than 9223372036 seconds; and no SSH configuration, but no error either, where the port of
  -- SSH is no number.
  pub load-IsLoaded :
      ((atoi (getenv "REDIS_PORT") ≡ none) × (load getenv fl ≡ err redis_port_invalid))
      ⊎ ((cfg : Config fl.F) × IsLoaded cfg)
  unfolding load init_redis init_ssh
  load-IsLoaded = elim (Option-cases (atoi (getenv "REDIS_PORT"))) [
    | inl e ↦ inl (e, rw e refl)
    | inr (port, e) ↦ inr (
      config_with getenv fl (init_ssh getenv) (redis_at getenv port),
      record {
        loaded = rw e refl;
        redis_port = e;
        no_ssh = λ f. rw f refl;
        timeout_set = timeout_lem;
      },
    )
  ]

module _ (read_file : String → Option String) (unmarshal : String → Option (Dict ServiceDef)) where
  abbrev Kept : ServiceRegistry → Type 0
  Kept r = (r.services ≢ []) × (r.cluster_name ≡ "")

  abbrev registry_or : ServiceRegistry → Result ConfigError ServiceRegistry → ServiceRegistry
  registry_or d (ok r) = r
  registry_or d _ = d

  registry_of-Kept :
      (path : String) (o : Option (Dict ServiceDef)) (r : ServiceRegistry)
      → registry_of read_file unmarshal path o ≡ ok r
      → Kept r
  registry_of-Kept path none r e = absurd (ground (arith, e))
  registry_of-Kept path (some []) r e = absurd (ground (arith, e))
  registry_of-Kept path (some (x ∷ services)) r e =
      subst Kept (ap (registry_or r) e) ((λ p. cc), refl)

  registry_in-Kept :
      (path : String) (o : Option String) (r : ServiceRegistry)
      → registry_in read_file unmarshal path o ≡ ok r
      → Kept r
  registry_in-Kept path none r e = absurd (ground (arith, e))
  registry_in-Kept path (some bytes) r e = registry_of-Kept path (unmarshal bytes) r e

  -- Whatever the file holds: a registry that is made has at least one service and was made for a cluster with
  -- a name, and it does not keep that name.
  new_service_registry_lem :
      {F : Type 0} (cfg : Config F) (r : ServiceRegistry)
      → new_service_registry read_file unmarshal cfg ≡ ok r
      → (cfg.cluster_name ≢ "") × (r.services ≢ []) × (r.cluster_name ≡ "")
  unfolding new_service_registry
  new_service_registry_lem cfg r e = elim (Bool-cases (str_eq cfg.cluster_name "")) [
    | inl f ↦ absurd (ground (arith, (rw f at e)))
    | inr f ↦
        let (some_service, no_name) =
          registry_in-Kept cfg.service_registry_path (read_file cfg.service_registry_path) r
            (rw f at e) in
        (ground (arith, f, str_eq_iff cfg.cluster_name ""), some_service, no_name)
  ]
