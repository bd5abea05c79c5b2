-- ===== src/Pressure/Measured.antt =====
-- internal/application/service/connection_pressure_calculator.go: what a pressure that is calculated was
-- measured from.
use legacy_messenger_ecs_con.Base.{
  ℕ, zero, suc, ◌*◌, ◌≡◌, refl, sym, ap, subst, String, true, false, not, Bool-cases, Option, none,
  some, Dict, lookup, str_eq, lowers_to, Option-cases, inl, inr, arith,
}
use legacy_messenger_ecs_con.Base.Results.{ok}
use legacy_messenger_ecs_con.Floats.{Float64}
use legacy_messenger_ecs_con.Domain.{
  service_name_required, service_not_found, ecs_service_name_empty, alb_only, service_status_failed,
  target_group_failed, load_balancer_failed, connection_count_failed,
}
use legacy_messenger_ecs_con.Policy.{second}
use legacy_messenger_ecs_con.Exec.Inversion.{bind_wrap_ok, guard_ok, pure_ok, raise_ok, nil_ok}
use legacy_messenger_ecs_con.System.{ServiceDef, ServiceStatus}
use legacy_messenger_ecs_con.Evaluation.{
  ConnectionPressureStatus, low, normal, high, ConnectionPressure,
}
use legacy_messenger_ecs_con.Pressure.{
  PressurePorts, pressure_of, measure, count_connections, find_balancer, find_group, read_pressure,
  effective_target, connections_per_task, round_float, evaluate_pressure_status, calculate_alb,
  calculate_registered, calculate,
}

module _ (fl : Float64) {W : Type 0} (ports : PressurePorts W (fl.F)) (cluster_name : String)
    (registry : Dict ServiceDef) (s : String) where
  open fl use {F, of_int, decimal, mul, div, round, le}

  -- The connections per task, over the tasks that run, and 0 where none runs.
  abbrev per_task : F → ℕ → F
  per_task active zero = of_int 0
  per_task active (suc n) = div active (of_int (suc n))

  -- The target in use.
  abbrev target_of : ℕ → ℕ
  target_of zero = 1500
  target_of (suc n) = suc n

  -- The status for the connections per task, and the target.
  pub data Ranks (load : F) (target : ℕ) : ConnectionPressureStatus → Type 0 where
    at_high : le (mul (of_int target) (decimal 8 1)) load ≡ true → Ranks load target high
    at_low :
        le (mul (of_int target) (decimal 8 1)) load ≡ false
        → le load (mul (of_int target) (decimal 3 1)) ≡ true
        → Ranks load target low
    between :
        le (mul (of_int target) (decimal 8 1)) load ≡ false
        → le load (mul (of_int target) (decimal 3 1)) ≡ false
        → Ranks load target normal

  -- The worlds that the calls leave, one after the other.
  abbrev pub at_group : ServiceDef → W → W
  at_group def w = (ports.describe_service cluster_name def.ecs_service_name w).1

  abbrev pub at_balancer : ServiceDef → W → W
  at_balancer def w =
      (ports.get_service_target_group_arn cluster_name def.ecs_service_name (at_group def w)).1

  abbrev pub at_count : ServiceDef → String → W → W
  at_count def group w =
      (ports.get_load_balancer_arn_by_target_group_arn group (at_balancer def w)).1

  -- The pressure has the connections and the counts of the tasks; the connections per task are those over
  -- the running tasks, at two places, and the status ranks them by 8 and 3 tenths of the target.
  pub record IsShared (def : ServiceDef) (status : ServiceStatus) (active : F)
      (pressure : ConnectionPressure F) : Type 0 where
    pub named :
        (pressure.service_name ≡ s)
        × (pressure.ecs_service_name ≡ def.ecs_service_name)
        × (pressure.cluster_name ≡ cluster_name)
    pub counts :
        (pressure.active_connection_count ≡ active)
        × (pressure.running_task_count ≡ status.running_count)
        × (pressure.desired_count ≡ status.desired_count)
    pub target : pressure.target_connections_per_task ≡ target_of def.target_connections_per_task
    pub shared :
        pressure.connection_per_task
        ≡ div (round (mul (per_task active status.running_count) (of_int 100))) (of_int 100)
    pub ranked :
        Ranks
          (per_task active status.running_count)
          (target_of def.target_connections_per_task)
          pressure.pressure_status

  -- ECS described the service and named its target group, ELB the group's load balancer and CloudWatch the
  -- connections over five minutes, each in the world that the call before left, and the pressure is that of
  -- these.
  pub record IsMeasured (def : ServiceDef) (w : W) (pressure : ConnectionPressure F) : Type 0 where
    pub status : ServiceStatus
    pub group : String
    pub balancer : String
    pub active : F
    pub described :
        (ports.describe_service cluster_name def.ecs_service_name w).0 ≡ ok (some status)
    pub grouped :
        (ports.get_service_target_group_arn cluster_name def.ecs_service_name (at_group def w)).0
        ≡ ok group
    pub balanced :
        (ports.get_load_balancer_arn_by_target_group_arn group (at_balancer def w)).0 ≡ ok balancer
    pub counted :
        (ports.get_alb_active_connection_count balancer 60 (300 * second) (at_count def group w)).0
        ≡ ok active
    pub put_together : IsShared def status active pressure

  share_lem : (active : F) (n : ℕ) → connections_per_task fl active n ≡ per_task active n
  unfolding connections_per_task
  share_lem active zero = refl
  share_lem active (suc n) = ground arith

  target_lem : (n : ℕ) → effective_target n ≡ target_of n
  unfolding effective_target
  target_lem zero = refl
  target_lem (suc n) = ground arith

  target_again : (n : ℕ) → effective_target (target_of n) ≡ target_of n
  unfolding effective_target
  target_again zero = ground arith
  target_again (suc n) = ground arith

  rank_lem :
      (load : F) (n : ℕ) → Ranks load (target_of n) (evaluate_pressure_status fl load (target_of n))
  unfolding evaluate_pressure_status
  rank_lem load n =
      let target = target_of n in
      rw (target_again n) (elim (Bool-cases (le (mul (of_int target) (decimal 8 1)) load)) [
        | inl e ↦ rw e (at_high e)
        | inr e ↦ elim (Bool-cases (le load (mul (of_int target) (decimal 3 1)))) [
          | inl f ↦ rw (e, f) (at_low e f)
          | inr f ↦ rw (e, f) (between e f)
        ]
      ])

  pressure_of-IsShared :
      (def : ServiceDef) (status : ServiceStatus) (active : F)
      → IsShared def status active (pressure_of fl ports cluster_name registry s def status active)
  unfolding round_float
  pressure_of-IsShared def status active =
      let load = per_task active status.running_count in
      let n = def.target_connections_per_task in
      record {
        named = (refl, refl, refl);
        counts = (refl, refl, refl);
        target = target_lem n;
        shared =
            ap (λ (x : F). div (round (mul x (of_int 100))) (of_int 100))
              (share_lem active status.running_count);
        ranked = rw (share_lem active status.running_count, target_lem n) (rank_lem load n);
      }

  measure_ok :
      (def : ServiceDef) (o : Option ServiceStatus) (active : F) (w : W) (p : ConnectionPressure F)
      → (measure fl ports cluster_name registry s def o active w).0 ≡ ok p
      → (status : ServiceStatus) × (o ≡ some status)
        × (p ≡ pressure_of fl ports cluster_name registry s def status active)
  measure_ok def none active w p e = absurd (nil_ok w p e)
  measure_ok def (some status) active w p e = (status, refl, sym (pure_ok _ p w e))

  read_pressure-IsMeasured :
      (def : ServiceDef) (w : W) (p : ConnectionPressure F)
      → (read_pressure fl ports cluster_name registry s def w).0 ≡ ok p
      → IsMeasured def w p
  read_pressure-IsMeasured def w p e =
      let describe = ports.describe_service cluster_name def.ecs_service_name in
      let (o, described, on_group) =
        bind_wrap_ok service_status_failed describe
          (find_group fl ports cluster_name registry s def) w p e in
      let name_group = ports.get_service_target_group_arn cluster_name def.ecs_service_name in
      let (group, grouped, on_balancer) =
        bind_wrap_ok target_group_failed name_group
          (find_balancer fl ports cluster_name registry s def o) (at_group def w) p on_group in
      let name_balancer = ports.get_load_balancer_arn_by_target_group_arn group in
      let (balancer, balanced, on_count) =
        bind_wrap_ok load_balancer_failed name_balancer
          (count_connections fl ports cluster_name registry s def o) (at_balancer def w) p
          on_balancer in
      let count = ports.get_alb_active_connection_count balancer 60 (300 * second) in
      let (active, counted, done) =
        bind_wrap_ok connection_count_failed count (measure fl ports cluster_name registry s def o)
          (at_count def group w) p on_count in
      let (status, known, put_together) =
        measure_ok def o active (count (at_count def group w)).1 p done in
      record {
        status = status;
        group = group;
        balancer = balancer;
        active = active;
        described = subst (λ o. (describe w).0 ≡ ok o) known described;
        grouped = grouped;
        balanced = balanced;
        counted = counted;
        put_together =
            subst (IsShared def status active) (sym put_together)
              (pressure_of-IsShared def status active);
      }

  -- Whatever the ports answer: a pressure that is calculated is that of a registered service behind an
  -- alb, measured as `IsMeasured` says.
  pub calculate-IsMeasured :
      (w : W) (p : ConnectionPressure F)
      → (calculate fl ports cluster_name registry s w).0 ≡ ok p
      → (def : ServiceDef) × (lookup s registry ≡ some def)
        × (lowers_to def.load_balancer_type "alb" ≡ true)
        × IsMeasured def w p
  unfolding calculate
  calculate-IsMeasured w p e =
      let (named, known) =
        guard_ok (str_eq s "") service_name_required
          (calculate_registered fl ports cluster_name registry s (lookup s registry)) w p e in
      elim (Option-cases (lookup s registry)) [
        | inl f ↦ absurd (raise_ok (service_not_found s) w p (rw f at known))
        | inr (def, f) ↦
            let (set, asked) =
              guard_ok (str_eq def.ecs_service_name "") (ecs_service_name_empty s)
                (calculate_alb fl ports cluster_name registry s def) w p (rw f at known) in
            let (balanced, observed) =
              guard_ok (not (lowers_to def.load_balancer_type "alb"))
                (alb_only s def.load_balancer_type)
                (read_pressure fl ports cluster_name registry s def) w p asked in
            (def, f, ground (arith, balanced), read_pressure-IsMeasured def w p observed)
      ]
