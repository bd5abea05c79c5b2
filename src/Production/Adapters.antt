-- ===== src/Production/Adapters.antt =====
-- internal/adapters: no client dereferences nil where the libraries do not.
use legacy_messenger_ecs_con.Base.{
  ℕ, zero, suc, ℤ, pos, ◌≤◌, length, str_eq, Bool-cases, inl, inr, arith, ◌≡◌, ◌≢◌, String, Bool,
  Option, none, some, List, [], ◌∷◌, ◌++◌, Dict,
}
use legacy_messenger_ecs_con.Base.Results.{Result, ok, panic, Result-cases}
use legacy_messenger_ecs_con.Domain.{Error}
use legacy_messenger_ecs_con.Exec.{continue, wrap, pure, ◌>>=◌}
use legacy_messenger_ecs_con.Exec.Alive.{
  Alive, bind-Alive, pure-Alive, raise-Alive, wrap-Alive, if-Alive,
}
use legacy_messenger_ecs_con.Store.{Command, ZRangeBy}
use legacy_messenger_ecs_con.Aws.Sdk.{
  running, to_string, DescribeServicesOutput, Service, Task, Failure, DesiredStatus,
}
use legacy_messenger_ecs_con.Aws.Services
use legacy_messenger_ecs_con.Aws.Services.{
  names_required, first_service, described, get_service_control_state, update_service_desired_count,
}
use legacy_messenger_ecs_con.Aws.Tasks.{
  list_running, without_failure, describe_running, get_running_task_ids, update_task_protection,
  describe_task, task_described, matched, task_found,
}
use legacy_messenger_ecs_con.Aws.Tasks.Running.{Ends, drop-lt}
use legacy_messenger_ecs_con.Agents.{Request}
use legacy_messenger_ecs_con.Production.{Libraries}

-- Each call of a library that the scale-in needs returns a value or an error.
pub record LibrariesAlive {W : Type 0} (lib : Libraries W) : Type 0 where
  pub describe_services :
      (c : String) (names : List String) → Alive (lib.ecs.describe_services c names)
  pub list_tasks :
      (c name : String) (d : DesiredStatus) (token : Option String)
      → Alive (lib.ecs.list_tasks c name d token)
  pub describe_tasks : (c : String) (arns : List String) → Alive (lib.ecs.describe_tasks c arns)
  pub set_desired_count : (c name : String) (n : ℤ) → Alive (lib.ecs.set_desired_count c name n)
  pub update_task_protection :
      (c : String) (ids : List String) (b : Bool) → Alive (lib.ecs.update_task_protection c ids b)
  pub describe_container_instances :
      (c : String) (arns : List String) → Alive (lib.ecs.describe_container_instances c arns)
  pub describe_instances : (ids : List String) → Alive (lib.ec2.describe_instances ids)
  pub tx_pipelined : (commands : List Command) → Alive (lib.redis.tx_pipelined commands)
  pub tx_h_get_all : (key : String) → Alive (lib.redis.tx_h_get_all key)
  pub h_reply :
      (key : String) (w : W) (reply : Result Error (Dict String))
      → (lib.redis.tx_h_get_all key w).0 ≡ ok reply
      → reply ≢ panic
  pub z_range :
      (key : String) (range : ZRangeBy) → Alive (lib.redis.z_range_by_score_with_scores key range)
  pub unmarshal : (value : String) → lib.json.unmarshal value ≢ panic
  pub new_request : (request : Request) → Alive (lib.http.new_request request)
  pub send : (request : Request) → Alive (lib.http.send request)

module _ {W : Type 0} (lib : Libraries W) (alive : LibrariesAlive lib) where
  names-Alive : (c s : String) → Alive (names_required lib.ecs c s)
  names-Alive c s =
      bind-Alive _ _ (if-Alive _ _ _ (raise-Alive _) (pure-Alive _))
        λ _. if-Alive _ _ _ (raise-Alive _) (pure-Alive _)

  first_service-Alive :
      (s : String) (services : List Service) → Alive (first_service lib.ecs s services)
  first_service-Alive s [] = raise-Alive _
  first_service-Alive s (svc ∷ services) = pure-Alive _

  described-Alive :
      (s : String) (out : DescribeServicesOutput) (failures : List Failure)
      → Alive (described lib.ecs s out failures)
  described-Alive s out [] = first_service-Alive s out.services
  described-Alive s out (f ∷ failures) = raise-Alive _

  pub control-Alive : (c s : String) → Alive (get_service_control_state lib.ecs c s)
  unfolding get_service_control_state
  control-Alive c s =
      bind-Alive _ _ (wrap-Alive _ _ (alive.describe_services _ _))
        λ out. bind-Alive _ _ (described-Alive s out out.failures) λ svc. pure-Alive _

  returned-Alive : (o : Option Service) → Alive (Services.returned lib.ecs o)
  returned-Alive none = raise-Alive _
  returned-Alive (some svc) = pure-Alive _

  pub update-Alive :
      (c s : String) (n : ℕ) → Alive (update_service_desired_count lib.ecs c s (pos n))
  unfolding update_service_desired_count
  update-Alive c s n =
      bind-Alive _ _ (wrap-Alive _ _ (alive.set_desired_count _ _ _))
        λ out. bind-Alive _ _ (returned-Alive out) λ svc. pure-Alive _

  list_running-returns :
      (fuel : ℕ) (c s : String) (arns : List String) (token : Option String) (w : W)
      → Ends lib.ecs c s fuel token w
      → (list_running lib.ecs fuel c s arns token w).0 ≢ panic
  unfolding list_running ◌>>=◌ continue wrap pure
  list_running-returns zero c s arns token w ends p = absurd ends
  list_running-returns (suc fuel) c s arns token w ends p =
      elim (Result-cases (lib.ecs.list_tasks c s running token w).0) [
        | inl (out, e) ↦ elim (Bool-cases (str_eq (to_string out.next_token) "")) [
          | inl last ↦ absurd (ground (arith, (rw (e, last) at p)))
          | inr next ↦
              list_running-returns fuel c s (arns ++ out.task_arns) out.next_token
                (lib.ecs.list_tasks c s running token w).1 (ends out e next) (rw (e, next) at p)
        ]
        | inr (inl (d, e)) ↦ absurd (ground (arith, (rw e at p)))
        | inr (inr e) ↦ (alive.list_tasks c s running token).returns w e
      ]

  list_running-Alive :
      (pages : ℕ) (c s : String)
      → ((w : W) → Ends lib.ecs c s pages none w)
      → Alive (list_running lib.ecs pages c s [] none)
  list_running-Alive pages c s ends = record {
    returns = λ w. list_running-returns pages c s [] none w (ends w);
  }

  without_failure-Alive : (failures : List Failure) → Alive (without_failure lib.ecs failures)
  without_failure-Alive [] = pure-Alive _
  without_failure-Alive (f ∷ failures) = raise-Alive _

  describe_running-Alive :
      (fuel : ℕ) (c s : String) (ids arns : List String)
      → length arns ≤ fuel
      → Alive (describe_running lib.ecs fuel c s ids arns)
  unfolding describe_running
  describe_running-Alive zero c s ids [] h = pure-Alive _
  describe_running-Alive zero c s ids (arn ∷ arns) h = absurd (omega arith)
  describe_running-Alive (suc fuel) c s ids [] h = pure-Alive _
  describe_running-Alive (suc fuel) c s ids (arn ∷ arns) h =
      bind-Alive _ _ (wrap-Alive _ _ (alive.describe_tasks _ _)) λ out.
        bind-Alive _ _ (without_failure-Alive out.failures)
          λ _. describe_running-Alive fuel c s _ _ (omega (arith, drop-lt arn arns))

  pub running-Alive :
      (pages : ℕ) (c s : String)
      → ((w : W) → Ends lib.ecs c s pages none w)
      → Alive (get_running_task_ids lib.ecs pages c s)
  unfolding get_running_task_ids
  running-Alive pages c s ends = bind-Alive _ _ (names-Alive c s) λ _.
      bind-Alive _ _ (list_running-Alive pages c s ends)
        λ arns. describe_running-Alive (length arns) c s [] arns (omega arith)

  pub protection-Alive :
      (c : String) (ids : List String) (b : Bool) → Alive (update_task_protection lib.ecs c ids b)
  unfolding update_task_protection
  protection-Alive c [] b = raise-Alive _
  protection-Alive c (id ∷ ids) b =
      bind-Alive _ _ (wrap-Alive _ _ (alive.update_task_protection _ _ _)) λ _. pure-Alive _

  task_described-Alive :
      (t : String) (failures : List Failure) → Alive (task_described lib.ecs t failures)
  task_described-Alive t [] = pure-Alive _
  task_described-Alive t (f ∷ failures) = raise-Alive _

  task_found-Alive : (t : String) (o : Option Task) → Alive (task_found lib.ecs t o)
  task_found-Alive t none = raise-Alive _
  task_found-Alive t (some task) = pure-Alive _

  matched-Alive : (t : String) (tasks : List Task) → Alive (matched lib.ecs t tasks)
  matched-Alive t [] = raise-Alive _
  matched-Alive t (task ∷ tasks) = task_found-Alive t _

  pub describe-Alive : (c t : String) → Alive (describe_task lib.ecs c t)
  unfolding describe_task
  describe-Alive c t =
      bind-Alive _ _ (wrap-Alive _ _ (alive.describe_tasks _ _))
        λ out. bind-Alive _ _ (task_described-Alive t out.failures) λ _. matched-Alive t out.tasks
