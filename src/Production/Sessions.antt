-- ===== src/Production/Sessions.antt =====
-- internal/adapters/redis, internal/adapters/taskdrain and the resolver: these clients too dereference no nil
-- where the libraries do not.
use legacy_messenger_ecs_con.Base.{
  ℕ, ◌≢◌, String, Option, none, some, List, [], ◌∷◌, ◌++◌, Dict, insert, ◌==◌, str_eq,
}
use legacy_messenger_ecs_con.Base.Results.{Result, panic}
use legacy_messenger_ecs_con.Domain.{Error, host_port_not_found, container_instance_empty}
use legacy_messenger_ecs_con.Demand.{SessionReport}
use legacy_messenger_ecs_con.Exec.{Exec, raise, wrap, ◌>>=◌}
use legacy_messenger_ecs_con.Exec.Inversion.{wrap_ok}
use legacy_messenger_ecs_con.Exec.Alive.{
  Alive, bind-Alive, bind-Alive_of, pure-Alive, raise-Alive, wrap-Alive, if-Alive,
}
use legacy_messenger_ecs_con.System.{AutoScaleConfig, EcsTask}
use legacy_messenger_ecs_con.Store.{
  Z, returned, member_of, decode_reports, find_report, expired_tasks, stop_tasks,
  delete_task_session_state, get_task_session_report, get_invalid_report_task,
  get_task_session_report_by_task,
}
use legacy_messenger_ecs_con.Aws.Tasks.{get_container_instance_ec2_id, instance_id}
use legacy_messenger_ecs_con.Endpoint.{
  get_private_ip, first_address, aws_ports, join, reach, reach_port, endpoint_of,
  resolve_task_endpoint,
}
use legacy_messenger_ecs_con.Agents.{request_drain}
use legacy_messenger_ecs_con.Production.{Libraries}
use legacy_messenger_ecs_con.Production.Adapters.{LibrariesAlive, describe-Alive}

module _ {S A : Type 0} where
  returned-Alive : (r : Result Error A) → r ≢ panic → Alive (returned {S = S} r)
  returned-Alive r h = record { returns = λ s e. h e }

module _ {W : Type 0} (lib : Libraries W) (alive : LibrariesAlive lib) where
  decode-Alive :
      (reports : Dict SessionReport) (result : Dict String)
      → Alive (decode_reports lib.json {S = W} reports result)
  unfolding decode_reports
  decode-Alive reports [] = pure-Alive _
  decode-Alive reports ((t, value) ∷ result) =
      bind-Alive _ _ (wrap-Alive _ _ (returned-Alive _ (alive.unmarshal value)))
        λ report. decode-Alive (insert t report reports) result

  find-Alive : (t : String) (result : Dict String) → Alive (find_report lib.json {S = W} t result)
  unfolding find_report
  find-Alive t [] = pure-Alive _
  find-Alive t ((k, value) ∷ result) =
      bind-Alive _ _ (wrap-Alive _ _ (returned-Alive _ (alive.unmarshal value)))
        λ report. if-Alive _ _ _ (pure-Alive _) (find-Alive t result)

  read-Alive :
      {A : Type 0} (c d : Error → Error) (key : String) (f : Dict String → Exec W A)
      → ((result : Dict String) → Alive (f result))
      → Alive (wrap c (lib.redis.tx_h_get_all key) >>= λ reply. wrap d (returned reply) >>= f)
  read-Alive c d key f h =
      bind-Alive_of (wrap c (lib.redis.tx_h_get_all key)) (λ reply. wrap d (returned reply) >>= f)
        (wrap-Alive _ _ (alive.tx_h_get_all key))
        λ reply w e.
          let answered = (wrap_ok c (lib.redis.tx_h_get_all key) w reply e).0 in
          (bind-Alive (wrap d (returned reply)) f
              (wrap-Alive _ _ (returned-Alive reply (alive.h_reply key w reply answered)))
              h).returns
            (wrap c (lib.redis.tx_h_get_all key) w).1

  pub reports-Alive : (s : String) → Alive (get_task_session_report lib.redis lib.json s)
  unfolding get_task_session_report
  reports-Alive s = read-Alive _ _ _ _ (λ result. decode-Alive [] result)

  pub report-Alive : (s t : String) → Alive (get_task_session_report_by_task lib.redis lib.json s t)
  unfolding get_task_session_report_by_task
  report-Alive s t = read-Alive _ _ _ _ (λ result. find-Alive t result)

  member-Alive : (e : Error) (o : Option String) → Alive (member_of lib.json {S = W} e o)
  member-Alive e none = raise-Alive _
  member-Alive e (some t) = pure-Alive _

  expired-Alive :
      (s : String) (expired : Dict String) (results : List Z)
      → Alive (expired_tasks lib.json {S = W} s expired results)
  unfolding expired_tasks
  expired-Alive s expired [] = pure-Alive _
  expired-Alive s expired (z ∷ results) =
      bind-Alive _ _ (member-Alive _ z.member)
        λ t. expired-Alive s (insert t (lib.json.format_int z.score) expired) results

  stop-Alive :
      (s : String) (stop : List String) (results : List Z)
      → Alive (stop_tasks lib.json {S = W} s stop results)
  unfolding stop_tasks
  stop-Alive s stop [] = pure-Alive _
  stop-Alive s stop (z ∷ results) =
      bind-Alive _ _ (member-Alive _ z.member) λ t. stop-Alive s (stop ++ (t ∷ [])) results

  pub invalid-Alive :
      {F : Type 0} (s : String) (cfg : AutoScaleConfig F)
      → Alive (get_invalid_report_task lib.redis lib.json lib.time_now s cfg)
  unfolding get_invalid_report_task
  invalid-Alive s cfg = record {
    returns = λ w.
        (bind-Alive _ _ (wrap-Alive _ _ (alive.z_range _ _)) λ results.
            bind-Alive _ _ (expired-Alive s [] results) λ expired.
              bind-Alive _ _ (wrap-Alive _ _ (alive.z_range _ _)) λ stop_results.
                bind-Alive _ _ (stop-Alive s _ stop_results) λ stop. pure-Alive _).returns
          w;
  }

  pub remove-Alive : (s t : String) → Alive (delete_task_session_state lib.redis s t)
  unfolding delete_task_session_state
  remove-Alive s t = wrap-Alive _ _ (alive.tx_pipelined _)

  first_address-Alive :
      (id : String) (reservations : List (List (Option String)))
      → Alive (first_address lib.ec2 id reservations)
  first_address-Alive id [] = raise-Alive _
  first_address-Alive id ([] ∷ reservations) = raise-Alive _
  first_address-Alive id ((ip ∷ instances) ∷ reservations) =
      if-Alive _ _ _ (raise-Alive _) (pure-Alive _)

  address-Alive : (id : String) → Alive (get_private_ip lib.ec2 id)
  unfolding get_private_ip
  address-Alive id =
      bind-Alive _ _ (wrap-Alive _ _ (alive.describe_instances _))
        λ reservations. first_address-Alive id reservations

  instance-Alive : (arn : String) (ids : List (Option String)) → Alive (instance_id lib.ecs arn ids)
  instance-Alive arn [] = raise-Alive _
  instance-Alive arn (id ∷ ids) = if-Alive _ _ _ (raise-Alive _) (pure-Alive _)

  host-Alive : (c arn : String) → Alive (get_container_instance_ec2_id lib.ecs c arn)
  unfolding get_container_instance_ec2_id
  host-Alive c arn =
      bind-Alive _ _ (wrap-Alive _ _ (alive.describe_container_instances _ _))
        λ ids. instance-Alive arn ids

  module _ (c : String) (port : ℕ) where
    reach-Alive :
        (host_port : ℕ) (id : String)
        → Alive (reach (aws_ports lib.ecs lib.ec2) c port host_port id)
    unfolding aws_ports
    reach-Alive host_port id =
        bind-Alive (get_private_ip lib.ec2 id) (join (aws_ports lib.ecs lib.ec2) c port host_port)
          (address-Alive id) λ ip. pure-Alive _

    reach_port-Alive :
        (t arn : String) (host_port : ℕ)
        → Alive (reach_port (aws_ports lib.ecs lib.ec2) c port t arn host_port)
    unfolding aws_ports
    reach_port-Alive t arn host_port =
        if-Alive (host_port == 0) (raise (host_port_not_found t port)) _ (raise-Alive _) (
          bind-Alive (get_container_instance_ec2_id lib.ecs c arn)
            (reach (aws_ports lib.ecs lib.ec2) c port host_port) (host-Alive c arn)
            (reach-Alive host_port))

    endpoint-Alive :
        (t : String) (task : EcsTask)
        → Alive (endpoint_of (aws_ports lib.ecs lib.ec2) c port t task)
    endpoint-Alive t task =
        if-Alive (str_eq task.container_instance_arn "") (raise (container_instance_empty t)) _
          (raise-Alive _) (reach_port-Alive t task.container_instance_arn _)

    resolve-Alive :
        (s t : String) → Alive (resolve_task_endpoint (aws_ports lib.ecs lib.ec2) c port s t)
    unfolding resolve_task_endpoint aws_ports
    resolve-Alive s t =
        bind-Alive _ (endpoint_of (aws_ports lib.ecs lib.ec2) c port t)
          (wrap-Alive _ _ (describe-Alive lib alive c t)) (endpoint-Alive t)

  pub drain-Alive :
      (c : String) (port : ℕ) (s t : String)
      → Alive
          (request_drain lib.http (resolve_task_endpoint (aws_ports lib.ecs lib.ec2) c port) s t)
  unfolding request_drain
  drain-Alive c port s t = bind-Alive _ _ (resolve-Alive c port s t) λ endpoint.
      bind-Alive _ _ (wrap-Alive _ _ (alive.new_request _)) λ made.
        bind-Alive _ _ (wrap-Alive _ _ (alive.send made))
          λ response. if-Alive _ _ _ (raise-Alive _) (pure-Alive _)
