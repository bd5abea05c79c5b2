-- ===== src/Agents/Delivered.antt =====
-- internal/adapters/taskdrain and internal/adapters/sessionprovider: what a request that succeeds has done.
use legacy_messenger_ecs_con.Base.{ℕ, ◌≤◌, ◌<◌, ◌≡◌, String, str_append, arith}
use legacy_messenger_ecs_con.Base.Results.{ok}
use legacy_messenger_ecs_con.Domain.{request_not_created, call_failed, unexpected_status}
use legacy_messenger_ecs_con.Exec.{pure, wrap}
use legacy_messenger_ecs_con.Exec.Inversion.{bind_ok, wrap_ok, guard_ok}
use legacy_messenger_ecs_con.Aws.Sdk.{EcsSdk, Ec2Sdk}
use legacy_messenger_ecs_con.Endpoint.{aws_ports, resolve_task_endpoint}
use legacy_messenger_ecs_con.Endpoint.Resolved.{Located, resolve_task_endpoint-Located}
use legacy_messenger_ecs_con.Agents.{
  Request, Response, HttpClient, drain_request, post, is_refused, call_agent, send_to_agent,
  accepted, request_drain, drain_at,
}

module _ {W : Type 0} (http : HttpClient W) where
  -- The request was made at one state and sent at the next, and the answer's status is of the 200s.
  pub record Delivered (request : Request) (at_request : W) : Type 0 where
    pub made : Request
    pub response : Response
    pub created : (http.new_request request at_request).0 ≡ ok made
    pub sent : (http.send made (http.new_request request at_request).1).0 ≡ ok response
    pub from_200 : 200 ≤ response.status_code
    pub below_300 : response.status_code < 300

  call_agent-Delivered :
      (task_id : String) (request : Request) (w : W) (r : Unit {0})
      → (call_agent http task_id request w).0 ≡ ok r
      → Delivered request w
  unfolding wrap
  call_agent-Delivered task_id request w r e =
      let create = wrap (request_not_created task_id) (http.new_request request) in
      let (made, created, rest) = bind_ok create (send_to_agent http task_id) w r e in
      let send = wrap (call_failed task_id) (http.send made) in
      let (response, sent, left) = bind_ok send (accepted http task_id) (create w).1 r rest in
      let (taken, done) =
        guard_ok (is_refused response) (unexpected_status task_id response.status_code) (pure r)
          (send (create w).1).1 r left in
      record {
        made = made;
        response = response;
        created =
            (wrap_ok (request_not_created task_id) (http.new_request request) w made created).0;
        sent = (wrap_ok (call_failed task_id) (http.send made) (create w).1 response sent).0;
        from_200 = ground (arith, taken);
        below_300 = ground (arith, taken);
      }

  module _ (ecs : EcsSdk W) (ec2 : Ec2Sdk W) (cluster_name : String) (management_port : ℕ) where
    -- Over the clients of AWS, whatever they and the network answer: where RequestDrain returns no error, the
    -- endpoint was located as `Located` says, and the request for the drain of this task was made for
    -- /rest/drain at that endpoint, sent, and answered with a status of the 200s.
    pub request_drain-Delivered :
        (service_name task_id : String) (w : W) (r : Unit {0})
        → let resolve = resolve_task_endpoint (aws_ports ecs ec2) cluster_name management_port in
          (request_drain http resolve service_name task_id w).0 ≡ ok r
          → (endpoint : String) × Located ecs ec2 cluster_name management_port task_id w endpoint
            × Delivered
                (post
                  (str_append "http://" (str_append endpoint "/rest/drain"))
                  (drain_request task_id))
                (resolve service_name task_id w).1
    unfolding request_drain
    request_drain-Delivered service_name task_id w r e =
        let resolve = resolve_task_endpoint (aws_ports ecs ec2) cluster_name management_port in
        let (endpoint, resolved, rest) =
          bind_ok (resolve service_name task_id) (drain_at http task_id) w r e in
        (
          endpoint,
          resolve_task_endpoint-Located ecs ec2 cluster_name management_port task_id w endpoint
              service_name resolved,
          call_agent-Delivered task_id _ _ r rest,
        )
