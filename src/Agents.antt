-- ===== src/Agents.antt =====
-- internal/adapters/taskdrain and internal/adapters/sessionprovider: the requests to the agents beside the
-- tasks. A request is a value with the body that json.Marshal is given, which cannot fail on texts and
-- numbers. What net/http does with it is a parameter.
pub mod Delivered
use Prim.Native.Char.{code}
use legacy_messenger_ecs_con.Base.{
  ℕ, String, Bool, true, ◌||◌, ◌&&◌, Option, none, some, ltb, leb, str_eq, str_append,
  if◌then◌else◌, ◌==◌,
}
use legacy_messenger_ecs_con.Domain.{
  Error, resolve_failed, request_not_created, call_failed, unexpected_status, notification_failed,
}
use legacy_messenger_ecs_con.Exec.{Exec, pure, raise, wrap, ◌>>=◌, ◌>>◌}

-- The JSON bodies: TaskDrainRequest, scaleOutRequest and taskStopRequest.
pub data Body : Type 0 where
  no_body : Body
  drain_request : String → Body
  scale_out_request : String → ℕ → Body
  task_stop_request : String → Body

pub record Request : Type 0 where
  pub method : String
  pub url : String
  pub body : Body

-- The text of the body is `none` if reading it fails.
pub record Response : Type 0 where
  pub status_code : ℕ
  pub body : Option String

-- http.NewRequestWithContext, which refuses a malformed URL, and http.Client.Do.
pub record HttpClient (W : Type 0) : Type 0 where
  pub new_request : Request → Exec W Request
  pub send : Request → Exec W Response

abbrev pub post : String → Body → Request
post url body = record { method = "POST"; url = url; body = body }

-- resp.StatusCode < http.StatusOK || resp.StatusCode >= http.StatusMultipleChoices
abbrev pub is_refused : Response → Bool
is_refused response = ltb response.status_code 200 || leb 300 response.status_code

module _ {W : Type 0} (http : HttpClient W) where
  abbrev pub accepted : String → Response → Exec W (Unit {0})
  accepted task_id response =
      if is_refused response
      then raise (unexpected_status task_id response.status_code)
      else pure tt

  -- What the three requests for a drain share from the request's URL on.
  abbrev pub send_to_agent : String → Request → Exec W (Unit {0})
  send_to_agent task_id made = wrap (call_failed task_id) (http.send made) >>= accepted task_id

  abbrev pub call_agent : String → Request → Exec W (Unit {0})
  call_agent task_id request =
      wrap (request_not_created task_id) (http.new_request request) >>= send_to_agent task_id

  abbrev pub drain_at : String → String → Exec W (Unit {0})
  drain_at task_id endpoint =
      call_agent task_id
        (post (str_append "http://" (str_append endpoint "/rest/drain")) (drain_request task_id))

  -- `resolve` is the TaskEndpointResolver.
  module _ (resolve : String → String → Exec W String) where
    -- taskdrain.TaskDrainClient
    unfoldable pub request_drain : String → String → Exec W (Unit {0})
    request_drain service_name task_id = resolve service_name task_id >>= drain_at task_id

    -- sessionprovider.TaskDrainClient
    unfoldable pub request_session_drain : String → String → Exec W (Unit {0})
    request_session_drain service_name task_id = do
      endpoint ← wrap (resolve_failed service_name task_id) (resolve service_name task_id)
      call_agent task_id (
          post (str_append "http://" (str_append endpoint "/api/v1/session/provider/drain"))
            (drain_request task_id))

    unfoldable pub cancel_session_drain : String → String → Exec W (Unit {0})
    cancel_session_drain service_name task_id = do
      endpoint ← wrap (resolve_failed service_name task_id) (resolve service_name task_id)
      call_agent task_id
          (post (str_append "http://" (str_append endpoint "/internal/v1/drain/cancel")) no_body)

  -- taskdrain.TaskDrainClient.CancelDrain calls nothing.
  unfoldable pub cancel_drain : String → String → Exec W (Unit {0})
  cancel_drain service_name task_id = pure tt

-- strings.TrimRight(s, "/")
unfoldable pub trim_slashes : String → String
trim_slashes String.[] = ""
trim_slashes (String.◌∷◌ c s) =
    let rest = trim_slashes s in if code c == b'/' && str_eq rest "" then "" else String.◌∷◌ c rest

-- sessionprovider.Client
pub record Client : Type 0 where
  pub base_url : String

unfoldable pub new_client : String → Client
unfolding trim_slashes
new_client base_url = record { base_url = trim_slashes base_url }

module _ {W : Type 0} (http : HttpClient W) (client : Client) where
  abbrev pub notified : String → Response → Exec W (Unit {0})
  notified task_id response =
      if is_refused response
      then raise (notification_failed task_id response.status_code response.body)
      else pure tt

  -- What the two notifications share from the request's URL on.
  abbrev pub send_notification : String → Request → Exec W (Unit {0})
  send_notification task_id made = wrap (call_failed task_id) (http.send made) >>= notified task_id

  abbrev pub notify : String → Request → Exec W (Unit {0})
  notify task_id request =
      wrap (request_not_created task_id) (http.new_request request) >>= send_notification task_id

  -- The count of sessions is always 100. The service and the time of the event are not sent.
  unfoldable pub notify_task_running : String → String → Option ℕ → Exec W (Unit {0})
  notify_task_running service_name task_id started_at =
      notify task_id
        (post (str_append client.base_url "/scale-out") (scale_out_request task_id 100))

  unfoldable pub notify_task_stopped : String → String → Exec W (Unit {0})
  notify_task_stopped service_name task_id =
      notify task_id (post (str_append client.base_url "/stop") (task_stop_request task_id))
