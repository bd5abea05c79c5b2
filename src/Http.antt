-- ===== src/Http.antt =====
-- internal/adapters/http and internal/bootstrap/router.go: the requests that come in. What gin does with a
-- request, the binding of a body with its tags, the parameters of a path and the encoding of an answer, is a
-- parameter or a value.
pub mod Answers
use legacy_messenger_ecs_con.Base.{
  ℕ, ℤ, String, str_append, Option, none, some, List, [], ◌∷◌, ◌⊎◌, inl, inr,
}
use legacy_messenger_ecs_con.Base.Results.{Result, ok, err, panic}
use legacy_messenger_ecs_con.Domain.{Error, TaskSessionReport}
use legacy_messenger_ecs_con.Exec.{Exec}
use legacy_messenger_ecs_con.System.{ServiceStatus}
use legacy_messenger_ecs_con.Observation.{ServiceList}
use legacy_messenger_ecs_con.Aws.Tasks.Statuses.{TaskStatus}
use legacy_messenger_ecs_con.TargetHealth.{TargetHealthResponse}
use legacy_messenger_ecs_con.Evaluation.{ConnectionPressure, ScalingEvaluation}
use legacy_messenger_ecs_con.ServiceControl.{ServiceScaleResult, ServiceRedeployResult}

-- What the handlers read of gin.Context: the parameters of the path and the body.
pub record Context : Type 0 where
  pub param : String → String
  pub body : String

-- The value that c.JSON is given.
pub data Json (F : Type 0) : Type 0 where
  status_ok : Json F
  invalid_request : Option String → Json F
  message : Error → Json F
  service_list : List ServiceList → Json F
  service_status : ServiceStatus → Json F
  task_statuses : List TaskStatus → Json F
  target_health : TargetHealthResponse → Json F
  pressure : ConnectionPressure F → Json F
  session_report : TaskSessionReport → Json F
  scaled : ServiceScaleResult → Json F
  redeployed : ServiceRedeployResult → Json F
  evaluated : ScalingEvaluation F → Json F

pub record Response (F : Type 0) : Type 0 where
  pub code : ℕ
  pub json : Json F

-- A panic leaves no answer of the handler.
abbrev pub Answer : Type 0 → Type 0 → Type 0
Answer W F = W → Option (Response F) × W

abbrev pub Handler : Type 0 → Type 0 → Type 0
Handler W F = Context → Answer W F

-- command.ScaleServiceCommand, ServiceRedeployCommand and TaskSessionReportCommand
pub record ScaleServiceCommand : Type 0 where
  pub service_name : String
  pub desired_count : ℤ
  pub reason : String

pub record ServiceRedeployCommand : Type 0 where
  pub service_name : String
  pub reason : String

pub record TaskSessionReportCommand : Type 0 where
  pub service_name : String
  pub task_id : String
  pub session_count : ℤ

-- dto.ServiceScaleRequest, ServiceRedeployRequest and TaskSessionReportRequest
pub record ServiceScaleRequest : Type 0 where
  pub desired_count : Option ℤ
  pub reason : String

pub record ServiceRedeployRequest : Type 0 where
  pub reason : String

pub record TaskSessionReportRequest : Type 0 where
  pub session_count : Option ℤ

module _ {W F : Type 0} where
  unfoldable reply : {A : Type 0} → (A → Json F) → Result Error A × W → Option (Response F) × W
  reply json (ok a, w) = (some (record { code = 200; json = json a }), w)
  reply json (err e, w) = (some (record { code = 500; json = message e }), w)
  reply json (panic, w) = (none, w)

  unfoldable bad_request : Option String → Answer W F
  bad_request e w = (some (record { code = 400; json = invalid_request e }), w)

  -- The handlers that ask a use case about the service of the path.
  unfoldable pub get_service_list_status : Exec W (List ServiceList) → Handler W F
  unfolding reply
  get_service_list_status get_service_list c w = reply service_list (get_service_list w)

  unfoldable pub get_service_status : (String → Exec W ServiceStatus) → Handler W F
  unfolding reply
  get_service_status get c w = reply service_status (get (c.param "serviceName") w)

  unfoldable pub get_task_status : (String → String → Exec W (List TaskStatus)) → Handler W F
  unfolding reply
  get_task_status get c w =
      reply task_statuses (get (c.param "serviceName") (c.param "desiredStatus") w)

  unfoldable pub get_target_health : (String → Exec W TargetHealthResponse) → Handler W F
  unfolding reply
  get_target_health get c w = reply target_health (get (c.param "serviceName") w)

  unfoldable pub get_connection_status : (String → Exec W (ConnectionPressure F)) → Handler W F
  unfolding reply
  get_connection_status get c w = reply pressure (get (c.param "serviceName") w)

  unfoldable pub evaluate_scaling : (String → Exec W (ScalingEvaluation F)) → Handler W F
  unfolding reply
  evaluate_scaling evaluate c w = reply evaluated (evaluate (c.param "serviceName") w)

  -- if err := c.ShouldBindJSON(&req); err != nil { ... }
  unfoldable bind_json :
      {R : Type 0} → String ⊎ R → (String → Answer W F) → (R → Answer W F) → Answer W F
  bind_json (inl e) refused next w = refused e w
  bind_json (inr r) refused next w = next r w

  -- *n, where the pointer may be nil.
  unfoldable dereference : Option ℤ → (ℤ → Answer W F) → Answer W F
  dereference none next w = (none, w)
  dereference (some n) next w = next n w

  unfoldable pub update_service_desired_count :
      (String → String ⊎ ServiceScaleRequest)
      → (ScaleServiceCommand → Exec W ServiceScaleResult)
      → Handler W F
  unfolding reply bad_request bind_json dereference
  update_service_desired_count bind update c w =
      bind_json (bind c.body) (λ e. bad_request (some e))
        (λ r. dereference r.desired_count λ n w.
          let cmd : ScaleServiceCommand = record {
            service_name = c.param "serviceName";
            desired_count = n;
            reason = r.reason;
          } in
          reply scaled (update cmd w))
        w

  unfoldable pub re_deploy :
      (String → String ⊎ ServiceRedeployRequest)
      → (ServiceRedeployCommand → Exec W ServiceRedeployResult)
      → Handler W F
  unfolding reply bad_request bind_json
  re_deploy bind redeploy c w =
      bind_json (bind c.body) (λ e. bad_request (some e))
        (λ r w.
          let cmd : ServiceRedeployCommand = record {
            service_name = c.param "serviceName";
            reason = r.reason;
          } in
          reply redeployed (redeploy cmd w))
        w

  unfoldable pub put_task_session_report :
      (String → String ⊎ TaskSessionReportRequest)
      → (TaskSessionReportCommand → Exec W TaskSessionReport)
      → Handler W F
  unfolding reply bad_request bind_json dereference
  put_task_session_report bind put c w =
      bind_json (bind c.body) (λ e. bad_request none)
        (λ r. dereference r.session_count λ n w.
          let cmd : TaskSessionReportCommand = record {
            service_name = c.param "serviceName";
            task_id = c.param "taskId";
            session_count = n;
          } in
          reply session_report (put cmd w))
        w

pub data Method : Type 0 where
  get_method put_method post_method : Method

-- A route of gin: the method, the path under which it is registered, and the handler.
pub record Route (W F : Type 0) : Type 0 where
  pub method : Method
  pub path : String
  pub handler : Handler W F

-- bootstrap.Handlers, each field the method that the router registers.
pub record Handlers (W F : Type 0) : Type 0 where
  pub service_list : Handler W F
  pub service_status : Handler W F
  pub task_observation : Handler W F
  pub target_health : Handler W F
  pub connection_pressure : Handler W F
  pub task_session_report : Handler W F
  pub service_scale : Handler W F
  pub service_control : Handler W F
  pub service_evaluation : Handler W F

abbrev services : String → String
services path = str_append "/api/v1/services" path

module _ {W F : Type 0} where
  unfoldable pub health_check : Handler W F
  health_check c w = (some (record { code = 200; json = status_ok }), w)

  unfoldable pub new_router : Handlers W F → List (Route W F)
  unfolding health_check
  new_router handlers =
      record { method = get_method; path = "/health"; handler = health_check }
      ∷ record { method = get_method; path = services ""; handler = handlers.service_list }
      ∷ record {
        method = get_method;
        path = services "/:serviceName/status";
        handler = handlers.service_status;
      }
      ∷ record {
        method = get_method;
        path = services "/:serviceName/tasks";
        handler = handlers.task_observation;
      }
      ∷ record {
        method = get_method;
        path = services "/:serviceName/target-health";
        handler = handlers.target_health;
      }
      ∷ record {
        method = get_method;
        path = services "/:serviceName/connection-pressure";
        handler = handlers.connection_pressure;
      }
      ∷ record {
        method = put_method;
        path = services "/:serviceName/tasks/:taskId/session-report";
        handler = handlers.task_session_report;
      }
      ∷ record {
        method = post_method;
        path = services "/:serviceName/scale";
        handler = handlers.service_scale;
      }
      ∷ record {
        method = post_method;
        path = services "/:serviceName/redeploy";
        handler = handlers.service_control;
      }
      ∷ record {
        method = post_method;
        path = services "/:serviceName/scaling-evaluate";
        handler = handlers.service_evaluation;
      }
      ∷ []
