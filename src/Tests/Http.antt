-- ===== src/Tests/Http.antt =====
-- The handlers over the use cases, on requests for the service "chat".
use legacy_messenger_ecs_con.Base.{
  pos, negsuc, refl, String, some, [], ◌∷◌, ◌⊎◌, inl, inr, Dict, lookup, str_eq, if◌then◌else◌,
  arith,
}
use legacy_messenger_ecs_con.Domain.{TaskSessionReport, invalid_desired_count}
use legacy_messenger_ecs_con.Exec.{Exec, pure, raise, ◌>>=◌}
use legacy_messenger_ecs_con.Floats.Exact.{Fraction}
use legacy_messenger_ecs_con.System.{ServiceDef}
use legacy_messenger_ecs_con.ServiceControl.{update_service_desird_count}
use legacy_messenger_ecs_con.Store.{save_task_session_report, put_task_session_report as put_report}
use legacy_messenger_ecs_con.Http.{
  Context, Response, scaled, ServiceScaleRequest, TaskSessionReportRequest,
  TaskSessionReportCommand, update_service_desired_count,
}
use legacy_messenger_ecs_con.Http.Answers.{
  Granted, update_service_desired_count-Granted, IsValidated, Stored,
  put_task_session_report-Stored,
}
use legacy_messenger_ecs_con.Tests.Sample.{quiet, chat, ecs}
use legacy_messenger_ecs_con.Tests.Reports.{fresh-IsStored}
use legacy_messenger_ecs_con.Tests.Server.{
  Memory, memory, hashes, sets, memory-IsRedis, codec, codec-IsCodec, fresh,
}

abbrev registry : Dict ServiceDef
registry = ("chat", chat) ∷ []

abbrev request : Context
request = record { param = λ name. if str_eq name "serviceName" then "chat" else "b"; body = "" }

abbrev four : String → String ⊎ ServiceScaleRequest
four body = inr (record { desired_count = some (pos 4); reason = "" })

abbrev scaled_to_four : Response Fraction
scaled_to_four = record {
  code = 200;
  json = scaled (record {
    service_name = "chat";
    ecs_service_name = "chat-ecs";
    cluster_name = "main";
    previous_desired_count = 3;
    desired_count = 4;
    running_count = 3;
    pending_count = 0;
    status = "SCALING_REQUESTED";
    message = "scale request accepted";
  });
}

update_service_desired_count-Granted_example : Granted ecs "main" registry four request quiet
unfolding lookup update_service_desird_count update_service_desired_count ◌>>=◌ pure
update_service_desired_count-Granted_example =
    update_service_desired_count-Granted ecs "main" registry four request quiet scaled_to_four refl
      refl

-- Every body but the empty one is refused.
abbrev three : String → String ⊎ TaskSessionReportRequest
three body = if str_eq body "" then inr (record { session_count = some (pos 3) }) else inl "invalid"

three-IsValidated : IsValidated three
three-IsValidated b r e = (3, ground (arith, e))

abbrev put : TaskSessionReportCommand → Exec Memory TaskSessionReport
put cmd = elim cmd.session_count [
  | pos n ↦
      put_report (save_task_session_report memory codec) (λ w. w.time) cmd.service_name cmd.task_id
        n
  | negsuc n ↦ raise invalid_desired_count
]

put_task_session_report-Stored_example :
    Stored memory codec hashes sets memory-IsRedis codec-IsCodec
      (λ w. w.time)
      three
      put
      Fraction
      request
      fresh
put_task_session_report-Stored_example =
    put_task_session_report-Stored memory codec hashes sets memory-IsRedis codec-IsCodec
      (λ w. w.time) three put three-IsValidated (λ s t n. refl) request fresh fresh-IsStored
