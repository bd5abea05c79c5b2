-- ===== src/Http/Answers.antt =====
-- internal/adapters/http/handler: what an answer of the handlers that take a body says of the request.
use legacy_messenger_ecs_con.Base.{
  ℕ, ℤ, pos, ◌≡◌, refl, String, Option, none, some, Dict, ◌⊎◌, inl, inr, arith, ◌+◌, ◌*◌,
  Option-cases,
}
use legacy_messenger_ecs_con.Base.Results.{Result, ok, err, panic}
use legacy_messenger_ecs_con.Domain.{Error, TaskSessionReport}
use legacy_messenger_ecs_con.Policy.{second}
use legacy_messenger_ecs_con.Exec.{Exec, continue, pure, ◌>>=◌}
use legacy_messenger_ecs_con.System.{ServiceDef, EcsPort}
use legacy_messenger_ecs_con.ServiceControl.{ServiceScaleResult, update_service_desird_count}
use legacy_messenger_ecs_con.ServiceControl.Requests.{
  Accepted, update_service_desird_count-Accepted,
}
use legacy_messenger_ecs_con.Store.{Codec, Redis, save_task_session_report}
use legacy_messenger_ecs_con.Store.{
  get_task_session_report_by_task, put_task_session_report as put_report,
}
use legacy_messenger_ecs_con.Store.Server.{Hashes, Sets, IsRedis, IsCodec}
use legacy_messenger_ecs_con.Store.Reports.{
  IsStored, save_task_session_report-reported, get_task_session_report-save_task_session_report,
}
use legacy_messenger_ecs_con.Http.{
  Context, Json, invalid_request, session_report, scaled, Response, ScaleServiceCommand,
  TaskSessionReportCommand, ServiceScaleRequest, TaskSessionReportRequest, reply, bad_request,
  bind_json, dereference, update_service_desired_count, put_task_session_report,
}

binding-cases : {A B : Type 0} (x : A ⊎ B) → ((a : A) × (x ≡ inl a)) ⊎ ((b : B) × (x ≡ inr b))
binding-cases (inl a) = inl (a, refl)
binding-cases (inr b) = inr (b, refl)

module _ {W F : Type 0} where
  -- An answer of 200 has the value that the use case returned.
  reply_ok :
      {A : Type 0} (json : A → Json F) (x : Result Error A × W) (r : Response F)
      → (reply json x).0 ≡ some r
      → r.code ≡ 200
      → (a : A) × (x.0 ≡ ok a)
  unfolding reply
  reply_ok json (ok a, w) r e f = (a, refl)
  reply_ok json (err d, w) r e f = absurd (ground (arith, e, f))
  reply_ok json (panic, w) r e f = absurd (ground (arith, e))

module _ {W : Type 0} (ecs_port : EcsPort W) (cluster_name : String) (registry : Dict ServiceDef)
    (bind : String → String ⊎ ServiceScaleRequest) where
  -- The use case, of the fields of the command.
  abbrev pub scale : ScaleServiceCommand → Exec W ServiceScaleResult
  scale cmd =
      update_service_desird_count ecs_port cluster_name registry cmd.service_name cmd.desired_count

  -- The body was a request with a count, which was accepted for the service of the path.
  pub record Granted (c : Context) (w : W) : Type 0 where
    pub request : ServiceScaleRequest
    pub bound : bind c.body ≡ inr request
    pub count : ℤ
    pub given : request.desired_count ≡ some count
    pub accepted : Accepted ecs_port cluster_name registry (c.param "serviceName") count w

  -- A request for a count that is answered with 200 had a body with a count; its service is registered and
  -- scalable, the count is in the service's limits, and ECS took it unless it was the desired count already.
  pub update_service_desired_count-Granted :
      {F : Type 0} (c : Context) (w : W) (r : Response F)
      → (update_service_desired_count bind scale c w).0 ≡ some r
      → r.code ≡ 200
      → Granted c w
  unfolding update_service_desired_count bind_json dereference bad_request
  update_service_desired_count-Granted c w r e f = elim (binding-cases (bind c.body)) [
    | inl (d, g) ↦ absurd (ground (arith, (rw g at e), f))
    | inr (request, g) ↦
        let bound = rw g at e in
        elim (Option-cases request.desired_count) [
          | inl h ↦ absurd (ground (arith, (rw h at bound)))
          | inr (n, h) ↦
              let cmd : ScaleServiceCommand = record {
                service_name = c.param "serviceName";
                desired_count = n;
                reason = request.reason;
              } in
              let (result, i) = reply_ok scaled (scale cmd w) r (rw h at bound) f in
              record {
                request = request;
                bound = g;
                count = n;
                given = h;
                accepted =
                    update_service_desird_count-Accepted ecs_port cluster_name registry
                      (c.param "serviceName") n w result i;
              }
        ]
  ]

-- What the tags "required" and "gte=0" document of a body that binds.
abbrev pub IsValidated : (String → String ⊎ TaskSessionReportRequest) → Type 0
IsValidated bind =
    (b : String) (r : TaskSessionReportRequest)
    → bind b ≡ inr r
    → (n : ℕ) × (r.session_count ≡ some (pos n))

module _ {W : Type 0} (client : Redis W) (json : Codec) (hashes : W → Hashes) (sets : W → Sets)
    (redis : IsRedis client hashes sets) (codec : IsCodec json) (time_now : W → ℕ)
    (bind : String → String ⊎ TaskSessionReportRequest)
    (put : TaskSessionReportCommand → Exec W TaskSessionReport) where
  -- The use case over the Redis client, of a command with a count that is not negative.
  abbrev pub IsPut : Type 0
  IsPut =
      (s t : String) (n : ℕ)
      → put (record { service_name = s; task_id = t; session_count = pos n })
        ≡ put_report (save_task_session_report client json) time_now s t n

  -- The body was refused and nothing was written, or it had a count, which was stored for the task.
  abbrev pub Stored : (F : Type 0) → Context → W → Type 0
  Stored F c w =
      let answered : Option (Response F) × W = put_task_session_report bind put c w in
      ((e : String) × (bind c.body ≡ inl e)
        × (answered ≡ (some (record { code = 400; json = invalid_request none }), w)))
      ⊎ ((r : TaskSessionReportRequest) × (bind c.body ≡ inr r)
          × (n : ℕ) × (r.session_count ≡ some (pos n))
          × (response : Response F) × (answered.0 ≡ some response)
          × (response.code ≡ 200)
          × ((get_task_session_report_by_task client json (c.param "serviceName") (c.param "taskId")
                answered.1).0
              ≡ ok (record { session_count = n })))

  -- Over a server that answers each call, where the codec reads back what it writes and reads every value
  -- that is stored already, and where a body that binds has a count that is not negative: a report whose
  -- body does not bind is answered with 400 and nothing is written; each other one is answered with 200, and
  -- its count is what is then read for the task.
  pub put_task_session_report-Stored :
      {F : Type 0}
      → IsValidated bind
      → IsPut
      → (c : Context) (w : W) → IsStored client json hashes sets redis codec w
      → Stored F c w
  unfolding put_task_session_report bad_request bind_json dereference reply put_report continue pure
      ◌>>=◌
  put_task_session_report-Stored {F} valid is_put c w v = elim (binding-cases (bind c.body)) [
    | inl (e, g) ↦ inl (e, g, rw g refl)
    | inr (r, g) ↦
        let (n, h) = valid c.body r g in
        let report : TaskSessionReport = record {
          service_name = c.param "serviceName";
          task_id = c.param "taskId";
          session_count = n;
          reported_at = time_now w;
          expires_at = time_now w + 60 * second;
        } in
        let (saved, _, _) =
          save_task_session_report-reported client json hashes sets redis codec report w v in
        let (_, _, _, _, own) =
          get_task_session_report-save_task_session_report client json hashes sets redis codec
            report w v in
        let put_ = is_put (c.param "serviceName") (c.param "taskId") n in
        inr (
          r,
          g,
          n,
          h,
          record { code = 200; json = session_report report },
          rw (g, h, put_, saved) refl,
          refl,
          rw (g, h, put_, saved) own,
        )
  ]
