-- ===== src/Store/Drained.antt =====
-- internal/application/usecase/scale_in_usecase.go over internal/adapters/redis/redis_client.go: what the
-- check of a drain knows of the stored report.
use legacy_messenger_ecs_con.Base.{
  ℕ, ◌≡◌, sym, ap, ◌∙◌, ◌⊎◌, inl, inr, none, some, lookup, arith, Option-cases,
}
use legacy_messenger_ecs_con.Base.Results.{Result, ok}
use legacy_messenger_ecs_con.Domain.{draining, applied, ScaleInJob, Error}
use legacy_messenger_ecs_con.Demand.{SessionReport}
use legacy_messenger_ecs_con.System.{TaskSessionPort, Services, System}
use legacy_messenger_ecs_con.ScaleIn.{check_drain}
use legacy_messenger_ecs_con.ScaleIn.Steps.{check_drain-applied}
use legacy_messenger_ecs_con.Store.{Codec, Redis, redis_client}
use legacy_messenger_ecs_con.Store.Server.{Hashes, Sets, IsRedis, IsCodec}
use legacy_messenger_ecs_con.Store.Reports.{
  reported, IsStored, get_task_session_report_by_task-reported,
}

abbrev sessions_in : Result Error SessionReport → ℕ
sessions_in (ok report) = report.session_count
sessions_in _ = 1

module _ {W F : Type 0} (client : Redis W) (json : Codec) (hashes : W → Hashes) (sets : W → Sets)
    (redis : IsRedis client hashes sets) (codec : IsCodec json) where
  -- Where the scale-in use case reads its reports through the Redis client, over a server that answers
  -- each call, with values that the codec reads: a draining job that one check of its drain leaves applied
  -- had a stored report of no sessions for its target, or no stored report at all.
  pub check_drain-redis_client :
      (u : Services W F) (clock_now : W → ℕ) (job before after : ScaleInJob) (x : System W F)
      → u.task_session_port ≡ redis_client client json clock_now
      → IsStored client json hashes sets redis codec x.world
      → lookup job.service_name x.coordinator.jobs ≡ some before
      → before.status ≡ draining
      → lookup job.service_name (check_drain u job x).1.coordinator.jobs ≡ some after
      → after.status ≡ applied
      → (reported client json hashes sets redis codec x.world job.service_name job.target_task_id
          ≡ none)
        ⊎ (reported client json hashes sets redis codec x.world job.service_name job.target_task_id
            ≡ some (record { session_count = 0 }))
  unfolding redis_client
  check_drain-redis_client u clock_now job before after x port v e d f g =
      let answer = (check_drain-applied u job before after x e d f g).0 in
      let read =
        get_task_session_report_by_task-reported client json hashes sets redis codec
          job.service_name job.target_task_id x.world v in
      let same =
        ap
          (λ (p : TaskSessionPort W F).
            (p.get_task_session_report_by_task job.service_name job.target_task_id x.world).0)
          port in
      let count = ap sessions_in (sym read ∙ sym same ∙ answer) in
      elim (Option-cases (
        reported client json hashes sets redis codec x.world job.service_name job.target_task_id)) [
          | inl h ↦ inl h
          | inr (r, h) ↦ inr (h ∙ ground (arith, count, h))
        ]
