-- ===== src/Tests/Rounds.antt =====
-- A round of session auto scaling for a service of three tasks that needs one.
use legacy_messenger_ecs_con.Base.{◌*◌, ◌<◌, ◌≡◌, refl, ◌⊎◌, ◌≢◌, true, length, arith}
use legacy_messenger_ecs_con.Base.Results.{ok}
use legacy_messenger_ecs_con.Floats.{exact_limit}
use legacy_messenger_ecs_con.Floats.Exact.{fractions, fractions-IsIeee}
use legacy_messenger_ecs_con.Domain.{
  scale_out, scale_out_executed, scale_in, SessionAutoScalingResult,
}
use legacy_messenger_ecs_con.Policy.{second}
use legacy_messenger_ecs_con.Exec.{◌>>=◌}
use legacy_messenger_ecs_con.System.{ServiceDef, call, clock}
use legacy_messenger_ecs_con.AutoScaling.{Observation, observe, carry_out, evaluate_and_scale}
use legacy_messenger_ecs_con.AutoScaling.Coverage.{IsJustified, evaluate_and_scale-covered}
use legacy_messenger_ecs_con.AutoScaling.Outcome.{
  evaluate_and_scale-nil_status, carry_out-executed, Accepted,
}
use legacy_messenger_ecs_con.Tests.Sample.{chat, services, without_job, request_of}

few_tasks :
    (def : ServiceDef) (o : Observation)
    → (observe fractions services "chat" def without_job).0 ≡ ok o
    → length o.running_task_ids < exact_limit
unfolding observe ◌>>=◌ call
few_tasks def o e = ground arith

evaluate_and_scale-covered_example :
    ((evaluate_and_scale fractions services "chat" without_job).1.coordinator
      ≡ without_job.coordinator)
    ⊎ ((def : ServiceDef) × (o : Observation) × IsJustified fractions fractions-IsIeee services
          "chat" without_job def o)
evaluate_and_scale-covered_example =
    evaluate_and_scale-covered fractions fractions-IsIeee services "chat" without_job refl few_tasks

evaluate_and_scale-nil_status_example :
    (evaluate_and_scale fractions services "chat" without_job).0 ≢ ok (request_of scale_in 3 1)
evaluate_and_scale-nil_status_example =
    evaluate_and_scale-nil_status fractions services (λ c e w. refl) "chat" without_job
      (request_of scale_in 3 1)

abbrev grown : SessionAutoScalingResult
grown = record (request_of scale_out 3 5) { executed = true; reason = scale_out_executed 3 5 }

carry_out-executed_example :
    (true ≡ true)
    × (scale_out ≡ scale_out)
    × Accepted fractions services chat (request_of scale_out 3 5) without_job
    × (grown.recommended_desired_count ≡ 5)
    × ((carry_out fractions services chat
            (request_of scale_out 3 5, true)
            without_job).1.policy.last_scale_out_at
          "chat"
        ≡ 1000 * second)
unfolding carry_out ◌>>=◌ call clock
carry_out-executed_example =
    carry_out-executed fractions services chat (request_of scale_out 3 5) true without_job grown
      refl refl refl
