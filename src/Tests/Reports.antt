-- ===== src/Tests/Reports.antt =====
-- The Redis client over a server in memory.
use legacy_messenger_ecs_con.Base.{
  ◌+◌, ◌*◌, ◌/◌, ◌≡◌, refl, sym, ◌∙◌, ◌≢◌, String, none, some, [], ◌∷◌, Dict, lookup, arith, leb,
  if◌then◌else◌,
}
use legacy_messenger_ecs_con.Base.Results.{ok}
use legacy_messenger_ecs_con.Domain.{TaskSessionReport}
use legacy_messenger_ecs_con.Policy.{second}
use legacy_messenger_ecs_con.Demand.{SessionReport}
use legacy_messenger_ecs_con.Store.{
  save_task_session_report, get_task_session_report, get_task_session_report_by_task,
  put_task_session_report, should_stop_task,
}
use legacy_messenger_ecs_con.Store.Server.{score_in}
use legacy_messenger_ecs_con.Store.Reports.{
  reported, IsStored, get_task_session_report-save_task_session_report,
}
use legacy_messenger_ecs_con.Store.Expiry.{
  expiry, Invalid, get_invalid_report_task-Invalid, put-expiry,
  put_task_session_report-should_stop_task,
}
use legacy_messenger_ecs_con.Tests.Sample.{config}
use legacy_messenger_ecs_con.Tests.Server.{
  Memory, memory, hashes, sets, memory-IsRedis, codec, codec-IsCodec, fresh,
}
use legacy_messenger_ecs_con.Base.{◌⊎◌, insert}
use legacy_messenger_ecs_con.Exec.{◌>>=◌}
use legacy_messenger_ecs_con.ScaleIn.{check_drain}
use legacy_messenger_ecs_con.Coordinator.{increase_zero_session_streak, mark_applied}
use legacy_messenger_ecs_con.Base.Results.{err}
use legacy_messenger_ecs_con.Domain.{ScaleInJob, draining, applied, external}
use legacy_messenger_ecs_con.Floats.Exact.{Fraction}
use legacy_messenger_ecs_con.System.{Services, System, call, coordinate, clock}
use legacy_messenger_ecs_con.Store.{redis_client}
use legacy_messenger_ecs_con.Store.Drained.{check_drain-redis_client}
use legacy_messenger_ecs_con.Tests.Sample.{counts_of, chat, job, asked_down}

abbrev report : TaskSessionReport
report = record {
  service_name = "chat";
  task_id = "b";
  session_count = 3;
  reported_at = 1000 * second;
  expires_at = 1060 * second;
}

pub fresh-IsStored : IsStored memory codec hashes sets memory-IsRedis codec-IsCodec fresh
unfolding lookup
fresh-IsStored s t value h = absurd (ground arith)

get_task_session_report-save_task_session_report_example :
    (table : Dict SessionReport) × ((get_task_session_report memory codec "chat"
        (save_task_session_report memory codec report fresh).1).0
      ≡ ok table)
    × (lookup "b" table ≡ some (record { session_count = 3 }))
    × ((t : String)
        → "b" ≢ t
        → lookup t table
          ≡ reported memory codec hashes sets memory-IsRedis codec-IsCodec fresh "chat" t)
    × ((get_task_session_report_by_task memory codec "chat" "b"
          (save_task_session_report memory codec report fresh).1).0
        ≡ ok (record { session_count = 3 }))
get_task_session_report-save_task_session_report_example =
    get_task_session_report-save_task_session_report memory codec hashes sets memory-IsRedis
      codec-IsCodec report fresh fresh-IsStored

-- Task b expired at the second 900.
abbrev stale : Memory
stale = record { time = 1000 * second; hash = λ k. []; zset = λ k. ("b", 900) ∷ [] }

get_invalid_report_task-Invalid_example :
    Invalid memory codec hashes sets memory-IsRedis (λ w. w.time) "chat" config stale
get_invalid_report_task-Invalid_example =
    get_invalid_report_task-Invalid memory codec hashes sets memory-IsRedis (λ w. w.time) "chat"
      config stale

listed :
    score_in "b"
      (get_invalid_report_task-Invalid memory codec hashes sets memory-IsRedis
        (λ w. w.time)
        "chat"
        config
        stale).stopped
    ≡ some 900
unfolding lookup
listed =
    (get_invalid_report_task-Invalid memory codec hashes sets memory-IsRedis (λ w. w.time) "chat"
        config stale).score
      "b"
    ∙ refl

abbrev put_at : Memory → Memory
put_at w =
    (put_task_session_report (save_task_session_report memory codec) (λ (v : Memory). v.time) "chat"
      "b" 3 w).1

-- A minute and a half after task b reported.
abbrev later : Memory
later = record { time = 1090 * second; hash = λ k. []; zset = λ k. ("b", 1060) ∷ [] }

later-put :
    expiry memory codec hashes sets memory-IsRedis later "chat" "b"
    ≡ expiry memory codec hashes sets memory-IsRedis (put_at fresh) "chat" "b"
unfolding lookup
later-put = sym (
    put-expiry memory codec hashes sets memory-IsRedis codec-IsCodec (λ w. w.time) "chat" "b" 3
      fresh)

put_task_session_report-should_stop_task_example :
    ((should_stop_task memory "chat" "b" later.time later).0
      ≡ ok (leb (fresh.time / second + 90) (later.time / second)))
    × (lookup "b"
          (get_invalid_report_task-Invalid memory codec hashes sets memory-IsRedis
            (λ w. w.time)
            "chat"
            config
            later).expired
        ≡ (if leb (fresh.time / second + 60 + 30) (later.time / second)
            then some (codec.format_int (fresh.time / second + 60))
            else none))
put_task_session_report-should_stop_task_example =
    put_task_session_report-should_stop_task memory codec hashes sets memory-IsRedis codec-IsCodec
      (λ w. w.time) "chat" "b" 3 config fresh later later-put

-- The services of the sample, over the server in memory.
abbrev over_memory : Services Memory Fraction
unfolding redis_client
over_memory = record {
  task_session_port = redis_client memory codec (λ w. w.time);
  ecs_port = record {
    describe_service = λ c s w. (ok none, w);
    describe_task = λ c t w. (err (external "no task"), w);
    get_service_control_state = λ c s w. (ok (counts_of 2 2 0), w);
    update_service_desired_count = λ c s n w. (ok (counts_of n 3 0), w);
    get_running_task_ids = λ c s w. (ok ("a" ∷ "b" ∷ []), w);
    update_task_protection = λ c ts flag w. (ok tt, w);
  };
  task_drain_port = record { request_drain = λ s t w. (ok tt, w) };
  registry = ("chat", chat) ∷ [];
  cluster_name = "main";
  auto_scale = config;
  time_now = λ w. w.time;
}

abbrev drains : System Memory Fraction
drains = record {
  policy = asked_down 4;
  coordinator = record { jobs = ("chat", job draining "b" 2 0) ∷ [] };
  world = fresh;
}

abbrev lowered : ScaleInJob
lowered = record (job draining "b" 2 0) {
  status = applied;
  zero_session_streak = 3;
  applied_at = 1000 * second;
  updated_at = 1000 * second;
}

check_drain-redis_client_example :
    (reported memory codec hashes sets memory-IsRedis codec-IsCodec fresh "chat" "b" ≡ none)
    ⊎ (reported memory codec hashes sets memory-IsRedis codec-IsCodec fresh "chat" "b"
        ≡ some (record { session_count = 0 }))
unfolding lookup over_memory check_drain ◌>>=◌ call memory clock coordinate
    increase_zero_session_streak mark_applied insert
check_drain-redis_client_example =
    check_drain-redis_client memory codec hashes sets memory-IsRedis codec-IsCodec over_memory
      (λ w. w.time) (job draining "b" 2 0) (job draining "b" 2 0) lowered drains refl fresh-IsStored
      refl refl refl refl
