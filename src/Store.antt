-- ===== src/Store.antt =====
-- internal/adapters/redis/redis_client.go: the reports of the tasks in Redis, a hash of the session
-- counts and a sorted set of the expiry times for each service. The server and the JSON codec are
-- parameters. A score is a Unix time; here it is counted in seconds from the zero time, as the clock is,
-- so `now.Add(-period).Unix()` is `now / second` less the period.
pub mod Server
pub mod Loops
pub mod Reports
pub mod Expiry
pub mod Drained
use legacy_messenger_ecs_con.Base.{
  ℕ, ◌+◌, ◌*◌, ◌/◌, ◌≤◌, ◌≡◌, String, Bool, true, false, Option, none, some, List, [], ◌∷◌, ◌++◌,
  map, Dict, insert, length, str_eq, str_append, leb, if◌then◌else◌,
}
use legacy_messenger_ecs_con.Base.Results.{Result, ok, err, panic}
use legacy_messenger_ecs_con.Domain.{
  TaskSessionReport, TaskSessionValue, Error, external, marshal_failed, save_failed, get_failed,
  read_failed, unmarshal_failed, expired_failed, invalid_expired_member, invalid_stop_member,
  score_failed, state_delete_failed,
}
use legacy_messenger_ecs_con.Policy.{second}
use legacy_messenger_ecs_con.Demand.{SessionReport}
use legacy_messenger_ecs_con.Exec.{Exec, pure, raise, wrap, ◌>>=◌, ◌>>◌}
use legacy_messenger_ecs_con.System.{AutoScaleConfig, TaskSessionPort}

-- The commands that the code puts into a transaction.
pub data Command : Type 0 where
  h_set : String → String → String → Command
  z_add : String → ℕ → String → Command
  h_del : String → String → Command
  z_rem : String → String → Command

-- goredis.ZRangeBy from "-inf" to a time less a period.
pub record ZRangeBy : Type 0 where
  pub until : ℕ
  pub period : ℕ

-- goredis.Z. A member that is not a string is none.
pub record Z : Type 0 where
  pub score : ℕ
  pub member : Option String

-- goredis.Client. The result of a read that stands in a transaction is a second answer; ZSCORE of an
-- unknown member is none, which is goredis.Nil.
pub record Redis (W : Type 0) : Type 0 where
  pub tx_pipelined : List Command → Exec W (Unit {0})
  pub tx_h_get_all : String → Exec W (Result Error (Dict String))
  pub z_range_by_score_with_scores : String → ZRangeBy → Exec W (List Z)
  pub z_score : String → String → Exec W (Option ℕ)

-- encoding/json, at the two types, and strconv.FormatInt of a score.
pub record Codec : Type 0 where
  pub marshal : TaskSessionValue → Result Error String
  pub unmarshal : String → Result Error SessionReport
  pub format_int : ℕ → String

unfoldable pub report_key : String → String
report_key s = str_append (str_append "control-plane:session:{" s) "}:reports"

unfoldable pub expire_key : String → String
expire_key s = str_append (str_append "control-plane:session:{" s) "}:expires"

abbrev pub stop_grace_period : ℕ
stop_grace_period = 30

module _ {S A : Type 0} where
  -- A value and an error that are there already.
  abbrev pub returned : Result Error A → Exec S A
  returned r s = (r, s)

module _ (json : Codec) {S : Type 0} where
  -- The loop of GetTaskSessionReport, with the map made so far.
  unfoldable pub decode_reports : Dict SessionReport → Dict String → Exec S (Dict SessionReport)
  decode_reports reports [] = pure reports
  decode_reports reports ((task_id, value) ∷ result) = do
    report ← wrap (unmarshal_failed task_id) (returned (json.unmarshal value))
    decode_reports (insert task_id report reports) result

  -- The loop of GetTaskSessionReportByTask.
  unfoldable pub find_report : String → Dict String → Exec S SessionReport
  find_report task_id [] = pure (record { session_count = 0 })
  find_report task_id ((k, value) ∷ result) = do
    let rest = find_report task_id result
    report ← wrap (unmarshal_failed task_id) (returned (json.unmarshal value))
    if str_eq k task_id then pure (record { session_count = report.session_count }) else rest

  abbrev pub member_of : Error → Option String → Exec S String
  member_of cause none = raise cause
  member_of cause (some task_id) = pure task_id

  -- The first loop of GetInvalidReportTask, with the map made so far.
  unfoldable pub expired_tasks : String → Dict String → List Z → Exec S (Dict String)
  expired_tasks s expired [] = pure expired
  expired_tasks s expired (z ∷ results) = do
    task_id ← member_of (invalid_expired_member s) z.member
    expired_tasks s (insert task_id (json.format_int z.score) expired) results

  -- Its second loop, with the slice made so far.
  unfoldable pub stop_tasks : String → List String → List Z → Exec S (List String)
  stop_tasks s stop_task [] = pure stop_task
  stop_tasks s stop_task (z ∷ results) = do
    task_id ← member_of (invalid_stop_member s) z.member
    stop_tasks s (stop_task ++ (task_id ∷ [])) results

-- make([]string, n)
abbrev pub empty_strings : {A : Type 0} → List A → List String
empty_strings [] = []
empty_strings (x ∷ xs) = "" ∷ empty_strings xs

-- `int64(score) <= stopCutoff`
abbrev pub past_grace : ℕ → Option ℕ → Bool
past_grace now none = false
past_grace now (some score) = leb (score + stop_grace_period) (now / second)

module _ {W : Type 0} (client : Redis W) where
  open client use {tx_pipelined, z_score}

  unfoldable pub should_stop_task : String → String → ℕ → Exec W Bool
  should_stop_task s task_id now = do
    score ← wrap score_failed (z_score (expire_key s) task_id)
    pure (past_grace now score)

  unfoldable pub delete_task_session_state : String → String → Exec W (Unit {0})
  delete_task_session_state s task_id =
      wrap state_delete_failed
        (tx_pipelined (h_del (report_key s) task_id ∷ z_rem (expire_key s) task_id ∷ []))

module _ {W : Type 0} (client : Redis W) (json : Codec) where
  open client use {tx_pipelined, tx_h_get_all, z_range_by_score_with_scores}

  unfoldable pub save_task_session_report : TaskSessionReport → Exec W (Unit {0})
  save_task_session_report report = do
    value ← wrap marshal_failed (
        returned (
          json.marshal
            (record { session_count = report.session_count; reported_at = report.reported_at })))
    wrap save_failed (
        tx_pipelined (
          h_set (report_key report.service_name) report.task_id value
          ∷ z_add (expire_key report.service_name) (report.expires_at / second) report.task_id
          ∷ []))

  unfoldable pub get_task_session_report : String → Exec W (Dict SessionReport)
  unfolding decode_reports
  get_task_session_report s = do
    reply ← wrap get_failed (tx_h_get_all (report_key s))
    result ← wrap read_failed (returned reply)
    decode_reports json [] result

  unfoldable pub get_invalid_report_task :
      {F : Type 0} → (W → ℕ) → String → AutoScaleConfig F → Exec W (Dict String × List String)
  unfolding expired_tasks stop_tasks
  get_invalid_report_task time_now s cfg start =
      (do
        let now = time_now start
        results ← wrap (expired_failed s) (
            z_range_by_score_with_scores (expire_key s)
              (record { until = now / second; period = cfg.expires_period }))
        expired ← expired_tasks json s [] results
        stop_results ← wrap (expired_failed s) (
            z_range_by_score_with_scores (expire_key s)
              (record { until = now / second; period = cfg.stop_candidate_period }))
        stop_task ← stop_tasks json s (empty_strings stop_results) stop_results
        pure (expired, stop_task))
        start

  unfoldable pub get_task_session_report_by_task : String → String → Exec W SessionReport
  unfolding find_report
  get_task_session_report_by_task s task_id = do
    reply ← wrap get_failed (tx_h_get_all (report_key s))
    result ← wrap read_failed (returned reply)
    find_report json task_id result

  -- The client as the port of the use cases.
  unfoldable pub redis_client : {F : Type 0} → (W → ℕ) → TaskSessionPort W F
  unfolding get_task_session_report get_invalid_report_task should_stop_task
      delete_task_session_state get_task_session_report_by_task
  redis_client time_now = record {
    get_task_session_report = get_task_session_report;
    get_invalid_report_task = get_invalid_report_task time_now;
    should_stop_task = should_stop_task client;
    delete_task_session_state = delete_task_session_state client;
    get_task_session_report_by_task = get_task_session_report_by_task;
  }

-- internal/application/usecase/task_session_report_usecase.go: a report that comes in is good for 60
-- seconds. The result has the fields of the report.
unfoldable pub put_task_session_report :
    {W : Type 0} (save : TaskSessionReport → Exec W (Unit {0})) (time_now : W → ℕ)
    (s task_id : String) (session_count : ℕ)
    → Exec W TaskSessionReport
put_task_session_report save time_now s task_id session_count start =
    (do
      let report : TaskSessionReport = record {
        service_name = s;
        task_id = task_id;
        session_count = session_count;
        reported_at = time_now start;
        expires_at = time_now start + 60 * second;
      }
      save report
      pure report)
      start
