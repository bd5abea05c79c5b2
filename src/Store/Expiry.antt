-- ===== src/Store/Expiry.antt =====
-- internal/adapters/redis/redis_client.go: which tasks the client calls expired, candidates to stop, and
-- to be stopped.
use legacy_messenger_ecs_con.Base.{
  ℕ, ◌+◌, ◌*◌, ◌/◌, ◌≤◌, ◌≡◌, sym, ap, ◌∙◌, ◌↔◌, String, true, ◌&&◌, Option, none, some, List, [],
  ◌++◌, Dict, lookup, arith, str_eq, str_eq_refl, leb, le→leb, if◌then◌else◌,
}
use legacy_messenger_ecs_con.Base.Results.{ok}
use legacy_messenger_ecs_con.Domain.{TaskSessionReport}
use legacy_messenger_ecs_con.Policy.{second}
use legacy_messenger_ecs_con.Exec.{pure, wrap, continue, ◌>>=◌}
use legacy_messenger_ecs_con.System.{AutoScaleConfig}
use legacy_messenger_ecs_con.Store.{
  Codec, Redis, Z, ZRangeBy, expire_key, empty_strings, save_task_session_report,
  delete_task_session_state, get_invalid_report_task, should_stop_task, past_grace,
  put_task_session_report,
}
use legacy_messenger_ecs_con.Store.Server.{
  Hashes, Sets, IsRedis, IsCodec, expire_key-eq, in_range, kept_if, score_in,
}
use legacy_messenger_ecs_con.Store.Loops.{stamped, names_of, expired_tasks-Marked, stop_tasks_lem}

-- The score of a member that is a period and more past its expiry.
abbrev pub past : ℕ → ℕ → Option ℕ → Option ℕ
past now period score =
    kept_if (in_range (record { until = now / second; period = period }) score) score

module _ {W : Type 0} (client : Redis W) (json : Codec) (hashes : W → Hashes) (sets : W → Sets)
    (redis : IsRedis client hashes sets) where
  -- When the report of a task expires, in seconds.
  abbrev pub expiry : W → String → String → Option ℕ
  expiry w s t = sets w (expire_key s) t

  -- A saved report expires when it says, and no other expiry changes.
  save_task_session_report-expiry :
      (codec : IsCodec json) (r : TaskSessionReport) (w : W) (s t : String)
      → expiry (save_task_session_report client json r w).1 s t ≡ (
          if str_eq r.service_name s && str_eq r.task_id t
          then some (r.expires_at / second)
          else expiry w s t)
  unfolding save_task_session_report ◌>>=◌ wrap continue
  save_task_session_report-expiry codec r w s t =
      let (text, written) =
        codec.writes (record { session_count = r.session_count; reported_at = r.reported_at }) in
      rw written (redis.tx_sets _ w (expire_key s) t ∙ simp (expire_key-eq))

  delete_task_session_state-expiry :
      (name task_id : String) (w : W) (s t : String)
      → expiry (delete_task_session_state client name task_id w).1 s t
        ≡ (if str_eq name s && str_eq task_id t then none else expiry w s t)
  unfolding delete_task_session_state wrap
  delete_task_session_state-expiry name task_id w s t =
      redis.tx_sets _ w (expire_key s) t ∙ simp (expire_key-eq)

  -- What GetInvalidReportTask returns.
  pub record Invalid {F : Type 0} (time_now : W → ℕ) (s : String) (cfg : AutoScaleConfig F) (w : W)
      : Type 0 where
    pub expired : Dict String
    pub stopped : List Z
    pub answer :
        (get_invalid_report_task client json time_now s cfg w).0
        ≡ ok (expired, empty_strings stopped ++ names_of stopped)
    pub entry :
        (t : String)
        → lookup t expired ≡ stamped json none (past (time_now w) cfg.expires_period (expiry w s t))
    pub score :
        (t : String)
        → score_in t stopped ≡ past (time_now w) cfg.stop_candidate_period (expiry w s t)

  -- Over a server that answers each call: GetInvalidReportTask answers a map of the tasks whose score is
  -- at least the configured period ago, each with its score as a text, and a slice of as many empty names
  -- as there are members whose score is at least the stop candidate period ago, followed by these members.
  pub get_invalid_report_task-Invalid :
      {F : Type 0} (time_now : W → ℕ) (s : String) (cfg : AutoScaleConfig F) (w : W)
      → Invalid time_now s cfg w
  unfolding get_invalid_report_task ◌>>=◌ wrap continue pure lookup
  get_invalid_report_task-Invalid time_now s cfg w =
      let until = time_now w / second in
      let range : ZRangeBy = record { until = until; period = cfg.expires_period } in
      let (members, answered, named, unique, scores) = redis.in_order (expire_key s) range w in
      let next : W = (client.z_range_by_score_with_scores (expire_key s) range w).1 in
      let range' : ZRangeBy = record { until = until; period = cfg.stop_candidate_period } in
      let (stopped, answered', named', unique', scores') =
        redis.in_order (expire_key s) range' next in
      let last : W = (client.z_range_by_score_with_scores (expire_key s) range' next).1 in
      let made = expired_tasks-Marked json s [] members next named unique in
      record {
        expired = made.table;
        stopped = stopped;
        answer = simp (
          answered,
          made.answer,
          answered',
          stop_tasks_lem json s (empty_strings stopped) stopped last named',
        );
        entry = λ t. made.entry t ∙ ap (stamped json none) (scores t);
        score = λ t.
            scores' t
            ∙ ap (λ (z : Sets). past (time_now w) cfg.stop_candidate_period (z (expire_key s) t))
                (redis.range_sets (expire_key s) range w);
      }

  -- A score that is kept is one in the range.
  kept-some_iff :
      (range : ZRangeBy) (score : Option ℕ) (n : ℕ)
      → (kept_if (in_range range score) score ≡ some n)
        ↔ ((score ≡ some n) × (n + range.period ≤ range.until))
  kept-some_iff range none n = ground arith
  kept-some_iff range (some k) n = ground arith

  should_stop_task_lem :
      (s t : String) (now : ℕ) (w : W)
      → (should_stop_task client s t now w).0 ≡ ok (past_grace now (expiry w s t))
  unfolding should_stop_task ◌>>=◌ wrap continue pure
  should_stop_task_lem s t now w = simp (redis.score (expire_key s) t w)

  -- Over a server that answers each call, where the stop candidate period is at least the grace period of 30 seconds: a task that
  -- GetInvalidReportTask lists as a stop candidate is to be stopped by ShouldStopTask at any later time
  -- at which its expiry is still the same.
  candidate-should_stop_task :
      {F : Type 0} (time_now : W → ℕ) (s t : String) (cfg : AutoScaleConfig F) (w w' : W)
      (score now : ℕ)
      → 30 ≤ cfg.stop_candidate_period
      → score_in t (get_invalid_report_task-Invalid time_now s cfg w).stopped ≡ some score
      → expiry w' s t ≡ expiry w s t
      → time_now w ≤ now
      → (should_stop_task client s t now w').0 ≡ ok true
  candidate-should_stop_task time_now s t cfg w w' score now grace listed same later =
      let there =
        (kept-some_iff _ (expiry w s t) score).0
          (sym ((get_invalid_report_task-Invalid time_now s cfg w).score t) ∙ listed) in
      let order : time_now w / second ≤ now / second = omega arith in
      should_stop_task_lem s t now w'
      ∙ ap ok (
          rw (same, there.0)
            (le→leb (score + 30) (now / second) (omega (arith, there.1, order, grace))))

  module _ (codec : IsCodec json) where
    save-ok : (r : TaskSessionReport) (w : W) → (save_task_session_report client json r w).0 ≡ ok tt
    unfolding save_task_session_report ◌>>=◌ wrap continue
    save-ok r w =
        let (text, written) =
          codec.writes (record { session_count = r.session_count; reported_at = r.reported_at }) in
        simp (written, redis.tx_answer)

    pub put-expiry :
        (time_now : W → ℕ) (s t : String) (n : ℕ) (w : W)
        → expiry
            (put_task_session_report (save_task_session_report client json) time_now s t n w).1
            s
            t
          ≡ some (time_now w / second + 60)
    unfolding put_task_session_report ◌>>=◌ continue pure
    put-expiry time_now s t n w =
        let r : TaskSessionReport = record {
          service_name = s;
          task_id = t;
          session_count = n;
          reported_at = time_now w;
          expires_at = time_now w + 60 * second;
        } in
        let seconds : (time_now w + 60 * second) / second ≡ time_now w / second + 60 =
          omega arith in
        rw (save-ok r w)
          (save_task_session_report-expiry codec r w s t ∙ simp (str_eq_refl, seconds))

    -- Over a server that answers each call, and a codec that reads what it wrote: a report that comes in keeps its task from being stopped for 90 seconds, and from being listed as
    -- expired for 60 seconds and the configured period: these are the times that the recheck and the list
    -- compare, in whole seconds, as long as the expiry is not written again.
    pub put_task_session_report-should_stop_task :
        {F : Type 0} (time_now : W → ℕ) (s t : String) (n : ℕ) (cfg : AutoScaleConfig F) (w w' : W)
        → expiry w' s t
          ≡ expiry
              (put_task_session_report (save_task_session_report client json) time_now s t n w).1
              s
              t
        → ((should_stop_task client s t (time_now w') w').0
            ≡ ok (leb (time_now w / second + 90) (time_now w' / second)))
          × (lookup t (get_invalid_report_task-Invalid time_now s cfg w').expired ≡ (
              if leb (time_now w / second + 60 + cfg.expires_period) (time_now w' / second)
              then some (json.format_int (time_now w / second + 60))
              else none))
    put_task_session_report-should_stop_task time_now s t n cfg w w' same =
        let known = same ∙ put-expiry time_now s t n w in
        let listed = (get_invalid_report_task-Invalid time_now s cfg w').entry t in
        (
          should_stop_task_lem s t (time_now w') w'
              ∙ ap (λ (o : Option ℕ). ok (past_grace (time_now w') o)) known
              ∙ ap (λ (k : ℕ). ok (leb k (time_now w' / second))) (omega arith),
          listed
              ∙ ap (λ (o : Option ℕ). stamped json none (past (time_now w') cfg.expires_period o))
                  known
              ∙ ground arith,
        )
