-- ===== src/Store/Reports.antt =====
-- internal/adapters/redis/redis_client.go: the client keeps a table of session counts for each service.
use legacy_messenger_ecs_con.Base.{
  ◌/◌, ◌≡◌, refl, sym, ap, ◌∙◌, ◌≢◌, String, ◌&&◌, Option, none, some, [], ◌∷◌, Dict, lookup,
  IsDistinct, All, arith, str_eq, str_eq_iff, str_eq_refl, if◌then◌else◌, if-cases,
}
use legacy_messenger_ecs_con.Base.Results.{ok}
use legacy_messenger_ecs_con.Domain.{TaskSessionReport, TaskSessionValue}
use legacy_messenger_ecs_con.Policy.{second}
use legacy_messenger_ecs_con.Demand.{SessionReport}
use legacy_messenger_ecs_con.Exec.{wrap, continue, ◌>>=◌}
use legacy_messenger_ecs_con.Store.{
  Codec, Redis, h_set, z_add, h_del, z_rem, report_key, expire_key, save_task_session_report,
  get_task_session_report, delete_task_session_state, get_task_session_report_by_task,
}
use legacy_messenger_ecs_con.Store.Server.{Hashes, Sets, IsRedis, IsCodec, report_key-eq}
use legacy_messenger_ecs_con.Store.Loops.{
  decoded, IsReadable, decode-Decoded, merged-none, find_report_lem, count_of,
}

some_inj : {a b : String} → some a ≡ some b → a ≡ b
some_inj e = ground (arith, e)

-- A listing whose keys differ has a property of its entries where every lookup has it.
All_of_lookup :
    (P : String × String → Type 0) (m : Dict String)
    → IsDistinct m
    → ((k v : String) → lookup k m ≡ some v → P (k, v))
    → All P m
unfolding lookup
All_of_lookup P [] d f = tt
All_of_lookup P ((k, v) ∷ m) d f = (
  f k v (ground (arith, str_eq_refl k)),
  All_of_lookup P m d.1 (λ j w h. f j w (ground (arith, str_eq_iff k j, d.0, h))),
)

module _ {W : Type 0} (client : Redis W) (json : Codec) (hashes : W → Hashes) (sets : W → Sets)
    (redis : IsRedis client hashes sets) (codec : IsCodec json) where
  -- What the client stores, as a table of reports for each service.
  abbrev pub reported : W → String → String → Option SessionReport
  reported w s t = decoded json (hashes w (report_key s) t)

  -- Every stored value is one that the codec reads.
  abbrev pub IsStored : W → Type 0
  IsStored w =
      (s t value : String)
      → hashes w (report_key s) t ≡ some value
      → (report : SessionReport) × (json.unmarshal value ≡ ok report)

  -- A report is saved under its service and task, and nothing else changes.
  pub save_task_session_report-reported :
      (r : TaskSessionReport) (w : W)
      → IsStored w
      → ((save_task_session_report client json r w).0 ≡ ok tt)
        × IsStored (save_task_session_report client json r w).1
        × ((s t : String)
            → reported (save_task_session_report client json r w).1 s t ≡ (
                if str_eq r.service_name s && str_eq r.task_id t
                then some (record { session_count = r.session_count })
                else reported w s t))
  unfolding save_task_session_report ◌>>=◌ wrap continue
  save_task_session_report-reported r w v =
      let value : TaskSessionValue = record {
        session_count = r.session_count;
        reported_at = r.reported_at;
      } in
      let (text, written) = codec.writes value in
      let commands =
        h_set (report_key r.service_name) r.task_id text
        ∷ z_add (expire_key r.service_name) (r.expires_at / second) r.task_id
        ∷ [] in
      let read = codec.reads value text written in
      let now : (s t : String)
          → hashes (client.tx_pipelined commands w).1 (report_key s) t ≡ (
              if str_eq r.service_name s && str_eq r.task_id t
              then some text
              else hashes w (report_key s) t) =
        λ s t. redis.tx_hashes commands w (report_key s) t ∙ simp (report_key-eq) in
      rw written (
        rw (redis.tx_answer commands w) refl,
        (λ s t stored h.
            if-cases (λ (o : Option String). o ≡ some stored → IsReadable json (t, stored))
              (str_eq r.service_name s && str_eq r.task_id t)
              (λ _ e. (
                record { session_count = r.session_count },
                ap json.unmarshal (sym (some_inj e)) ∙ read,
              ))
              (λ _ e. v s t stored e) (sym (now s t) ∙ h)),
        (λ s t. ground (arith, now s t, read)),
      )

  -- A deleted report is gone, and nothing else changes.
  delete_task_session_state-reported :
      (name task_id : String) (w : W)
      → IsStored w
      → ((delete_task_session_state client name task_id w).0 ≡ ok tt)
        × IsStored (delete_task_session_state client name task_id w).1
        × ((s t : String)
            → reported (delete_task_session_state client name task_id w).1 s t
              ≡ (if str_eq name s && str_eq task_id t then none else reported w s t))
  unfolding delete_task_session_state wrap
  delete_task_session_state-reported name task_id w v =
      let commands = h_del (report_key name) task_id ∷ z_rem (expire_key name) task_id ∷ [] in
      let now = redis.tx_hashes commands w in
      let now : (s t : String)
          → hashes (client.tx_pipelined commands w).1 (report_key s) t
            ≡ (if str_eq name s && str_eq task_id t then none else hashes w (report_key s) t) =
        λ s t. redis.tx_hashes commands w (report_key s) t ∙ simp (report_key-eq) in
      (
        rw (redis.tx_answer commands w) refl,
        (λ s t value h. ground (arith, now s t, v s t value, h)),
        (λ s t. ground (arith, now s t)),
      )

  -- The map of the reports of a service is the stored table.
  get_task_session_report-reported :
      (s : String) (w : W)
      → IsStored w
      → (table : Dict SessionReport) × ((get_task_session_report client json s w).0 ≡ ok table)
        × ((t : String) → lookup t table ≡ reported w s t)
  unfolding get_task_session_report lookup ◌>>=◌ wrap continue
  get_task_session_report-reported s w v =
      let (table, answered, distinct, stored) = redis.get_all (report_key s) w in
      let all =
        All_of_lookup (IsReadable json) table distinct
          (λ t value h. v s t value (sym (stored t) ∙ h)) in
      let d = decode-Decoded json [] table (client.tx_h_get_all (report_key s) w).1 all distinct in
      (
        d.table,
        simp (answered, d.answer),
        λ t. d.entry t ∙ merged-none json (lookup t table) ∙ ap (decoded json) (stored t),
      )

  -- The report of one task is that of the table, and no sessions where the table has none.
  pub get_task_session_report_by_task-reported :
      (s t : String) (w : W)
      → IsStored w
      → (get_task_session_report_by_task client json s t w).0
        ≡ ok (record { session_count = count_of json (reported w s t) })
  unfolding get_task_session_report_by_task ◌>>=◌ wrap continue
  get_task_session_report_by_task-reported s t w v =
      let (table, answered, distinct, stored) = redis.get_all (report_key s) w in
      let all =
        All_of_lookup (IsReadable json) table distinct
          (λ t value h. v s t value (sym (stored t) ∙ h)) in
      simp (
        answered,
        find_report_lem json t table (client.tx_h_get_all (report_key s) w).1 all,
        stored t,
      )

  -- Over a server that answers each call, where the codec reads back what it writes and reads every value
  -- that is stored already: a report that is saved is read
  -- back, by the list of its service and by its task, and the list holds the other tasks' reports as they
  -- were before.
  pub get_task_session_report-save_task_session_report :
      (r : TaskSessionReport) (w : W)
      → IsStored w
      → (table : Dict SessionReport) × ((get_task_session_report client json r.service_name
            (save_task_session_report client json r w).1).0
          ≡ ok table)
        × (lookup r.task_id table ≡ some (record { session_count = r.session_count }))
        × ((t : String) → r.task_id ≢ t → lookup t table ≡ reported w r.service_name t)
        × ((get_task_session_report_by_task client json r.service_name r.task_id
              (save_task_session_report client json r w).1).0
            ≡ ok (record { session_count = r.session_count }))
  get_task_session_report-save_task_session_report r w v =
      let (saved, stored, entry) = save_task_session_report-reported r w v in
      let later : W = (save_task_session_report client json r w).1 in
      let (table, listed, same) = get_task_session_report-reported r.service_name later stored in
      let own : reported later r.service_name r.task_id
          ≡ some (record { session_count = r.session_count }) =
        entry r.service_name r.task_id ∙ simp (str_eq_refl) in
      (
        table,
        listed,
        same r.task_id ∙ own,
        (λ t other.
            same t
            ∙ entry r.service_name t
            ∙ ground (arith, str_eq_iff r.task_id t, str_eq_refl r.service_name, other)),
        get_task_session_report_by_task-reported r.service_name r.task_id later stored
            ∙ ap (λ (o : Option SessionReport). ok (record { session_count = count_of json o }))
                own,
      )

  -- Over a server that answers each call, where the codec reads every value that is stored: once
  -- the state of a task is deleted, the list of its service has no report of it, and the report of
  -- the task reads as no sessions.
  delete_task_session_state-forgets :
      (s t : String) (w : W)
      → IsStored w
      → (table : Dict SessionReport) × ((get_task_session_report client json s
            (delete_task_session_state client s t w).1).0
          ≡ ok table)
        × (lookup t table ≡ none)
        × ((get_task_session_report_by_task client json s t
              (delete_task_session_state client s t w).1).0
            ≡ ok (record { session_count = 0 }))
  delete_task_session_state-forgets s t w v =
      let (deleted, stored, entry) = delete_task_session_state-reported s t w v in
      let later : W = (delete_task_session_state client s t w).1 in
      let (table, listed, same) = get_task_session_report-reported s later stored in
      let own : reported later s t ≡ none = entry s t ∙ simp (str_eq_refl) in
      (
        table,
        listed,
        same t ∙ own,
        get_task_session_report_by_task-reported s t later stored
            ∙ ap (λ (o : Option SessionReport). ok (record { session_count = count_of json o }))
                own,
      )
