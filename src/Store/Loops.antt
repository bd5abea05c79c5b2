-- ===== src/Store/Loops.antt =====
-- internal/adapters/redis/redis_client.go: what the loops over the answers of Redis return.
use legacy_messenger_ecs_con.Base.{
  ℕ, ◌≡◌, refl, ◌∙◌, inl, inr, String, Option, none, some, List, [], ◌∷◌, ◌++◌, Dict, lookup,
  insert, IsDistinct, All, arith, str_eq, str_eq_iff, lookup-insert, Bool-cases,
}
use mathlib.Core.List.{append-nil, append_assoc}
use legacy_messenger_ecs_con.Base.Results.{Result, ok}
use legacy_messenger_ecs_con.Domain.{Error}
use legacy_messenger_ecs_con.Demand.{SessionReport}
use legacy_messenger_ecs_con.Exec.{pure, wrap, continue, ◌>>=◌}
use legacy_messenger_ecs_con.Store.{
  Codec, Z, decode_reports, find_report, expired_tasks, stop_tasks,
}
use legacy_messenger_ecs_con.Store.Server.{score_in, IsNamed, IsUnique}

abbrev pub name_of : Option String → String
name_of none = ""
name_of (some name) = name

abbrev pub names_of : List Z → List String
names_of [] = []
names_of (z ∷ zs) = name_of z.member ∷ names_of zs

module _ (json : Codec) where
  -- The report that a value holds, and no report where it holds none.
  abbrev pub report_of : Result Error SessionReport → Option SessionReport
  report_of (ok report) = some report
  report_of _ = none

  abbrev pub decoded : Option String → Option SessionReport
  decoded none = none
  decoded (some value) = report_of (json.unmarshal value)

  abbrev pub merged : Option SessionReport → Option String → Option SessionReport
  merged old none = old
  merged old value = decoded value

  pub merged-none : (value : Option String) → merged none value ≡ decoded value
  merged-none none = refl
  merged-none (some value) = refl

  abbrev pub IsReadable : String × String → Type 0
  IsReadable e = (report : SessionReport) × (json.unmarshal e.1 ≡ ok report)

  -- A readable hash is decoded field by field.
  pub record Decoded {S : Type 0} (reports : Dict SessionReport) (result : Dict String) (s : S)
      : Type 0 where
    pub table : Dict SessionReport
    pub answer : decode_reports json reports result s ≡ (ok table, s)
    pub entry : (t : String) → lookup t table ≡ merged (lookup t reports) (lookup t result)

  step :
      {S : Type 0} (k value : String) (result : Dict String) (reports : Dict SessionReport) (s : S)
      → (readable : IsReadable (k, value))
      → decode_reports json reports ((k, value) ∷ result) s
        ≡ decode_reports json (insert k readable.0 reports) result s
  unfolding decode_reports ◌>>=◌ wrap continue
  step k value result reports s readable = rw readable.1 refl

  pub decode-Decoded :
      {S : Type 0} (reports : Dict SessionReport) (result : Dict String) (s : S)
      → All IsReadable result
      → IsDistinct result
      → Decoded reports result s
  unfolding decode_reports pure lookup
  decode-Decoded reports [] s a d = record { table = reports; answer = refl; entry = λ t. refl }
  decode-Decoded reports ((k, value) ∷ result) s a d =
      let rest = decode-Decoded (insert k a.0.0 reports) result s a.1 d.1 in
      record {
        table = rest.table;
        answer = step k value result reports s a.0 ∙ rest.answer;
        entry = λ t.
            rest.entry t
            ∙ ground (arith, str_eq_iff k t, lookup-insert k t a.0.0 reports, d.0, a.0.1);
      }

  abbrev pub count_of : Option SessionReport → ℕ
  count_of none = 0
  count_of (some report) = report.session_count

  -- The report of a task in a readable hash, and no sessions for a task that is not there.
  pub find_report_lem :
      {S : Type 0} (t : String) (result : Dict String) (s : S)
      → All IsReadable result
      → find_report json t result s
        ≡ (ok (record { session_count = count_of (decoded (lookup t result)) }), s)
  unfolding find_report pure lookup ◌>>=◌ wrap continue
  find_report_lem t [] s a = refl
  find_report_lem t ((k, value) ∷ result) s a = elim (Bool-cases (str_eq k t)) [
    | inl same ↦ rw (same, a.0.1) refl
    | inr other ↦ rw (other, a.0.1) (find_report_lem t result s a.1)
  ]

  abbrev pub stamped : Option String → Option ℕ → Option String
  stamped old none = old
  stamped old (some score) = some (json.format_int score)

  -- The map of the expired tasks, member by member.
  pub record Marked {S : Type 0} (name : String) (expired : Dict String) (results : List Z) (s : S)
      : Type 0 where
    pub table : Dict String
    pub answer : expired_tasks json name expired results s ≡ (ok table, s)
    pub entry : (t : String) → lookup t table ≡ stamped (lookup t expired) (score_in t results)

  pub expired_tasks-Marked :
      {S : Type 0} (name : String) (expired : Dict String) (results : List Z) (s : S)
      → All IsNamed results
      → IsUnique results
      → Marked name expired results s
  unfolding expired_tasks pure ◌>>=◌ continue
  expired_tasks-Marked name expired [] s a d = record {
    table = expired;
    answer = refl;
    entry = λ t. refl;
  }
  expired_tasks-Marked name expired (z ∷ results) s a d =
      let (member, named) = a.0 in
      let rest =
        expired_tasks-Marked name (insert member (json.format_int z.score) expired) results s a.1
          d.1 in
      record {
        table = rest.table;
        answer = rw named rest.answer;
        entry = λ t.
            rest.entry t
            ∙ ground (
              arith,
              str_eq_iff member t,
              lookup-insert member t (json.format_int z.score) expired,
              d.0 member named,
              named,
            );
      }

  pub stop_tasks_lem :
      {S : Type 0} (name : String) (stop_task : List String) (results : List Z) (s : S)
      → All IsNamed results
      → stop_tasks json name stop_task results s ≡ (ok (stop_task ++ names_of results), s)
  unfolding stop_tasks pure ◌>>=◌ continue
  stop_tasks_lem name stop_task [] s a = simp (append-nil)
  stop_tasks_lem name stop_task (z ∷ results) s a =
      rw a.0.1 (stop_tasks_lem name (stop_task ++ (a.0.0 ∷ [])) results s a.1 ∙ simp (append_assoc))
