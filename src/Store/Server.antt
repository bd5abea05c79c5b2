-- ===== src/Store/Server.antt =====
-- What the Redis client relies on of the server: what is stored in the hashes and in the sorted sets, and
-- how the commands read and change it.
use legacy_messenger_ecs_con.Base.{
  ℕ, ◌+◌, ◌≡◌, String, Bool, true, false, ◌&&◌, Option, none, some, List, [], ◌∷◌, Dict, lookup,
  IsDistinct, All, arith, str_eq, str_eq_iff, leb, if◌then◌else◌, str_cancel_left, str_cancel_right,
}
use legacy_messenger_ecs_con.Base.Results.{ok}
use legacy_messenger_ecs_con.Domain.{TaskSessionValue}
use legacy_messenger_ecs_con.Store.{
  Command, h_set, z_add, h_del, z_rem, ZRangeBy, Z, Redis, Codec, report_key, expire_key,
}

-- The field of a hash, and the score of a member of a sorted set.
abbrev pub Hashes : Type 0
Hashes = String → String → Option String

abbrev pub Sets : Type 0
Sets = String → String → Option ℕ

abbrev pub hash_step : Command → Hashes → Hashes
hash_step (h_set k f v) h key field = if str_eq k key && str_eq f field then some v else h key field
hash_step (h_del k f) h key field = if str_eq k key && str_eq f field then none else h key field
hash_step _ h key field = h key field

abbrev pub set_step : Command → Sets → Sets
set_step (z_add k n m) z key member =
    if str_eq k key && str_eq m member then some n else z key member
set_step (z_rem k m) z key member = if str_eq k key && str_eq m member then none else z key member
set_step _ z key member = z key member

-- A transaction carries out its commands in order.
abbrev pub hash_steps : List Command → Hashes → Hashes
hash_steps [] h = h
hash_steps (c ∷ cs) h = hash_steps cs (hash_step c h)

abbrev pub set_steps : List Command → Sets → Sets
set_steps [] z = z
set_steps (c ∷ cs) z = set_steps cs (set_step c z)

abbrev pub in_range : ZRangeBy → Option ℕ → Bool
in_range range none = false
in_range range (some score) = leb (score + range.period) range.until

-- What a list of scores says of a member.
abbrev pub score_in : String → List Z → Option ℕ
score_in m [] = none
score_in m (z ∷ zs) = elim z.member [
  | none ↦ score_in m zs
  | some name ↦ if str_eq name m then some z.score else score_in m zs
]

-- No member is listed twice.
abbrev pub IsUnique : List Z → Type 0
IsUnique [] = Unit
IsUnique (z ∷ zs) = ((m : String) → z.member ≡ some m → score_in m zs ≡ none) × IsUnique zs

abbrev pub kept_if : Bool → Option ℕ → Option ℕ
kept_if true score = score
kept_if false score = none

abbrev pub IsNamed : Z → Type 0
IsNamed z = (name : String) × (z.member ≡ some name)

-- A server that answers each call, with what it stores: a transaction changes it by its commands, and a
-- read leaves it. HGETALL lists each field once; ZRANGEBYSCORE lists the members in the range.
pub record IsRedis {W : Type 0} (client : Redis W) (hashes : W → Hashes) (sets : W → Sets)
    : Type 0 where
  pub tx_answer : (cs : List Command) (w : W) → (client.tx_pipelined cs w).0 ≡ ok tt
  pub tx_hashes :
      (cs : List Command) (w : W) (k f : String)
      → hashes (client.tx_pipelined cs w).1 k f ≡ hash_steps cs (hashes w) k f
  pub tx_sets :
      (cs : List Command) (w : W) (k m : String)
      → sets (client.tx_pipelined cs w).1 k m ≡ set_steps cs (sets w) k m
  pub get_all :
      (k : String) (w : W)
      → (table : Dict String) × ((client.tx_h_get_all k w).0 ≡ ok (ok table))
        × IsDistinct table
        × ((f : String) → lookup f table ≡ hashes w k f)
  pub get_all_hashes : (k : String) (w : W) → hashes (client.tx_h_get_all k w).1 ≡ hashes w
  pub get_all_sets : (k : String) (w : W) → sets (client.tx_h_get_all k w).1 ≡ sets w
  pub in_order :
      (k : String) (range : ZRangeBy) (w : W)
      → (members : List Z) × ((client.z_range_by_score_with_scores k range w).0 ≡ ok members)
        × All IsNamed members
        × IsUnique members
        × ((m : String) → score_in m members ≡ kept_if (in_range range (sets w k m)) (sets w k m))
  pub range_hashes :
      (k : String) (range : ZRangeBy) (w : W)
      → hashes (client.z_range_by_score_with_scores k range w).1 ≡ hashes w
  pub range_sets :
      (k : String) (range : ZRangeBy) (w : W)
      → sets (client.z_range_by_score_with_scores k range w).1 ≡ sets w
  pub score : (k m : String) (w : W) → (client.z_score k m w).0 ≡ ok (sets w k m)

-- What a text holds that the codec wrote.
pub record IsWritten (json : Codec) (value : String) (n : ℕ) : Type 0 where
  pub written : TaskSessionValue
  pub counts : written.session_count ≡ n
  pub by_codec : json.marshal written ≡ ok value

-- Every value is written as a text, and the count is read back from it. The names of the fields are
-- compared without regard to case, so that of SessionReport is found.
pub record IsCodec (json : Codec) : Type 0 where
  pub writes : (v : TaskSessionValue) → (value : String) × (json.marshal v ≡ ok value)
  pub reads :
      (v : TaskSessionValue) (value : String)
      → json.marshal v ≡ ok value
      → json.unmarshal value ≡ ok (record { session_count = v.session_count })

-- Two services have no key in common.
pub report_key_inj : (s t : String) → report_key s ≡ report_key t → s ≡ t
unfolding report_key
report_key_inj s t h =
    str_cancel_left "control-plane:session:{" s t (str_cancel_right _ _ "}:reports" h)

pub expire_key_inj : (s t : String) → expire_key s ≡ expire_key t → s ≡ t
unfolding expire_key
expire_key_inj s t h =
    str_cancel_left "control-plane:session:{" s t (str_cancel_right _ _ "}:expires" h)

pub report_key-eq : (s t : String) → str_eq (report_key s) (report_key t) ≡ str_eq s t
report_key-eq s t =
    grind (arith, str_eq_iff (report_key s) (report_key t), str_eq_iff s t, report_key_inj s t)

pub expire_key-eq : (s t : String) → str_eq (expire_key s) (expire_key t) ≡ str_eq s t
expire_key-eq s t =
    grind (arith, str_eq_iff (expire_key s) (expire_key t), str_eq_iff s t, expire_key_inj s t)
