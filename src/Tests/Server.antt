-- ===== src/Tests/Server.antt =====
-- A Redis server in memory, and a codec that writes a count as so many characters.
use Prim.Native.String.{count}
use Prim.Native.String as Text
use text.Mathlib.TextLemmas.{length-cons, length-nil}
use legacy_messenger_ecs_con.Base.{
  ℕ, zero, suc, ◌+◌, ◌≡◌, refl, sym, ap, ◌∙◌, String, some, List, [], ◌∷◌, Dict, lookup, insert,
  delete, lookup-insert, lookup-delete, insert-IsDistinct, IsDistinct, All, arith, str_eq,
  str_eq_iff, leb, if◌then◌else◌, Bool-cases, inl, inr,
}
use legacy_messenger_ecs_con.Base.Results.{Result, ok}
use legacy_messenger_ecs_con.Domain.{Error}
use legacy_messenger_ecs_con.Store.{Command, h_set, z_add, h_del, z_rem, ZRangeBy, Z, Redis, Codec}
use legacy_messenger_ecs_con.Store.Server.{
  Hashes, Sets, IsRedis, IsCodec, hash_step, set_step, hash_steps, set_steps, score_in, IsNamed,
  IsUnique, kept_if, in_range,
}

pub record Memory : Type 0 where
  pub time : ℕ
  pub hash : String → Dict String
  pub zset : String → Dict ℕ

unfoldable pub carry_out : Command → Memory → Memory
carry_out (h_set k f v) w = record w {
  hash = λ key. if str_eq k key then insert f v (w.hash key) else w.hash key;
}
carry_out (h_del k f) w = record w {
  hash = λ key. if str_eq k key then delete f (w.hash key) else w.hash key;
}
carry_out (z_add k n m) w = record w {
  zset = λ key. if str_eq k key then insert m n (w.zset key) else w.zset key;
}
carry_out (z_rem k m) w = record w {
  zset = λ key. if str_eq k key then delete m (w.zset key) else w.zset key;
}

unfoldable pub carry_out_all : List Command → Memory → Memory
unfolding carry_out
carry_out_all [] w = w
carry_out_all (c ∷ cs) w = carry_out_all cs (carry_out c w)

-- Each key once.
unfoldable pub once {ℓ} : {V : Type ℓ} → Dict V → Dict V
once [] = []
once ((k, v) ∷ m) = insert k v (once m)

unfoldable pub listed : ZRangeBy → Dict ℕ → List Z
listed range [] = []
listed range ((m, n) ∷ table) =
    let rest = listed range table in
    if in_range range (some n) then record { score = n; member = some m } ∷ rest else rest

unfoldable pub memory : Redis Memory
unfolding carry_out_all once listed
memory = record {
  tx_pipelined = λ cs w. (ok tt, carry_out_all cs w);
  tx_h_get_all = λ k w. (ok (ok (once (w.hash k))), w);
  z_range_by_score_with_scores = λ k range w. (ok (listed range (once (w.zset k))), w);
  z_score = λ k m w. (ok (lookup m (w.zset k)), w);
}

abbrev pub hashes : Memory → Hashes
hashes w k f = lookup f (w.hash k)

abbrev pub sets : Memory → Sets
sets w k m = lookup m (w.zset k)

lookup-once {ℓ} : {V : Type ℓ} (k : String) (m : Dict V) → lookup k (once m) ≡ lookup k m
unfolding once lookup
lookup-once k [] = refl
lookup-once k ((j, v) ∷ m) = lookup-insert j k v (once m) ∙ simp (lookup-once k m)

once-IsDistinct {ℓ} : {V : Type ℓ} (m : Dict V) → IsDistinct (once m)
unfolding once
once-IsDistinct [] = tt
once-IsDistinct ((j, v) ∷ m) = insert-IsDistinct j v (once m) (once-IsDistinct m)

listed-IsNamed : (range : ZRangeBy) (m : Dict ℕ) → All IsNamed (listed range m)
unfolding listed
listed-IsNamed range [] = tt
listed-IsNamed range ((k, n) ∷ m) = elim (Bool-cases (leb (n + range.period) range.until)) [
  | inl e ↦ rw e ((k, refl), listed-IsNamed range m)
  | inr e ↦ rw e (listed-IsNamed range m)
]

score_in-listed :
    (range : ZRangeBy) (t : String) (m : Dict ℕ)
    → IsDistinct m
    → score_in t (listed range m) ≡ kept_if (in_range range (lookup t m)) (lookup t m)
unfolding listed lookup
score_in-listed range t [] d = refl
score_in-listed range t ((k, n) ∷ m) d =
    ground (arith, str_eq_iff k t, score_in-listed range t m d.1, d.0)

listed-IsUnique : (range : ZRangeBy) (m : Dict ℕ) → IsDistinct m → IsUnique (listed range m)
unfolding listed
listed-IsUnique range [] d = tt
listed-IsUnique range ((k, n) ∷ m) d = elim (Bool-cases (leb (n + range.period) range.until)) [
  | inl e ↦
      rw e (
        (λ t h. ground (arith, score_in-listed range t m d.1, d.0, h)),
        listed-IsUnique range m d.1,
      )
  | inr e ↦ rw e (listed-IsUnique range m d.1)
]

hash-step :
    (c : Command) (w : Memory) (k f : String)
    → hashes (carry_out c w) k f ≡ hash_step c (hashes w) k f
unfolding carry_out
hash-step (h_set i g v) w k f = ground (arith, str_eq_iff i k, lookup-insert g f v (w.hash k))
hash-step (h_del i g) w k f = ground (arith, str_eq_iff i k, lookup-delete g f (w.hash k))
hash-step (z_add i n m) w k f = refl
hash-step (z_rem i m) w k f = refl

set-step :
    (c : Command) (w : Memory) (k f : String) → sets (carry_out c w) k f ≡ set_step c (sets w) k f
unfolding carry_out
set-step (z_add i n g) w k f = ground (arith, str_eq_iff i k, lookup-insert g f n (w.zset k))
set-step (z_rem i g) w k f = ground (arith, str_eq_iff i k, lookup-delete g f (w.zset k))
set-step (h_set i n m) w k f = refl
set-step (h_del i m) w k f = refl

hash_steps-carry :
    (cs : List Command) (w : Memory) (k f : String)
    → hashes (carry_out_all cs w) k f ≡ hash_steps cs (hashes w) k f
unfolding carry_out_all
hash_steps-carry [] w k f = refl
hash_steps-carry (c ∷ cs) w k f =
    hash_steps-carry cs (carry_out c w) k f
    ∙ ap (λ (h : Hashes). hash_steps cs h k f) (λ i j g. hash-step c w j g i)

set_steps-carry :
    (cs : List Command) (w : Memory) (k m : String)
    → sets (carry_out_all cs w) k m ≡ set_steps cs (sets w) k m
unfolding carry_out_all
set_steps-carry [] w k m = refl
set_steps-carry (c ∷ cs) w k m =
    set_steps-carry cs (carry_out c w) k m
    ∙ ap (λ (z : Sets). set_steps cs z k m) (λ i j g. set-step c w j g i)

pub memory-IsRedis : IsRedis memory hashes sets
unfolding memory
memory-IsRedis = record {
  tx_answer = λ cs w. refl;
  tx_hashes = λ cs w. hash_steps-carry cs w;
  tx_sets = λ cs w. set_steps-carry cs w;
  get_all =
      λ k w. (once (w.hash k), refl, once-IsDistinct (w.hash k), λ f. lookup-once f (w.hash k));
  get_all_hashes = λ k w. refl;
  get_all_sets = λ k w. refl;
  in_order = λ k range w. (
    listed range (once (w.zset k)),
    refl,
    listed-IsNamed range (once (w.zset k)),
    listed-IsUnique range (once (w.zset k)) (once-IsDistinct (w.zset k)),
    λ m.
        score_in-listed range m (once (w.zset k)) (once-IsDistinct (w.zset k)) ∙ simp (lookup-once),
  );
  range_hashes = λ k range w. refl;
  range_sets = λ k range w. refl;
  score = λ k m w. refl;
}

-- As many characters as the number says.
unfoldable pub ones : ℕ → String
ones zero = ""
ones (suc n) = Text.◌∷◌ "1" (ones n)

count-ones : (n : ℕ) → count (ones n) ≡ n
unfolding ones
count-ones zero = length-nil
count-ones (suc n) = length-cons "1" (ones n) ∙ ap suc (count-ones n)

unfoldable pub codec : Codec
unfolding ones
codec = record {
  marshal = λ v. ok (ones v.session_count);
  unmarshal = λ s. ok (record { session_count = count s });
  format_int = ones;
}

abbrev counted : Result Error String → ℕ
counted (ok text) = count text
counted _ = 0

pub codec-IsCodec : IsCodec codec
unfolding codec
codec-IsCodec = record {
  writes = λ v. (ones v.session_count, refl);
  reads = λ v text h.
      ap (λ (n : ℕ). ok (record { session_count = n }))
        (ap counted (sym h) ∙ count-ones v.session_count);
}

-- Nothing stored yet, at the second 1000.
abbrev pub fresh : Memory
fresh = record { time = 1_000_000_000_000; hash = λ k. []; zset = λ k. [] }
