-- ===== src/Aws/Names/Ids.antt =====
-- ecs_client.go: the two ways to cut a task's id out of its ARN.
use Prim.Native.Char.{Char, code}
use legacy_messenger_ecs_con.Base.{
  ℕ, zero, suc, ◌≡◌, refl, ap, String, Option, none, some, List, [], ◌∷◌, ◌==◌, if◌then◌else◌, true,
  false, Bool-cases, Option-cases, inl, inr, str_eq, str_eq_iff, arith, split, last, text_length,
  text_from, last_index, add_to_first, later_index, Bool, ◌≤◌, ◌<◌,
}
use legacy_messenger_ecs_con.Aws.Names.{extract_id, extract_task_id}

-- The text has at least two parts, and the last of them is `t`.
IsCut : String → List String → Type 0
IsCut t [] = ⊥
IsCut t (part ∷ []) = ⊥
IsCut t (part ∷ next ∷ parts) = last (next ∷ parts) ≡ t

-- What the split gives for each answer of LastIndex.
Splits : String → List String → Option ℕ → Type 0
unfolding IsCut
Splits s parts none = parts ≡ s ∷ []
Splits s parts (some i) = IsCut (text_from (suc i) s) parts

step-Splits :
    (c : Char) (here : Bool) (s : String) (parts : List String) (i : Option ℕ)
    → Splits s parts i
    → Splits
        (String.◌∷◌ c s)
        (if here then "" ∷ parts else add_to_first c parts)
        (later_index here i)
unfolding Splits IsCut last text_from
step-Splits c true s [] none h = ground (arith, h)
step-Splits c true s (part ∷ []) none h = ground (arith, h)
step-Splits c true s (part ∷ next ∷ parts) none h = ground (arith, h)
step-Splits c false s [] none h = ground (arith, h)
step-Splits c false s (part ∷ parts) none h = ground (arith, h)
step-Splits c true s (part ∷ next ∷ parts) (some i) h = h
step-Splits c false s (part ∷ next ∷ parts) (some i) h = h
step-Splits c here s [] (some i) h = absurd h
step-Splits c here s (part ∷ []) (some i) h = absurd h

split-last_index : (sep : ℕ) (s : String) → Splits s (split sep s) (last_index sep s)
unfolding Splits split last_index
split-last_index sep String.[] = refl
split-last_index sep (String.◌∷◌ c s) =
    step-Splits c (code c == sep) s (split sep s) (last_index sep s) (split-last_index sep s)

last-cut : (t : String) (parts : List String) → IsCut t parts → last parts ≡ t
unfolding IsCut last
last-cut t [] h = absurd h
last-cut t (part ∷ []) h = absurd h
last-cut t (part ∷ next ∷ parts) h = h

last_index-lt : (sep : ℕ) (s : String) (i : ℕ) → last_index sep s ≡ some i → i < text_length s
unfolding last_index text_length
last_index-lt sep String.[] i h = absurd (ground (arith, h))
last_index-lt sep (String.◌∷◌ c s) i h = elim (Option-cases (last_index sep s)) [
  | inl f ↦ ground (arith, (rw f at h))
  | inr (k, f) ↦ ground (arith, last_index-lt sep s k f, (rw f at h))
]

text_from-empty : (n : ℕ) (s : String) → text_from n s ≡ "" → text_length s ≤ n
unfolding text_from text_length
text_from-empty zero String.[] h = omega arith
text_from-empty zero (String.◌∷◌ c s) h = absurd (omega (arith, ap text_length h))
text_from-empty (suc n) String.[] h = omega arith
text_from-empty (suc n) (String.◌∷◌ c s) h = omega (arith, text_from-empty n s h)

text_from-all : (n : ℕ) (s : String) → text_length s ≤ n → text_from n s ≡ ""
unfolding text_from text_length
text_from-all zero String.[] h = refl
text_from-all zero (String.◌∷◌ c s) h = absurd (omega (arith, h))
text_from-all (suc n) String.[] h = refl
text_from-all (suc n) (String.◌∷◌ c s) h = text_from-all n s (omega (arith, h))

extract_id-split : (arn : String) → extract_id arn ≡ last (split b'/' arn)
unfolding extract_id
extract_id-split arn = elim (Bool-cases (str_eq arn "")) [
  | inl e ↦ rw ((str_eq_iff arn "").0 e) (unfold split last in refl)
  | inr e ↦ rw e
]

-- Of every text: extractTaskID gives the part after the last slash, which extractID gives too, but for a
-- text that is empty or ends in a slash, which extractTaskID returns whole where extractID returns the
-- empty text.
pub extract_task_id-extract_id :
    (arn : String)
    → extract_task_id arn ≡ (if str_eq (extract_id arn) "" then arn else extract_id arn)
unfolding extract_task_id Splits last
extract_task_id-extract_id arn =
    let parts = split-last_index b'/' arn in
    elim (Option-cases (last_index b'/' arn)) [
      | inl e ↦ rw (e, extract_id-split arn, (rw e at parts)) (ground (arith, str_eq_iff arn ""))
      | inr (i, e) ↦
          rw (e, extract_id-split arn, last-cut _ _ (rw e at parts))
            (ground (
              arith,
              str_eq_iff (text_from (suc i) arn) "",
              text_from-empty (suc i) arn,
              text_from-all (suc i) arn,
              last_index-lt b'/' arn i e,
            ))
    ]
