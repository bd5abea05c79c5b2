-- ===== src/Base/Maps.antt =====
-- Go's maps with string keys. A map that is only read with a zero default (`m[k]` with no second
-- result) is a function; a map whose keys are tested for presence is an association list.
use Prim.Native.String.{String}
use mathlib.Core.Path.{◌≡◌, refl, sym, subst}
use mathlib.Core.Logic.{inl, inr, ◌≢◌}
use mathlib.Core.Option.{Option, none, some}
use mathlib.Core.List.{List, [], ◌∷◌}
use native.Mathlib.Omega.{arith}
use text.Mathlib.Text.{◌==◌ as str_eq}
use text.Mathlib.TextEquality.{eq_iff}
use text.Mathlib.TextPositions.{eq_refl}
use legacy_messenger_ecs_con.Base.Tests.{if◌then◌else◌, Bool-cases}
use legacy_messenger_ecs_con.Base.Lists.{All}

-- m[k] = v
abbrev pub update {ℓ} : {V : Type ℓ} → (String → V) → String → V → String → V
update m k v j = if str_eq k j then v else m j

abbrev pub Dict {ℓ} : Type ℓ → Type ℓ
Dict V = List (String × V)

module _ {ℓ} {V : Type ℓ} where
  -- v, ok := m[k]
  unfoldable pub lookup : String → Dict V → Option V
  lookup k [] = none
  lookup k ((j, v) ∷ m) = if str_eq j k then some v else lookup k m

  -- m[k] = v
  unfoldable pub insert : String → V → Dict V → Dict V
  insert k v [] = (k, v) ∷ []
  insert k v ((j, w) ∷ m) = if str_eq j k then (j, v) ∷ m else (j, w) ∷ insert k v m

  -- delete(m, k)
  unfoldable pub delete : String → Dict V → Dict V
  delete k [] = []
  delete k ((j, w) ∷ m) = if str_eq j k then delete k m else (j, w) ∷ delete k m

  pub lookup-delete :
      (k j : String) (m : Dict V)
      → lookup j (delete k m) ≡ (if str_eq k j then none else lookup j m)
  unfolding lookup delete
  lookup-delete k j [] = ground arith
  lookup-delete k j ((i, w) ∷ m) =
      ground (arith, eq_iff k j, eq_iff i k, eq_iff i j, lookup-delete k j m)

  -- Reading back any key after a write.
  pub lookup-insert :
      (key other : String) (value : V) (table : Dict V)
      → lookup other (insert key value table)
        ≡ (if str_eq key other then some value else lookup other table)
  unfolding lookup insert
  lookup-insert key other value [] = refl
  lookup-insert key other value ((first, old) ∷ table) = ground (
    arith,
    eq_iff first key,
    eq_iff first other,
    eq_iff key other,
    lookup-insert key other value table,
  )

  -- No key stands twice.
  abbrev pub IsDistinct : Dict V → Type ℓ
  IsDistinct [] = Unit
  IsDistinct ((k, v) ∷ m) = (lookup k m ≡ none) × IsDistinct m

  pub insert-IsDistinct :
      (k : String) (v : V) (m : Dict V) → IsDistinct m → IsDistinct (insert k v m)
  unfolding insert
  insert-IsDistinct k v [] h = (unfold lookup in refl, tt)
  insert-IsDistinct k v ((i, w) ∷ m) h =
      ground (arith, eq_iff i k, eq_iff k i, lookup-insert k i v m, insert-IsDistinct k v m h.1)

  pub insert-All {κ} :
      (P : String × V → Type κ) (k : String) (v : V) (m : Dict V)
      → P (k, v)
      → All P m
      → All P (insert k v m)
  unfolding insert
  insert-All P k v [] new h = (new, tt)
  insert-All P k v ((i, w) ∷ m) new h = elim (Bool-cases (str_eq i k)) [
    | inl e ↦ rw e (subst (λ (j : String). P (j, v)) (sym ((eq_iff i k).0 e)) new, h.1)
    | inr e ↦ rw e (h.0, insert-All P k v m new h.1)
  ]

  pub lookup-All {κ} :
      (P : String × V → Type κ) (k : String) (v : V) (m : Dict V)
      → All P m
      → lookup k m ≡ some v
      → P (k, v)
  unfolding lookup
  lookup-All P k v [] h e = absurd (ground arith)
  lookup-All P k v ((i, w) ∷ m) h e = elim (Bool-cases (str_eq i k)) [
    | inl same ↦
        subst (λ (u : V). P (k, u)) (ground arith)
          (subst (λ (j : String). P (j, w)) ((eq_iff i k).0 same) h.0)
    | inr other ↦ lookup-All P k v m h.1 (ground arith)
  ]

  pub lookup-insert_ne :
      (k j : String) (v : V) (m : Dict V) → k ≢ j → lookup j (insert k v m) ≡ lookup j m
  lookup-insert_ne k j v m h = ground (arith, eq_iff k j, lookup-insert k j v m)

  pub lookup-insert_self :
      (key : String) (value : V) (table : Dict V) → lookup key (insert key value table) ≡ some value
  lookup-insert_self key value table = simp (eq_refl, lookup-insert)
