-- ===== src/Exec.antt =====
-- Methods that change a state and may return an error. What was written before an error stays
-- written, so the state comes back beside the error too.
pub mod Alive
pub mod Inversion
use legacy_messenger_ecs_con.Base.{Option, none, some}
use legacy_messenger_ecs_con.Base.Results.{Result, ok, err, panic}
use legacy_messenger_ecs_con.Domain.{Error}

abbrev pub Exec : Type 0 → Type 0 → Type 0
Exec S A = S → Result Error A × S

abbrev wrapped : {A : Type 0} → (Error → Error) → Result Error A → Result Error A
wrapped f (ok a) = ok a
wrapped f (err e) = err (f e)
wrapped f panic = panic

abbrev ignored : {A : Type 0} → Result Error A → Result Error (Unit {0})
ignored (ok a) = ok tt
ignored (err e) = ok tt
ignored panic = panic

abbrev answer : {A : Type 0} → Result Error A → Result Error (Option A)
answer (ok a) = ok (some a)
answer (err e) = ok none
answer panic = panic

module _ {S A : Type 0} where
  unfoldable pub pure : A → Exec S A
  pure a s = (ok a, s)

  -- return ..., err
  unfoldable pub raise : Error → Exec S A
  raise e s = (err e, s)

  -- A nil pointer is dereferenced.
  unfoldable pub nil_dereference : Exec S A
  nil_dereference s = (panic, s)

  -- A loop that does not end leaves no answer either.
  unfoldable pub never_returns : Exec S A
  never_returns s = (panic, s)

  -- if err != nil { return ..., fmt.Errorf("...: %w", err) }
  unfoldable pub wrap : (Error → Error) → Exec S A → Exec S A
  wrap f m s = let (r, s') = m s in (wrapped f r, s')

  -- The result and the error are dropped.
  unfoldable pub ignore : Exec S A → Exec S (Unit {0})
  ignore m s = let (r, s') = m s in (ignored r, s')

  -- The error is looked at by the caller.
  unfoldable pub attempt : Exec S A → Exec S (Option A)
  attempt m s = let (r, s') = m s in (answer r, s')

module _ {S A : Type 0} where
  abbrev handled : Result Error A → (Error → Exec S A) → Exec S A
  handled (ok a) f s = (ok a, s)
  handled (err e) f s = f e s
  handled panic f s = (panic, s)

  -- if err := ...; err != nil { ... }
  unfoldable pub handle : Exec S A → (Error → Exec S A) → Exec S A
  handle m f s = let (r, s') = m s in handled r f s'

module _ {S A B : Type 0} where
  unfoldable pub continue : Result Error A → (A → Exec S B) → Exec S B
  continue (ok a) f s = f a s
  continue (err e) f s = (err e, s)
  continue panic f s = (panic, s)

  infixl 10 ◌>>=◌ ◌>>◌
  unfoldable pub ◌>>=◌ : Exec S A → (A → Exec S B) → Exec S B
  unfolding continue pure raise nil_dereference wrap ignore attempt handle
  ◌>>=◌ first next before = let (r, between) = first before in continue r next between

  abbrev pub ◌>>◌ : Exec S A → Exec S B → Exec S B
  m >> n = m >>= λ _. n

-- Every run of the method leads from a state to a related one.
pub record Respects {S A : Type 0} (R : S → S → Type 0) (m : Exec S A) : Type 0 where
  pub run : (s : S) → R s (m s).1

module _ {S : Type 0} {R : S → S → Type 0} where
  pub wrap-Respects :
      {A : Type 0} (f : Error → Error) (m : Exec S A) → Respects R m → Respects R (wrap f m)
  unfolding wrap
  wrap-Respects f m h = record { run = h.run }

  pub ignore-Respects : {A : Type 0} (m : Exec S A) → Respects R m → Respects R (ignore m)
  unfolding ignore
  ignore-Respects m h = record { run = h.run }

  pub attempt-Respects : {A : Type 0} (m : Exec S A) → Respects R m → Respects R (attempt m)
  unfolding attempt
  attempt-Respects m h = record { run = h.run }

module _ {S A : Type 0} {R : S → S → Type 0} (same : (s : S) → R s s) where
  pub pure-Respects : (a : A) → Respects R (pure {S = S} a)
  unfolding pure
  pure-Respects a = record { run = same }

  pub raise-Respects : (e : Error) → Respects R (raise {S = S} {A = A} e)
  unfolding raise
  raise-Respects e = record { run = same }

  pub nil_dereference-Respects : Respects R (nil_dereference {S = S} {A = A})
  unfolding nil_dereference
  nil_dereference-Respects = record { run = same }

module _ {S A B : Type 0} {R : S → S → Type 0} (same : (s : S) → R s s)
    (trans : (s t u : S) → R s t → R t u → R s u) where
  continue-Respects :
      (s t : S) (r : Result Error A) (f : A → Exec S B)
      → R s t
      → ((a : A) → Respects R (f a))
      → R s (continue r f t).1
  unfolding continue
  continue-Respects s t (ok a) f h k = trans s t (f a t).1 h ((k a).run t)
  continue-Respects s t (err e) f h k = h
  continue-Respects s t panic f h k = h

  pub bind-Respects :
      (m : Exec S A) (f : A → Exec S B)
      → Respects R m
      → ((a : A) → Respects R (f a))
      → Respects R (m >>= f)
  unfolding ◌>>=◌
  bind-Respects m f h k = record { run = λ s. continue-Respects s (m s).1 (m s).0 f (h.run s) k }

module _ {S A : Type 0} {R : S → S → Type 0} (trans : (s t u : S) → R s t → R t u → R s u) where
  handled-Respects :
      (s t : S) (r : Result Error A) (f : Error → Exec S A)
      → R s t
      → ((e : Error) → Respects R (f e))
      → R s (handled r f t).1
  handled-Respects s t (ok a) f h k = h
  handled-Respects s t (err e) f h k = trans s t (f e t).1 h ((k e).run t)
  handled-Respects s t panic f h k = h

  pub handle-Respects :
      (m : Exec S A) (f : Error → Exec S A)
      → Respects R m
      → ((e : Error) → Respects R (f e))
      → Respects R (handle m f)
  unfolding handle
  handle-Respects m f h k = record { run = λ s. handled-Respects s (m s).1 (m s).0 f (h.run s) k }

pub ruleset passes_on = (wrap-Respects, ignore-Respects, attempt-Respects)
