-- ===== src/Exec/Alive.antt =====
-- Methods that never dereference nil and always return, and how that passes through the combinators.
use legacy_messenger_ecs_con.Base.{inl, inr, ◌≡◌, refl, ◌≢◌, Bool, true, false, if◌then◌else◌}
use legacy_messenger_ecs_con.Base.Results.{Result, ok, err, panic, Result-cases}
use legacy_messenger_ecs_con.Domain.{Error}
use legacy_messenger_ecs_con.Exec.{
  Exec, wrapped, ignored, handled, pure, raise, wrap, ignore, handle, continue, ◌>>=◌,
}

-- The method returns a value or an error: it never dereferences nil, and no loop of it goes on for ever.
pub record Alive {S A : Type 0} (m : Exec S A) : Type 0 where
  pub returns : (s : S) → (m s).0 ≢ panic

module _ {A : Type 0} where
  wrapped-ne-panic : (f : Error → Error) (r : Result Error A) → r ≢ panic → wrapped f r ≢ panic
  wrapped-ne-panic f (ok a) h = λ e. cc
  wrapped-ne-panic f (err d) h = λ e. cc
  wrapped-ne-panic f panic h = λ e. h refl

  ignored-ne-panic : (r : Result Error A) → r ≢ panic → ignored r ≢ panic
  ignored-ne-panic (ok a) h = λ e. cc
  ignored-ne-panic (err d) h = λ e. cc
  ignored-ne-panic panic h = λ e. h refl

module _ {S A : Type 0} where
  pub pure-Alive : (a : A) → Alive (pure {S = S} a)
  unfolding pure
  pure-Alive a = record { returns = λ s e. cc }

  -- A write that cannot fail.
  pub write-Alive : (a : A) (f : S → S) → Alive (λ s. (ok a, f s))
  write-Alive a f = record { returns = λ s e. cc }

  pub raise-Alive : (e : Error) → Alive (raise {S = S} {A = A} e)
  unfolding raise
  raise-Alive e = record { returns = λ s h. cc }

  pub wrap-Alive : (f : Error → Error) (m : Exec S A) → Alive m → Alive (wrap f m)
  unfolding wrap
  wrap-Alive f m h = record { returns = λ s. wrapped-ne-panic f (m s).0 (h.returns s) }

  pub ignore-Alive : (m : Exec S A) → Alive m → Alive (ignore m)
  unfolding ignore
  ignore-Alive m h = record { returns = λ s. ignored-ne-panic (m s).0 (h.returns s) }

  handled-ne-panic :
      (r : Result Error A) (f : Error → Exec S A) (s : S)
      → r ≢ panic
      → ((e : Error) → Alive (f e))
      → (handled r f s).0 ≢ panic
  handled-ne-panic (ok a) f s h k = λ e. cc
  handled-ne-panic (err d) f s h k = (k d).returns s
  handled-ne-panic panic f s h k = λ e. h refl

  pub handle-Alive :
      (m : Exec S A) (f : Error → Exec S A)
      → Alive m
      → ((e : Error) → Alive (f e))
      → Alive (handle m f)
  unfolding handle
  handle-Alive m f h k = record {
    returns = λ s. handled-ne-panic (m s).0 f (m s).1 (h.returns s) k;
  }

  pub if-Alive : (b : Bool) (m n : Exec S A) → Alive m → Alive n → Alive (if b then m else n)
  if-Alive true m n h k = h
  if-Alive false m n h k = k

module _ {S A B : Type 0} where
  continue-ne-panic :
      (r : Result Error A) (f : A → Exec S B) (s : S)
      → r ≢ panic
      → ((a : A) → Alive (f a))
      → (continue r f s).0 ≢ panic
  unfolding continue
  continue-ne-panic (ok a) f s h k = (k a).returns s
  continue-ne-panic (err d) f s h k = λ e. cc
  continue-ne-panic panic f s h k = λ e. h refl

  pub bind-Alive :
      (m : Exec S A) (f : A → Exec S B) → Alive m → ((a : A) → Alive (f a)) → Alive (m >>= f)
  unfolding ◌>>=◌
  bind-Alive m f h k = record { returns = λ s. continue-ne-panic (m s).0 f (m s).1 (h.returns s) k }

pub ruleset lives =
    (pure-Alive, raise-Alive, wrap-Alive, ignore-Alive, handle-Alive, if-Alive, bind-Alive)

module _ {S A B : Type 0} where
  -- The second part may rely on what the first returned.
  pub bind-Alive_of :
      (m : Exec S A) (f : A → Exec S B)
      → Alive m
      → ((a : A) (s : S) → (m s).0 ≡ ok a → (f a (m s).1).0 ≢ panic)
      → Alive (m >>= f)
  unfolding ◌>>=◌ continue
  bind-Alive_of m f h k = record {
    returns = λ s. elim (Result-cases (m s).0) [
      | inl (a, e) ↦ rw e (k a s e)
      | inr (inl (d, e)) ↦ rw e (λ p. cc)
      | inr (inr e) ↦ absurd (h.returns s e)
    ];
  }
