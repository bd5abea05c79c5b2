-- ===== src/Exec/Inversion.antt =====
-- What a method that returns says of its parts.
use legacy_messenger_ecs_con.Base.{inl, inr, ◌≡◌, refl, ap, Bool, true, false, arith, if◌then◌else◌}
use legacy_messenger_ecs_con.Base.Results.{Result, ok, Result-cases}
use legacy_messenger_ecs_con.Domain.{Error}
use legacy_messenger_ecs_con.Exec.{Exec, pure, raise, wrap, nil_dereference, continue, ◌>>=◌}

abbrev pub or_else : {A : Type 0} → A → Result Error A → A
or_else d (ok a) = a
or_else d _ = d

module _ {S A : Type 0} where
  pub pure_ok : (a b : A) (s : S) → (pure {S = S} a s).0 ≡ ok b → a ≡ b
  unfolding pure
  pure_ok a b s e = ap (or_else a) e

  pub raise_ok : (d : Error) (s : S) (a : A) → (raise {S = S} d s).0 ≡ ok a → ⊥
  unfolding raise
  raise_ok d s a e = ground (arith, e)

  pub nil_ok : (s : S) (a : A) → (nil_dereference {S = S} s).0 ≡ ok a → ⊥
  unfolding nil_dereference
  nil_ok s a e = ground (arith, e)

  pub wrap_ok :
      (f : Error → Error) (m : Exec S A) (s : S) (a : A)
      → (wrap f m s).0 ≡ ok a
      → ((m s).0 ≡ ok a) × ((wrap f m s).1 ≡ (m s).1)
  unfolding wrap
  wrap_ok f m s a e = elim (Result-cases (m s).0) [
    | inl (b, g) ↦ (rw g (rw g at e), refl)
    | inr (inl (d, g)) ↦ absurd (ground (arith, (rw g at e)))
    | inr (inr g) ↦ absurd (ground (arith, (rw g at e)))
  ]

  -- if b { return ..., err }
  pub guard_ok :
      (b : Bool) (d : Error) (m : Exec S A) (s : S) (a : A)
      → ((if b then raise d else m) s).0 ≡ ok a
      → (b ≡ false) × ((m s).0 ≡ ok a)
  guard_ok true d m s a e = absurd (raise_ok d s a e)
  guard_ok false d m s a e = (refl, e)

module _ {S A B : Type 0} where
  -- The first part returned a value, and the second returned from the state after it.
  pub bind_ok :
      (m : Exec S A) (f : A → Exec S B) (s : S) (b : B)
      → ((m >>= f) s).0 ≡ ok b
      → (a : A) × ((m s).0 ≡ ok a) × ((f a (m s).1).0 ≡ ok b)
  unfolding ◌>>=◌ continue
  bind_ok m f s b e = elim (Result-cases (m s).0) [
    | inl (a, g) ↦ (a, g, (rw g at e))
    | inr (inl (d, g)) ↦ absurd (ground (arith, (rw g at e)))
    | inr (inr g) ↦ absurd (ground (arith, (rw g at e)))
  ]

  -- The same of a part whose error is wrapped.
  pub bind_wrap_ok :
      (c : Error → Error) (m : Exec S A) (f : A → Exec S B) (s : S) (b : B)
      → ((wrap c m >>= f) s).0 ≡ ok b
      → (a : A) × ((m s).0 ≡ ok a) × ((f a (m s).1).0 ≡ ok b)
  unfolding wrap
  bind_wrap_ok c m f s b e =
      let (a, h, rest) = bind_ok (wrap c m) f s b e in (a, (wrap_ok c m s a h).0, rest)
