-- ===== src/Aws/CloudWatch/Sorting.antt =====
-- internal/adapters/aws/cloud_watch_client.go: the datapoints in the order of their times.
use legacy_messenger_ecs_con.Base.{
  ℕ, ◌≤◌, ◌≡◌, ◌⊎◌, inl, inr, List, [], ◌∷◌, All, Has, ltb, Bool-cases, arith,
}
use legacy_messenger_ecs_con.Aws.CloudWatch.{Stamped, insert_stamped, sort_stamped}

module _ {F : Type 0} where
  -- Ascending times.
  abbrev pub Ascending : List (Stamped F) → Type 0
  Ascending [] = Unit
  Ascending (d ∷ xs) = All (λ x. d.0 ≤ x.0) xs × Ascending xs

  module _ (P : Stamped F → Type 0) where
    insert-All :
        (d : Stamped F) (xs : List (Stamped F)) → P d → All P xs → All P (insert_stamped d xs)
    unfolding insert_stamped
    insert-All d [] p a = (p, tt)
    insert-All d (x ∷ xs) p a = elim (Bool-cases (ltb d.0 x.0)) [
      | inl f ↦ rw f (p, a)
      | inr f ↦ rw f (a.0, insert-All d xs p a.1)
    ]

    All-insert :
        (d : Stamped F) (xs : List (Stamped F)) → All P (insert_stamped d xs) → P d × All P xs
    unfolding insert_stamped
    All-insert d [] a = (a.0, tt)
    All-insert d (x ∷ xs) a = elim (Bool-cases (ltb d.0 x.0)) [
      | inl f ↦ (rw f at a)
      | inr f ↦
          let moved : P x × All P (insert_stamped d xs) = (rw f at a) in
          let (p, rest) = All-insert d xs moved.1 in (p, (moved.0, rest))
    ]

    pub All-sort :
        (sorted xs : List (Stamped F)) → All P (sort_stamped sorted xs) → All P sorted × All P xs
    unfolding sort_stamped
    All-sort sorted [] a = (a, tt)
    All-sort sorted (d ∷ xs) a =
        let (inserted, rest) = All-sort (insert_stamped d sorted) xs a in
        let (p, before) = All-insert d sorted inserted in (before, (p, rest))

  All-later :
      (s t : ℕ) (xs : List (Stamped F)) → s ≤ t → All (λ x. t ≤ x.0) xs → All (λ x. s ≤ x.0) xs
  All-later s t [] h a = tt
  All-later s t (x ∷ xs) h a = (omega (arith, a.0), All-later s t xs h a.1)

  insert-Ascending :
      (d : Stamped F) (xs : List (Stamped F)) → Ascending xs → Ascending (insert_stamped d xs)
  unfolding insert_stamped
  insert-Ascending d [] a = (tt, tt)
  insert-Ascending d (x ∷ xs) a = elim (Bool-cases (ltb d.0 x.0)) [
    | inl f ↦ rw f ((ground (arith, f), All-later d.0 x.0 xs (ground (arith, f)) a.0), a)
    | inr f ↦
        rw f (insert-All (λ y. x.0 ≤ y.0) d xs (ground (arith, f)) a.0, insert-Ascending d xs a.1)
  ]

  pub sort-Ascending :
      (sorted xs : List (Stamped F)) → Ascending sorted → Ascending (sort_stamped sorted xs)
  unfolding sort_stamped
  sort-Ascending sorted [] a = a
  sort-Ascending sorted (d ∷ xs) a =
      sort-Ascending (insert_stamped d sorted) xs (insert-Ascending d sorted a)

  insert-Has :
      (e d : Stamped F) (xs : List (Stamped F)) → Has e (insert_stamped d xs) → (d ≡ e) ⊎ Has e xs
  unfolding insert_stamped
  insert-Has e d [] h = h
  insert-Has e d (x ∷ xs) h = elim (Bool-cases (ltb d.0 x.0)) [
    | inl f ↦ (rw f at h)
    | inr f ↦
        let moved : (x ≡ e) ⊎ Has e (insert_stamped d xs) = (rw f at h) in
        elim moved [
          | inl same ↦ inr (inl same)
          | inr later ↦ elim (insert-Has e d xs later) [
            | inl same ↦ inl same
            | inr old ↦ inr (inr old)
          ]
        ]
  ]

  pub sort-Has :
      (e : Stamped F) (sorted xs : List (Stamped F))
      → Has e (sort_stamped sorted xs)
      → Has e sorted ⊎ Has e xs
  unfolding sort_stamped
  sort-Has e sorted [] h = inl h
  sort-Has e sorted (d ∷ xs) h = elim (sort-Has e (insert_stamped d sorted) xs h) [
    | inl inserted ↦ elim (insert-Has e d sorted inserted) [
      | inl same ↦ inr (inl same)
      | inr old ↦ inl old
    ]
    | inr rest ↦ inr (inr rest)
  ]
