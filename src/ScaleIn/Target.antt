-- ===== src/ScaleIn/Target.antt =====
-- Which task is drained, and which tasks are protected meanwhile.
use legacy_messenger_ecs_con.Base.{
  ℕ, ◌≤◌, ltb, ◌≡◌, refl, ◌⊎◌, inl, inr, ◌≢◌, ◌↔◌, String, Bool, true, false, Option, none, some,
  List, [], ◌∷◌, Dict, lookup, Has, arith, Option-cases, Bool-cases, str_eq_iff,
}
use mathlib.Core.Path.{ap, ◌∙◌}
use legacy_messenger_ecs_con.Demand.{SessionReport, TaskInfo, has_key}
use legacy_messenger_ecs_con.ScaleIn.{pick_target, survivors, better}

module _ (reports : Dict SessionReport) (expired : Dict String) where
  -- A task that may be drained, with the sessions that it reported.
  abbrev pub Eligible : String → ℕ → Type 0
  Eligible t n =
      (lookup t reports ≡ some (record { session_count = n }))
      × (has_key (lookup t expired) ≡ false)

  better_le :
      (t : String) (r : Option SessionReport) (b : Bool) (y : TaskInfo)
      → (z : TaskInfo) × (better t r b (some y) ≡ some z) × z.session_count ≤ y.session_count
  better_le t none b y = (y, refl, ground arith)
  better_le t (some r) true y = (y, refl, ground arith)
  better_le t (some r) false y = elim (Bool-cases (ltb r.session_count y.session_count)) [
    | inl e ↦ (record { task_id = t; session_count = r.session_count }, ground arith, ground arith)
    | inr e ↦ (y, ground arith, ground arith)
  ]

  better_fit :
      (t : String) (r : SessionReport) (best : Option TaskInfo)
      → (z : TaskInfo) × (better t (some r) false best ≡ some z) × z.session_count ≤ r.session_count
  better_fit t r none = (_, refl, ground arith)
  better_fit t r (some y) = elim (Bool-cases (ltb r.session_count y.session_count)) [
    | inl e ↦ (record { task_id = t; session_count = r.session_count }, ground arith, ground arith)
    | inr e ↦ (y, ground arith, ground arith)
  ]

  better_from :
      (t : String) (r : Option SessionReport) (b : Bool) (best : Option TaskInfo) (z : TaskInfo)
      → better t r b best ≡ some z
      → (best ≡ some z)
        ⊎ ((z.task_id ≡ t) × (r ≡ some (record { session_count = z.session_count })) × (b ≡ false))
  better_from t none b best z e = ground arith
  better_from t (some r) true best z e = ground arith
  better_from t (some r) false none z e = ground arith
  better_from t (some r) false (some y) z e = ground arith

  pick-keeps :
      (ts : List String) (best : Option TaskInfo) (y : TaskInfo)
      → best ≡ some y
      → (x : TaskInfo) × (pick_target reports expired ts best ≡ some x)
        × x.session_count ≤ y.session_count
  unfolding pick_target
  pick-keeps [] best y e = (y, e, ground arith)
  pick-keeps (t ∷ ts) best y e =
      let (z, f, l) = better_le t (lookup t reports) (has_key (lookup t expired)) y in
      let (x, g, m) =
        pick-keeps ts _ z (ap (better t (lookup t reports) (has_key (lookup t expired))) e ∙ f) in
      (x, g, omega (arith, l, m))

  pick-from :
      (ts : List String) (best : Option TaskInfo) (x : TaskInfo)
      → pick_target reports expired ts best ≡ some x
      → (best ≡ some x) ⊎ (Has x.task_id ts × Eligible x.task_id x.session_count)
  unfolding pick_target
  pick-from [] best x e = inl e
  pick-from (t ∷ ts) best x e = elim (pick-from ts _ x e) [
    | inl q ↦ elim (better_from t _ _ best x q) [ inl k ↦ inl k | inr (k, l, m) ↦ ground arith ]
    | inr (i, f) ↦ inr (inr i, f)
  ]

  pick-least :
      (ts : List String) (best : Option TaskInfo) (t : String) (n : ℕ)
      → Has t ts
      → Eligible t n
      → (x : TaskInfo) × (pick_target reports expired ts best ≡ some x) × x.session_count ≤ n
  unfolding pick_target
  pick-least [] best t n h f = absurd h
  pick-least (s ∷ ts) best t n (inl e) f =
      let (z, g, l) = better_fit s (record { session_count = n }) best in
      let at : better s (lookup s reports) (has_key (lookup s expired)) best ≡ some z =
        rw (ap (λ k. lookup k reports) e, ap (λ k. has_key (lookup k expired)) e, f.0, f.1, g) in
      let (x, h, m) = pick-keeps ts _ z at in (x, h, omega (arith, l, m))
  pick-least (s ∷ ts) best t n (inr i) f = pick-least ts _ t n i f

  -- A picked task is one of the running tasks, its report has not expired and holds the picked count,
  -- and no running task with a report that has not expired has fewer sessions.
  pub pick_target-least :
      (running : List String) (x : TaskInfo)
      → pick_target reports expired running none ≡ some x
      → Has x.task_id running
        × Eligible x.task_id x.session_count
        × ((t : String) (n : ℕ) → Has t running → Eligible t n → x.session_count ≤ n)
  pick_target-least running x e =
      let absent : ¬ (none ≡ some x) = λ h. ground arith in
      elim (pick-from running none x e) [
        | inl h ↦ absurd (absent h)
        | inr (i, f) ↦ (i, f, (λ t n j g. grind (arith, pick-least running none t n j g)))
      ]

  -- No task is picked exactly when no running task has a report that has not expired.
  pick_target-none_iff :
      (running : List String)
      → (pick_target reports expired running none ≡ none)
        ↔ ((t : String) (n : ℕ) → Has t running → ¬ Eligible t n)
  pick_target-none_iff running = (
    (λ e t n i f. grind (arith, pick-least running none t n i f)),
    (λ h. elim (Option-cases (pick_target reports expired running none)) [
      | inl e ↦ e
      | inr (x, e) ↦
          let (i, f, l) = pick_target-least running x e in absurd (h x.task_id x.session_count i f)
    ]),
  )

-- A task is a survivor exactly when it runs and is not the target.
pub survivors_iff :
    (target t : String) (ts : List String) → Has t (survivors target ts) ↔ (Has t ts × t ≢ target)
unfolding survivors
survivors_iff target t [] = ground arith
survivors_iff target t (x ∷ ts) = grind (arith, survivors_iff target t ts, str_eq_iff x target)
