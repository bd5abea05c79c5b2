-- ===== src/Demand/Partition.antt =====
-- Every running task is expired, normal or missing, and when all of them are normal.
use mathlib.Core.List.{Perm, perm_middle}
use mathlib.Core.List.Perm
use legacy_messenger_ecs_con.Base.{
  ◌≤◌, ◌≡◌, ◌↔◌, inl, inr, true, false, String, List, [], ◌∷◌, ◌++◌, Dict, lookup, length, Has, All,
  arith, Bool-cases,
}
use legacy_messenger_ecs_con.Demand.{SessionReport, has_key, Separated, get_separated_running_task}

-- A task with a report that has not expired.
abbrev pub IsFresh : Dict String → Dict SessionReport → String → Type 0
IsFresh expired reported t =
    (has_key (lookup t reported) ≡ true) × (has_key (lookup t expired) ≡ false)

module _ (expired : Dict String) (reported : Dict SessionReport) where
  abbrev split : List String → Separated
  split running = get_separated_running_task running expired reported

  -- A task is in the normal list exactly when it runs, has a report, and the report has not expired.
  normal_task_iff :
      (running : List String) (t : String)
      → Has t (split running).normal_task ↔ (Has t running × IsFresh expired reported t)
  unfolding get_separated_running_task
  normal_task_iff [] t = ((λ h. absurd h), (λ h. absurd h.0))
  normal_task_iff (u ∷ us) t = (
    (λ h. ground (arith, (normal_task_iff us t).0)),
    (λ h. ground (arith, (normal_task_iff us t).1)),
  )

  -- The three lists together hold the running tasks, each as often as it runs.
  separated-perm :
      (running : List String)
      → Perm
          ((split running).expired_task
            ++ ((split running).normal_task ++ (split running).missing_task))
          running
  unfolding get_separated_running_task
  separated-perm [] = Perm.refl []
  separated-perm (u ∷ us) = elim (Bool-cases (has_key (lookup u reported))) [
    | inl found ↦ elim (Bool-cases (has_key (lookup u expired))) [
      | inl late ↦ rw found (rw late (Perm.cons u (separated-perm us)))
      | inr fresh ↦ rw found (
          rw fresh
            (Perm.trans (perm_middle (split us).expired_task _) (Perm.cons u (separated-perm us))))
    ]
    | inr missing ↦ rw missing (
        Perm.trans
          (Perm.append (Perm.refl (split us).expired_task)
            (perm_middle (split us).normal_task (split us).missing_task))
          (Perm.trans (perm_middle (split us).expired_task _) (Perm.cons u (separated-perm us))))
  ]

  pub length-normal_le :
      (running : List String) → length (split running).normal_task ≤ length running
  unfolding get_separated_running_task
  length-normal_le [] = omega arith
  length-normal_le (u ∷ us) = ground (arith, length-normal_le us)

  -- As many tasks are normal as run exactly when every running task has a report that has not expired.
  pub normal-complete_iff :
      (running : List String)
      → (length running ≤ length (split running).normal_task)
        ↔ All (IsFresh expired reported) running
  unfolding get_separated_running_task
  normal-complete_iff [] = ((λ _. tt), (λ _. omega arith))
  normal-complete_iff (u ∷ us) = (
    (λ h. ground (arith, length-normal_le us, (normal-complete_iff us).0)),
    (λ h. ground (arith, (normal-complete_iff us).1 h.1)),
  )
