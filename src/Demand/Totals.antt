-- ===== src/Demand/Totals.antt =====
-- What the session totals are: a sum, a sorted list and an average.
use mathlib.Core.List.{Perm}
use mathlib.Core.List.Perm
use Prim.Native.Nat.{zero}
use native.Mathlib.Nat.{div-mul-le_self, lt-div-mul-add}
use legacy_messenger_ecs_con.Base.{
  ℕ, suc, ◌+◌, ◌*◌, ◌/◌, ◌≤◌, ◌<◌, ◌≡◌, refl, ◌∙◌, sym, ◌⊎◌, inl, inr, String, List, [], ◌∷◌, Dict,
  length, All, arith, Bool-cases, leb,
}
use legacy_messenger_ecs_con.Floats.{Float64}
use legacy_messenger_ecs_con.Demand.{
  SessionReport, TaskInfo, count_sessions, insert_by_count, sort_by_count,
  calculate_total_session_count,
}

-- The sum of the counts of a list of tasks.
abbrev pub sum_counts : List TaskInfo → ℕ
sum_counts [] = 0
sum_counts (x ∷ xs) = x.session_count + sum_counts xs

abbrev pub IsSorted : List TaskInfo → Type 0
IsSorted [] = Unit
IsSorted (x ∷ xs) = All (λ (y : TaskInfo). x.session_count ≤ y.session_count) xs × IsSorted xs

count_sessions-sum :
    (reported : Dict SessionReport) (ts : List String)
    → (count_sessions reported ts).0 ≡ sum_counts (count_sessions reported ts).1
unfolding count_sessions
count_sessions-sum reported [] = refl
count_sessions-sum reported (t ∷ ts) = ground (arith, count_sessions-sum reported ts)

insert_by_count-perm : (x : TaskInfo) (xs : List TaskInfo) → Perm (insert_by_count x xs) (x ∷ xs)
unfolding insert_by_count
insert_by_count-perm x [] = Perm.refl (x ∷ [])
insert_by_count-perm x (y ∷ ys) = elim (Bool-cases (leb x.session_count y.session_count)) [
  | inl e ↦ rw e (Perm.refl (x ∷ y ∷ ys))
  | inr e ↦ rw e (Perm.trans (Perm.cons y (insert_by_count-perm x ys)) (Perm.swap x y ys))
]

sort_by_count-perm : (xs : List TaskInfo) → Perm (sort_by_count xs) xs
unfolding sort_by_count
sort_by_count-perm [] = Perm.refl []
sort_by_count-perm (x ∷ xs) =
    Perm.trans (insert_by_count-perm x (sort_by_count xs)) (Perm.cons x (sort_by_count-perm xs))

abbrev AtLeast : ℕ → List TaskInfo → Type 0
AtLeast n = All (λ (y : TaskInfo). n ≤ y.session_count)

AtLeast-mono : (m n : ℕ) (xs : List TaskInfo) → m ≤ n → AtLeast n xs → AtLeast m xs
AtLeast-mono m n [] h a = tt
AtLeast-mono m n (x ∷ xs) h a = (omega arith, AtLeast-mono m n xs h a.1)

insert_by_count-AtLeast :
    (n : ℕ) (x : TaskInfo) (xs : List TaskInfo)
    → n ≤ x.session_count
    → AtLeast n xs
    → AtLeast n (insert_by_count x xs)
unfolding insert_by_count
insert_by_count-AtLeast n x [] h a = (h, tt)
insert_by_count-AtLeast n x (y ∷ ys) h a = ground (arith, insert_by_count-AtLeast n x ys h a.1)

insert_by_count-IsSorted :
    (x : TaskInfo) (xs : List TaskInfo) → IsSorted xs → IsSorted (insert_by_count x xs)
unfolding insert_by_count
insert_by_count-IsSorted x [] s = (tt, tt)
insert_by_count-IsSorted x (y ∷ ys) s = elim (Bool-cases (leb x.session_count y.session_count)) [
  | inl e ↦
      let le : x.session_count ≤ y.session_count = ground arith in
      rw e ((le, AtLeast-mono x.session_count y.session_count ys le s.0), s)
  | inr e ↦ rw e (
    insert_by_count-AtLeast y.session_count x ys (ground arith) s.0,
    insert_by_count-IsSorted x ys s.1,
  )
]

sort_by_count-IsSorted : (xs : List TaskInfo) → IsSorted (sort_by_count xs)
unfolding sort_by_count
sort_by_count-IsSorted [] = tt
sort_by_count-IsSorted (x ∷ xs) =
    insert_by_count-IsSorted x (sort_by_count xs) (sort_by_count-IsSorted xs)

insert_by_count-sum :
    (x : TaskInfo) (xs : List TaskInfo)
    → sum_counts (insert_by_count x xs) ≡ x.session_count + sum_counts xs
unfolding insert_by_count
insert_by_count-sum x [] = refl
insert_by_count-sum x (y ∷ ys) = ground (arith, insert_by_count-sum x ys)

sort_by_count-sum : (xs : List TaskInfo) → sum_counts (sort_by_count xs) ≡ sum_counts xs
unfolding sort_by_count
sort_by_count-sum [] = refl
sort_by_count-sum (x ∷ xs) =
    omega (arith, insert_by_count-sum x (sort_by_count xs), sort_by_count-sum xs)

average_above : (total n : ℕ) → (n ≡ 0) ⊎ (total < total / n * n + n)
average_above total zero = inl refl
average_above total (suc n) = inr (lt-div-mul-add {a = total} {b = suc n} (omega arith))

module _ (fl : Float64) (reported : Dict SessionReport) (normal : List String) (running : ℕ) where
  -- The total is the sum of the listed counts; the list is in ascending order of the counts, and holds
  -- one entry for each normal task with a report, as often as it stands there; the average times the
  -- number of entries is at most the total, and the list is empty or the remainder is less than the
  -- number of entries.
  totals_lem :
      let info = calculate_total_session_count fl reported normal running in
      let n = length info.session_count_per_task in
      (info.total_session_count ≡ sum_counts info.session_count_per_task)
      × IsSorted info.session_count_per_task
      × Perm info.session_count_per_task (count_sessions reported normal).1
      × (info.avg_session_count * n ≤ info.total_session_count)
      × ((n ≡ 0) ⊎ (info.total_session_count < info.avg_session_count * n + n))
  unfolding calculate_total_session_count
  totals_lem =
      let infos = (count_sessions reported normal).1 in
      let total = (count_sessions reported normal).0 in
      let n = length (sort_by_count infos) in
      let below = div-mul-le_self total n in
      let above = average_above total n in
      (
        count_sessions-sum reported normal ∙ sym (sort_by_count-sum infos),
        sort_by_count-IsSorted infos,
        sort_by_count-perm infos,
        ground arith,
        ground arith,
      )
