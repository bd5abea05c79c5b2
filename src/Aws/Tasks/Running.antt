-- ===== src/Aws/Tasks/Running.antt =====
-- internal/adapters/aws/ecs_client.go: GetRunningTaskIDs over all pages and slices.
use mathlib.Core.List.{append_assoc, append-nil, map-append}
use legacy_messenger_ecs_con.Base.{
  ℕ, zero, suc, ◌≤◌, ◌<◌, ◌≡◌, refl, ap, String, Option, none, List, [], ◌∷◌, ◌++◌, map, length,
  str_eq, true, false, arith,
}
use legacy_messenger_ecs_con.Base.Results.{ok}
use legacy_messenger_ecs_con.Exec.{pure, wrap, continue, ◌>>=◌}
use legacy_messenger_ecs_con.Aws.Sdk.{running, Task, ListTasksOutput, EcsSdk, to_string}
use legacy_messenger_ecs_con.Aws.Tasks.{
  take, drop, running_ids, list_running, describe_running, get_running_task_ids,
}

-- What ECS documents of a cluster that does not change meanwhile: the pages of ListTasks from a token on
-- list `arns` on `n` pages, the last of which has no next token.
pub data Pages {W : Type 0} (sdk : EcsSdk W) (cluster name : String) (w : W)
    : Option String → List String → ℕ → Type 0 where
  final :
      {token : Option String} (out : ListTasksOutput)
      → sdk.list_tasks cluster name running token w ≡ (ok out, w)
      → str_eq (to_string out.next_token) "" ≡ true
      → Pages sdk cluster name w token out.task_arns 1
  more :
      {token : Option String} {rest : List String} {n : ℕ} (out : ListTasksOutput)
      → sdk.list_tasks cluster name running token w ≡ (ok out, w)
      → str_eq (to_string out.next_token) "" ≡ false
      → Pages sdk cluster name w out.next_token rest n
      → Pages sdk cluster name w token (out.task_arns ++ rest) (suc n)

-- ECS ends its pages: those from a token on are at most `n`, where each call answers.
abbrev pub Ends : {W : Type 0} → EcsSdk W → String → String → ℕ → Option String → W → Type 0
Ends sdk cluster name zero token w = ⊥
Ends sdk cluster name (suc n) token w =
    (out : ListTasksOutput)
    → (sdk.list_tasks cluster name running token w).0 ≡ ok out
    → str_eq (to_string out.next_token) "" ≡ false
    → Ends sdk cluster name n out.next_token (sdk.list_tasks cluster name running token w).1

-- DescribeTasks answers a request for 1 to 100 tasks, and no other, with the tasks asked for.
abbrev pub Describes : {W : Type 0} → EcsSdk W → String → W → (String → Task) → Type 0
Describes sdk cluster w task =
    (arns : List String)
    → 0 < length arns
    → length arns ≤ 100
    → sdk.describe_tasks cluster arns w ≡ (ok (record { tasks = map task arns; failures = [] }), w)

take-drop : (n : ℕ) (xs : List String) → take n xs ++ drop n xs ≡ xs
unfolding take drop
take-drop zero xs = refl
take-drop (suc n) [] = refl
take-drop (suc n) (x ∷ xs) = ap (λ ys. x ∷ ys) (take-drop n xs)

length-take : (n : ℕ) (xs : List String) → length (take n xs) ≤ n
unfolding take
length-take zero xs = omega arith
length-take (suc n) [] = omega arith
length-take (suc n) (x ∷ xs) = omega (arith, length-take n xs)

length-drop : (n : ℕ) (xs : List String) → length (drop n xs) ≤ length xs
unfolding drop
length-drop zero xs = omega arith
length-drop (suc n) [] = omega arith
length-drop (suc n) (x ∷ xs) = omega (arith, length-drop n xs)

running_ids-append : (xs ys : List Task) → running_ids (xs ++ ys) ≡ running_ids xs ++ running_ids ys
unfolding running_ids
running_ids-append [] ys = refl
running_ids-append (x ∷ xs) ys = ground (arith, running_ids-append xs ys)

running_ids-slices :
    (task : String → Task) (n : ℕ) (arns : List String)
    → running_ids (map task (take n arns)) ++ running_ids (map task (drop n arns))
      ≡ running_ids (map task arns)
running_ids-slices task n arns = rw (← running_ids-append, ← map-append, take-drop n arns) refl

slice-ne : (arn : String) (arns : List String) → 0 < length (take 100 (arn ∷ arns))
unfolding take
slice-ne arn arns = omega arith

pub drop-lt : (arn : String) (arns : List String) → length (drop 100 (arn ∷ arns)) ≤ length arns
unfolding drop
drop-lt arn arns = omega (arith, length-drop 99 arns)

module _ {W : Type 0} (sdk : EcsSdk W) (cluster name : String) (w : W) where
  list_running-Pages :
      {token : Option String} {arns : List String} {n : ℕ} (acc : List String) (fuel : ℕ)
      → Pages sdk cluster name w token arns n
      → n ≤ fuel
      → list_running sdk fuel cluster name acc token w ≡ (ok (acc ++ arns), w)
  unfolding list_running ◌>>=◌ continue wrap pure
  list_running-Pages acc zero (final out f last) h = absurd (omega arith)
  list_running-Pages acc zero (more out f next pages) h = absurd (omega arith)
  list_running-Pages acc (suc fuel) (final out f last) h = simp (f, last)
  list_running-Pages acc (suc fuel) (more out f next pages) h =
      simp
        (f, next, list_running-Pages (acc ++ out.task_arns) fuel pages (omega arith), append_assoc)

  module _ (task : String → Task) (describes : Describes sdk cluster w task) where
    describe_running_lem :
        (fuel : ℕ) (ids arns : List String)
        → length arns ≤ fuel
        → describe_running sdk fuel cluster name ids arns w
          ≡ (ok (ids ++ running_ids (map task arns)), w)
    unfolding describe_running ◌>>=◌ continue wrap pure
    describe_running_lem fuel ids [] h = unfold running_ids in simp append-nil
    describe_running_lem zero ids (arn ∷ arns) h = absurd (omega arith)
    describe_running_lem (suc fuel) ids (arn ∷ arns) h =
        let slice = take 100 (arn ∷ arns) in
        let rest = drop 100 (arn ∷ arns) in
        simp (
          describes slice (slice-ne arn arns) (length-take 100 (arn ∷ arns)),
          describe_running_lem fuel (ids ++ running_ids (map task slice)) rest
              (omega (arith, drop-lt arn arns)),
          append_assoc,
          running_ids-slices task 100 (arn ∷ arns),
        )

    -- Where ListTasks lists the ARNs `arns` on at most `pages` pages, and DescribeTasks answers requests
    -- for 1 to 100 tasks only, and neither name is empty: GetRunningTaskIDs ends with no error, after
    -- asking for every ARN of every page, and returns the ids of the tasks that run, in order.
    pub get_running_task_ids-all :
        (arns : List String) (n pages : ℕ)
        → str_eq cluster "" ≡ false
        → str_eq name "" ≡ false
        → Pages sdk cluster name w none arns n
        → n ≤ pages
        → get_running_task_ids sdk pages cluster name w ≡ (ok (running_ids (map task arns)), w)
    unfolding get_running_task_ids ◌>>=◌ continue pure
    get_running_task_ids-all arns n pages c s listed h = simp (
      c,
      s,
      list_running-Pages [] pages listed h,
      describe_running_lem (length arns) [] arns (omega arith),
    )
