-- ===== src/Aws/Tasks/Described.antt =====
-- internal/adapters/aws/ecs_client.go: what a described task and an instance id say of the answers of ECS.
use legacy_messenger_ecs_con.Base.{
  ◌≡◌, refl, sym, ap, ◌∙◌, String, Option, none, some, List, [], ◌∷◌, Has, str_eq, str_eq_iff,
  Bool-cases, inl, inr, arith,
}
use legacy_messenger_ecs_con.Base.Results.{Result, ok, Result-cases}
use legacy_messenger_ecs_con.Domain.{Error}
use legacy_messenger_ecs_con.Exec.{Exec, pure, raise, wrap, continue, ◌>>=◌, ◌>>◌}
use legacy_messenger_ecs_con.System.{EcsTask}
use legacy_messenger_ecs_con.Aws.Sdk.{Task, Failure, DescribeTasksOutput, EcsSdk, to_string}
use legacy_messenger_ecs_con.Aws.Names.{extract_task_id}
use legacy_messenger_ecs_con.Aws.Tasks.{
  find_task, to_ecs_task, task_described, task_found, matched, describe_task,
}

abbrev task_or : EcsTask → Result Error EcsTask → EcsTask
task_or d (ok t) = t
task_or d _ = d

abbrev returns : EcsTask → Result Error EcsTask
returns t = ok t

ok_inj : (a b : EcsTask) → returns a ≡ ok b → a ≡ b
ok_inj a b e = ap (task_or a) e

-- The task that is found has the id and is one of the tasks.
find_task-Has :
    (id : String) (tasks : List Task) (task : Task)
    → find_task id tasks ≡ some task
    → (extract_task_id (to_string task.task_arn) ≡ id) × Has task tasks
unfolding find_task
find_task-Has id [] task e = absurd (ground (arith, e))
find_task-Has id (t ∷ tasks) task e =
    elim (Bool-cases (str_eq (extract_task_id (to_string t.task_arn)) id)) [
      | inl f ↦
          let same : t ≡ task = cc (rw f at e) in (rw (← same) ((str_eq_iff _ id).0 f), inl same)
      | inr f ↦ let (named, has) = find_task-Has id tasks task (rw f at e) in (named, inr has)
    ]

module _ {W : Type 0} (sdk : EcsSdk W) (cluster id : String) (w : W) where
  described_ok :
      (failures : List Failure) (m : Exec W EcsTask) (x : W) (task : EcsTask)
      → ((task_described sdk id failures >> m) x).0 ≡ ok task
      → (failures ≡ []) × ((m x).0 ≡ ok task)
  unfolding ◌>>=◌ continue pure raise
  described_ok [] m x task e = (refl, e)
  described_ok (f ∷ failures) m x task e = absurd (ground (arith, e))

  found_ok :
      (o : Option Task) (x : W) (task : EcsTask)
      → (task_found sdk id o x).0 ≡ ok task
      → (source : Task) × (o ≡ some source) × (task ≡ to_ecs_task source)
  unfolding pure raise
  found_ok none x task e = absurd (ground (arith, e))
  found_ok (some source) x task e = (source, refl, sym (ok_inj _ task e))

  matched_ok :
      (tasks : List Task) (x : W) (task : EcsTask)
      → (matched sdk id tasks x).0 ≡ ok task
      → (source : Task) × (find_task id tasks ≡ some source) × (task ≡ to_ecs_task source)
  unfolding raise
  matched_ok [] x task e = absurd (ground (arith, e))
  matched_ok (t ∷ tasks) x task e = found_ok (find_task id (t ∷ tasks)) x task e

  -- ECS answered the request for the task without a failure, and `task` is what the client makes of a
  -- task of that answer.
  pub record Answered (task : EcsTask) : Type 0 where
    pub out : DescribeTasksOutput
    pub source : Task
    pub answer : (sdk.describe_tasks cluster (id ∷ []) w).0 ≡ ok out
    pub no_failure : out.failures ≡ []
    pub listed : Has source out.tasks
    pub converted : task ≡ to_ecs_task source
    pub named : task.task_id ≡ id

  -- A task that DescribeTask returns has the id asked for, and is one that ECS listed in an answer without
  -- failures.
  pub describe_task-Answered :
      (task : EcsTask) → (describe_task sdk cluster id w).0 ≡ ok task → Answered task
  unfolding describe_task ◌>>=◌ continue wrap pure raise
  describe_task-Answered task e = elim (Result-cases (sdk.describe_tasks cluster (id ∷ []) w).0) [
    | inl (out, g) ↦
        let (complete, rest) =
          described_ok out.failures (matched sdk id out.tasks) _ task (rw g at e) in
        let (source, f, same) = matched_ok out.tasks _ task rest in
        let (named, has) = find_task-Has id out.tasks source f in
        record {
          out = out;
          source = source;
          answer = g;
          no_failure = complete;
          listed = has;
          converted = same;
          named = ap (λ (t : EcsTask). t.task_id) same ∙ named;
        }
    | inr (inl (d, g)) ↦ absurd (ground (arith, (rw g at e)))
    | inr (inr g) ↦ absurd (ground (arith, (rw g at e)))
  ]
