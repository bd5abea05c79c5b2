-- ===== src/Demand.antt =====
-- The pure part of internal/application/usecase/session_auto_scaling_usecase.go: from the running
-- tasks and the session reports to the number of tasks that is needed.
pub mod Partition
pub mod Totals
pub mod Required
use legacy_messenger_ecs_con.Base.{
  ℕ, zero, suc, ◌+◌, ◌/◌, String, Bool, true, false, Option, none, some, List, [], ◌∷◌, Dict,
  lookup, length, ltb, leb, ◌==◌, if◌then◌else◌,
}
use legacy_messenger_ecs_con.Floats.{Float64}
use legacy_messenger_ecs_con.Domain.{
  ScalingAction, scale_out, scale_in, keep, SessionAutoScalingResult, required_exceeds_current,
  required_below_current, count_appropriate,
}

-- scale.SessionReport
pub record SessionReport : Type 0 where
  pub session_count : ℕ

-- scale.TaskInfo
pub record TaskInfo : Type 0 where
  pub task_id : String
  pub session_count : ℕ

-- scale.TaskSessionInfo
pub record TaskSessionInfo (F : Type 0) : Type 0 where
  pub session_count_per_task : List TaskInfo
  pub avg_session_count : ℕ
  pub total_session_count : ℕ
  pub report_coverage : F

-- `_, exists := m[k]`
abbrev pub has_key {ℓ} : {V : Type ℓ} → Option V → Bool
has_key none = false
has_key (some v) = true

-- The three lists that the loop fills: expired, normal and missing.
pub record Separated : Type 0 where
  pub expired_task : List String
  pub normal_task : List String
  pub missing_task : List String

unfoldable pub get_separated_running_task :
    List String → Dict String → Dict SessionReport → Separated
get_separated_running_task [] expired_report reported = record {
  expired_task = [];
  normal_task = [];
  missing_task = [];
}
get_separated_running_task (t ∷ ts) expired_report reported =
    let rest = get_separated_running_task ts expired_report reported in
    if has_key (lookup t reported)
    then if has_key (lookup t expired_report)
      then record rest { expired_task = t ∷ rest.expired_task }
      else record rest { normal_task = t ∷ rest.normal_task }
    else record rest { missing_task = t ∷ rest.missing_task }

abbrev count_into : String → Option SessionReport → ℕ × List TaskInfo → ℕ × List TaskInfo
count_into t none (total, infos) = (total, infos)
count_into t (some report) (total, infos) = (
  report.session_count + total,
  record { task_id = t; session_count = report.session_count } ∷ infos,
)

-- The loop over the normal tasks: their sessions in all, and one entry for each that has a report. A sum of Go's
-- ints is taken to stay below 2 ^ 63.
unfoldable pub count_sessions : Dict SessionReport → List String → ℕ × List TaskInfo
count_sessions reported [] = (0, [])
count_sessions reported (t ∷ ts) = count_into t (lookup t reported) (count_sessions reported ts)

unfoldable pub insert_by_count : TaskInfo → List TaskInfo → List TaskInfo
insert_by_count x [] = x ∷ []
insert_by_count x (y ∷ ys) =
    if leb x.session_count y.session_count then x ∷ y ∷ ys else y ∷ insert_by_count x ys

-- sort.Slice by the number of sessions. The order of equal counts, which sort.Slice leaves open, is
-- the order in which they stood.
unfoldable pub sort_by_count : List TaskInfo → List TaskInfo
unfolding insert_by_count
sort_by_count [] = []
sort_by_count (x ∷ xs) = insert_by_count x (sort_by_count xs)

module _ (fl : Float64) where
  open fl use {F, of_int, mul, div, ceil_int, le}

  unfoldable pub report_coverage_of : ℕ → ℕ → F
  report_coverage_of normal running =
      if ltb 0 running then div (of_int normal) (of_int running) else of_int 0

  unfoldable pub calculate_total_session_count :
      Dict SessionReport → List String → ℕ → TaskSessionInfo F
  unfolding report_coverage_of count_sessions sort_by_count
  calculate_total_session_count reported normal_task running =
      let (total, infos) = count_sessions reported normal_task in
      let sorted = sort_by_count infos in
      record {
        session_count_per_task = sorted;
        avg_session_count = if ltb 0 (length sorted) then total / length sorted else 0;
        total_session_count = total;
        report_coverage = report_coverage_of (length normal_task) running;
      }

  -- A negative number of sessions per task takes the same way as 0.
  unfoldable pub calculate_required_task_count : ℕ → ℕ → F → ℕ → ℕ → ℕ
  calculate_required_task_count total per_task utilization min_count max_count =
      let effective_capacity = mul (of_int per_task) utilization in
      let required = ceil_int (div (of_int total) effective_capacity) in
      if per_task == 0
      then min_count
      else if le effective_capacity (of_int 0)
      then min_count
      else if ltb required min_count
      then min_count
      else if ltb max_count required
      then max_count
      else required

unfoldable pub evaluate_scaling_demand :
    {F : Type 0} → String → TaskSessionInfo F → ℕ → ℕ → ℕ → SessionAutoScalingResult
evaluate_scaling_demand s info current running required =
    let base : SessionAutoScalingResult = record {
      service_name = s;
      total_session_count = info.total_session_count;
      running_task_count = running;
      current_desired_count = current;
      recommended_desired_count = required;
      action = keep;
      executed = false;
      reason = count_appropriate;
      session_report = [];
      ecs_events = [];
    } in
    if ltb current required
    then record base { action = scale_out; reason = required_exceeds_current }
    else if ltb required current
    then record base { action = scale_in; reason = required_below_current }
    else base
