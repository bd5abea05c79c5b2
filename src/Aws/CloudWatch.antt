-- ===== src/Aws/CloudWatch.antt =====
-- internal/adapters/aws/cloud_watch_client.go: the connections of a load balancer.
pub mod Sorting
pub mod Latest
use legacy_messenger_ecs_con.Base.{
  ℕ, ◌-◌, ◌*◌, String, Option, none, some, List, [], ◌∷◌, ltb, leb, ◌==◌, str_eq, if◌then◌else◌,
}
use legacy_messenger_ecs_con.Base.Results.{Result, ok, err, panic}
use legacy_messenger_ecs_con.Domain.{
  Error, load_balancer_arn_required, metric_failed, metric_not_found,
}
use legacy_messenger_ecs_con.Policy.{second}
use legacy_messenger_ecs_con.Exec.{Exec, pure, raise, wrap, nil_dereference, ◌>>=◌}
use legacy_messenger_ecs_con.Aws.Sdk.{Datapoint, CloudWatchSdk}
use legacy_messenger_ecs_con.Aws.Names.{extract_load_balancer_dimension}

-- A datapoint whose timestamp is not nil.
abbrev pub Stamped : Type 0 → Type 0
Stamped F = ℕ × Option F

module _ {F : Type 0} where
  abbrev pub with_stamp :
      Option ℕ → Option F → Option (List (Stamped F)) → Option (List (Stamped F))
  with_stamp none average rest = none
  with_stamp (some t) average none = none
  with_stamp (some t) average (some rest) = some ((t, average) ∷ rest)

  unfoldable pub stamped : List (Datapoint F) → Option (List (Stamped F))
  stamped [] = some []
  stamped (d ∷ datapoints) = with_stamp d.timestamp d.average (stamped datapoints)

  -- Before the first that is later.
  unfoldable pub insert_stamped : Stamped F → List (Stamped F) → List (Stamped F)
  insert_stamped d [] = d ∷ []
  insert_stamped d (x ∷ xs) = if ltb d.0 x.0 then d ∷ x ∷ xs else x ∷ insert_stamped d xs

  -- sort.Slice by the timestamp: an insertion sort, which Go uses for up to 12 items. Datapoints of one
  -- time stay in order.
  unfoldable pub sort_stamped : List (Stamped F) → List (Stamped F) → List (Stamped F)
  unfolding insert_stamped
  sort_stamped sorted [] = sorted
  sort_stamped sorted (d ∷ rest) = sort_stamped (insert_stamped d sorted) rest

module _ {W F : Type 0} (sdk : CloudWatchSdk W F) where
  abbrev pub average_of : Option F → Exec W F
  average_of none = raise metric_not_found
  average_of (some v) = pure v

  -- The last of the datapoints.
  abbrev pub average_of_last : List (Stamped F) → Exec W F
  average_of_last [] = raise metric_not_found
  average_of_last (d ∷ []) = average_of (d.1)
  average_of_last (d ∷ next ∷ rest) = average_of_last (next ∷ rest)

  abbrev pub latest_sorted : Option (List (Stamped F)) → Exec W F
  latest_sorted none = nil_dereference
  latest_sorted (some datapoints) = average_of_last (sort_stamped [] datapoints)

  -- No two datapoints are compared where there is one. A comparison reads both timestamps.
  unfoldable pub latest_average : List (Datapoint F) → Exec W F
  unfolding stamped sort_stamped
  latest_average [] = raise metric_not_found
  latest_average (d ∷ []) = average_of d.average
  latest_average (d ∷ next ∷ rest) = latest_sorted (stamped (d ∷ next ∷ rest))

  abbrev pub get_statistics : String → ℕ → ℕ → Exec W (List (Datapoint F))
  get_statistics dimension period lookback w =
      let end_time = sdk.time_now w in
      wrap metric_failed (sdk.get_metric_statistics dimension (end_time - lookback) end_time period)
        w

  abbrev pub of_dimension : ℕ → ℕ → Result Error String → Exec W F
  of_dimension period lookback (err e) = raise e
  of_dimension period lookback panic = nil_dereference
  of_dimension period lookback (ok dimension) =
      get_statistics dimension period lookback >>= latest_average

  -- A period or a lookback of 0 stands for one that is not positive.
  unfoldable pub get_alb_active_connection_count : String → ℕ → ℕ → Exec W F
  unfolding latest_average
  get_alb_active_connection_count arn period lookback =
      let period_seconds = if period == 0 then 60 else period in
      let span = if lookback == 0 then 5 * (60 * second) else lookback in
      if str_eq arn ""
      then raise load_balancer_arn_required
      else of_dimension period_seconds span (extract_load_balancer_dimension arn)
