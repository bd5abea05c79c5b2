-- ===== src/Aws/CloudWatch/Latest.antt =====
-- internal/adapters/aws/cloud_watch_client.go: the count that is returned is that of the latest datapoint.
use legacy_messenger_ecs_con.Base.{
  ℕ, ◌-◌, ◌*◌, ◌==◌, ◌∙◌, ◌≤◌, ◌≡◌, refl, sym, subst, ap, inl, inr, String, Option, none, some,
  List, [], ◌∷◌, All, Has, str_eq, Option-cases, arith, if◌then◌else◌,
}
use legacy_messenger_ecs_con.Base.Results.{ok, Result-cases}
use legacy_messenger_ecs_con.Domain.{load_balancer_arn_required, metric_failed}
use legacy_messenger_ecs_con.Policy.{second}
use legacy_messenger_ecs_con.Exec.Inversion.{bind_ok, wrap_ok, guard_ok, pure_ok, raise_ok, nil_ok}
use legacy_messenger_ecs_con.Aws.Sdk.{Datapoint, CloudWatchSdk, to_int}
use legacy_messenger_ecs_con.Aws.Names.{extract_load_balancer_dimension}
use legacy_messenger_ecs_con.Aws.CloudWatch.Sorting.{Ascending, All-sort, sort-Ascending, sort-Has}
use legacy_messenger_ecs_con.Aws.CloudWatch.{
  Stamped, stamped, sort_stamped, average_of, average_of_last, latest_average, get_statistics,
  of_dimension, get_alb_active_connection_count, with_stamp,
}

module _ {F : Type 0} where
  -- The time of the last of ascending datapoints bounds all of them.
  last-Ascending :
      {W : Type 0} (sdk : CloudWatchSdk W F) (xs : List (Stamped F)) (w : W) (v : F)
      → Ascending xs
      → (average_of_last sdk xs w).0 ≡ ok v
      → (t : ℕ) × Has (t, some v) xs × All (λ x. x.0 ≤ t) xs
  last-Ascending sdk [] w v a e = absurd (raise_ok _ w v e)
  last-Ascending sdk ((t, none) ∷ []) w v a e = absurd (raise_ok _ w v e)
  last-Ascending sdk ((t, some u) ∷ []) w v a e =
      let same = pure_ok u v w e in (t, inl (ap (λ (x : F). (t, some x)) same), (omega arith, tt))
  last-Ascending sdk (d ∷ next ∷ xs) w v a e =
      let (t, has, bound) = last-Ascending sdk (next ∷ xs) w v a.1 e in
      (t, inr has, (omega (arith, a, bound), bound))

  with_stamp_lem :
      (o : Option ℕ) (a : Option F) (rest : Option (List (Stamped F))) (xs : List (Stamped F))
      → with_stamp o a rest ≡ some xs
      → (t : ℕ) × (ys : List (Stamped F)) × (o ≡ some t) × (rest ≡ some ys) × (xs ≡ (t, a) ∷ ys)
  with_stamp_lem none a rest xs e = absurd (ground (arith, e))
  with_stamp_lem (some t) a none xs e = absurd (ground (arith, e))
  with_stamp_lem (some t) a (some ys) xs e = (t, ys, refl, refl, cc)

  nil_inj :
      (xs : List (Stamped F)) → ◌≡◌ {A = Option (List (Stamped F))} (some []) (some xs) → xs ≡ []
  nil_inj xs e = cc

  from_rest :
      (t : ℕ) (v : F) (xs : List (Stamped F))
      → Has (t, some v) (sort_stamped [] xs)
      → Has (t, some v) xs
  from_rest t v xs h = elim (sort-Has (t, some v) [] xs h) [
    | inl none_left ↦ absurd none_left
    | inr has ↦ has
  ]

  -- The datapoints with times `xs`, of which one has the time `t` and the value `v`.
  stamped_lem :
      (ds : List (Datapoint F)) (xs : List (Stamped F)) (t : ℕ) (v : F)
      → stamped ds ≡ some xs
      → Has (t, some v) xs
      → (d : Datapoint F) × Has d ds × (d.timestamp ≡ some t) × (d.average ≡ some v)
  unfolding stamped
  stamped_lem [] xs t v e h = absurd (subst (Has (t, some v)) (nil_inj xs e) h)
  stamped_lem (d ∷ ds) xs t v e h =
      let (s, ys, stamp, rest, same) = with_stamp_lem d.timestamp d.average (stamped ds) xs e in
      elim (subst (Has (t, some v)) same h) [
        | inl here ↦ (
          d,
          inl refl,
          stamp ∙ ap (λ (x : Stamped F). some x.0) here,
          ap (λ (x : Stamped F). x.1) here,
        )
        | inr later ↦
            let (found, has, at, valued) = stamped_lem ds ys t v rest later in
            (found, inr has, at, valued)
      ]

  stamped-bound :
      (ds : List (Datapoint F)) (xs : List (Stamped F)) (t : ℕ)
      → stamped ds ≡ some xs
      → All (λ x. x.0 ≤ t) xs
      → All (λ d. to_int d.timestamp ≤ t) ds
  unfolding stamped
  stamped-bound [] xs t e a = tt
  stamped-bound (d ∷ ds) xs t e a =
      let (s, ys, stamp, rest, same) = with_stamp_lem d.timestamp d.average (stamped ds) xs e in
      let moved : (s ≤ t) × All (λ x. x.0 ≤ t) ys = subst (All (λ x. x.0 ≤ t)) same a in
      (rw stamp moved.0, stamped-bound ds ys t rest moved.1)

  -- One of the datapoints has this value, and none is later.
  pub record IsLatest (ds : List (Datapoint F)) (v : F) : Type 0 where
    pub latest : Datapoint F
    pub listed : Has latest ds
    pub valued : latest.average ≡ some v
    pub last : All (λ d. to_int d.timestamp ≤ to_int latest.timestamp) ds

  sorted-IsLatest :
      (ds : List (Datapoint F)) (xs : List (Stamped F)) (v : F)
      → stamped ds ≡ some xs
      → (t : ℕ) × Has (t, some v) (sort_stamped [] xs) × All (λ x. x.0 ≤ t) (sort_stamped [] xs)
      → IsLatest ds v
  sorted-IsLatest ds xs v f (t, has, bound) =
      let (found, listed, at, valued) = stamped_lem ds xs t v f (from_rest t v xs has) in
      let no_later = stamped-bound ds xs t f (All-sort (λ x. x.0 ≤ t) [] xs bound).1 in
      record {
        latest = found;
        listed = listed;
        valued = valued;
        last =
            subst (λ (o : Option ℕ). All (λ d. to_int d.timestamp ≤ to_int o) ds) (sym at) no_later;
      }

module _ {W F : Type 0} (sdk : CloudWatchSdk W F) where
  average_ok : (o : Option F) (w : W) (v : F) → (average_of sdk o w).0 ≡ ok v → o ≡ some v
  average_ok none w v e = absurd (raise_ok _ w v e)
  average_ok (some u) w v e = ap (λ (x : F). some x) (pure_ok u v w e)

  latest_average-IsLatest :
      (ds : List (Datapoint F)) (w : W) (v : F) → (latest_average sdk ds w).0 ≡ ok v → IsLatest ds v
  unfolding latest_average
  latest_average-IsLatest [] w v e = absurd (raise_ok _ w v e)
  latest_average-IsLatest (d ∷ []) w v e = record {
    latest = d;
    listed = inl refl;
    valued = average_ok d.average w v e;
    last = (omega arith, tt);
  }
  latest_average-IsLatest (d ∷ next ∷ rest) w v e =
      elim (Option-cases (stamped (d ∷ next ∷ rest))) [
        | inl f ↦ absurd (nil_ok w v (rw f at e))
        | inr (xs, f) ↦
            sorted-IsLatest (d ∷ next ∷ rest) xs v f
              (last-Ascending sdk (sort_stamped [] xs) w v (sort-Ascending [] xs tt) (rw f at e))
      ]

  -- Whatever CloudWatch answers: a count that is returned is the average of a datapoint of its answer for
  -- the load balancer of the ARN, and no datapoint of that answer is later.
  pub get_alb_active_connection_count-IsLatest :
      (arn : String) (period lookback : ℕ) (w : W) (v : F)
      → (get_alb_active_connection_count sdk arn period lookback w).0 ≡ ok v
      → (dimension : String) × (start : ℕ) × (end_time : ℕ) × (seconds : ℕ) × (ds : List
          (Datapoint F))
        × (extract_load_balancer_dimension arn ≡ ok dimension)
        × ((sdk.get_metric_statistics dimension start end_time seconds w).0 ≡ ok ds)
        × IsLatest ds v
  unfolding get_alb_active_connection_count
  get_alb_active_connection_count-IsLatest arn period lookback w v e =
      let seconds = if period == 0 then 60 else period in
      let span = if lookback == 0 then 5 * (60 * second) else lookback in
      let (named, rest) =
        guard_ok (str_eq arn "") load_balancer_arn_required
          (of_dimension sdk seconds span (extract_load_balancer_dimension arn)) w v e in
      elim (Result-cases (extract_load_balancer_dimension arn)) [
        | inl (dimension, f) ↦
            let (ds, asked, left) =
              bind_ok (get_statistics sdk dimension seconds span) (latest_average sdk) w v
                (rw f at rest) in
            let end_time = sdk.time_now w in
            (
              dimension,
              end_time - span,
              end_time,
              seconds,
              ds,
              f,
              (wrap_ok metric_failed
                  (sdk.get_metric_statistics dimension (end_time - span) end_time seconds) w ds
                  asked).0,
              latest_average-IsLatest ds _ v left,
            )
        | inr (inl (d, f)) ↦ absurd (raise_ok d w v (rw f at rest))
        | inr (inr f) ↦ absurd (nil_ok w v (rw f at rest))
      ]
