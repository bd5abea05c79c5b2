-- ===== src/TargetHealth/Status.antt =====
-- internal/application/usecase/target_health_usecase.go: what a healthy answer says of each group.
use legacy_messenger_ecs_con.Base.{
  ℕ, ◌+◌, ◌≤◌, ◌≡◌, refl, sym, subst, ap, ◌∙◌, inl, inr, String, none, some, List, [], ◌∷◌, ◌++◌,
  All, Dict, lookup, arith, Option-cases,
}
use legacy_messenger_ecs_con.Base.Results.{Result, ok, Result-cases}
use legacy_messenger_ecs_con.Domain.{Error}
use legacy_messenger_ecs_con.Exec.{pure, raise, nil_dereference, continue, ◌>>=◌}
use legacy_messenger_ecs_con.System.{ServiceDef}
use legacy_messenger_ecs_con.TargetHealth.{
  healthy, TargetGroupHealth, TargetHealthSummary, TargetHealthResponse, TargetPorts, no_targets,
  add_summary, evaluate_overall_status, add_groups, respond_to, get_target_health,
}

abbrev ok_or {ℓ} : {A : Type ℓ} → A → Result Error A → A
ok_or d (ok a) = a
ok_or d _ = d

abbrev returns {ℓ} : {A : Type ℓ} → A → Result Error A
returns a = ok a

ok_inj {ℓ} : {A : Type ℓ} (a b : A) → returns a ≡ returns b → a ≡ b
ok_inj a b e = ap (ok_or a) e

abbrev sum : (TargetGroupHealth → ℕ) → List TargetGroupHealth → ℕ
sum f [] = 0
sum f (tg ∷ tgs) = f tg + sum f tgs

sum-append :
    (f : TargetGroupHealth → ℕ) (tgs : List TargetGroupHealth) (tg : TargetGroupHealth)
    → sum f (tgs ++ (tg ∷ [])) ≡ sum f tgs + f tg
sum-append f [] tg = omega arith
sum-append f (x ∷ tgs) tg = omega (arith, sum-append f tgs tg)

-- The summary holds the sums over the groups.
pub record IsSummary (tgs : List TargetGroupHealth) (summary : TargetHealthSummary) : Type 0 where
  pub total : summary.total ≡ sum (λ tg. tg.total) tgs
  pub healthy_count : summary.healthy_count ≡ sum (λ tg. tg.healthy_count) tgs
  pub unhealthy : summary.unhealthy ≡ sum (λ tg. tg.unhealthy) tgs
  pub unavailable : summary.unavailable ≡ sum (λ tg. tg.unavailable) tgs

add_summary-IsSummary :
    (tgs : List TargetGroupHealth) (summary : TargetHealthSummary) (tg : TargetGroupHealth)
    → IsSummary tgs summary
    → IsSummary (tgs ++ (tg ∷ [])) (add_summary summary tg)
unfolding add_summary
add_summary-IsSummary tgs summary tg h = record {
  total = omega (arith, h.total, sum-append (λ g. g.total) tgs tg);
  healthy_count = omega (arith, h.healthy_count, sum-append (λ g. g.healthy_count) tgs tg);
  unhealthy = omega (arith, h.unhealthy, sum-append (λ g. g.unhealthy) tgs tg);
  unavailable = omega (arith, h.unavailable, sum-append (λ g. g.unavailable) tgs tg);
}

-- ELB counts no more healthy targets than targets.
abbrev pub IsCounted : TargetGroupHealth → Type 0
IsCounted tg = tg.healthy_count ≤ tg.total

-- All targets of the group are healthy.
abbrev pub IsAllHealthy : TargetGroupHealth → Type 0
IsAllHealthy tg = (tg.healthy_count ≡ tg.total) × (tg.unhealthy ≡ 0) × (tg.unavailable ≡ 0)

healthy-le-total :
    (tgs : List TargetGroupHealth)
    → All IsCounted tgs
    → sum (λ tg. tg.healthy_count) tgs ≤ sum (λ tg. tg.total) tgs
healthy-le-total [] a = omega arith
healthy-le-total (tg ∷ tgs) a = omega (arith, healthy-le-total tgs a.1, a.0)

sums-IsAllHealthy :
    (tgs : List TargetGroupHealth)
    → All IsCounted tgs
    → sum (λ tg. tg.healthy_count) tgs ≡ sum (λ tg. tg.total) tgs
    → sum (λ tg. tg.unhealthy) tgs ≡ 0
    → sum (λ tg. tg.unavailable) tgs ≡ 0
    → All IsAllHealthy tgs
sums-IsAllHealthy [] a h u v = tt
sums-IsAllHealthy (tg ∷ tgs) a h u v =
    let rest = healthy-le-total tgs a.1 in
    let first = a.0 in
    (
      (omega (arith, rest, first), omega arith, omega arith),
      sums-IsAllHealthy tgs a.1 (omega (arith, rest, first)) (omega arith) (omega arith),
    )

status-healthy :
    (summary : TargetHealthSummary)
    → evaluate_overall_status summary ≡ healthy
    → (summary.unhealthy ≡ 0) × (summary.unavailable ≡ 0) × (summary.healthy_count ≡ summary.total)
unfolding evaluate_overall_status
status-healthy summary h = ground arith

-- Every group that the port of ELB gives has the property.
abbrev pub Gives : {W : Type 0} → TargetPorts W → (TargetGroupHealth → Type 0) → Type 0
Gives {W} ports P =
    (arn balancer : String) (w : W) (tg : TargetGroupHealth)
    → (ports.describe_target_health arn balancer w).0 ≡ ok (some tg)
    → P tg

module _ {W : Type 0} (ports : TargetPorts W) (cluster_name : String) (registry : Dict ServiceDef)
    (P : TargetGroupHealth → Type 0) (gives : Gives ports P)
    (P-IsCounted : (tg : TargetGroupHealth) → P tg → IsCounted tg) where
  All-IsCounted : (tgs : List TargetGroupHealth) → All P tgs → All IsCounted tgs
  All-IsCounted [] a = tt
  All-IsCounted (tg ∷ tgs) a = (P-IsCounted tg a.0, All-IsCounted tgs a.1)

  All-snoc :
      (tgs : List TargetGroupHealth) (tg : TargetGroupHealth)
      → All P tgs
      → P tg
      → All P (tgs ++ (tg ∷ []))
  All-snoc [] tg a h = (h, tt)
  All-snoc (x ∷ tgs) tg a h = (a.0, All-snoc tgs tg a.1 h)

  add_groups-IsSummary :
      (balancer : String) (tgs : List TargetGroupHealth) (summary : TargetHealthSummary)
      (arns : List String) (w : W) (result : List TargetGroupHealth × TargetHealthSummary)
      → All P tgs
      → IsSummary tgs summary
      → (add_groups ports cluster_name registry balancer tgs summary arns w).0 ≡ ok result
      → All P result.0 × IsSummary result.0 result.1
  unfolding add_groups ◌>>=◌ continue pure nil_dereference
  add_groups-IsSummary balancer tgs summary [] w result a h e =
      subst (λ (r : List TargetGroupHealth × TargetHealthSummary). All P r.0 × IsSummary r.0 r.1)
        (ground (arith, e)) (a, h)
  add_groups-IsSummary balancer tgs summary (arn ∷ arns) w result a h e =
      elim (Result-cases (ports.describe_target_health arn balancer w).0) [
        | inl (some tg, f) ↦
            add_groups-IsSummary balancer (tgs ++ (tg ∷ [])) (add_summary summary tg) arns _ result
              (All-snoc tgs tg a (gives arn balancer w tg f))
              (add_summary-IsSummary tgs summary tg h) (rw f at e)
        | inl (none, f) ↦ absurd (ground (arith, (rw f at e)))
        | inr (inl (d, f)) ↦ absurd (ground (arith, (rw f at e)))
        | inr (inr f) ↦ absurd (ground (arith, (rw f at e)))
      ]

  abbrev pub Sound : TargetHealthResponse → Type 0
  Sound response =
      All P response.target_groups
      × (response.overall_status ≡ healthy → All IsAllHealthy response.target_groups)

  respond_to-Sound :
      (s : String) (def : ServiceDef) (arns : List String) (w : W) (response : TargetHealthResponse)
      → (respond_to ports cluster_name registry s def arns w).0 ≡ ok response
      → Sound response
  unfolding respond_to ◌>>=◌ continue pure
  respond_to-Sound s def [] w response e =
      subst Sound (ok_inj _ response e) (tt, λ h. ground (arith, h))
  respond_to-Sound s def (arn ∷ arns) w response e =
      elim (Result-cases
        (add_groups ports cluster_name registry def.load_balancer_type [] no_targets (arn ∷ arns)
          w).0) [
            | inl ((tgs, summary), f) ↦
                let (a, h) =
                  add_groups-IsSummary def.load_balancer_type [] no_targets (arn ∷ arns) w
                    (tgs, summary) tt
                    (record {
                      total = refl;
                      healthy_count = refl;
                      unhealthy = refl;
                      unavailable = refl;
                    })
                    f in
                subst Sound (ok_inj _ response (rw f at e)) (
                  a,
                  λ status.
                      let (none_ill, none_lost, all_well) = status-healthy summary status in
                      sums-IsAllHealthy tgs (All-IsCounted tgs a)
                        (sym h.healthy_count ∙ all_well ∙ h.total) (sym h.unhealthy ∙ none_ill)
                        (sym h.unavailable ∙ none_lost),
                )
            | inr (inl (d, f)) ↦ absurd (ground (arith, (rw f at e)))
            | inr (inr f) ↦ absurd (ground (arith, (rw f at e)))
          ]

  pub get_target_health-Sound :
      (s : String) (w : W) (response : TargetHealthResponse)
      → (get_target_health ports cluster_name registry s w).0 ≡ ok response
      → Sound response
  unfolding get_target_health ◌>>=◌ continue raise
  get_target_health-Sound s w response e = elim (Option-cases (lookup s registry)) [
    | inl f ↦ absurd (ground (arith, (rw f at e)))
    | inr (def, f) ↦
        let known = rw f at e in
        elim (Result-cases
          (ports.get_service_target_groups cluster_name def.ecs_service_name w).0) [
            | inl (arns, g) ↦ respond_to-Sound s def arns _ response (rw g at known)
            | inr (inl (d, g)) ↦ absurd (ground (arith, (rw g at known)))
            | inr (inr g) ↦ absurd (ground (arith, (rw g at known)))
          ]
  ]

-- Where ELB counts no more healthy targets than targets in a group: an answer that is HEALTHY has, in
-- each of its target groups, all targets healthy and none unhealthy or unavailable.
get_target_health-healthy :
    {W : Type 0} (ports : TargetPorts W) (cluster_name : String) (registry : Dict ServiceDef)
    → Gives ports IsCounted
    → (s : String) (w : W) (response : TargetHealthResponse)
    → (get_target_health ports cluster_name registry s w).0 ≡ ok response
    → response.overall_status ≡ healthy
    → All IsAllHealthy response.target_groups
get_target_health-healthy ports cluster_name registry gives s w response e =
    (get_target_health-Sound ports cluster_name registry IsCounted gives (λ tg h. h) s w response
      e).1
