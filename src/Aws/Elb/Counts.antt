-- ===== src/Aws/Elb/Counts.antt =====
-- internal/adapters/aws/elb_client.go: the counts of a group are those of its targets.
use Prim.Native.Char.{code}
use legacy_messenger_ecs_con.Base.{
  ℕ, ◌+◌, ◌≤◌, ◌≡◌, refl, subst, ◌∙◌, String, Bool, true, false, ◌&&◌, some, List, [], ◌∷◌, ◌++◌,
  ◌==◌, length, length-append, All, if◌then◌else◌, arith, lowers_to, inl, inr, Bool-cases, str_eq,
  Option-cases,
}
use legacy_messenger_ecs_con.Base.Results.{Result, ok, Result-cases}
use legacy_messenger_ecs_con.Domain.{Error}
use legacy_messenger_ecs_con.Exec.{pure, raise, wrap, nil_dereference, continue, ◌>>=◌}
use legacy_messenger_ecs_con.TargetHealth.{TargetHealthEntry, TargetGroupHealth}
use legacy_messenger_ecs_con.Aws.Sdk.{TargetHealthDescription, ElbSdk}
use legacy_messenger_ecs_con.Aws.Elb.{
  increase_target_group_health_count, add_entry, add_targets, empty_group, describe_target_health,
  entry_of,
}

same_codes : String → String → Bool
same_codes String.[] String.[] = true
same_codes String.[] (String.◌∷◌ d t) = false
same_codes (String.◌∷◌ c s) String.[] = false
same_codes (String.◌∷◌ c s) (String.◌∷◌ d t) = code c == code d && same_codes s t

-- A text has one lower case.
lowers_to_unique : (s t u : String) → lowers_to s t ≡ true → lowers_to s u ≡ same_codes t u
unfolding lowers_to same_codes
lowers_to_unique String.[] String.[] String.[] h = refl
lowers_to_unique String.[] String.[] (String.◌∷◌ e u) h = refl
lowers_to_unique String.[] (String.◌∷◌ d t) u h = absurd (ground (arith, h))
lowers_to_unique (String.◌∷◌ c s) String.[] u h = absurd (ground (arith, h))
lowers_to_unique (String.◌∷◌ c s) (String.◌∷◌ d t) String.[] h = refl
lowers_to_unique (String.◌∷◌ c s) (String.◌∷◌ d t) (String.◌∷◌ e u) h =
    ground (arith, lowers_to_unique s t u)

-- How many targets have the state, in lower case.
unfoldable pub tally : String → List TargetHealthEntry → ℕ
tally state [] = 0
tally state (entry ∷ targets) = (if lowers_to entry.state state then 1 else 0) + tally state targets

tally-append :
    (state : String) (targets : List TargetHealthEntry) (entry : TargetHealthEntry)
    → tally state (targets ++ (entry ∷ []))
      ≡ tally state targets + (if lowers_to entry.state state then 1 else 0)
unfolding tally
tally-append state [] entry = omega arith
tally-append state (x ∷ targets) entry = omega (arith, tally-append state targets entry)

-- Each count is that of the targets in its state, and the total that of all targets.
pub record IsTallied (tg : TargetGroupHealth) : Type 0 where
  pub total : tg.total ≡ length tg.targets
  pub healthy_count : tg.healthy_count ≡ tally "healthy" tg.targets
  pub unhealthy : tg.unhealthy ≡ tally "unhealthy" tg.targets
  pub initial : tg.initial ≡ tally "initial" tg.targets
  pub draining : tg.draining ≡ tally "draining" tg.targets
  pub unused : tg.unused ≡ tally "unused" tg.targets
  pub unavailable : tg.unavailable ≡ tally "unavailable" tg.targets

module _ (s : String) where
  -- The states of the switch exclude one another.
  excluded : (t u : String) → same_codes t u ≡ false → lowers_to s t ≡ true → lowers_to s u ≡ false
  excluded t u d h = lowers_to_unique s t u h ∙ d

add_entry-IsTallied :
    (tg : TargetGroupHealth) (entry : TargetHealthEntry)
    → IsTallied tg
    → IsTallied (add_entry tg entry)
unfolding add_entry increase_target_group_health_count same_codes
add_entry-IsTallied tg entry h =
    let total = length-append tg.targets (entry ∷ []) in
    let healthy_count = tally-append "healthy" tg.targets entry in
    let unhealthy = tally-append "unhealthy" tg.targets entry in
    let initial = tally-append "initial" tg.targets entry in
    let draining = tally-append "draining" tg.targets entry in
    let unused = tally-append "unused" tg.targets entry in
    let unavailable = tally-append "unavailable" tg.targets entry in
    let healthy_unhealthy = excluded entry.state "healthy" "unhealthy" refl in
    let healthy_initial = excluded entry.state "healthy" "initial" refl in
    let healthy_draining = excluded entry.state "healthy" "draining" refl in
    let healthy_unused = excluded entry.state "healthy" "unused" refl in
    let healthy_unavailable = excluded entry.state "healthy" "unavailable" refl in
    let unhealthy_initial = excluded entry.state "unhealthy" "initial" refl in
    let unhealthy_draining = excluded entry.state "unhealthy" "draining" refl in
    let unhealthy_unused = excluded entry.state "unhealthy" "unused" refl in
    let unhealthy_unavailable = excluded entry.state "unhealthy" "unavailable" refl in
    let initial_draining = excluded entry.state "initial" "draining" refl in
    let initial_unused = excluded entry.state "initial" "unused" refl in
    let initial_unavailable = excluded entry.state "initial" "unavailable" refl in
    let draining_unused = excluded entry.state "draining" "unused" refl in
    let draining_unavailable = excluded entry.state "draining" "unavailable" refl in
    let unused_unavailable = excluded entry.state "unused" "unavailable" refl in
    record {
      total = ground (arith, h.total);
      healthy_count = ground (arith, h.healthy_count);
      unhealthy = ground (arith, h.unhealthy);
      initial = ground (arith, h.initial);
      draining = ground (arith, h.draining);
      unused = ground (arith, h.unused);
      unavailable = ground (arith, h.unavailable);
    }

abbrev returns : {A : Type 0} → A → Result Error A
returns a = ok a

module _ {W : Type 0} (sdk : ElbSdk W) where
  add_targets-IsTallied :
      (tg : TargetGroupHealth) (descs : List TargetHealthDescription) (w : W)
      (group : TargetGroupHealth)
      → IsTallied tg
      → (add_targets sdk tg descs w).0 ≡ ok group
      → IsTallied group
  unfolding add_targets ◌>>=◌ continue pure nil_dereference
  add_targets-IsTallied tg [] w group h e = subst IsTallied (ground (arith, e)) h
  add_targets-IsTallied tg (desc ∷ descs) w group h e = elim (Option-cases desc.target) [
    | inl f ↦ absurd (ground (arith, (rw f at e)))
    | inr (target, f) ↦
        add_targets-IsTallied (add_entry tg (entry_of target desc.target_health)) descs w group
          (add_entry-IsTallied tg (entry_of target desc.target_health) h) (rw f at e)
  ]

  -- Whatever ELB answers: a group that DescribeTargetHealth returns counts in its total all its targets,
  -- and in each of its six other counts the targets whose state is that in lower case.
  pub describe_target_health-IsTallied :
      (arn balancer : String) (w : W) (tg : TargetGroupHealth)
      → (describe_target_health sdk arn balancer w).0 ≡ ok (some tg)
      → IsTallied tg
  unfolding describe_target_health ◌>>=◌ continue wrap pure raise tally
  describe_target_health-IsTallied arn balancer w tg e = elim (Bool-cases (str_eq arn "")) [
    | inl f ↦ absurd (ground (arith, (rw f at e)))
    | inr f ↦ elim (Result-cases (sdk.describe_target_health arn w).0) [
      | inl (descs, g) ↦
          let asked = rw (f, g) at e in
          let after = (sdk.describe_target_health arn w).1 in
          elim (Result-cases (add_targets sdk (empty_group arn balancer) descs after).0) [
            | inl (group, k) ↦ subst IsTallied (ground (arith, (rw k at asked))) (
                add_targets-IsTallied (empty_group arn balancer) descs after group
                  (record {
                    total = refl;
                    healthy_count = refl;
                    unhealthy = refl;
                    initial = refl;
                    draining = refl;
                    unused = refl;
                    unavailable = refl;
                  })
                  k)
            | inr (inl (d, k)) ↦ absurd (ground (arith, (rw k at asked)))
            | inr (inr k) ↦ absurd (ground (arith, (rw k at asked)))
          ]
      | inr (inl (d, g)) ↦ absurd (ground (arith, (rw (f, g) at e)))
      | inr (inr g) ↦ absurd (ground (arith, (rw (f, g) at e)))
    ]
  ]

tally-le-length :
    (state : String) (targets : List TargetHealthEntry) → tally state targets ≤ length targets
unfolding tally
tally-le-length state [] = omega arith
tally-le-length state (x ∷ targets) = ground (arith, tally-le-length state targets)

pub tally-all :
    (state : String) (targets : List TargetHealthEntry)
    → tally state targets ≡ length targets
    → All (λ entry. lowers_to entry.state state ≡ true) targets
unfolding tally
tally-all state [] h = tt
tally-all state (x ∷ targets) h = elim (Bool-cases (lowers_to x.state state)) [
  | inl f ↦ (f, tally-all state targets (ground (arith, f)))
  | inr f ↦ absurd (ground (arith, f, tally-le-length state targets))
]

pub IsTallied-counted : (tg : TargetGroupHealth) → IsTallied tg → tg.healthy_count ≤ tg.total
IsTallied-counted tg h =
    omega (arith, h.total, h.healthy_count, tally-le-length "healthy" tg.targets)
