-- ===== src/Scheduler/Effects.antt =====
-- What a method does to the policy and to the table of jobs, as two histories of calls.
use legacy_messenger_ecs_con.Base.{
  ℕ, ◌<◌, ◌≡◌, refl, sym, ap, ◌∙◌, Bool, true, false, if◌then◌else◌, List, [], ◌∷◌, ◌++◌, All,
}
use legacy_messenger_ecs_con.Base.Results.{Result}
use legacy_messenger_ecs_con.Domain.{Error}
use legacy_messenger_ecs_con.Policy.{ScalingPolicy}
use legacy_messenger_ecs_con.Policy.History
use legacy_messenger_ecs_con.Coordinator.{ScaleInCoordinator, Outcome}
use legacy_messenger_ecs_con.Coordinator.Entries.{Call, perform}
use legacy_messenger_ecs_con.Coordinator.Graph
use legacy_messenger_ecs_con.Exec.{
  Exec, Respects, raise, pure, bind-Respects, pure-Respects, raise-Respects, handle,
  handle-Respects, ◌>>=◌,
}
use legacy_messenger_ecs_con.System.{
  Services, System, SameControl, call, coordinate, clock, call-SameControl,
}

Graph_after-append :
    (c : ScaleInCoordinator) (new old : List Call)
    → Graph.after c (new ++ old) ≡ Graph.after (Graph.after c old) new
unfolding Graph.after
Graph_after-append c [] old = refl
Graph_after-append c (call ∷ new) old =
    ap (λ (d : ScaleInCoordinator). (perform d call).1) (Graph_after-append c new old)

All-append {ℓ κ} :
    {A : Type ℓ} (P : A → Type κ) (xs ys : List A) → All P xs → All P ys → All P (xs ++ ys)
All-append P [] ys h k = k
All-append P (x ∷ xs) ys h k = (h.0, All-append P xs ys h.1 k)

All-map {ℓ κ} :
    {A : Type ℓ} (P Q : A → Type κ) → ((a : A) → P a → Q a) → (xs : List A) → All P xs → All Q xs
All-map P Q f [] h = tt
All-map P Q f (x ∷ xs) h = (f x h.0, All-map P Q f xs h.1)

module _ {F : Type 0} (lt : F → F → Bool) where
  History_after-append :
      (p : ScalingPolicy F) (new old : List (History.Call F))
      → History.after lt p (new ++ old) ≡ History.after lt (History.after lt p old) new
  unfolding History.after
  History_after-append p [] old = refl
  History_after-append p (call ∷ new) old =
      ap (λ (q : ScalingPolicy F). History.step lt q call) (History_after-append p new old)

  -- The second state comes from the first by calls of the policy's methods, and by such calls of the
  -- coordinator's methods as are allowed.
  pub record Follows (Allowed : Call → Type 0) {W : Type 0} (x y : System W F) : Type 0 where
    pub asked : List (History.Call F)
    pub settled : y.policy ≡ History.after lt x.policy asked
    pub calls : List Call
    pub allowed : All Allowed calls
    pub table : y.coordinator ≡ Graph.after x.coordinator calls

module _ {F : Type 0} (lt : F → F → Bool) (Allowed : Call → Type 0) {W : Type 0} where
  SameControl-Follows : (x y : System W F) → SameControl x y → Follows lt Allowed x y
  unfolding History.after Graph.after
  SameControl-Follows x y h = record {
    asked = [];
    settled = h.same_policy;
    calls = [];
    allowed = tt;
    table = h.same_coordinator;
  }

  pub Follows-refl : (x : System W F) → Follows lt Allowed x x
  Follows-refl x = SameControl-Follows x x (record { same_policy = refl; same_coordinator = refl })

  pub Follows-trans :
      (x y z : System W F)
      → Follows lt Allowed x y
      → Follows lt Allowed y z
      → Follows lt Allowed x z
  Follows-trans x y z h k = record {
    asked = k.asked ++ h.asked;
    settled =
        k.settled
        ∙ (ap (λ (p : ScalingPolicy F). History.after lt p k.asked) h.settled
            ∙ sym (History_after-append lt x.policy k.asked h.asked));
    calls = k.calls ++ h.calls;
    allowed = All-append Allowed k.calls h.calls k.allowed h.allowed;
    table =
        k.table
        ∙ (ap (λ (c : ScaleInCoordinator). Graph.after c k.calls) h.table
            ∙ sym (Graph_after-append x.coordinator k.calls h.calls));
  }

  pub unchanged_traced :
      {A : Type 0} (m : Exec (System W F) A)
      → Respects SameControl m
      → Respects (Follows lt Allowed) m
  unchanged_traced m h = record { run = λ s. SameControl-Follows s (m s).1 (h.run s) }

  pub call_traced :
      {A : Type 0} (m : Exec W A) → Respects {S = System W F} (Follows lt Allowed) (call m)
  call_traced m = unchanged_traced (call m) (call-SameControl m)

  pub pure_traced : {A : Type 0} (a : A) → Respects {S = System W F} (Follows lt Allowed) (pure a)
  pure_traced = pure-Respects Follows-refl

  pub raise_traced :
      {A : Type 0} (e : Error) → Respects {S = System W F} {A = A} (Follows lt Allowed) (raise e)
  raise_traced = raise-Respects Follows-refl

  pub bind_traced :
      {A B : Type 0} (m : Exec (System W F) A) (f : A → Exec (System W F) B)
      → Respects (Follows lt Allowed) m
      → ((a : A) → Respects (Follows lt Allowed) (f a))
      → Respects (Follows lt Allowed) (m >>= f)
  bind_traced = bind-Respects Follows-refl Follows-trans

  pub handle_traced :
      {A : Type 0} (m : Exec (System W F) A) (f : Error → Exec (System W F) A)
      → Respects (Follows lt Allowed) m
      → ((e : Error) → Respects (Follows lt Allowed) (f e))
      → Respects (Follows lt Allowed) (handle m f)
  handle_traced = handle-Respects Follows-trans

  -- A method of the coordinator, as the call that it is.
  pub coordinate_traced :
      {A : Type 0} (m : ScaleInCoordinator → Outcome A) (k : Call)
      → Allowed k
      → ((c : ScaleInCoordinator) → (m c).1 ≡ (perform c k).1)
      → Respects {S = System W F} (Follows lt Allowed) (coordinate m)
  unfolding coordinate History.after Graph.after
  coordinate_traced m k t h = record {
    run = λ s. record {
      asked = [];
      settled = refl;
      calls = k ∷ [];
      allowed = (t, tt);
      table = h s.coordinator;
    };
  }

  -- A step that only calls a method of the policy.
  pub policy_traced :
      {A : Type 0} (r : System W F → Result Error A) (k : System W F → History.Call F)
      → Respects {S = System W F}
          (Follows lt Allowed)
          (λ s. (r s, record s { policy = History.step lt s.policy (k s) }))
  unfolding History.after Graph.after
  policy_traced r k = record {
    run = λ s. record { asked = k s ∷ []; settled = refl; calls = []; allowed = tt; table = refl };
  }

  -- What follows a reading of the clock runs at a time past the zero time.
  pub clock_traced :
      {B : Type 0} (u : Services W F) (f : ℕ → Exec (System W F) B)
      → ((w : W) → 0 < u.time_now w)
      → ((now : ℕ) → 0 < now → Respects (Follows lt Allowed) (f now))
      → Respects (Follows lt Allowed) (clock u >>= f)
  unfolding ◌>>=◌ clock
  clock_traced u f runs h = record { run = λ s. (h (u.time_now s.world) (runs s.world)).run s }

  pub if_traced :
      {A : Type 0} (b : Bool) (m n : Exec (System W F) A)
      → Respects (Follows lt Allowed) m
      → Respects (Follows lt Allowed) n
      → Respects (Follows lt Allowed) (if b then m else n)
  if_traced true m n h k = h
  if_traced false m n h k = k

-- What is allowed may be widened.
pub Follows-mono :
    {F W : Type 0} (lt : F → F → Bool) (P Q : Call → Type 0)
    → ((k : Call) → P k → Q k)
    → (x y : System W F) → Follows lt P x y
    → Follows lt Q x y
Follows-mono lt P Q wider x y h = record {
  asked = h.asked;
  settled = h.settled;
  calls = h.calls;
  allowed = All-map P Q wider h.calls h.allowed;
  table = h.table;
}
