-- ===== src/Tests/Decisions.antt =====
-- The scaling policy on requests for a service of three tasks.
use legacy_messenger_ecs_con.Base.{
  suc, ◌+◌, ◌*◌, ◌≤◌, ◌≡◌, refl, ◌↔◌, ◌⊎◌, true, List, [], ◌∷◌, arith,
}
use legacy_messenger_ecs_con.Floats.Exact.{Fraction, fractions}
use legacy_messenger_ecs_con.Domain.{scale_out, scale_in, SessionAutoScalingResult}
use legacy_messenger_ecs_con.Policy.{
  second, evaluate, evaluate_scale_in, evaluate_scale_out, record_execution, scale_in_target,
  scale_out_target,
}
use legacy_messenger_ecs_con.Policy.Approval.{
  MayScaleOut, MayScaleIn, evaluate-scale_out_iff, evaluate-scale_in_iff, evaluate-target_bounds,
  Gain, Shrink,
}
use legacy_messenger_ecs_con.Policy.History.{Call, evaluates, after, step}
use legacy_messenger_ecs_con.Policy.Persistence.{
  asked_out, asked_in, evaluate-scale_out_persistent, evaluate-scale_in_persistent,
}
use legacy_messenger_ecs_con.Policy.Cooldown.{scale_out_cooldowns}
use legacy_messenger_ecs_con.Tests.Sample.{asked_down, counts_of, request_of}

abbrev one : Fraction
one = fractions.of_int 1

abbrev down : SessionAutoScalingResult
down = request_of scale_in 3 1

abbrev up : SessionAutoScalingResult
up = request_of scale_out 3 9

abbrev ask_down : Call Fraction
ask_down = evaluates down (counts_of 3 3 0) one (1000 * second)

abbrev ask_up : Call Fraction
ask_up = evaluates up (counts_of 3 3 0) one (1000 * second)

abbrev four_down : List (Call Fraction)
four_down = ask_down ∷ ask_down ∷ ask_down ∷ ask_down ∷ []

abbrev two_up : List (Call Fraction)
two_up = ask_up ∷ ask_up ∷ []

evaluate-scale_in_iff_example :
    ((evaluate fractions.lt (asked_down 4) down (counts_of 3 3 0) one (1000 * second)).2 ≡ true)
    ↔ MayScaleIn fractions.lt (asked_down 4) down (counts_of 3 3 0) one (1000 * second)
evaluate-scale_in_iff_example =
    evaluate-scale_in_iff fractions.lt (asked_down 4) down (counts_of 3 3 0) one (1000 * second)
      refl

evaluate-scale_out_iff_example :
    ((evaluate fractions.lt (asked_down 0) up (counts_of 3 3 0) one (1000 * second)).2 ≡ true)
    ↔ MayScaleOut (asked_down 0) up (counts_of 3 3 0) (1000 * second)
evaluate-scale_out_iff_example =
    evaluate-scale_out_iff fractions.lt (asked_down 0) up (counts_of 3 3 0) one (1000 * second) refl

evaluate-target_bounds_example :
    let q = (evaluate fractions.lt (asked_down 4) down (counts_of 3 3 0) one (1000 * second)).1 in
    Gain fractions.lt (asked_down 4) down q ⊎ Shrink fractions.lt (asked_down 4) down q
unfolding evaluate evaluate_scale_in scale_in_target
evaluate-target_bounds_example =
    evaluate-target_bounds fractions.lt (asked_down 4) down (counts_of 3 3 0) one (1000 * second)
      refl

evaluate-scale_out_persistent_example : 3 ≤ suc (asked_out "chat" two_up)
unfolding after step evaluate evaluate_scale_out scale_out_target
evaluate-scale_out_persistent_example =
    evaluate-scale_out_persistent fractions.lt (asked_down 0) two_up up (counts_of 3 3 0) one
      (1000 * second) refl refl refl

evaluate-scale_in_persistent_example : 5 ≤ suc (asked_in fractions.lt one "chat" four_down)
unfolding after step evaluate evaluate_scale_in scale_in_target
evaluate-scale_in_persistent_example =
    evaluate-scale_in_persistent fractions.lt (asked_down 0) four_down down (counts_of 3 3 0) one
      (1000 * second) refl refl refl

scale_out_cooldowns_example :
    ((down.action ≡ scale_out) × (second + 30 * second ≤ 1000 * second))
    ⊎ ((down.action ≡ scale_in) × (second + 60 * second ≤ 1000 * second))
unfolding after step evaluate evaluate_scale_in scale_in_target record_execution
scale_out_cooldowns_example =
    scale_out_cooldowns fractions.lt (asked_down 3) second (ask_down ∷ []) down (counts_of 3 3 0)
      one (1000 * second) (omega arith) (tt, tt) refl
