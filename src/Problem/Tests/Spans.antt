-- ===== src/Problem/Tests/Spans.antt =====
-- The span of a ring of beads.
use pungoo.Common.{ℕ, List, Ends, arith, ◌≡◌, refl, undefined, done, [], ◌∷◌}
use pungoo.Common.Int.{pos, minus_one}
use pungoo.Problem.MinSpan.{span_counter, main}
use pungoo.Problem.MinSpan.Bounds.{FoundIn, span_counter-FoundIn}
use pungoo.Problem.MinSpan.Overrun.{span_counter-undefined}
use pungoo.Problem.MinSpan.Single.{span_counter-one_color}

main_undefined : main ≡ undefined
unfolding main
main_undefined = refl

-- With as many colours as beads no span is found.
two_beads : span_counter (1 ∷ 2 ∷ []) 2 2 ≡ done (3, minus_one)
unfolding span_counter
two_beads = refl

abbrev beads : List ℕ
beads = 1 ∷ 3 ∷ 3 ∷ 4 ∷ 1 ∷ 2 ∷ []

span_counter-FoundIn_example : Ends (FoundIn 6) (span_counter beads 6 3)
span_counter-FoundIn_example =
    span_counter-FoundIn beads 6 3 (omega arith) (omega arith) (omega arith)

-- A span that is found: the three beads from the second 3 on.
three_colors : span_counter beads 6 3 ≡ done (3, pos 2)
unfolding span_counter
three_colors = refl

span_counter-undefined_example : span_counter beads 24 4 ≡ undefined
span_counter-undefined_example =
    span_counter-undefined beads 24 4 (omega arith) (omega arith) (omega arith)

span_counter-one_color_example : span_counter beads 6 1 ≡ done (7, minus_one)
span_counter-one_color_example =
    span_counter-one_color beads 6 (omega arith) (omega arith) (omega arith)

-- A length of one for two colours: the ring has gone round when the second one comes.
too_short : span_counter (1 ∷ 1 ∷ 1 ∷ 2 ∷ []) 4 2 ≡ done (1, pos 1)
unfolding span_counter
too_short = refl
