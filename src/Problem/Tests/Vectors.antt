-- ===== src/Problem/Tests/Vectors.antt =====
-- The arithmetic slices of a vector.
use pungoo.Common.{ℕ, ◌≡◌, refl, List, [], ◌∷◌, done, Ends, arith}
use pungoo.Problem.Multi.{int_of}
use pungoo.Problem.Slices.{number_of_arithmetic_slices, main}
use pungoo.Problem.Slices.Gaps.{arithmetic_slices}
use pungoo.Problem.Slices.Counting.{number_of_arithmetic_slices-arithmetic_slices}

abbrev sample : List ℕ
sample = 1 ∷ 3 ∷ 5 ∷ 7 ∷ 7 ∷ 7 ∷ 6 ∷ 5 ∷ []

number_of_arithmetic_slices-arithmetic_slices_example :
    Ends (λ n. n ≡ arithmetic_slices sample) (number_of_arithmetic_slices sample)
number_of_arithmetic_slices-arithmetic_slices_example =
    number_of_arithmetic_slices-arithmetic_slices sample
      (refl, (refl, (refl, (refl, (refl, (refl, (refl, tt))))))) (omega arith)

sample_slices : number_of_arithmetic_slices sample ≡ done 5
unfolding number_of_arithmetic_slices int_of
sample_slices = refl

main_counts : main ≡ done 0
unfolding main int_of
main_counts = refl
