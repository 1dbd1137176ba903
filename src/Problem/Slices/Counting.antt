-- ===== src/Problem/Slices/Counting.antt =====
-- numberOfArithmeticSlices: its loop over the runs of equal gaps, and what it counts.
use pungoo.Common.{
  ℕ, zero, suc, ◌+◌, ◌-◌, ◌*◌, ◌<◌, ◌≤◌, ◌≡◌, refl, ◌∙◌, sym, ap, true, false, arith, ltb, lt→ltb,
  le→ltb, ltb→lt, ltb→le, done, ◌-◌, List, [], ◌∷◌, ◌++◌, length, length-append, Ends, Ends-bind,
  Ends-weaken, inl, inr, Bool-cases,
}
use pungoo.Common.Int.{ℤ, eqb_ℤ, difference, minus_one}
use pungoo.Problem.Slices.{last_run, slice_loop, number_of_arithmetic_slices}
use pungoo.Problem.Slices.Gaps.{arithmetic_slices, gaps, run_of, slices_of, arithmetic_slices-gaps}
use pungoo.Problem.Slices.Rounds.{
  HasGaps, slicing, Leads, pairs, pairs_small, run_last, idle_round, equal_round, other_round,
  next_front, next_index, index_inside, gap_here, empty_step, short_gaps, slices_of-step,
  equal_step, other_step,
}

mutual
  unfolding slice_loop last_run

  idle :
      (fuel : ℕ) (a front : List ℕ) (x : ℕ) (rest : List ℕ) (i first ret : ℕ) (gap : ℤ)
      → a ≡ front ++ (x ∷ rest)
      → i ≡ suc (length front)
      → HasGaps (x ∷ rest)
      → 2 * length rest < fuel
      → length a ≤ 46342
      → ret + slices_of (gaps (x ∷ rest)) < 2147483648
      → Ends
          (Leads a (ret + slices_of (gaps (x ∷ rest))))
          (slice_loop fuel a (slicing i false gap first ret))
  idle zero a front x rest i first ret gap e f ok h few small = absurd (omega arith)
  idle (suc fuel) a front x [] i first ret gap e f ok h few small =
      let size : length a ≡ i = ap length e ∙ omega (arith, length-append front (x ∷ [])) in
      let none_left : 0 * run_of gap (gaps (x ∷ [])) + slices_of (gaps (x ∷ [])) ≡ 0 =
        empty_step gap 0 in
      rw (le→ltb i (length a) (omega arith), slice_loop) (ap (λ (n : ℕ). done n) (omega arith))
  idle (suc fuel) a front x (y ∷ rest) i first ret gap e f (here, ok) h few small =
      let g = difference y x in
      let inside = index_inside a front x y rest i e f in
      rw
        (
          lt→ltb i (length a) inside,
          slice_loop,
          idle_round a i first ret gap g (gap_here a front x y rest i e f here),
        )
        (Ends-weaken _ _ (slice_loop fuel a (slicing (i + 1) true g (i - 1) ret))
          (running fuel a (front ++ (x ∷ [])) y rest (i + 1) (i - 1) ret 1 g
            (next_front a front x y rest i e f) (next_index a front x y rest i e f) ok (omega arith)
            (omega arith) (omega arith) few
            (omega (arith, small, slices_of-step g (gaps (y ∷ rest)))))
          λ s k. k ∙ ap (λ (n : ℕ). done n) (omega (arith, slices_of-step g (gaps (y ∷ rest)))))

  running :
      (fuel : ℕ) (a front : List ℕ) (x : ℕ) (rest : List ℕ) (i first ret m : ℕ) (gap : ℤ)
      → a ≡ front ++ (x ∷ rest)
      → i ≡ suc (length front)
      → HasGaps (x ∷ rest)
      → first + suc m ≡ i
      → 0 < m
      → 2 * length rest + 1 < fuel
      → length a ≤ 46342
      → ret + pairs m + m * run_of gap (gaps (x ∷ rest)) + slices_of (gaps (x ∷ rest)) < 2147483648
      → Ends
          (Leads a (ret + pairs m + m * run_of gap (gaps (x ∷ rest)) + slices_of (gaps (x ∷ rest))))
          (slice_loop fuel a (slicing i true gap first ret))
  running zero a front x rest i first ret m gap e f ok g k h few small = absurd (omega arith)
  running (suc fuel) a front x [] i first ret m gap e f ok g k h few small =
      let size : length a ≡ i = ap length e ∙ omega (arith, length-append front (x ∷ [])) in
      let none_left : m * run_of gap (gaps (x ∷ [])) + slices_of (gaps (x ∷ [])) ≡ 0 =
        empty_step gap m in
      rw (le→ltb i (length a) (omega arith), slice_loop, size)
        (run_last ret first m i k g (omega arith, omega (arith, small, none_left))
          ∙ ap (λ (n : ℕ). done n) (omega arith))
  running (suc fuel) a front x (y ∷ rest) i first ret m gap e f (here, ok) g k h few small =
      let d = difference y x in
      let gs = gaps (y ∷ rest) in
      let read = gap_here a front x y rest i e f here in
      let inside = index_inside a front x y rest i e f in
      elim (Bool-cases (eqb_ℤ gap d)) [
        | inl same ↦
            rw (lt→ltb i (length a) inside, slice_loop, equal_round a i first ret gap d read same)
              (Ends-weaken _ _ (slice_loop fuel a (slicing (i + 1) true gap first ret))
                (running fuel a (front ++ (x ∷ [])) y rest (i + 1) first ret (suc m) gap
                  (next_front a front x y rest i e f) (next_index a front x y rest i e f) ok
                  (omega arith) (omega arith) (omega arith) few
                  (omega (arith, small, equal_step gap d gs m same)))
                λ s t. t ∙ ap (λ (n : ℕ). done n) (omega (arith, equal_step gap d gs m same)))
        | inr other ↦
            rw
              (
                lt→ltb i (length a) inside,
                slice_loop,
                other_round a i first ret m gap d read other (omega arith) k
                    (omega arith, omega (arith, small)),
              )
              (Ends-weaken _ _ (slice_loop fuel a (slicing i false gap first (ret + pairs m)))
                (idle fuel a front x (y ∷ rest) i first (ret + pairs m) gap e f (here, ok)
                  (omega arith) few (omega (arith, small, other_step gap d gs m other)))
                λ s t. t ∙ ap (λ (n : ℕ). done n) (omega (arith, other_step gap d gs m other)))
      ]

run_of-le-length : (g : ℤ) (gs : List ℤ) → run_of g gs ≤ length gs
unfolding run_of
run_of-le-length g [] = omega arith
run_of-le-length g (h ∷ gs) = ground (arith, run_of-le-length g gs)

slices_of-le-pairs : (gs : List ℤ) → slices_of gs ≤ pairs (length gs)
unfolding slices_of pairs
slices_of-le-pairs [] = omega arith
slices_of-le-pairs (g ∷ gs) = omega (arith, run_of-le-length g gs, slices_of-le-pairs gs)

length-gaps : (a : List ℕ) → length (gaps a) ≡ length a - 1
length-gaps [] = omega arith
length-gaps (x ∷ []) = omega arith
length-gaps (x ∷ y ∷ rest) = omega (arith, length-gaps (y ∷ rest))

all_small : (a : List ℕ) → length a ≤ 46342 → slices_of (gaps a) < 2147483648
all_small a few = omega (
  arith,
  slices_of-le-pairs (gaps a),
  pairs_small (length (gaps a)) (omega (arith, length-gaps a)),
)

whole_loop :
    (a : List ℕ)
    → HasGaps a
    → 3 ≤ length a
    → length a ≤ 46342
    → Ends
        (Leads a (slices_of (gaps a)))
        (slice_loop (2 * length a) a (slicing 1 false minus_one 0 0))
whole_loop [] ok h few = absurd (omega arith)
whole_loop (x ∷ rest) ok h few =
    Ends-weaken _ _ (slice_loop (2 * length (x ∷ rest)) (x ∷ rest) (slicing 1 false minus_one 0 0))
      (idle (2 * length (x ∷ rest)) (x ∷ rest) [] x rest 1 0 0 minus_one refl refl ok (omega arith)
        few (omega (arith, all_small (x ∷ rest) few)))
      λ s k. k ∙ ap (λ (n : ℕ). done n) (omega arith)

short_slices : (a : List ℕ) → length a < 3 → arithmetic_slices a ≡ 0
short_slices a h = arithmetic_slices-gaps a ∙ short_gaps a h

-- On a vector of at most 46342 entries that follow each other at distances that are ints,
-- numberOfArithmeticSlices makes no access outside of it, none of its int operations overflows, and
-- it returns how many of its slices of three entries or more have
-- all of their entries at one distance.
pub number_of_arithmetic_slices-arithmetic_slices :
    (a : List ℕ)
    → HasGaps a
    → length a ≤ 46342
    → Ends (λ n. n ≡ arithmetic_slices a) (number_of_arithmetic_slices a)
unfolding number_of_arithmetic_slices
number_of_arithmetic_slices-arithmetic_slices a ok short = elim (Bool-cases (ltb (length a) 3)) [
  | inl few ↦ rw (few, Ends) (sym (short_slices a (ltb→lt _ _ few)))
  | inr more ↦
      rw (more, Ends)
        (Ends-bind _ _ (slice_loop (2 * length a) a (slicing 1 false minus_one 0 0)) _
          (whole_loop a ok (ltb→le _ _ more) short) λ s k. rw k (sym (arithmetic_slices-gaps a)))
]
