-- ===== src/Problem/Slices.antt =====
-- cpp/problem/413.cpp: how many slices of a vector are arithmetic. An int is its offset from the
-- least one; what the program prints on its way is left out.
pub mod Gaps
pub mod Rounds
pub mod Counting
use pungoo.Common.{
  ℕ, zero, suc, ◌+◌, ◌-◌, ◌*◌, ◌/◌, Bool, true, false, not, ◌&&◌, leb, ltb, if◌then◌else◌, List, [],
  ◌∷◌, length, get_elem?, Run, done, undefined, exhausted, ◌>>=◌,
}
use pungoo.Common.Int.{ℤ, pos, negsuc, eqb_ℤ, difference, minus_one}
use pungoo.Disk.{or_undefined}
use pungoo.Problem.Multi.{int_of}
use pungoo.Sort.{ints}

-- The variables of numberOfArithmeticSlices.
pub record Slicing : Type 0 where
  pub i : ℕ
  pub flag : Bool
  pub gap : ℤ
  pub first : ℕ
  pub ret : ℕ

-- A[i] - A[i-1]
unfoldable pub gap_at : List ℕ → ℕ → Run ℤ
gap_at a i = or_undefined (get_elem? a i) >>= λ x.
    or_undefined (get_elem? a (i - 1)) >>= λ y. int_of (difference x y)

-- (num - 2) * (num - 1) / 2
abbrev pub slices_in : ℕ → ℕ
slices_in num = (num - 2) * (num - 1) / 2

-- ret += (num - 2) * (num - 1) / 2, whose product and sum are ints.
unfoldable pub counted : ℕ → ℕ → Run ℕ
counted ret num =
    if ltb ((num - 2) * (num - 1)) 2147483648 && ltb (ret + slices_in num) 2147483648
    then done (ret + slices_in num)
    else undefined

unfoldable pub slice_round : List ℕ → Slicing → Run Slicing
unfolding gap_at counted
slice_round a s = gap_at a s.i >>= λ g.
    if not s.flag
    then done (record s { i = s.i + 1; flag = true; gap = g; first = s.i - 1 })
    else if not (eqb_ℤ s.gap g)
    then ((if leb 3 (s.i - s.first) then counted s.ret (s.i - s.first) else done s.ret) >>= λ ret.
        done (record s { flag = false; ret = ret }))
    else done (record s { i = s.i + 1 })

unfoldable pub slice_loop : ℕ → List ℕ → Slicing → Run Slicing
unfolding slice_round
slice_loop zero a s = exhausted
slice_loop (suc fuel) a s = elim (ltb s.i (length a)) [
  | false ↦ done s
  | true ↦ slice_round a s >>= λ t. slice_loop fuel a t
]

-- What follows the loop.
unfoldable pub last_run : List ℕ → Slicing → Run ℕ
unfolding counted
last_run a s =
    if s.flag && leb (s.first + 3) (length a)
    then counted s.ret (length a - s.first)
    else done s.ret

unfoldable pub number_of_arithmetic_slices : List ℕ → Run ℕ
unfolding slice_loop last_run
number_of_arithmetic_slices a = elim (ltb (length a) 3) [
  | true ↦ done 0
  | false ↦
      slice_loop (2 * length a) a
        (record { i = 1; flag = false; gap = minus_one; first = 0; ret = 0 })
      >>= λ s. last_run a s
]

-- What main counts the slices of; an int of the source as its offset.
unfoldable pub main : Run ℕ
unfolding number_of_arithmetic_slices
main = number_of_arithmetic_slices (ints (2 ∷ 1 ∷ 3 ∷ 4 ∷ 2 ∷ 3 ∷ []))
