-- ===== src/Leetcode/Hamming/Differing.antt =====
-- The Hamming distance, against the bits in which two ints differ.
use pungoo.Common.{
  ℕ, zero, suc, ◌+◌, ◌*◌, ◌/◌, ◌%◌, ◌<◌, ◌≤◌, ◌≡◌, refl, sym, arith, ltb, ◌==◌, ==→eq,
  if◌then◌else◌, inl, inr, Bool-cases,
}
use pungoo.Leetcode.Hamming.{xor, shift_right, count_bits, hamming_distance}

-- In how many of their low k bits two numbers differ.
pub differing : ℕ → ℕ → ℕ → ℕ
differing zero x y = 0
differing (suc k) x y = (if x % 2 == y % 2 then 0 else 1) + differing k (x / 2) (y / 2)

-- The ones among the low k bits.
ones : ℕ → ℕ → ℕ
ones zero t = 0
ones (suc k) t = t % 2 + ones k (t / 2)

power : ℕ → ℕ
power zero = 1
power (suc n) = 2 * power n

-- A bit above the low k ones does not count.
ones-add_power : (k n t : ℕ) → k ≤ n → ones k (t + power n) ≡ ones k t
unfolding ones power
ones-add_power zero n t h = refl
ones-add_power (suc k) zero t h = absurd (omega arith)
ones-add_power (suc k) (suc n) t h =
    let half : (t + 2 * power n) / 2 ≡ t / 2 + power n = omega arith in
    rw half (omega (arith, ones-add_power k n (t / 2) (omega arith)))

ones-shift_right : (k t : ℕ) → k ≤ 31 → ones k (shift_right t) ≡ ones k (t / 2)
unfolding shift_right power
ones-shift_right k t h = elim (Bool-cases (ltb t 2147483648)) [
  | inl e ↦ rw e refl
  | inr e ↦ rw e (ones-add_power k 31 (t / 2) h)
]

count_bits-ones : (k t count : ℕ) → k ≤ 32 → count_bits k t count ≡ count + ones k t
unfolding count_bits ones
count_bits-ones zero t count h = omega arith
count_bits-ones (suc k) t count h = ground (
  arith,
  count_bits-ones k (shift_right t) (if t % 2 == 1 then count + 1 else count) (omega arith),
  ones-shift_right k t (omega arith),
)

ones-xor : (k w x y : ℕ) → k ≤ w → ones k (xor w x y) ≡ differing k x y
unfolding ones xor differing
ones-xor zero w x y h = refl
ones-xor (suc k) zero x y h = absurd (omega arith)
ones-xor (suc k) (suc w) x y h =
    let low = (x % 2 + y % 2) % 2 in
    let half : (low + 2 * xor w (x / 2) (y / 2)) / 2 ≡ xor w (x / 2) (y / 2) = omega arith in
    rw half (ground (arith, ones-xor k w (x / 2) (y / 2) (omega arith)))

differing_self : (k x : ℕ) → differing k x x ≡ 0
unfolding differing
differing_self zero x = refl
differing_self (suc k) x = ground (arith, differing_self k (x / 2))

hamming_distance-low : (x y : ℕ) → hamming_distance x y ≡ differing 31 x y
unfolding hamming_distance
hamming_distance-low x y = elim (Bool-cases (x == y)) [
  | inl e ↦ rw (e, ==→eq x y e) (sym (differing_self 31 y))
  | inr e ↦ rw e (
      omega
        (arith, count_bits-ones 31 (xor 32 x y) 0 (omega arith), ones-xor 31 32 x y (omega arith)))
]

halve : ℕ → ℕ → ℕ
halve zero x = x
halve (suc k) x = halve k (x / 2)

differing-last :
    (k x y : ℕ)
    → differing (suc k) x y ≡ differing k x y + (if halve k x % 2 == halve k y % 2 then 0 else 1)
unfolding differing halve
differing-last zero x y = omega arith
differing-last (suc k) x y = omega (arith, differing-last k (x / 2) (y / 2))

abbrev pub sign_bit : ℕ → ℕ
sign_bit x = x / 2147483648

sign : (x : ℕ) → x < 4294967296 → halve 31 x % 2 ≡ sign_bit x
unfolding halve
sign x h = omega arith

-- hammingDistance is the number of the bits in
-- which two ints differ, less one if their sign bits differ.
pub hamming_distance-differing :
    (x y : ℕ)
    → x < 4294967296
    → y < 4294967296
    → hamming_distance x y + (if sign_bit x == sign_bit y then 0 else 1) ≡ differing 32 x y
hamming_distance-differing x y p q =
    ground (arith, hamming_distance-low x y, differing-last 31 x y, sign x p, sign y q)
