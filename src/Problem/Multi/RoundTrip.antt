-- ===== src/Problem/Multi/RoundTrip.antt =====
-- The text of a complex number is read back.
use pungoo.Common.{
  ℕ, zero, suc, ◌+◌, ◌-◌, ◌/◌, ◌%◌, ◌<◌, ◌≤◌, ◌≡◌, refl, ◌∙◌, ap, true, false, some, arith, ltb,
  ◌==◌, [], ◌∷◌, ◌++◌, length, length-append, take, take-append, drop, drop-append, done, inl, inr,
  Bool-cases,
}
use mathlib.Core.List.{append_assoc}
use pungoo.Common.Int.{ℤ, pos, negsuc, is_int}
use pungoo.Clib.Bytes.{Bytes, digits_onto, decimal}
use pungoo.Clib.Bytes.Numerals.{value, stoi-decimal}
use pungoo.Problem.Tinyurl.{size_mod}
use pungoo.Problem.Multi.{ComplexNum, find_plus, from_text, serialize}

-- No '+' stands in the text.
abbrev NoPlus : Bytes → Type 0
NoPlus [] = Unit
NoPlus (c ∷ rest) = ((c == b'+') ≡ false) × NoPlus rest

digits_onto-NoPlus : (f n : ℕ) (acc : Bytes) → NoPlus acc → NoPlus (digits_onto f n acc)
unfolding digits_onto
digits_onto-NoPlus zero n acc h = h
digits_onto-NoPlus (suc f) n acc h = elim (Bool-cases (ltb n 10)) [
  | inl e ↦ rw e (ground arith, h)
  | inr e ↦ rw e (digits_onto-NoPlus f (n / 10) ((b'0' + n % 10) ∷ acc) (ground arith, h))
]

decimal-NoPlus : (n : ℤ) → NoPlus (decimal n)
unfolding decimal
decimal-NoPlus (pos n) = digits_onto-NoPlus (n + 1) n [] tt
decimal-NoPlus (negsuc n) = (refl, digits_onto-NoPlus (n + 2) (n + 1) [] tt)

find_plus-append :
    (text rest : Bytes) (at : ℕ)
    → NoPlus text
    → find_plus (text ++ (b'+' ∷ rest)) at ≡ some (at + length text)
unfolding find_plus
find_plus-append [] rest at h = ap some (omega arith)
find_plus-append (c ∷ text) rest at (h, t) =
    rw h (find_plus-append text rest (at + 1) t ∙ ap some (omega arith))

digits_onto-short : (f n : ℕ) (acc : Bytes) → length (digits_onto f n acc) ≤ f + length acc
unfolding digits_onto
digits_onto-short zero n acc = omega arith
digits_onto-short (suc f) n acc =
    ground (arith, digits_onto-short f (n / 10) ((b'0' + n % 10) ∷ acc))

decimal-short : (n : ℤ) → is_int n ≡ true → length (decimal n) < 2147483660
unfolding decimal
decimal-short (pos n) h = ground (arith, digits_onto-short (n + 1) n [])
decimal-short (negsuc n) h = ground (arith, digits_onto-short (n + 2) (n + 1) [])

-- The two parts of the text.
module _ (a b : Bytes) where
  abbrev whole : Bytes
  whole = a ++ (b'+' ∷ (b ++ (b'i' ∷ [])))

  whole-length : length whole ≡ length a + length b + 2
  whole-length =
      omega (arith, length-append a (b'+' ∷ (b ++ (b'i' ∷ []))), length-append b (b'i' ∷ []))

  front_part : take (0 + length a) whole ≡ a
  front_part =
      let zero_add : 0 + length a ≡ length a = omega arith in
      rw zero_add (take-append (length a) a _ refl)

  back_part :
      length b < size_mod
      → take
          ((size_mod + length whole - (0 + length a) - 2) % size_mod)
          (drop (0 + length a + 1) whole)
        ≡ b
  back_part h =
      let count : (size_mod + length whole - (0 + length a) - 2) % size_mod ≡ length b =
        omega (arith, whole-length) in
      let size : length (a ++ (b'+' ∷ [])) ≡ 0 + length a + 1 =
        omega (arith, length-append a (b'+' ∷ [])) in
      let split = append_assoc a (b'+' ∷ []) (b ++ (b'i' ∷ [])) in
      rw (count, ← split, drop-append (0 + length a + 1) (a ++ (b'+' ∷ [])) (b ++ (b'i' ∷ [])) size)
        (take-append (length b) b (b'i' ∷ []) refl)

-- Of a complex number whose parts are ints, serialize writes a text from which the constructor reads
-- the same number.
pub from_text-serialize :
    (c : ComplexNum)
    → is_int c.real ≡ true
    → is_int c.imaginary ≡ true
    → from_text (serialize c) ≡ done (value c)
unfolding from_text serialize
from_text-serialize c r i =
    let a = decimal c.real in
    let b = decimal c.imaginary in
    rw
      (
        find_plus-append a (b ++ (b'i' ∷ [])) 0 (decimal-NoPlus c.real),
        from_text,
        front_part a b,
        back_part a b (omega (arith, decimal-short c.imaginary i)),
        stoi-decimal c.real r,
        stoi-decimal c.imaginary i,
      )
      refl
