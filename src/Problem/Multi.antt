-- ===== src/Problem/Multi.antt =====
-- cpp/problem/multi.cpp: complex numbers in text form.
pub mod RoundTrip
use pungoo.Common.{
  ℕ, zero, suc, ◌+◌, ◌-◌, ◌%◌, Bool, true, false, Option, none, some, ◌==◌, if◌then◌else◌, List, [],
  ◌∷◌, ◌++◌, length, get_elem?, take, drop, Run, done, undefined, ◌>>=◌,
}
use pungoo.Common.Int.{ℤ, pos, negsuc, is_int, ◌+ℤ◌, ◌-ℤ◌, ◌*ℤ◌}
use pungoo.Clib.Bytes.{Bytes, lit, decimal}
use pungoo.Clib.Bytes.Numerals.{Thrown, value, invalid_argument, out_of_range, stoi}
use pungoo.Problem.Tinyurl.{size_mod}

pub record ComplexNum : Type 0 where
  pub real : ℤ
  pub imaginary : ℤ

-- input.find("+")
unfoldable pub find_plus : Bytes → ℕ → Option ℕ
find_plus [] at = none
find_plus (c ∷ rest) at = if c == b'+' then some at else find_plus rest (at + 1)

-- input.substr(at, count), where `at` is not past the end.
abbrev pub substr : Bytes → ℕ → ℕ → Bytes
substr input at count = take count (drop at input)

-- Two calls of stoi, where the first one that throws ends the constructor.
abbrev pub both : Thrown ℤ → Thrown ℤ → Thrown ComplexNum
both (value r) (value i) = value (record { real = r; imaginary = i })
both (value r) invalid_argument = invalid_argument
both (value r) out_of_range = out_of_range
both invalid_argument i = invalid_argument
both out_of_range i = out_of_range

-- ComplexNum(const string& input). An empty input has no last char: its index would be npos.
unfoldable pub from_text : Bytes → Run (Thrown ComplexNum)
unfolding find_plus
from_text input = elim (find_plus input 0) [
  | some idx ↦ done (
      both (stoi (substr input 0 idx))
        (stoi (substr input (idx + 1) ((size_mod + length input - idx - 2) % size_mod))))
  | none ↦ elim (get_elem? input (length input - 1)) [
    | none ↦ undefined
    | some c ↦ done (
        if c == b'i'
        then both (value (pos 0)) (stoi (substr input 0 (length input - 1)))
        else both (stoi input) (value (pos 0)))
  ]
]

-- An int that does not fit is undefined behaviour.
unfoldable pub int_of : ℤ → Run ℤ
int_of n = if is_int n then done n else undefined

unfoldable pub multi : ComplexNum → ComplexNum → Run ComplexNum
unfolding int_of
multi a other = int_of (a.real *ℤ other.real) >>= λ p.
    int_of (a.imaginary *ℤ other.imaginary) >>= λ q. int_of (p -ℤ q) >>= λ real.
    int_of (a.real *ℤ other.imaginary) >>= λ r. int_of (a.imaginary *ℤ other.real) >>= λ s.
    int_of (r +ℤ s) >>= λ imaginary. done (record { real = real; imaginary = imaginary })

unfoldable pub serialize : ComplexNum → Bytes
serialize c = decimal c.real ++ (b'+' ∷ (decimal c.imaginary ++ (b'i' ∷ [])))

abbrev shown : Thrown ComplexNum → Thrown ComplexNum → Run (Thrown Bytes)
shown (value a) (value b) = multi a b >>= λ c. done (value (serialize c))
shown (value a) invalid_argument = done invalid_argument
shown (value a) out_of_range = done out_of_range
shown invalid_argument b = done invalid_argument
shown out_of_range b = done out_of_range

-- What the program prints.
unfoldable pub main : Run (Thrown Bytes)
unfolding stoi from_text multi serialize
main = from_text (lit "1+-1i") >>= λ a. from_text (lit "1+-1i") >>= λ b. shown a b
