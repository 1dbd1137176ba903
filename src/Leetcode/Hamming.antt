-- ===== src/Leetcode/Hamming.antt =====
-- cpp/leetcode/461.HammingDistance.cpp and 476.NumberComplement.cpp. An int is the number of its 32
-- bits.
pub mod Differing
use pungoo.Common.{
  List, [], ◌∷◌, ◌++◌, Run, done, ◌>>=◌, ℕ, zero, suc, ◌+◌, ◌-◌, ◌*◌, ◌/◌, ◌%◌, Bool, true, false,
  ltb, ◌==◌, if◌then◌else◌,
}
use pungoo.Common.Int.{ℤ, pos, negsuc}
use pungoo.Clib.Bytes.{Bytes, lit, decimal}
use pungoo.Clib.Bytes.Numerals.{atoi}

-- x ^ y of numbers with w bits.
unfoldable pub xor : ℕ → ℕ → ℕ → ℕ
xor zero x y = 0
xor (suc w) x y = (x % 2 + y % 2) % 2 + 2 * xor w (x / 2) (y / 2)

-- tmp >> 1, which keeps the sign bit.
unfoldable pub shift_right : ℕ → ℕ
shift_right tmp = if ltb tmp 2147483648 then tmp / 2 else tmp / 2 + 2147483648

-- for (int i = 0; i < 31; ++i), with `left` rounds to come.
unfoldable pub count_bits : ℕ → ℕ → ℕ → ℕ
unfolding shift_right
count_bits zero tmp count = count
count_bits (suc left) tmp count =
    count_bits left (shift_right tmp) (if tmp % 2 == 1 then count + 1 else count)

unfoldable pub hamming_distance : ℕ → ℕ → ℕ
unfolding xor count_bits
hamming_distance x y = if x == y then 0 else count_bits 31 (xor 32 x y) 0

-- An int and the number of its bits.
abbrev pub bits_of : ℤ → ℕ
bits_of (pos n) = n
bits_of (negsuc n) = 4294967295 - n

abbrev pub int_of_bits : ℕ → ℤ
int_of_bits n = if ltb n 2147483648 then pos n else negsuc (4294967295 - n)

-- What hammingDistance prints: x ^ y, unless x and y are the same.
abbrev printed : ℕ → ℕ → Bytes
printed x y = if x == y then [] else decimal (int_of_bits (xor 32 x y)) ++ lit "\n"

-- What main prints and returns; `argv` holds argc texts.
unfoldable pub main : List Bytes → Run (Bytes × ℤ)
unfolding atoi hamming_distance decimal
main (program ∷ first ∷ second ∷ []) = atoi first >>= λ a. atoi second >>= λ b.
    let x = bits_of a in
    let y = bits_of b in
    done (printed x y ++ (decimal (pos (hamming_distance x y)) ++ lit "\n"), pos 0)
main argv = done (lit "wrong params\n", pos 1)

-- What the program of 476 prints: (~1) & 0xFF.
unfoldable pub complement : Bytes
unfolding decimal
complement = decimal (pos ((4294967295 - 1) % 256))
