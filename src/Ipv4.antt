-- ===== src/Ipv4.antt =====
-- cpp/ipv4/ipv4.cpp: the test of an IPv4 address in text form.
pub mod Octet
pub mod Accepted
mod Tests
use pungoo.Common.{
  ℕ, zero, suc, ◌+◌, ◌-◌, ◌*◌, Bool, true, false, not, ◌&&◌, ◌||◌, Option, none, some, ltb, ◌==◌,
  if◌then◌else◌, List, [], ◌∷◌, ◌++◌, replicate, store, Run, done, exhausted, ◌>>=◌,
}
use pungoo.Common.Int.{ℤ, pos, minus_one}
use pungoo.Clib.Bytes.{Bytes, lit}
use pungoo.Disk.{or_undefined}

-- What a digit makes of x, where `none` is the x of -1; and `none` again for a break with -1.
unfoldable pub with_digit : Option ℕ → ℕ → Option ℕ
with_digit none tmp = some tmp
with_digit (some x) tmp =
    if x == 0 then none else if ltb 255 (x * 10 + tmp) then none else some (x * 10 + tmp)

-- tmp > 9 || tmp < 0
abbrev pub is_digit : ℕ → Bool
is_digit c = not (ltb c b'0' || ltb b'9' c)

-- for (int i = 0; i < 4; ++i), from x and q, with `left` rounds to come. A pointer into the text is
-- what is left of the text; its end stands for the NUL.
unfoldable pub scan : ℕ → Option ℕ → Bytes → Option ℕ × Bytes
unfolding with_digit
scan zero x q = (x, q)
scan (suc left) x [] = (x, [])
scan (suc left) x (c ∷ q) = elim (c == b'.') [
  | true ↦ (x, q)
  | false ↦ elim (is_digit c) [
    | false ↦ (none, c ∷ q)
    | true ↦ elim (with_digit x (c - b'0')) [ none ↦ (none, c ∷ q) | some y ↦ scan left (some y) q ]
  ]
]

abbrev pub is_end : Bytes → Bool
is_end [] = true
is_end (c ∷ q) = false

-- while ('\0' != *p)
unfoldable pub octets : ℕ → List ℤ → ℕ → Bytes → Run Bool
octets zero num idx p = exhausted
octets (suc fuel) num idx p = elim (is_end p) [
  | true ↦ done true
  | false ↦ elim (scan 4 none p).0 [
    | none ↦ done false
    | some x ↦ elim (idx == 0 && x == 0) [
      | true ↦ done false
      | false ↦ or_undefined (store num idx (pos x ∷ [])) >>= λ num'.
          elim (idx + 1 == 4 && not (is_end (scan 4 none p).1)) [
            | true ↦ done false
            | false ↦ octets fuel num' (idx + 1) (scan 4 none p).1
          ]
    ]
  ]
]

-- IsValidIpv4
unfoldable pub is_valid_ipv4 : Bytes → Run Bool
unfolding octets
is_valid_ipv4 ip = octets 5 (replicate 4 minus_one) 0 ip

-- What main prints and returns; `argv` holds argc texts.
unfoldable pub main : List Bytes → Run (Bytes × ℤ)
unfolding is_valid_ipv4
main (program ∷ ip ∷ []) = is_valid_ipv4 ip >>= λ ok.
    if ok
    then done (lit "[success] [" ++ (ip ++ lit "] is a valid Ipv4 address.\n"), pos 0)
    else done (lit "[error] [" ++ (ip ++ lit "] is not a valid Ipv4 address.\n"), minus_one)
main argv = done (lit "params is not correct\n", minus_one)
