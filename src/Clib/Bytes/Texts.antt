-- ===== src/Clib/Bytes/Texts.antt =====
-- Which byte sequences are texts: what an array gives, what a literal and `%d` print.
use pungoo.Common.{
  ℕ, zero, suc, ◌+◌, ◌*◌, ◌/◌, ◌%◌, ◌<◌, ◌≤◌, ◌≡◌, length, lt→ltb, refl, Bool, true, ◌&&◌, ◌==◌,
  Option, none, some, [], ◌∷◌, ◌++◌, arith, ltb, ltb→lt, if◌then◌else◌, Bool-cases, tests, inl, inr,
}
use mathlib.Core.Option
use pungoo.Common.Int.{ℤ, pos, negsuc}
use pungoo.Clib.Bytes.{Bytes, IsText, c_str, digits_onto, decimal}

-- The bytes before the first NUL.
unfoldable pub text_of : Bytes → Bytes
text_of [] = []
text_of (c ∷ b) = let rest = text_of b in if c == 0 then [] else c ∷ rest

pub c_str-text_of : (b r : Bytes) → c_str (b ++ 0 ∷ r) ≡ some (text_of (b ++ 0 ∷ r))
unfolding c_str text_of
c_str-text_of [] r = refl
c_str-text_of (c ∷ b) r = ground (arith, c_str-text_of b r)

map_cons :
    (c d : ℕ) (o : Option Bytes) (s : Bytes)
    → Option.map (◌∷◌ c) o ≡ some (d ∷ s)
    → (c ≡ d) × (o ≡ some s)
map_cons c d none s h = ground arith
map_cons c d (some t) s h = (ground arith, ground arith)

pub c_str-IsText : (b s : Bytes) → c_str b ≡ some s → IsText s
unfolding c_str
c_str-IsText [] s h = ground arith
c_str-IsText (c ∷ b) [] h = tt
c_str-IsText (c ∷ b) (d ∷ s) h = elim (Bool-cases (c == 0)) [
  | inl nul ↦ ground arith
  | inr more ↦
      let (same, rest) = map_cons c d (c_str b) s (ground arith) in
      (grind (arith, tests), c_str-IsText b s rest)
]

-- A test for literals.
unfoldable pub is_text : Bytes → Bool
is_text [] = true
is_text (c ∷ s) = ltb 0 c && is_text s

pub is_text-IsText : (s : Bytes) → is_text s ≡ true → IsText s
unfolding is_text
is_text-IsText [] h = tt
is_text-IsText (c ∷ s) h = (ltb→lt _ _ (ground arith), is_text-IsText s (ground arith))

digits_onto-IsText : (f n : ℕ) (acc : Bytes) → IsText acc → IsText (digits_onto f n acc)
unfolding digits_onto
digits_onto-IsText zero n acc h = h
digits_onto-IsText (suc f) n acc h = elim (Bool-cases (ltb n 10)) [
  | inl short ↦ rw short (omega arith, h)
  | inr long ↦ rw long (digits_onto-IsText f (n / 10) _ (omega arith, h))
]

pub decimal-IsText : (z : ℤ) → IsText (decimal z)
unfolding decimal
decimal-IsText (pos n) = digits_onto-IsText (n + 1) n [] tt
decimal-IsText (negsuc n) = (omega arith, digits_onto-IsText (n + 2) (n + 1) [] tt)

-- 10 ^ d
abbrev pub tens : ℕ → ℕ
tens zero = 1
tens (suc d) = 10 * tens d

tenth : (n q : ℕ) → n < 10 * q → n / 10 < q
tenth n q h = omega arith

pub length-digits_onto :
    (d f n : ℕ) (acc : Bytes) → n < tens (suc d) → length (digits_onto f n acc) ≤ suc d + length acc
unfolding digits_onto
length-digits_onto d zero n acc h = omega arith
length-digits_onto zero (suc f) n acc h = rw (lt→ltb n 10 h) (omega arith)
length-digits_onto (suc d) (suc f) n acc h = elim (Bool-cases (ltb n 10)) [
  | inl short ↦ rw short (omega arith)
  | inr long ↦ rw long (
      omega
        (arith, length-digits_onto d f (n / 10) ((b'0' + n % 10) ∷ acc) (tenth n (tens (suc d)) h)))
]
