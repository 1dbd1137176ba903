-- ===== src/Clib/Bytes/Numerals.antt =====
-- The number that a text starts with, as strtol, atoi and std::stoi read it.
use pungoo.Common.{
  ℕ, zero, suc, ◌+◌, ◌-◌, ◌*◌, ◌/◌, ◌%◌, ◌<◌, ◌≡◌, refl, ◌∙◌, Bool, true, false, ◌&&◌, ◌||◌, Option,
  none, some, arith, ltb, ltb→lt, ltb→le, ◌==◌, if◌then◌else◌, [], ◌∷◌, inl, inr, Bool-cases, Run,
  done, undefined,
}
use pungoo.Common.Int.{ℤ, pos, negsuc, is_int}
use pungoo.Clib.Bytes.{Bytes, digits_onto, decimal}

-- A blank, and the control characters from tab to carriage return.
abbrev pub is_space : ℕ → Bool
is_space c = c == b' ' || (ltb 8 c && ltb c 14)

abbrev pub is_numeral : ℕ → Bool
is_numeral c = ltb 47 c && ltb c 58

-- The digits up to the first other char; `none` as long as there is none.
unfoldable pub digits_value : Option ℕ → Bytes → Option ℕ
digits_value v [] = v
digits_value v (c ∷ rest) = elim (is_numeral c) [
  | false ↦ v
  | true ↦ digits_value (some (elim v [ none ↦ c - 48 | some n ↦ n * 10 + (c - 48) ])) rest
]

abbrev pub negated : Option ℕ → Option ℤ
negated none = none
negated (some zero) = some (pos zero)
negated (some (suc n)) = some (negsuc n)

abbrev pub positive : Option ℕ → Option ℤ
positive none = none
positive (some n) = some (pos n)

-- The sign and the digits.
unfoldable pub signed_value : Bytes → Option ℤ
unfolding digits_value
signed_value [] = none
signed_value (c ∷ rest) =
    if c == b'-'
    then negated (digits_value none rest)
    else if c == b'+'
    then positive (digits_value none rest)
    else positive (digits_value none (c ∷ rest))

unfoldable pub leading_number : Bytes → Option ℤ
unfolding signed_value
leading_number [] = none
leading_number (c ∷ rest) = elim (is_space c) [
  | true ↦ leading_number rest
  | false ↦ signed_value (c ∷ rest)
]

-- What a call that may throw comes to.
pub data Thrown {ℓ} (A : Type ℓ) : Type ℓ where
  value : A → Thrown A
  invalid_argument : Thrown A
  out_of_range : Thrown A

unfoldable pub stoi_of : Option ℤ → Thrown ℤ
stoi_of none = invalid_argument
stoi_of (some n) = if is_int n then value n else out_of_range

-- std::stoi
unfoldable pub stoi : Bytes → Thrown ℤ
unfolding stoi_of leading_number
stoi text = stoi_of (leading_number text)

first_digit :
    (d : ℕ) (rest : Bytes)
    → d < 10
    → digits_value none ((b'0' + d) ∷ rest) ≡ digits_value (some d) rest
unfolding digits_value
first_digit d rest h =
    let digit : is_numeral (b'0' + d) ≡ true = ground arith in
    let back : b'0' + d - 48 ≡ d = omega arith in rw (digit, digits_value, back) refl

next_digit :
    (n d : ℕ) (rest : Bytes)
    → d < 10
    → digits_value (some n) ((b'0' + d) ∷ rest) ≡ digits_value (some (n * 10 + d)) rest
unfolding digits_value
next_digit n d rest h =
    let digit : is_numeral (b'0' + d) ≡ true = ground arith in
    let back : b'0' + d - 48 ≡ d = omega arith in rw (digit, digits_value, back) refl

digits_value-digits_onto :
    (f n : ℕ) (rest : Bytes)
    → n < f
    → digits_value none (digits_onto f n rest) ≡ digits_value (some n) rest
unfolding digits_onto
digits_value-digits_onto zero n rest h = absurd (omega arith)
digits_value-digits_onto (suc f) n rest h = elim (Bool-cases (ltb n 10)) [
  | inl e ↦ rw e (first_digit n rest (ltb→lt _ _ e))
  | inr e ↦
      let back : n / 10 * 10 + n % 10 ≡ n = omega arith in
      rw e (
        digits_value-digits_onto f (n / 10) ((b'0' + n % 10) ∷ rest) (omega (arith, ltb→le _ _ e))
        ∙ next_digit (n / 10) (n % 10) rest (omega arith)
        ∙ rw back refl)
]

-- They start with a digit.
digits_onto-head :
    (f n : ℕ) (rest : Bytes)
    → n < f
    → (c : ℕ) × (r : Bytes) × (digits_onto f n rest ≡ c ∷ r) × (is_numeral c ≡ true)
unfolding digits_onto
digits_onto-head zero n rest h = absurd (omega arith)
digits_onto-head (suc f) n rest h = elim (Bool-cases (ltb n 10)) [
  | inl e ↦ (b'0' + n, rest, rw e refl, ground arith)
  | inr e ↦
      let (c, r, p, q) =
        digits_onto-head f (n / 10) ((b'0' + n % 10) ∷ rest) (omega (arith, ltb→le _ _ e)) in
      (c, r, rw e p, q)
]

digits_value_all : (f n : ℕ) → n < f → digits_value none (digits_onto f n []) ≡ some n
unfolding digits_value
digits_value_all f n h = digits_value-digits_onto f n [] h

leading_digits :
    (c : ℕ) (r : Bytes)
    → is_numeral c ≡ true
    → leading_number (c ∷ r) ≡ positive (digits_value none (c ∷ r))
unfolding leading_number signed_value
leading_digits c r h =
    let solid : is_space c ≡ false = ground arith in
    let minus : (c == b'-') ≡ false = ground arith in
    let plus : (c == b'+') ≡ false = ground arith in rw (solid, leading_number, minus, plus) refl

leading_minus : (r : Bytes) → leading_number (b'-' ∷ r) ≡ negated (digits_value none r)
unfolding leading_number signed_value
leading_minus r = refl

-- What `%d` prints is read back.
pub leading_number-decimal : (n : ℤ) → leading_number (decimal n) ≡ some n
unfolding decimal
leading_number-decimal (pos n) =
    let (c, r, e, digit) = digits_onto-head (n + 1) n [] (omega arith) in
    rw e (leading_digits c r digit ∙ rw (← e, digits_value_all (n + 1) n (omega arith)) refl)
leading_number-decimal (negsuc n) =
    let size : n + 1 ≡ suc n = omega arith in
    leading_minus (digits_onto (n + 2) (n + 1) [])
    ∙ rw (digits_value_all (n + 2) (n + 1) (omega arith), size) refl

pub stoi-decimal : (n : ℤ) → is_int n ≡ true → stoi (decimal n) ≡ value n
unfolding stoi
stoi-decimal n h = rw (leading_number-decimal n, h) refl

-- atoi, where a number that is no int is undefined behaviour.
abbrev pub atoi_of : Option ℤ → Run ℤ
atoi_of none = done (pos 0)
atoi_of (some n) = if is_int n then done n else undefined

unfoldable pub atoi : Bytes → Run ℤ
unfolding leading_number
atoi text = atoi_of (leading_number text)
