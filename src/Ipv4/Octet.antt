-- ===== src/Ipv4/Octet.antt =====
-- The inner loop of IsValidIpv4: the octets that it reads.
use pungoo.Common.{
  ℕ, suc, ◌+◌, ◌-◌, ◌*◌, ◌/◌, ◌%◌, ◌<◌, ◌≤◌, ◌≡◌, refl, ◌∙◌, sym, ap, true, false, Option, none,
  some, arith, ltb, lt→ltb, le→ltb, ◌==◌, ==→eq, if◌then◌else◌, [], ◌∷◌, ◌++◌, ◌⊎◌, inl, inr,
  Bool-cases, Option-cases,
}
use pungoo.Clib.Bytes.{Bytes}
use pungoo.Ipv4.{with_digit, is_digit, scan}

-- The digits of an octet, without a leading zero.
abbrev pub octet : ℕ → Bytes
octet x =
    if ltb x 10
    then (x + b'0') ∷ []
    else if ltb x 100
    then (x / 10 + b'0') ∷ (x % 10 + b'0') ∷ []
    else (x / 100 + b'0') ∷ (x / 10 % 10 + b'0') ∷ (x % 10 + b'0') ∷ []

-- A dot, or the end of the text.
abbrev pub EndsOctet : Bytes → Bytes → Type 0
EndsOctet q rest = (q ≡ b'.' ∷ rest) ⊎ ((q ≡ []) × (rest ≡ []))

-- The octet that a text starts with, and what follows it.
abbrev pub StartsWith : ℕ → Bytes → Bytes → Type 0
StartsWith x p rest = (x < 256) × (q : Bytes) × (p ≡ octet x ++ q) × EndsOctet q rest

scan_ended :
    (left x : ℕ) (q rest : Bytes) → EndsOctet q rest → scan (suc left) (some x) q ≡ (some x, rest)
unfolding scan
scan_ended left x q rest (inl e) = rw e refl
scan_ended left x q rest (inr (e, f)) = rw (e, f) refl

-- One digit of the text.
scan_digit :
    (left d : ℕ) (x : Option ℕ) (y : ℕ) (q : Bytes)
    → d < 10
    → with_digit x d ≡ some y
    → scan (suc left) x ((d + b'0') ∷ q) ≡ scan left (some y) q
unfolding scan
scan_digit left d x y q h e =
    let dot : (d + b'0' == b'.') ≡ false = ground arith in
    let digit : is_digit (d + b'0') ≡ true = ground arith in
    let back : d + b'0' - b'0' ≡ d = omega arith in rw (dot, scan, digit, back, e) refl

-- What the digits of an octet make of x.
module _ (x : ℕ) (h : x < 256) where
  one_digit : ltb x 10 ≡ true → with_digit none x ≡ some x
  unfolding with_digit
  one_digit e = refl

  two_digits : ltb x 10 ≡ false → with_digit (some (x / 10)) (x % 10) ≡ some x
  unfolding with_digit
  two_digits e = ground arith

  three_digits : ltb x 100 ≡ false → with_digit (some (x / 100)) (x / 10 % 10) ≡ some (x / 10)
  unfolding with_digit
  three_digits e = ground arith

pub scan-StartsWith :
    (x : ℕ) (p rest : Bytes) → StartsWith x p rest → scan 4 none p ≡ (some x, rest)
unfolding with_digit
scan-StartsWith x p rest (h, q, e, f) = elim (Bool-cases (ltb x 10)) [
  | inl small ↦
      rw (e, small) (scan_digit 3 x none x q (ground arith) refl ∙ scan_ended 2 x q rest f)
  | inr more ↦ elim (Bool-cases (ltb x 100)) [
    | inl small ↦
        rw (e, more, small)
          (scan_digit 3 (x / 10) none (x / 10) _ (ground arith) refl
            ∙ scan_digit 2 (x % 10) (some (x / 10)) x q (omega arith) (two_digits x h more)
            ∙ scan_ended 1 x q rest f)
    | inr large ↦
        rw (e, more, large)
          (scan_digit 3 (x / 100) none (x / 100) _ (omega arith) refl
            ∙ scan_digit 2 (x / 10 % 10) (some (x / 100)) (x / 10) _ (omega arith)
                (three_digits x h large)
            ∙ scan_digit 1 (x % 10) (some (x / 10)) x q (omega arith) (two_digits x h more)
            ∙ scan_ended 0 x q rest f)
  ]
]

-- The ways in which a round of the scan can go on to an octet.
scan_round :
    (left : ℕ) (x : Option ℕ) (q : Bytes) (y : ℕ) (rest : Bytes)
    → scan (suc left) x q ≡ (some y, rest)
    → ((x ≡ some y) × EndsOctet q rest)
      ⊎ ((d : ℕ) × (q' : Bytes) × (z : ℕ) × (d < 10)
          × (q ≡ (d + b'0') ∷ q')
          × (with_digit x d ≡ some z)
          × (scan left (some z) q' ≡ (some y, rest)))
unfolding scan
scan_round left x [] y rest e =
    inl
      (ap (λ (r : Option ℕ × Bytes). r.0) e, inr (refl, sym (ap (λ (r : Option ℕ × Bytes). r.1) e)))
scan_round left x (c ∷ q) y rest e = elim (Bool-cases (c == b'.')) [
  | inl dot ↦
      let e' = rw (dot, scan) at e in
      inl (
        ap (λ (r : Option ℕ × Bytes). r.0) e',
        inl (rw (==→eq _ _ dot, ap (λ (r : Option ℕ × Bytes). r.1) e') refl),
      )
  | inr other ↦ elim (Bool-cases (is_digit c)) [
    | inr bad ↦ let e' = rw (other, scan, bad) at e in cc (ap (λ (r : Option ℕ × Bytes). r.0) e')
    | inl digit ↦ elim (Option-cases (with_digit x (c - b'0'))) [
      | inl no_octet ↦
          let e' = rw (other, scan, digit, no_octet) at e in
          cc (ap (λ (r : Option ℕ × Bytes). r.0) e')
      | inr (z, f) ↦
          let e' = rw (other, scan, digit, f) at e in
          let back : c - b'0' + b'0' ≡ c = ground arith in
          inr (c - b'0', q, z, ground arith, rw back refl, f, e')
    ]
  ]
]

-- The digits of an octet with one, two and three of them.
octet_one : (a : ℕ) → a < 10 → octet a ≡ (a + b'0') ∷ []
octet_one a p = rw (lt→ltb a 10 p) refl

octet_two : (a b : ℕ) → 0 < a → a < 10 → b < 10 → octet (a * 10 + b) ≡ (a + b'0') ∷ (b + b'0') ∷ []
octet_two a b p q r =
    let tens : (a * 10 + b) / 10 ≡ a = omega arith in
    let ones : (a * 10 + b) % 10 ≡ b = omega arith in
    rw (le→ltb (a * 10 + b) 10 (omega arith), lt→ltb (a * 10 + b) 100 (omega arith), tens, ones)
      refl

octet_three :
    (a b c : ℕ)
    → 0 < a
    → a < 10
    → b < 10
    → c < 10
    → octet ((a * 10 + b) * 10 + c) ≡ (a + b'0') ∷ (b + b'0') ∷ (c + b'0') ∷ []
octet_three a b c p q r s =
    let y = (a * 10 + b) * 10 + c in
    let hundreds : y / 100 ≡ a = omega arith in
    let tens : y / 10 % 10 ≡ b = omega arith in
    let ones : y % 10 ≡ c = omega arith in
    rw (le→ltb y 10 (omega arith), le→ltb y 100 (omega arith), hundreds, tens, ones) refl

-- A digit that is taken by an x of its own, and what it makes.
with_digit-some :
    (x d z : ℕ) → with_digit (some x) d ≡ some z → (0 < x) × (x * 10 + d ≤ 255) × (z ≡ x * 10 + d)
unfolding with_digit
with_digit-some x d z e = ground arith

from_digits :
    (y n : ℕ) (p ds q rest : Bytes)
    → y ≡ n
    → n < 256
    → octet n ≡ ds
    → p ≡ ds ++ q
    → EndsOctet q rest
    → StartsWith y p rest
from_digits y n p ds q rest s h e f t = rw s (h, q, f ∙ sym (ap (λ (d : Bytes). d ++ q) e), t)

some_eq : {x y : ℕ} → some x ≡ some y → x ≡ y
some_eq e = cc

pub StartsWith-scan :
    (y : ℕ) (p rest : Bytes) → scan 4 none p ≡ (some y, rest) → StartsWith y p rest
unfolding with_digit
StartsWith-scan y p rest e = elim (scan_round 3 none p y rest e) [
  | inl (n, _) ↦ absurd (cc n)
  | inr (a, q1, x1, a_digit, p1, f1, e1) ↦
      let s1 : a ≡ x1 = some_eq f1 in
      elim (scan_round 2 (some x1) q1 y rest e1) [
        | inl (t, ends) ↦
            from_digits y a p ((a + b'0') ∷ []) q1 rest (sym (s1 ∙ some_eq t)) (omega arith)
              (octet_one a a_digit) p1 ends
        | inr (b, q2, x2, b_digit, p2, f2, e2) ↦
            let (l2, u2, s2) = with_digit-some x1 b x2 f2 in
            elim (scan_round 1 (some x2) q2 y rest e2) [
              | inl (t, ends) ↦
                  from_digits y (a * 10 + b) p ((a + b'0') ∷ (b + b'0') ∷ []) q2 rest
                    (omega (arith, some_eq t)) (omega arith)
                    (octet_two a b (omega arith) a_digit b_digit) (p1 ∙ rw p2 refl) ends
              | inr (c, q3, x3, c_digit, p3, f3, e3) ↦
                  let (l3, u3, s3) = with_digit-some x2 c x3 f3 in
                  elim (scan_round 0 (some x3) q3 y rest e3) [
                    | inl (t, ends) ↦
                        from_digits y ((a * 10 + b) * 10 + c) p
                          ((a + b'0') ∷ (b + b'0') ∷ (c + b'0') ∷ []) q3 rest
                          (omega (arith, some_eq t)) (omega arith)
                          (octet_three a b c (omega arith) a_digit b_digit c_digit)
                          (p1 ∙ rw (p2, p3) refl) ends
                    | inr (d, q4, x4, d_digit, p4, f4, e4) ↦
                        let (l4, u4, s4) = with_digit-some x3 d x4 f4 in absurd (omega arith)
                  ]
            ]
      ]
]
