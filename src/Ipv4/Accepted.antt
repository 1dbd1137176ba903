-- ===== src/Ipv4/Accepted.antt =====
-- IsValidIpv4 as a whole: the texts that it accepts.
use pungoo.Common.{
  ℕ, zero, suc, ◌+◌, ◌-◌, ◌<◌, ◌≡◌, ◌↔◌, refl, ◌∙◌, sym, ap, true, false, not, ◌&&◌, Option, none,
  some, arith, ◌==◌, List, [], ◌∷◌, ◌++◌, inl, inr, Bool-cases, Option-cases, length, length-append,
  length-take, length-drop, take, drop, replicate, store, store_lem, Ends, Ends-weaken,
}
use pungoo.Common.Int.{ℤ, pos, minus_one}
use pungoo.Clib.Bytes.{Bytes}
use pungoo.Ipv4.{scan, is_end, octets, is_valid_ipv4}
use pungoo.Ipv4.Octet.{StartsWith, scan-StartsWith, StartsWith-scan}

-- The texts of the octets with the numbers idx, ..., 3 of an address, any of them left out at the
-- end. The first octet of all is not 0.
pub data Octets : ℕ → Bytes → Type 0 where
  absent : {idx : ℕ} → Octets idx []
  present :
      {idx x : ℕ} {p rest : Bytes}
      → StartsWith x p rest
      → idx < 4
      → 0 < idx + x
      → Octets (suc idx) rest
      → Octets idx p

-- What a text that is not empty starts with.
Octets-present :
    (idx : ℕ) (q : Bytes)
    → Octets idx q
    → is_end q ≡ false
    → (x : ℕ) × (rest : Bytes) × (scan 4 none q ≡ (some x, rest))
      × (idx < 4)
      × (0 < idx + x)
      × Octets (suc idx) rest
Octets-present idx [] absent n = cc
Octets-present idx q (present {x = x} {rest = rest} s h k o) n =
    (x, rest, scan-StartsWith x q rest s, h, k, o)

store_size :
    (num : List ℤ) (idx : ℕ) (v : ℤ)
    → length num ≡ 4
    → idx < 4
    → (num' : List ℤ) × (store num idx (v ∷ []) ≡ some num') × (length num' ≡ 4)
store_size num idx v size h = (
  take idx num ++ (v ∷ [] ++ drop (idx + 1) num),
  store_lem num idx (v ∷ []) (omega arith),
  omega (
    arith,
    length-append (take idx num) (v ∷ drop (idx + 1) num),
    length-take idx num,
    length-drop (idx + 1) num,
  ),
)

module _ (idx c : ℕ) (p : Bytes) where
  -- Texts that no address starts with.
  refused_scan : (scan 4 none (c ∷ p)).0 ≡ none → ¬ (Octets idx (c ∷ p))
  refused_scan e o =
      let (x, rest, s, _, _, _) = Octets-present idx (c ∷ p) o refl in
      let clash : none ≡ some x = sym e ∙ ap (λ (r : Option ℕ × Bytes). r.0) s in cc

  module _ (x : ℕ) (e : (scan 4 none (c ∷ p)).0 ≡ some x) where
    abbrev rest : Bytes
    rest = (scan 4 none (c ∷ p)).1

    same_scan : scan 4 none (c ∷ p) ≡ (some x, rest)
    same_scan = λ i. (e i, rest)

    -- What is left to be an address.
    rest-Octets : Octets idx (c ∷ p) → (idx < 4) × (0 < idx + x) × Octets (suc idx) rest
    rest-Octets o =
        let (x', rest', s, h, k, o') = Octets-present idx (c ∷ p) o refl in
        let both = sym s ∙ same_scan in
        let same : some x' ≡ some x = ap (λ (r : Option ℕ × Bytes). r.0) both in
        let same_x : x' ≡ x = cc in
        let same_rest : rest' ≡ rest = ap (λ (r : Option ℕ × Bytes). r.1) both in
        (h, omega arith, rw same_rest at o')

    Octets-rest : idx < 4 → 0 < idx + x → Octets (suc idx) rest → Octets idx (c ∷ p)
    Octets-rest h k o = present (StartsWith-scan x (c ∷ p) rest same_scan) h k o

octets-Octets :
    (fuel : ℕ) (num : List ℤ) (idx : ℕ) (p : Bytes)
    → 4 - idx < fuel
    → (is_end p ≡ false → idx < 4)
    → length num ≡ 4
    → Ends (λ ok. (ok ≡ true) ↔ Octets idx p) (octets fuel num idx p)
unfolding octets
octets-Octets zero num idx p f h size = absurd (omega arith)
octets-Octets (suc fuel) num idx [] f h size = (λ _. absent, λ _. refl)
octets-Octets (suc fuel) num idx (c ∷ p) f h size = elim (Option-cases (scan 4 none (c ∷ p)).0) [
  | inl e ↦ rw (e, octets) (λ b. absurd (cc b), λ o. absurd (refused_scan idx c p e o))
  | inr (x, e) ↦ elim (Bool-cases (idx == 0 && x == 0)) [
    | inl z ↦
        rw (e, octets, z)
          (
            λ b. absurd (cc b),
            λ o. let (_, k, _) = rest-Octets idx c p x e o in absurd (ground arith),
          )
    | inr z ↦
        let step : idx + 1 ≡ suc idx = omega arith in
        let (num', st, size') = store_size num idx (pos x) size (h refl) in
        rw (e, octets, z, st)
          (elim (Bool-cases (idx + 1 == 4 && not (is_end (rest idx c p x e)))) [
            | inl w ↦ rw w (
              λ b. absurd (cc b),
              λ o.
                  let (_, _, o') = rest-Octets idx c p x e o in
                  let (_, _, _, less, _, _) =
                    Octets-present (suc idx) (rest idx c p x e) o' (ground arith) in
                  absurd (ground arith),
            )
            | inr w ↦ rw w (
                Ends-weaken (λ ok. (ok ≡ true) ↔ Octets (idx + 1) (rest idx c p x e)) _ _
                  (octets-Octets fuel num' (idx + 1) (rest idx c p x e) (omega (arith, h refl))
                    (λ n. ground (arith, h refl)) size')
                  λ ok (l, r). (
                    λ b. Octets-rest idx c p x e (h refl) (ground arith) (rw step at (l b)),
                    λ o. let (_, _, o') = rest-Octets idx c p x e o in r (rw (← step) at o'),
                  ))
          ])
  ]
]

-- IsValidIpv4 returns for every text, with no access past the end of num, and accepts exactly the
-- texts that hold at most four octets, each followed by a dot or the end of the text, where the
-- first is not 0: fewer than four octets are accepted, and a dot behind the last one.
pub is_valid_ipv4-Octets : (ip : Bytes) → Ends (λ ok. (ok ≡ true) ↔ Octets 0 ip) (is_valid_ipv4 ip)
unfolding is_valid_ipv4
is_valid_ipv4-Octets ip =
    octets-Octets 5 (replicate 4 minus_one) 0 ip (omega arith) (λ n. omega arith) refl
