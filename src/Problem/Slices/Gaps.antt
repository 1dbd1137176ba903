-- ===== src/Problem/Slices/Gaps.antt =====
-- The arithmetic slices of a list, and how its gaps tell how many they are.
use pungoo.Common.{
  ℕ, zero, suc, ◌+◌, ◌-◌, ◌≡◌, refl, ◌∙◌, sym, ap, Bool, true, ◌&&◌, arith, ==→eq, if◌then◌else◌,
  List, [], ◌∷◌, length, take, inl, inr, Bool-cases,
}
use pungoo.Common.Int.{ℤ, pos, negsuc, eqb_ℤ, difference}

-- The entries of a list follow each other at one distance.
abbrev pub is_arithmetic : List ℕ → Bool
is_arithmetic [] = true
is_arithmetic (x ∷ []) = true
is_arithmetic (x ∷ y ∷ []) = true
is_arithmetic (x ∷ y ∷ z ∷ rest) =
    eqb_ℤ (difference y x) (difference z y) && is_arithmetic (y ∷ z ∷ rest)

-- How many of the first n + 2 entries' beginnings of three or more are arithmetic.
pub beginnings : ℕ → List ℕ → ℕ
beginnings zero a = 0
beginnings (suc n) a =
    (if is_arithmetic (take (suc (suc (suc n))) a) then 1 else 0) + beginnings n a

-- How many slices of three entries or more are arithmetic: those that start at each of the entries.
pub arithmetic_slices : List ℕ → ℕ
arithmetic_slices [] = 0
arithmetic_slices (x ∷ rest) = beginnings (length rest - 1) (x ∷ rest) + arithmetic_slices rest

abbrev pub gaps : List ℕ → List ℤ
gaps [] = []
gaps (x ∷ []) = []
gaps (x ∷ y ∷ rest) = difference y x ∷ gaps (y ∷ rest)

-- How many of the first gaps are the given one.
unfoldable pub run_of : ℤ → List ℤ → ℕ
run_of g [] = 0
run_of g (h ∷ rest) = if eqb_ℤ g h then suc (run_of g rest) else 0

unfoldable pub slices_of : List ℤ → ℕ
slices_of [] = 0
slices_of (g ∷ rest) = run_of g rest + slices_of rest

pub eqb_ℤ_sound : (a b : ℤ) → eqb_ℤ a b ≡ true → a ≡ b
eqb_ℤ_sound (pos m) (pos n) h = ap pos (==→eq m n h)
eqb_ℤ_sound (negsuc m) (negsuc n) h = ap negsuc (==→eq m n h)
eqb_ℤ_sound (pos m) (negsuc n) h = cc
eqb_ℤ_sound (negsuc m) (pos n) h = cc

beginnings-none : (a : List ℕ) → beginnings 0 a ≡ 0
unfolding beginnings
beginnings-none a = refl

beginnings-next :
    (n x y z : ℕ) (rest : List ℕ)
    → beginnings (suc n) (x ∷ y ∷ z ∷ rest)
      ≡ (if eqb_ℤ (difference y x) (difference z y) then suc (beginnings n (y ∷ z ∷ rest)) else 0)
unfolding beginnings
beginnings-next zero x y z rest = elim (Bool-cases (eqb_ℤ (difference y x) (difference z y))) [
  | inl e ↦ rw e refl
  | inr e ↦ rw e refl
]
beginnings-next (suc n) x y z rest =
    let before = beginnings-next n x y z rest in
    elim (Bool-cases (eqb_ℤ (difference y x) (difference z y))) [
      | inl e ↦ let before' = rw e at before in rw e (omega (arith, before'))
      | inr e ↦ let before' = rw e at before in rw e (omega (arith, before'))
    ]

beginnings-run_of :
    (x y : ℕ) (rest : List ℕ)
    → beginnings (length rest) (x ∷ y ∷ rest) ≡ run_of (difference y x) (gaps (y ∷ rest))
unfolding run_of
beginnings-run_of x y [] = beginnings-none (x ∷ y ∷ [])
beginnings-run_of x y (z ∷ rest) =
    beginnings-next (length rest) x y z rest
    ∙ (elim (Bool-cases (eqb_ℤ (difference y x) (difference z y))) [
      | inl e ↦
          let same = eqb_ℤ_sound (difference y x) (difference z y) e in
          rw e (
            ap suc
              (beginnings-run_of y z rest ∙ ap (λ (g : ℤ). run_of g (gaps (z ∷ rest))) (sym same)))
      | inr e ↦ rw e refl
    ])

-- The slices, told from the gaps alone.
pub arithmetic_slices-gaps : (a : List ℕ) → arithmetic_slices a ≡ slices_of (gaps a)
unfolding arithmetic_slices slices_of
arithmetic_slices-gaps [] = refl
arithmetic_slices-gaps (x ∷ []) = omega (arith, beginnings-none (x ∷ []))
arithmetic_slices-gaps (x ∷ y ∷ rest) =
    let size : suc (length rest) - 1 ≡ length rest = omega arith in
    let all : beginnings (length (y ∷ rest) - 1) (x ∷ y ∷ rest)
        ≡ run_of (difference y x) (gaps (y ∷ rest)) =
      rw size (beginnings-run_of x y rest) in
    let later : beginnings (length rest - 1) (y ∷ rest) + arithmetic_slices rest
        ≡ slices_of (gaps (y ∷ rest)) =
      arithmetic_slices-gaps (y ∷ rest) in
    omega (arith, all, later)
