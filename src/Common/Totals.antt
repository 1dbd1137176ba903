-- ===== src/Common/Totals.antt =====
-- The entries of a list under a weight, when one entry is replaced: how many threads of a process
-- are at a place.
use pungoo.Common.Lists.{length, get_elem?, set, replicate}
use Prim.Native.Nat.{ℕ, zero, suc, ◌+◌, ◌≤◌}
use mathlib.Core.Path.{◌≡◌, refl, ap}
use mathlib.Core.Logic.{◌≢◌}
use mathlib.Core.List.{List, [], ◌∷◌}
use mathlib.Core.Option.{some}
use native.Mathlib.Omega.{arith}

module _ {ℓ} {A : Type ℓ} where
  pub length-set : (xs : List A) (i : ℕ) (b : A) → length (set xs i b) ≡ length xs
  length-set [] i b = refl
  length-set (x ∷ xs) zero b = refl
  length-set (x ∷ xs) (suc i) b = ap suc (length-set xs i b)

  pub get_elem?-set :
      (xs : List A) (i : ℕ) (a b : A) → get_elem? xs i ≡ some a → get_elem? (set xs i b) i ≡ some b
  get_elem?-set [] i a b e = cc
  get_elem?-set (x ∷ xs) zero a b e = refl
  get_elem?-set (x ∷ xs) (suc i) a b e = get_elem?-set xs i a b e

  pub get_elem?-set_other :
      (xs : List A) (i j : ℕ) (b : A) → i ≢ j → get_elem? (set xs i b) j ≡ get_elem? xs j
  get_elem?-set_other [] i j b e = refl
  get_elem?-set_other (x ∷ xs) zero zero b e = absurd (e refl)
  get_elem?-set_other (x ∷ xs) zero (suc j) b e = refl
  get_elem?-set_other (x ∷ xs) (suc i) zero b e = refl
  get_elem?-set_other (x ∷ xs) (suc i) (suc j) b e =
      get_elem?-set_other xs i j b (λ p. e (ap suc p))

  -- Every entry has the property.
  abbrev pub All {κ} : (A → Type κ) → List A → Type κ
  All P [] = Unit
  All P (x ∷ xs) = P x × All P xs

  pub All-set {κ} :
      (P : A → Type κ) (xs : List A) (i : ℕ) (b : A) → All P xs → P b → All P (set xs i b)
  All-set P [] i b all p = tt
  All-set P (x ∷ xs) zero b (q, rest) p = (p, rest)
  All-set P (x ∷ xs) (suc i) b (q, rest) p = (q, All-set P xs i b rest p)

  pub All-weaken {κ μ} :
      (P : A → Type κ) (Q : A → Type μ) (xs : List A) → All P xs → ((a : A) → P a → Q a) → All Q xs
  All-weaken P Q [] all k = tt
  All-weaken P Q (x ∷ xs) (p, rest) k = (k x p, All-weaken P Q xs rest k)

  pub All-get_elem? {κ} :
      (P : A → Type κ) (xs : List A) (i : ℕ) (a : A) → All P xs → get_elem? xs i ≡ some a → P a
  All-get_elem? P [] i a all e = cc
  All-get_elem? P (x ∷ xs) zero a (p, rest) e = let same : x ≡ a = cc in rw (← same) p
  All-get_elem? P (x ∷ xs) (suc i) a (p, rest) e = All-get_elem? P xs i a rest e

  pub All-replicate {κ} : (P : A → Type κ) (n : ℕ) (a : A) → P a → All P (replicate n a)
  All-replicate P zero a p = tt
  All-replicate P (suc n) a p = (p, All-replicate P n a p)

  module _ (weight : A → ℕ) where
    abbrev pub total : List A → ℕ
    total [] = 0
    total (x ∷ xs) = weight x + total xs

    pub total-set :
        (xs : List A) (i : ℕ) (a b : A)
        → get_elem? xs i ≡ some a
        → total (set xs i b) + weight a ≡ total xs + weight b
    total-set [] i a b e = cc
    total-set (x ∷ xs) zero a b e = ground arith
    total-set (x ∷ xs) (suc i) a b e = omega (arith, total-set xs i a b e)

    pub total-le-length : ((a : A) → weight a ≤ 1) → (xs : List A) → total xs ≤ length xs
    total-le-length light [] = omega arith
    total-le-length light (x ∷ xs) = omega (arith, light x, total-le-length light xs)
