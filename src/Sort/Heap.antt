-- ===== src/Sort/Heap.antt =====
-- The order of the two heaps, whichever entry comes first in it, and of the sorts that use it up.
pub mod Selection
use pungoo.Common.{
  ℕ, zero, suc, ◌+◌, ◌-◌, ◌<◌, ◌≤◌, ◌≡◌, ◌≢◌, refl, true, false, List, arith, ltb, ltb→lt, ltb→le,
  ◌==◌, if◌then◌else◌, length, ◌⊎◌, inl, inr, Bool-cases,
}
use pungoo.Sort.Moves.{
  entry, swap, entry-swap, length-swap, Rearranged, Rearranged-refl, Rearranged-trans,
  Rearranged-wider, Rearranged-swap,
}

-- The orders of the entries: the least first, and the greatest first.
abbrev pub AtMost : ℕ → ℕ → Type 0
AtMost x y = x ≤ y

abbrev pub AtLeast : ℕ → ℕ → Type 0
AtLeast x y = y ≤ x

module _ (Before : ℕ → ℕ → Type 0) (parent : ℕ → ℕ) where
  -- The nodes below `n` whose parent is `lo` or above stand in order with it.
  abbrev pub IsHeapFrom : ℕ → ℕ → List ℕ → Type 0
  IsHeapFrom lo n a =
      (c : ℕ) → 0 < c → c < n → lo ≤ parent c → Before (entry a (parent c)) (entry a c)

  -- Only the edges below `i` may be out of order.
  pub record DownInv (lo n : ℕ) (a : List ℕ) (i : ℕ) : Type 0 where
    pub edges :
        (c : ℕ)
        → 0 < c
        → c < n
        → lo ≤ parent c
        → parent c ≢ i
        → Before (entry a (parent c)) (entry a c)
    pub bridged :
        (c : ℕ)
        → 0 < c
        → c < n
        → parent c ≡ i
        → 0 < i
        → lo ≤ parent i
        → Before (entry a (parent i)) (entry a c)

  -- `m` is the child of `i` that comes first.
  pub record IsFirstChild (n : ℕ) (a : List ℕ) (i m : ℕ) : Type 0 where
    pub inside : m < n
    pub positive : 0 < m
    pub child : parent m ≡ i
    pub first : (c : ℕ) → 0 < c → c < n → parent c ≡ i → Before (entry a m) (entry a c)

  module _ (climbs : (c : ℕ) → 0 < c → parent c < c) where
    pub swap-DownInv :
        (lo n : ℕ) (a : List ℕ) (i m : ℕ)
        → n ≤ length a
        → i < length a
        → DownInv lo n a i
        → IsFirstChild n a i m
        → Before (entry a m) (entry a i)
        → DownInv lo n (swap a i m) m
    swap-DownInv lo n a i m room hi v s below =
        let hm : m < length a = omega (arith, s.inside) in
        let at = entry-swap a i m hi hm in
        let apart = climbs m s.positive in
        let up = s.child in
        record {
          edges = λ c p q r t. ground (
            arith,
            at c,
            at (parent c),
            v.edges c p q,
            v.bridged m s.positive s.inside s.child,
            s.first c p q,
            climbs c p,
          );
          bridged = λ c p q r t u. ground (arith, at c, at (parent m), v.edges c p q, climbs c p);
        }

    pub IsHeapFrom-DownInv : (i n : ℕ) (a : List ℕ) → IsHeapFrom (suc i) n a → DownInv i n a i
    IsHeapFrom-DownInv i n a h = record {
      edges = λ c p q r t. h c p q (omega arith);
      bridged = λ c p q r t u. absurd (omega (arith, climbs i t));
    }

    -- The root goes to the end, and the last node takes its place.
    pub last-DownInv :
        (n : ℕ) (a : List ℕ)
        → suc n ≤ length a
        → IsHeapFrom 0 (suc n) a
        → DownInv 0 n (swap a 0 n) 0
    last-DownInv n a room h =
        let at = entry-swap a 0 n (omega arith) (omega arith) in
        record {
          edges = λ c p q r t. ground (arith, at c, at (parent c), h c p, climbs c p);
          bridged = λ c p q r t u. absurd (omega arith);
        }

    -- A node that stands in order with its children ends the repair.
    pub DownInv-settled :
        (lo n : ℕ) (a : List ℕ) (i : ℕ)
        → DownInv lo n a i
        → ((c : ℕ) → 0 < c → c < n → parent c ≡ i → Before (entry a i) (entry a c))
        → IsHeapFrom lo n a
    DownInv-settled lo n a i v h c p q r = elim (Bool-cases (parent c == i)) [
      | inl e ↦ let same : parent c ≡ i = ground arith in rw same (h c p q same)
      | inr e ↦ v.edges c p q r (ground arith)
    ]

    module _ (reflexive : (x : ℕ) → Before x x)
        (transitive : (x y z : ℕ) → Before x y → Before y z → Before x z) where
      root_first_below :
          (f n : ℕ) (a : List ℕ)
          → IsHeapFrom 0 n a
          → (k : ℕ) → k < f
          → k < n
          → Before (entry a 0) (entry a k)
      root_first_below zero n a h k p q = absurd (omega arith)
      root_first_below (suc f) n a h zero p q = reflexive (entry a 0)
      root_first_below (suc f) n a h (suc k) p q =
          let up = climbs (suc k) (omega arith) in
          transitive _ _ _ (root_first_below f n a h (parent (suc k)) (omega arith) (omega arith))
            (h (suc k) (omega arith) q (omega arith))

      pub root_first :
          (n : ℕ) (a : List ℕ) → IsHeapFrom 0 n a → (k : ℕ) → k < n → Before (entry a 0) (entry a k)
      root_first n a h k p = root_first_below (suc k) n a h k (omega arith) p
