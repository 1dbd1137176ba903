-- ===== src/Sort/Quicksort/Sorted.antt =====
-- sort and quicksort: the order that the recursion over the two parts makes.
use pungoo.Common.{
  ℕ, zero, suc, ◌+◌, ◌-◌, ◌<◌, ◌≤◌, ◌≡◌, ◌∙◌, List, arith, ltb, ltb→lt, ltb→le, length, Ends,
  Ends-bind, Ends-weaken, inl, inr, Bool-cases,
}
use pungoo.Sort.Moves.{
  entry, Rearranged, Rearranged-refl, Rearranged-trans, Rearranged-wider, SortedFrom,
}
use pungoo.Sort.Quicksort.{less_one, sort, quicksort, partition}
use pungoo.Sort.Quicksort.Exchange.{Parted}
use pungoo.Sort.Quicksort.Partition.{partition-Parted}

-- The entries from `l` on and before `e` are in order, and the array is a rearrangement there.
abbrev pub SortedRange : ℕ → ℕ → List ℕ → List ℕ → Type 0
SortedRange l e a b = SortedFrom l e b × Rearranged l e a b

module _ (a b c d : List ℕ) (l r p : ℕ) (h : Parted a l r p b) (left : SortedRange l p b c)
    (right : SortedRange (p + 1) (suc r) c d) where
  pivot_kept : entry d p ≡ entry b p
  pivot_kept = right.1.outside p (omega arith) ∙ left.1.outside p (omega arith)

  low_kept : (k : ℕ) → l ≤ k → k < p → entry d k ≤ entry b p
  low_kept k q s =
      let (k', q', s', e) = left.1.inside k q s in
      omega (arith, right.1.outside k (inl (omega arith)), h.low k' q' s')

  high_kept : (k : ℕ) → p < k → k ≤ r → entry b p ≤ entry d k
  high_kept k q s =
      let (k', q', s', e) = right.1.inside k (omega arith) (omega arith) in
      omega (arith, left.1.outside k' (inr (omega arith)), h.high k' (omega arith) (omega arith))

  low_bound : (k : ℕ) → l ≤ k → k ≤ p → entry d k ≤ entry b p
  low_bound k q s = elim (Bool-cases (ltb k p)) [
    | inl e ↦ low_kept k q (ltb→lt k p e)
    | inr e ↦ let same : k ≡ p = omega (arith, ltb→le k p e) in rw same (omega (arith, pivot_kept))
  ]

  high_bound : (k : ℕ) → p ≤ k → k ≤ r → entry b p ≤ entry d k
  high_bound k q s = elim (Bool-cases (ltb p k)) [
    | inl e ↦ high_kept k (ltb→lt p k e) s
    | inr e ↦ let same : k ≡ p = omega (arith, ltb→le p k e) in rw same (omega (arith, pivot_kept))
  ]

  joined_order : SortedFrom l (suc r) d
  joined_order i j q s t = elim (Bool-cases (ltb j p)) [
    | inl low ↦
        let j_low = ltb→lt j p low in
        omega (
          arith,
          left.0 i j q s j_low,
          right.1.outside i (inl (omega arith)),
          right.1.outside j (inl (omega arith)),
        )
    | inr high ↦ elim (Bool-cases (ltb p i)) [
      | inl above ↦ right.0 i j (omega (arith, ltb→lt p i above)) s t
      | inr below ↦
          omega
            (arith, low_bound i q (ltb→le _ _ below), high_bound j (ltb→le _ _ high) (omega arith))
    ]
  ]

  joined : SortedRange l (suc r) a d
  joined = (
    joined_order,
    Rearranged-trans (Rearranged-wider h.moved (omega arith) (omega arith)) (
        Rearranged-trans (Rearranged-wider left.1 (omega arith) (omega (arith, h.to)))
          (Rearranged-wider right.1 (omega (arith, h.from)) (omega arith))),
  )

sort-SortedRange :
    (fuel : ℕ) (a : List ℕ) (l e : ℕ)
    → e - l < fuel
    → l ≤ e
    → e ≤ length a
    → Ends (SortedRange l e a) (sort fuel a l (less_one e))
unfolding sort
sort-SortedRange zero a l e h p q = absurd (omega arith)
sort-SortedRange (suc fuel) a l zero h p q =
    (λ i j s t u. absurd (omega arith), Rearranged-refl l zero a)
sort-SortedRange (suc fuel) a l (suc r) h p q = elim (Bool-cases (ltb l r)) [
  | inr stop ↦
      rw (stop, sort)
        (λ i j s t u. absurd (omega (arith, ltb→le l r stop)), Rearranged-refl l (suc r) a)
  | inl go ↦
      let less = ltb→lt l r go in
      rw (go, sort)
        (Ends-bind (λ (p, b). Parted a l r p b) (SortedRange l (suc r) a) (partition a l r) _
          (partition-Parted a l r less (omega arith))
          λ (m, b) parted.
            Ends-bind (SortedRange l m b) (SortedRange l (suc r) a) (sort fuel b l (less_one m)) _
              (sort-SortedRange fuel b l m (omega (arith, parted.to)) parted.from
                (omega (arith, parted.to, parted.moved.size)))
              λ c left.
                Ends-weaken (SortedRange (m + 1) (suc r) c) (SortedRange l (suc r) a)
                  (sort fuel c (m + 1) (less_one (suc r)))
                  (sort-SortedRange fuel c (m + 1) (suc r) (omega (arith, parted.from, parted.to))
                    (omega (arith, parted.to)) (omega (arith, left.1.size, parted.moved.size)))
                  λ d right. joined a b c d l r m parted left right)
]

-- quicksort on the first `len` entries of an array that has them makes no access past its end and
-- returns; those entries are then in ascending order and a rearrangement of what they were, and
-- the rest of the array is as it was.
pub quicksort-SortedRange :
    (a : List ℕ) (len : ℕ) → len ≤ length a → Ends (SortedRange 0 len a) (quicksort a len)
unfolding quicksort
quicksort-SortedRange a len h = sort-SortedRange (len + 1) a 0 len (omega arith) (omega arith) h
