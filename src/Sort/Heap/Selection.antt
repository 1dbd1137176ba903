-- ===== src/Sort/Heap/Selection.antt =====
-- The second phase of the heap sorts: the root of a shrinking heap goes behind it.
use pungoo.Common.{
  ℕ, suc, ◌<◌, ◌≤◌, ◌≡◌, ◌∙◌, List, arith, ltb, ltb→lt, ltb→le, ◌==◌, length, inl, inr, Bool-cases,
}
use pungoo.Sort.Moves.{
  entry, swap, entry-swap, Rearranged, Rearranged-trans, Rearranged-wider, Rearranged-swap,
}
use pungoo.Sort.Heap.{IsHeapFrom, root_first}

module _ (Before : ℕ → ℕ → Type 0) (parent : ℕ → ℕ) (len : ℕ) (a0 : List ℕ) where
  -- The first `n` entries are the heap, and those behind it have left it in order.
  pub record SelectionInv (n : ℕ) (a : List ℕ) : Type 0 where
    pub moved : Rearranged 0 len a0 a
    pub heap : IsHeapFrom Before parent 0 n a
    pub rest : (i j : ℕ) → n ≤ i → i < j → j < len → Before (entry a j) (entry a i)
    pub split : (i j : ℕ) → i < n → n ≤ j → j < len → Before (entry a j) (entry a i)

  pub SelectionInv-start :
      (a : List ℕ) → Rearranged 0 len a0 a → IsHeapFrom Before parent 0 len a → SelectionInv len a
  SelectionInv-start a r h = record {
    moved = r;
    heap = h;
    rest = λ i j p q s. absurd (omega arith);
    split = λ i j p q s. absurd (omega arith);
  }

  pub SelectionInv-end :
      (n : ℕ) (a : List ℕ)
      → n ≤ 1
      → SelectionInv n a
      → (i j : ℕ) → i < j
      → j < len
      → Before (entry a j) (entry a i)
  SelectionInv-end n a h v i j p q = elim (Bool-cases (ltb i n)) [
    | inl e ↦ v.split i j (ltb→lt _ _ e) (omega arith) q
    | inr e ↦ v.rest i j (ltb→le _ _ e) p q
  ]

  module _ (climbs : (c : ℕ) → 0 < c → parent c < c) (reflexive : (x : ℕ) → Before x x)
      (transitive : (x y z : ℕ) → Before x y → Before y z → Before x z) (n : ℕ) (a b : List ℕ)
      (room : n < length a) (n<len : n < len) (v : SelectionInv (suc n) a)
      (r : Rearranged 0 n (swap a 0 n) b) where
    last_entry : entry b n ≡ entry a 0
    last_entry =
        let at = entry-swap a 0 n (omega arith) room n in
        r.outside n (inr (omega arith)) ∙ ground arith

    later_entry : (j : ℕ) → n < j → entry b j ≡ entry a j
    later_entry j p =
        let at = entry-swap a 0 n (omega arith) room j in
        r.outside j (inr (omega arith)) ∙ ground arith

    earlier_entry : (i : ℕ) → i < n → (k : ℕ) × (k < suc n) × (entry b i ≡ entry a k)
    earlier_entry i p =
        let (k, _, q, e) = r.inside i (omega arith) p in
        let at = entry-swap a 0 n (omega arith) room k in
        elim (Bool-cases (k == 0)) [
          | inl z ↦ (n, omega arith, e ∙ ground arith)
          | inr z ↦ (k, omega arith, e ∙ ground arith)
        ]

    next_rest : (i j : ℕ) → n ≤ i → i < j → j < len → Before (entry b j) (entry b i)
    next_rest i j p q s = elim (Bool-cases (ltb n i)) [
      | inl e ↦
          let above = ltb→lt n i e in
          rw (later_entry i above, later_entry j (omega arith)) (v.rest i j (omega arith) q s)
      | inr e ↦
          let same : i ≡ n = omega (arith, ltb→le n i e) in
          rw (same, last_entry, later_entry j (omega arith))
            (v.split 0 j (omega arith) (omega arith) s)
    ]

    next_split : (i j : ℕ) → i < n → n ≤ j → j < len → Before (entry b j) (entry b i)
    next_split i j p q s =
        let (k, below, e) = earlier_entry i p in
        elim (Bool-cases (ltb n j)) [
          | inl g ↦ rw (e, later_entry j (ltb→lt n j g)) (v.split k j below (ltb→lt n j g) s)
          | inr g ↦
              let same : j ≡ n = omega (arith, ltb→le n j g) in
              rw (e, same, last_entry)
                (root_first Before parent climbs reflexive transitive (suc n) a v.heap k below)
        ]

    pub SelectionInv-next : IsHeapFrom Before parent 0 n b → SelectionInv n b
    SelectionInv-next h = record {
      moved = Rearranged-trans v.moved (
          Rearranged-trans
            (Rearranged-swap {l = 0} {e = len} a 0 n (omega arith) room (omega arith) (omega arith)
              (omega arith) n<len)
            (Rearranged-wider r (omega arith) (omega arith)));
      heap = h;
      rest = next_rest;
      split = next_split;
    }
