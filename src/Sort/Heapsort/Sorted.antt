-- ===== src/Sort/Heapsort/Sorted.antt =====
-- heapsort: its rounds, and the order that they leave.
use pungoo.Common.{ℕ, zero, suc, ◌+◌, ◌-◌, ◌<◌, ◌≤◌, ◌≡◌, List, arith, length, Ends, Ends-bind}
use native.Mathlib.Decide.{dec_lt}
use pungoo.Sort.Moves.{entry, swap, swap_at-swap, length-swap, Rearranged}
use pungoo.Sort.Heap.{AtMost, last-DownInv}
use pungoo.Sort.Heap.Selection.{
  SelectionInv, SelectionInv-start, SelectionInv-next, SelectionInv-end,
}
use pungoo.Sort.Heapsort.{heapify, select, buildheap, heapsort}
use pungoo.Sort.Heapsort.Repair.{
  parent, parent_climbs, Repaired, heapify-Repaired, buildheap-Repaired,
}

-- The first `len` entries, the greatest first.
abbrev pub Descending : ℕ → List ℕ → List ℕ → Type 0
Descending len a0 b = ((i j : ℕ) → i < j → j < len → entry b j ≤ entry b i) × Rearranged 0 len a0 b

module _ (len : ℕ) (a0 : List ℕ) (room : len ≤ length a0) where
  select-Descending :
      (left : ℕ) (a : List ℕ)
      → left < len
      → SelectionInv AtMost parent len a0 (suc left) a
      → Ends (Descending len a0) (select left a (suc left))
  unfolding select
  select-Descending zero a p v =
      (SelectionInv-end AtMost parent len a0 1 a (omega arith) v, v.moved)
  select-Descending (suc left) a p v =
      let size = v.moved.size in
      let last : suc (suc left) - 1 ≡ suc left = omega arith in
      let hn : suc left < length a = omega arith in
      let h0 : 0 < length a = omega arith in
      let b = swap a 0 (suc left) in
      let bsize = length-swap a 0 (suc left) h0 hn in
      let start = last-DownInv AtMost parent parent_climbs (suc left) a (omega arith) v.heap in
      rw (last, swap_at-swap a 0 (suc left) h0 hn)
        (Ends-bind (Repaired 0 (suc left) b) (Descending len a0)
          (heapify (suc (suc left) + 1) b 0 (suc left)) _
          (heapify-Repaired (suc (suc left) + 1) 0 b 0 (suc left) (omega arith) (omega arith)
            (omega arith) start)
          λ c (heap, moved). select-Descending left c (omega arith) (
            SelectionInv-next AtMost parent len a0 parent_climbs (λ x. omega arith)
              (λ x y z s t. omega arith) (suc left) a c hn p v moved heap))

  build_select :
      (b : List ℕ) → Repaired 0 len a0 b → Ends (Descending len a0) (select (len - 1) b len)
  unfolding select
  build_select b (heap, moved) = elim (dec_lt 0 len) [
    | yes p ↦
        let e : suc (len - 1) ≡ len = omega arith in
        let start = SelectionInv-start AtMost parent len a0 b moved heap in
        let start' : SelectionInv AtMost parent len a0 (suc (len - 1)) b = rw e start in
        let run = select-Descending (len - 1) b (omega arith) start' in rw e at run
    | no p ↦
        let z : len ≡ 0 = omega arith in rw z ((λ i j q s. absurd (omega arith)), rw z at moved)
  ]

-- heapsort on the first `length` entries of an array that has them makes no access past its end and
-- returns; those entries are then in descending order and a rearrangement of what they were, and
-- the rest of the array is as it was.
pub heapsort-Descending :
    (a : List ℕ) (len : ℕ) → len ≤ length a → Ends (Descending len a) (heapsort a len)
unfolding heapsort
heapsort-Descending a len room =
    Ends-bind (Repaired 0 len a) (Descending len a) (buildheap a len) _
      (buildheap-Repaired a len room) λ b repaired. build_select len a room b repaired
