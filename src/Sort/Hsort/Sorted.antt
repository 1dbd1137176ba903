-- ===== src/Sort/Hsort/Sorted.antt =====
-- sort of cpp/sort/hsort.cpp: its rounds, and the order that they leave.
use pungoo.Common.{ℕ, zero, suc, ◌+◌, ◌-◌, ◌/◌, ◌<◌, ◌≤◌, ◌≡◌, List, arith, length, Ends, Ends-bind}
use native.Mathlib.Decide.{dec_lt}
use pungoo.Sort.Moves.{entry, swap, swap_at-swap, length-swap, Rearranged}
use pungoo.Sort.Heap.{AtLeast, last-DownInv}
use pungoo.Sort.Heap.Selection.{
  SelectionInv, SelectionInv-start, SelectionInv-next, SelectionInv-end,
}
use pungoo.Sort.Hsort.{heap_ajust, build_from, select, sort}
use pungoo.Sort.Hsort.Repair.{
  parent, parent_climbs, Repaired, heap_ajust-Repaired, build_from-Repaired,
}

-- The first `n` entries, the least first.
abbrev pub Ascending : ℕ → List ℕ → List ℕ → Type 0
Ascending n a0 b = ((i j : ℕ) → i < j → j < n → entry b i ≤ entry b j) × Rearranged 0 n a0 b

module _ (n : ℕ) (a0 : List ℕ) (room : n ≤ length a0) where
  select-Ascending :
      (i : ℕ) (a : List ℕ)
      → i < n
      → SelectionInv AtLeast parent n a0 (suc i) a
      → Ends (Ascending n a0) (select i a)
  unfolding select
  select-Ascending zero a p v = (SelectionInv-end AtLeast parent n a0 1 a (omega arith) v, v.moved)
  select-Ascending (suc i) a p v =
      let size = v.moved.size in
      let hn : suc i < length a = omega arith in
      let h0 : 0 < length a = omega arith in
      let b = swap a 0 (suc i) in
      let bsize = length-swap a 0 (suc i) h0 hn in
      let start = last-DownInv AtLeast parent parent_climbs (suc i) a (omega arith) v.heap in
      rw (swap_at-swap a 0 (suc i) h0 hn) (
        Ends-bind (Repaired 0 (suc i) b) (Ascending n a0) (heap_ajust b (suc i) 0) _
          (heap_ajust-Repaired 0 b 0 (suc i) (omega arith) (omega arith) start)
          λ c (heap, moved). select-Ascending i c (omega arith) (
            SelectionInv-next AtLeast parent n a0 parent_climbs (λ x. omega arith)
              (λ x y z s t. omega arith) (suc i) a c hn p v moved heap))

  build_select : (b : List ℕ) → Repaired 0 n a0 b → Ends (Ascending n a0) (select (n - 1) b)
  unfolding select
  build_select b (heap, moved) = elim (dec_lt 0 n) [
    | yes p ↦
        let e : suc (n - 1) ≡ n = omega arith in
        let start = SelectionInv-start AtLeast parent n a0 b moved heap in
        let start' : SelectionInv AtLeast parent n a0 (suc (n - 1)) b = rw e start in
        select-Ascending (n - 1) b (omega arith) start'
    | no p ↦ let z : n ≡ 0 = omega arith in rw z (λ i j q s. absurd (omega arith), rw z at moved)
  ]

-- sort on the first n entries of an array that has them makes no access past its end and returns;
-- those entries are then in ascending order and a rearrangement of what they were, and the rest of
-- the array is as it was.
pub sort-Ascending : (a : List ℕ) (n : ℕ) → n ≤ length a → Ends (Ascending n a) (sort a n)
unfolding sort
sort-Ascending a n room =
    Ends-bind (Repaired 0 n a) (Ascending n a) (build_from n (n / 2 + 1) a) _
      (build_from-Repaired n (n / 2 + 1) a room λ c p q r. absurd (omega arith))
      λ b repaired. build_select n a room b repaired
