-- ===== src/Sort/Heapsort.antt =====
-- cpp/sort/heapsort.cpp: a heap with the least entry first, and its sort.
pub mod Repair
pub mod Sorted
use pungoo.Common.{
  ℕ, zero, suc, ◌+◌, ◌-◌, ◌*◌, ◌/◌, Bool, true, false, ◌==◌, ltb, if◌then◌else◌, List, [], ◌∷◌, Run,
  done, exhausted, ◌>>=◌,
}
use pungoo.Sort.{read, swap_at, ints}

-- if (left < heapsize) { if (arr[i] > arr[left]) smallest = left; else smallest = i; }, and the same
-- test of the right child against arr[smallest].
unfoldable pub smaller : List ℕ → ℕ → ℕ → ℕ → Run ℕ
smaller a heapsize smallest child =
    if ltb child heapsize
    then (read a smallest >>= λ x.
        read a child >>= λ y. if ltb y x then done child else done smallest)
    else done smallest

unfoldable pub heapify : ℕ → List ℕ → ℕ → ℕ → Run (List ℕ)
unfolding smaller
heapify zero a i heapsize = exhausted
heapify (suc fuel) a i heapsize = smaller a heapsize i (2 * i + 1) >>= λ smallest.
    smaller a heapsize smallest (2 * i + 2) >>= λ smallest'. elim (smallest' == i) [
      | true ↦ done a
      | false ↦ swap_at a i smallest' >>= λ b. heapify fuel b smallest' heapsize
    ]

-- for (int i = nonleaf; i >= 0; --i), from the node below `i`.
unfoldable pub build_from : ℕ → ℕ → List ℕ → Run (List ℕ)
unfolding heapify
build_from heapsize zero a = done a
build_from heapsize (suc i) a = heapify (heapsize + 1) a i heapsize >>= λ b. build_from heapsize i b

-- nonleaf is length / 2 - 1, so -1 for a length of 0 or 1.
unfoldable pub buildheap : List ℕ → ℕ → Run (List ℕ)
unfolding build_from
buildheap a len = build_from len (len / 2) a

-- `left` rounds are to come: the swap of the first and the last, and the repair of what is left.
unfoldable pub select : ℕ → List ℕ → ℕ → Run (List ℕ)
unfolding heapify
select zero a heapsize = done a
select (suc left) a heapsize = swap_at a 0 (heapsize - 1) >>= λ b.
    heapify (heapsize + 1) b 0 (heapsize - 1) >>= λ c. select left c (heapsize - 1)

unfoldable pub heapsort : List ℕ → ℕ → Run (List ℕ)
unfolding buildheap select
heapsort a len = buildheap a len >>= λ b. select (len - 1) b len

abbrev main_rows : List (List ℕ)
main_rows =
    (0 ∷ 1 ∷ 2 ∷ 3 ∷ 4 ∷ 5 ∷ 6 ∷ 7 ∷ 8 ∷ 9 ∷ [])
    ∷ (9 ∷ 8 ∷ 7 ∷ 6 ∷ 5 ∷ 4 ∷ 3 ∷ 2 ∷ 1 ∷ 0 ∷ [])
    ∷ (1 ∷ 9 ∷ 2 ∷ 8 ∷ 3 ∷ 7 ∷ 4 ∷ 6 ∷ 0 ∷ 5 ∷ [])
    ∷ (1 ∷ 0 ∷ 0 ∷ 0 ∷ 0 ∷ 0 ∷ 0 ∷ 0 ∷ 0 ∷ 1 ∷ [])
    ∷ []

-- The ints that each line of the output shows.
sort_rows : List (List ℕ) → Run (List (List ℕ))
unfolding heapsort
sort_rows [] = done []
sort_rows (row ∷ rest) = heapsort (ints row) 10 >>= λ b. sort_rows rest >>= λ c. done (b ∷ c)

unfoldable pub main : Run (List (List ℕ))
unfolding sort_rows
main = sort_rows main_rows
