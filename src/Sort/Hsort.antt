-- ===== src/Sort/Hsort.antt =====
-- cpp/sort/hsort.cpp: a heap with the greatest entry first, where the children of node k are 2 k and
-- 2 k + 1, so that node 0 has node 1 as its one child; and its sort.
pub mod Repair
pub mod Sorted
use pungoo.Common.{
  ℕ, zero, suc, ◌+◌, ◌-◌, ◌*◌, ◌/◌, Bool, true, false, ◌||◌, Option, none, some, leb, ltb,
  if◌then◌else◌, List, [], ◌∷◌, Run, done, exhausted, ◌>>=◌,
}
use pungoo.Sort.{read, swap_at, ints}

-- The node that changes places with `pos`; `none` is the break.
unfoldable pub target : List ℕ → ℕ → ℕ → ℕ → Run (Option ℕ)
target a n pos i = read a pos >>= λ temp.
    if ltb (i + 1) n
    then (read a i >>= λ x. read a (i + 1) >>= λ y.
        if ltb temp x || ltb temp y
        then (if ltb x y then done (some (i + 1)) else done (some i))
        else done none)
    else (read a i >>= λ x. if ltb temp x then done (some i) else done none)

-- for (int i = pos * 2; i < n; i = pos * 2)
unfoldable pub adjust_loop : ℕ → List ℕ → ℕ → ℕ → Run (List ℕ)
unfolding target
adjust_loop zero a n pos = exhausted
adjust_loop (suc fuel) a n pos = elim (ltb (pos * 2) n) [
  | false ↦ done a
  | true ↦ target a n pos (pos * 2) >>= λ found. elim found [
    | none ↦ done a
    | some next ↦ swap_at a pos next >>= λ b. adjust_loop fuel b n next
  ]
]

unfoldable pub heap_ajust : List ℕ → ℕ → ℕ → Run (List ℕ)
unfolding adjust_loop
heap_ajust a n pos = if leb n pos then done a else adjust_loop (n + 1) a n pos

-- for (int i = n / 2; i >= 0; --i), from the node below `i`.
unfoldable pub build_from : ℕ → ℕ → List ℕ → Run (List ℕ)
unfolding heap_ajust
build_from n zero a = done a
build_from n (suc i) a = heap_ajust a n i >>= λ b. build_from n i b

-- for (int i = n - 1; i > 0; --i), from the index `i`.
unfoldable pub select : ℕ → List ℕ → Run (List ℕ)
unfolding heap_ajust
select zero a = done a
select (suc i) a = swap_at a 0 (suc i) >>= λ b. heap_ajust b (suc i) 0 >>= λ c. select i c

unfoldable pub sort : List ℕ → ℕ → Run (List ℕ)
unfolding build_from select
sort a n = build_from n (n / 2 + 1) a >>= λ b. select (n - 1) b

abbrev main_rows : List (List ℕ)
main_rows =
    (0 ∷ 1 ∷ 2 ∷ 3 ∷ 4 ∷ 5 ∷ 6 ∷ 7 ∷ 8 ∷ 9 ∷ [])
    ∷ (9 ∷ 8 ∷ 7 ∷ 5 ∷ 5 ∷ 4 ∷ 3 ∷ 2 ∷ 1 ∷ 0 ∷ [])
    ∷ (1 ∷ 9 ∷ 2 ∷ 7 ∷ 3 ∷ 7 ∷ 4 ∷ 6 ∷ 0 ∷ 5 ∷ [])
    ∷ (1 ∷ 0 ∷ 0 ∷ 2 ∷ 3 ∷ 0 ∷ 0 ∷ 0 ∷ 0 ∷ 1 ∷ [])
    ∷ []

-- The ints that each line of the output shows.
sort_rows : List (List ℕ) → Run (List (List ℕ))
unfolding sort
sort_rows [] = done []
sort_rows (row ∷ rest) = sort (ints row) 10 >>= λ b. sort_rows rest >>= λ c. done (b ∷ c)

unfoldable pub main : Run (List (List ℕ))
unfolding sort_rows
main = sort_rows main_rows
