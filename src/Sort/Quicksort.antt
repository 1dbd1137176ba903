-- ===== src/Sort/Quicksort.antt =====
-- cpp/sort/quicksort.cpp: the first entry of a range is the pivot.
pub mod Scans
pub mod Exchange
pub mod Partition
pub mod Sorted
use pungoo.Common.{
  ℕ, zero, suc, ◌+◌, ◌-◌, Bool, true, false, not, ◌==◌, ltb, leb, if◌then◌else◌, List, [], ◌∷◌, Run,
  done, exhausted, ◌>>=◌,
}
use pungoo.Common.Int.{ℤ, pos, negsuc}
use pungoo.Sort.{read, write, swap_at, ints}

-- while (i < j && arr[j] > number) --j;
unfoldable pub scan_down : List ℕ → ℕ → ℕ → ℕ → Run ℕ
scan_down a number i zero = done zero
scan_down a number i (suc j) = elim (ltb i (suc j)) [
  | false ↦ done (suc j)
  | true ↦ read a (suc j) >>= λ x. elim (ltb number x) [
    | true ↦ scan_down a number i j
    | false ↦ done (suc j)
  ]
]

-- while (i < j && arr[i] <= number) ++i;
unfoldable pub scan_up : ℕ → List ℕ → ℕ → ℕ → ℕ → Run ℕ
scan_up zero a number i j = exhausted
scan_up (suc fuel) a number i j = elim (ltb i j) [
  | false ↦ done i
  | true ↦ read a i >>= λ x. elim (leb x number) [
    | true ↦ scan_up fuel a number (i + 1) j
    | false ↦ done i
  ]
]

-- The variables of partition.
pub record Partitioning : Type 0 where
  pub arr : List ℕ
  pub i : ℕ
  pub j : ℕ
  pub pivot : ℕ

-- What a round does behind the two scans. The last branch is the program's "how ?".
unfoldable pub exchange : ℕ → Partitioning → Run Partitioning
exchange number s =
    if ltb s.i s.j
    then (swap_at s.arr s.i s.j >>= λ b. done (record s { arr = b }))
    else if s.i == s.j
    then if s.i == s.pivot
      then done s
      else (read s.arr s.i >>= λ x. write s.arr s.pivot x >>= λ b.
          write b s.i number >>= λ c. done (record s { arr = c; pivot = s.i }))
    else done s

unfoldable pub partition_round : ℕ → Partitioning → Run Partitioning
unfolding scan_down scan_up exchange
partition_round number s = scan_down s.arr number s.i s.j >>= λ j.
    scan_up (j - s.i + 1) s.arr number s.i j >>= λ i. exchange number (record s { i = i; j = j })

unfoldable pub partition_loop : ℕ → ℕ → Partitioning → Run Partitioning
partition_loop zero number s = exhausted
partition_loop (suc fuel) number s = elim (ltb s.i s.j) [
  | false ↦ done s
  | true ↦ partition_round number s >>= λ s'. partition_loop fuel number s'
]

-- The array, and the index that is returned.
unfoldable pub partition : List ℕ → ℕ → ℕ → Run (ℕ × List ℕ)
unfolding partition_loop
partition a l r = read a l >>= λ number.
    partition_loop (r - l + 1) number (record { arr = a; i = l; j = r; pivot = l }) >>= λ s.
    done (s.pivot, s.arr)

-- i < j, where j may be -1.
abbrev pub is_below : ℕ → ℤ → Bool
is_below i (pos j) = ltb i j
is_below i (negsuc j) = false

abbrev pub less_one : ℕ → ℤ
less_one zero = negsuc 0
less_one (suc n) = pos n

abbrev pub index : ℤ → ℕ
index (pos n) = n
index (negsuc n) = 0

unfoldable pub sort : ℕ → List ℕ → ℕ → ℤ → Run (List ℕ)
sort zero a l r = exhausted
sort (suc fuel) a l r = elim (is_below l r) [
  | false ↦ done a
  | true ↦ partition a l (index r) >>= λ (pivot, b).
      sort fuel b l (less_one pivot) >>= λ c. sort fuel c (pivot + 1) r
]

unfoldable pub quicksort : List ℕ → ℕ → Run (List ℕ)
unfolding sort
quicksort a len = sort (len + 1) a 0 (less_one len)

abbrev main_rows : List (List ℕ)
main_rows =
    (0 ∷ 1 ∷ 2 ∷ 3 ∷ 4 ∷ 5 ∷ 6 ∷ 7 ∷ 8 ∷ 9 ∷ [])
    ∷ (9 ∷ 8 ∷ 7 ∷ 6 ∷ 5 ∷ 4 ∷ 3 ∷ 2 ∷ 1 ∷ 0 ∷ [])
    ∷ (1 ∷ 9 ∷ 2 ∷ 8 ∷ 3 ∷ 7 ∷ 4 ∷ 6 ∷ 0 ∷ 5 ∷ [])
    ∷ (1 ∷ 0 ∷ 0 ∷ 0 ∷ 0 ∷ 0 ∷ 0 ∷ 0 ∷ 0 ∷ 1 ∷ [])
    ∷ []

-- The ints that each line of the output shows.
sort_rows : List (List ℕ) → Run (List (List ℕ))
unfolding quicksort
sort_rows [] = done []
sort_rows (row ∷ rest) = quicksort (ints row) 10 >>= λ b. sort_rows rest >>= λ c. done (b ∷ c)

unfoldable pub main : Run (List (List ℕ))
unfolding sort_rows
main = sort_rows main_rows
