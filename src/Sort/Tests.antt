-- ===== src/Sort/Tests.antt =====
-- The three sorts of cpp/sort on concrete arrays, and the rows that their programs print.
use pungoo.Common.{ℕ, ◌≡◌, refl, List, [], ◌∷◌, arith, done, Ends}
use pungoo.Sort.{ints, read, write, swap_at}
use pungoo.Sort.Quicksort
use pungoo.Sort.Quicksort.Sorted.{SortedRange, quicksort-SortedRange}
use pungoo.Sort.Heapsort
use pungoo.Sort.Heapsort.Sorted.{Descending, heapsort-Descending}
use pungoo.Sort.Hsort
use pungoo.Sort.Hsort.Sorted.{Ascending, sort-Ascending}

abbrev sample : List ℕ
sample = 5 ∷ 2 ∷ 9 ∷ 2 ∷ 7 ∷ 1 ∷ []

quicksort-SortedRange_example : Ends (SortedRange 0 5 sample) (Quicksort.quicksort sample 5)
quicksort-SortedRange_example = quicksort-SortedRange sample 5 (omega arith)

heapsort-Descending_example : Ends (Descending 5 sample) (Heapsort.heapsort sample 5)
heapsort-Descending_example = heapsort-Descending sample 5 (omega arith)

sort-Ascending_example : Ends (Ascending 5 sample) (Hsort.sort sample 5)
sort-Ascending_example = sort-Ascending sample 5 (omega arith)

partition-sample : Quicksort.partition sample 0 4 ≡ done (2, 2 ∷ 2 ∷ 5 ∷ 9 ∷ 7 ∷ 1 ∷ [])
unfolding read swap_at Quicksort.partition_round Quicksort.partition
partition-sample = refl

quicksort-sample : Quicksort.quicksort sample 5 ≡ done (2 ∷ 2 ∷ 5 ∷ 7 ∷ 9 ∷ 1 ∷ [])
unfolding read swap_at Quicksort.partition_round Quicksort.partition Quicksort.quicksort
quicksort-sample = refl

heapsort-sample : Heapsort.heapsort sample 6 ≡ done (9 ∷ 7 ∷ 5 ∷ 2 ∷ 2 ∷ 1 ∷ [])
unfolding read swap_at Heapsort.heapsort
heapsort-sample = refl

hsort_sample : Hsort.sort sample 6 ≡ done (1 ∷ 2 ∷ 2 ∷ 5 ∷ 7 ∷ 9 ∷ [])
unfolding read swap_at Hsort.sort
hsort_sample = refl

abbrev digits : List ℕ
digits = ints (0 ∷ 1 ∷ 2 ∷ 3 ∷ 4 ∷ 5 ∷ 6 ∷ 7 ∷ 8 ∷ 9 ∷ [])

quicksort_main :
    Quicksort.main
    ≡ done (digits ∷ digits ∷ digits ∷ ints (0 ∷ 0 ∷ 0 ∷ 0 ∷ 0 ∷ 0 ∷ 0 ∷ 0 ∷ 1 ∷ 1 ∷ []) ∷ [])
unfolding read write swap_at Quicksort.partition_round Quicksort.partition Quicksort.main
quicksort_main = refl
