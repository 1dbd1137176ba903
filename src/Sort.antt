-- ===== src/Sort.antt =====
-- The sorts of cpp/sort. An `int` of their arrays is its offset from the least one, so that the
-- order of the ints is that of the native numbers: the programs only compare and move them.
mod Tests
pub mod Moves
pub mod Heap
pub mod Quicksort
pub mod Heapsort
pub mod Hsort
use pungoo.Common.{
  ℕ, zero, suc, ◌+◌, Option, none, some, List, [], ◌∷◌, ltb, if◌then◌else◌, length, get_elem?, set,
  Run, done, undefined, ◌>>=◌,
}
use pungoo.Disk.{or_undefined}

-- arr[i] and arr[i] = v: past the end of the array they are undefined behaviour.
unfoldable pub read : List ℕ → ℕ → Run ℕ
read a i = or_undefined (get_elem? a i)

unfoldable pub write : List ℕ → ℕ → ℕ → Run (List ℕ)
write a i v = if ltb i (length a) then done (set a i v) else undefined

-- temp = arr[i]; arr[i] = arr[j]; arr[j] = temp;
unfoldable pub swap_at : List ℕ → ℕ → ℕ → Run (List ℕ)
unfolding read write
swap_at a i j = read a i >>= λ temp. read a j >>= λ other. write a i other >>= λ b. write b j temp

-- A literal of the source.
abbrev pub int : ℕ → ℕ
int n = n + 2147483648

abbrev pub ints : List ℕ → List ℕ
ints [] = []
ints (n ∷ r) = int n ∷ ints r
