-- ===== src/Sort/Quicksort/Partition.antt =====
-- partition: everything up to the pivot's new place is at most the pivot, and the rest is above it.
use pungoo.Common.{
  ℕ, zero, suc, ◌+◌, ◌-◌, ◌<◌, ◌≤◌, ◌≡◌, refl, List, arith, lt→ltb, le→ltb, length, done, Ends,
  Ends-bind, inl, inr,
}
use pungoo.Sort.Moves.{entry, read_lem, Rearranged-refl}
use pungoo.Sort.Quicksort.{
  scan_down, scan_up, Partitioning, partition_round, partition_loop, partition,
}
use pungoo.Sort.Quicksort.Scans.{Down, Up, scan_down-Down, scan_up-Up}
use pungoo.Sort.Quicksort.Exchange.{Split, Parted, After, exchange-After}

partition_loop_stop :
    (fuel number : ℕ) (t : Partitioning)
    → 0 < fuel
    → t.j ≤ t.i
    → partition_loop fuel number t ≡ done t
unfolding partition_loop
partition_loop_stop zero number t h stop = absurd (omega arith)
partition_loop_stop (suc fuel) number t h stop = rw (le→ltb _ _ stop, partition_loop) refl

module _ (a0 : List ℕ) (l r number : ℕ) where
  partition_round-After :
      (s : Partitioning)
      → Split a0 l r number s
      → s.i < s.j
      → s.pivot ≡ l
      → Ends (After a0 l r number (s.j - s.i)) (partition_round number s)
  unfolding partition_round
  partition_round-After s p less f =
      Ends-bind (Down s.arr number s.i s.j) (After a0 l r number (s.j - s.i))
        (scan_down s.arr number s.i s.j) _
        (scan_down-Down s.arr number s.i s.j (omega arith) (omega (arith, p.to, p.room)))
        λ j' d.
          Ends-bind (Up s.arr number s.i s.i j') (After a0 l r number (s.j - s.i))
            (scan_up (j' - s.i + 1) s.arr number s.i j') _
            (scan_up-Up s.arr number s.i (j' - s.i + 1) s.i j' (omega (arith, d.0)) d.0
              (omega (arith, d.1, p.to, p.room)))
            λ i' u. exchange-After a0 l r number s i' j' p less f d u p.from

  LoopEnd : Partitioning → Type 0
  LoopEnd t = Parted a0 l r t.pivot t.arr

  partition_loop-Parted :
      (fuel : ℕ) (s : Partitioning)
      → Split a0 l r number s
      → s.i < s.j
      → s.pivot ≡ l
      → s.j - s.i < fuel
      → Ends LoopEnd (partition_loop fuel number s)
  unfolding partition_loop LoopEnd
  partition_loop-Parted zero s p less f h = absurd (omega arith)
  partition_loop-Parted (suc fuel) s p less f h =
      rw (lt→ltb _ _ less, partition_loop)
        (Ends-bind (After a0 l r number (s.j - s.i)) LoopEnd (partition_round number s) _
          (partition_round-After s p less f)
          λ t after. elim after [
            | inl (next, more, home, gap) ↦
                partition_loop-Parted fuel t next more home (omega arith)
            | inr (last, stop) ↦ rw (partition_loop_stop fuel number t (omega arith) stop) last
          ])

-- The pivot goes to its place in the order, wherever the range lies in the array.
pub partition-Parted :
    (a : List ℕ) (l r : ℕ)
    → l < r
    → r < length a
    → Ends (λ (p, b). Parted a l r p b) (partition a l r)
unfolding partition LoopEnd
partition-Parted a l r h room = rw (read_lem a l (omega arith)) (
    Ends-bind (LoopEnd a l r (entry a l)) (λ (p, b). Parted a l r p b)
      (partition_loop (r - l + 1) (entry a l) _) _
      (partition_loop-Parted a l r (entry a l) (r - l + 1) _
        (record {
          moved = Rearranged-refl l (r + 1) a;
          room = room;
          kept = refl;
          from = omega arith;
          order = omega arith;
          to = omega arith;
          low = λ k p q. let same : k ≡ l = omega arith in rw same (omega arith);
          high = λ k p q. absurd (omega arith);
        })
        h refl (omega arith))
      λ s parted. parted)
