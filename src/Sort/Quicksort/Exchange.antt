-- ===== src/Sort/Quicksort/Exchange.antt =====
-- A round of partition, once its scans have stopped: what the exchange makes of the range.
use pungoo.Common.{
  ℕ, ◌+◌, ◌-◌, ◌<◌, ◌≤◌, ◌≡◌, ◌≢◌, List, arith, ltb, eq→==, ==→eq, ltb→lt, ltb→le, ◌==◌, length,
  Ends, ◌⊎◌, inl, inr, Bool-cases,
}
use pungoo.Sort.Moves.{
  entry, read_lem, write_lem, write-swap, swap, swap_at-swap, entry-swap, Rearranged,
  Rearranged-trans, Rearranged-swap,
}
use pungoo.Sort.Quicksort.{Partitioning, exchange}
use pungoo.Sort.Quicksort.Scans.{Down, Up}

-- The start of a round: the range is split around i and j, and the pivot stands at `l`.
pub record Split (a0 : List ℕ) (l r number : ℕ) (s : Partitioning) : Type 0 where
  pub moved : Rearranged l (r + 1) a0 s.arr
  pub room : r < length s.arr
  pub kept : entry s.arr l ≡ number
  pub from : l ≤ s.i
  pub order : s.i ≤ s.j
  pub to : s.j ≤ r
  pub low : (k : ℕ) → l ≤ k → k ≤ s.i → entry s.arr k ≤ number
  pub high : (k : ℕ) → s.j < k → k ≤ r → number < entry s.arr k

-- The end: the pivot stands between the two parts.
pub record Parted (a0 : List ℕ) (l r : ℕ) (p : ℕ) (b : List ℕ) : Type 0 where
  pub moved : Rearranged l (r + 1) a0 b
  pub from : l ≤ p
  pub to : p ≤ r
  pub low : (k : ℕ) → l ≤ k → k < p → entry b k ≤ entry b p
  pub high : (k : ℕ) → p < k → k ≤ r → entry b p < entry b k

module _ (a0 : List ℕ) (l r number : ℕ) where
  -- A round goes on with a smaller gap, or has put the pivot into its place.
  abbrev pub After : ℕ → Partitioning → Type 0
  After gap t =
      (Split a0 l r number t × (t.i < t.j) × (t.pivot ≡ l) × (t.j - t.i < gap))
      ⊎ (Parted a0 l r t.pivot t.arr × (t.j ≤ t.i))

  module _ (s : Partitioning) (i' j' : ℕ) (p : Split a0 l r number s) (less : s.i < s.j)
      (f : s.pivot ≡ l) (d : Down s.arr number s.i s.j j') (u : Up s.arr number s.i s.i j' i') where
    -- What is known of the entries once the scans have stopped.
    low_there : (k : ℕ) → l ≤ k → k < i' → entry s.arr k ≤ number
    low_there k a b = elim (Bool-cases (ltb s.i k)) [
      | inl later ↦ u.2 k (omega (arith, ltb→lt _ _ later)) b
      | inr first ↦ p.low k a (ltb→le _ _ first)
    ]

    high_there : (k : ℕ) → j' < k → k ≤ r → number < entry s.arr k
    high_there k a b = elim (Bool-cases (ltb s.j k)) [
      | inl later ↦ p.high k (ltb→lt _ _ later) b
      | inr first ↦ d.2 k a (ltb→le _ _ first)
    ]

    low_met : entry s.arr j' ≤ number
    low_met = elim d.3 [ inl e ↦ rw (← e) (p.low s.i p.from (omega arith)) | inr e ↦ e ]

    further : i' < j' → s.i < i'
    further h = elim (Bool-cases (ltb s.i i')) [
      | inl e ↦ ltb→lt _ _ e
      | inr e ↦
          let same : i' ≡ s.i = omega (arith, ltb→le _ _ e, u.0) in
          elim u.3 [
            | inl g ↦ absurd (omega arith)
            | inr g ↦
                let g' = rw same at g in absurd (omega (arith, g', p.low s.i p.from (omega arith)))
          ]
    ]

    apart-Split :
        i' < j' → Split a0 l r number (record s { arr = swap s.arr i' j'; i = i'; j = j' })
    apart-Split h =
        let hi : i' < length s.arr = omega (arith, d.1, p.to, p.room) in
        let hj : j' < length s.arr = omega (arith, d.1, p.to, p.room) in
        let at = entry-swap s.arr i' j' hi hj in
        let away = further h in
        let bound : j' ≤ r = omega (arith, d.1, p.to) in
        let base : l < i' = omega (arith, p.from) in
        let less' : entry s.arr j' ≤ number = low_met in
        let big : number < entry s.arr i' = elim u.3 [ inl e ↦ absurd (omega arith) | inr e ↦ e ] in
        let next =
          Rearranged-swap {l = l} {e = r + 1} s.arr i' j' hi hj (omega arith) (omega arith)
            (omega arith) (omega arith) in
        record {
          moved = Rearranged-trans p.moved next;
          room = omega (arith, next.size, p.room);
          kept = ground (arith, at l, p.kept);
          from = omega arith;
          order = omega arith;
          to = bound;
          low = λ k a b. elim (Bool-cases (ltb k i')) [
            | inl e ↦ let old = low_there k a (ltb→lt _ _ e) in ground (arith, at k)
            | inr e ↦ let same : k ≡ i' = omega (arith, ltb→le _ _ e) in ground (arith, at k)
          ];
          high = λ k a b. let old = high_there k a b in ground (arith, at k);
        }

    met_home : i' ≡ j' → i' ≡ l → Parted a0 l r l s.arr
    met_home h e = record {
      moved = p.moved;
      from = omega arith;
      to = omega (arith, p.from, p.to, less);
      low = λ k a b. absurd (omega arith);
      high = λ k a b. let old = high_there k (omega arith) b in omega (arith, p.kept);
    }

    met_away : i' ≡ j' → i' ≢ l → Parted a0 l r i' (swap s.arr l i')
    met_away h e =
        let hl : l < length s.arr = omega (arith, p.from, p.to, less, p.room) in
        let hi : i' < length s.arr = omega (arith, d.1, p.to, p.room) in
        let at = entry-swap s.arr l i' hl hi in
        let bound : i' ≤ r = omega (arith, d.1, p.to) in
        let base : l < i' = omega (arith, p.from, u.0) in
        let less' : entry s.arr i' ≤ number = rw h low_met in
        let here : entry (swap s.arr l i') i' ≡ number = ground (arith, at i', p.kept) in
        record {
          moved = Rearranged-trans p.moved (
              Rearranged-swap {l = l} {e = r + 1} s.arr l i' hl hi (omega arith) (omega arith)
                (omega arith) (omega arith));
          from = omega arith;
          to = bound;
          low = λ k a b. let old = low_there k a b in ground (arith, at k);
          high = λ k a b. let old = high_there k (omega arith) b in ground (arith, at k);
        }

    pub exchange-After :
        l ≤ s.i → Ends (After (s.j - s.i)) (exchange number (record s { i = i'; j = j' }))
    unfolding exchange
    exchange-After le = elim (Bool-cases (ltb i' j')) [
      | inl e ↦
          let h = ltb→lt i' j' e in
          let hi : i' < length s.arr = omega (arith, d.1, p.to, p.room) in
          let hj : j' < length s.arr = omega (arith, d.1, p.to, p.room) in
          let away = further h in
          rw (e, swap_at-swap s.arr i' j' hi hj) (inl (apart-Split h, h, f, omega (arith, d.1)))
      | inr e ↦
          let met : i' ≡ j' = omega (arith, ltb→le _ _ e, u.1) in
          let bound : i' < length s.arr = omega (arith, d.1, p.to, p.room) in
          let hl : l < length s.arr = omega (arith, p.from, p.to, less, p.room) in
          elim (Bool-cases (i' == l)) [
            | inl home ↦
                rw (e, eq→== i' j' met, f, home) (inr (met_home met (==→eq i' l home), omega arith))
            | inr away ↦
                rw
                  (
                    e,
                    eq→== i' j' met,
                    f,
                    away,
                    read_lem s.arr i' bound,
                    ← p.kept,
                    write_lem s.arr l (entry s.arr i') hl,
                    write-swap s.arr l i' hl bound,
                  )
                  (inr (met_away met λ same. cc (eq→== i' l same), omega arith))
          ]
    ]
