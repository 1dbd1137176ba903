-- ===== src/Problem/MinSpan/Overrun.antt =====
-- min_span.cpp with more beads than the array has entries.
use pungoo.Common.{
  ℕ, zero, suc, ◌+◌, ◌-◌, ◌*◌, ◌%◌, ◌<◌, ◌≤◌, ◌≡◌, inl, inr, refl, arith, Bool, true, false,
  Bool-cases, List, [], length, leb, ltb, ltb→lt, ltb→le, ◌==◌, done, undefined, Ends, Ends-done,
  entry_at, no_entry_at,
}
use pungoo.Common.Int.{minus_one}
use pungoo.Problem.MinSpan.{
  Span, increase, count_of, shrink, shrinks, span_round, span_loop, span_counter,
}

-- The span starts at most at `i`, and the loop goes on.
record Before (i : ℕ) (s : Span) : Type 0 where
  last : s.lastidx ≤ i
  runs : s.stop ≡ false

shrink_keeps :
    (n i color : ℕ) (s : Span)
    → ((shrink n i color s).lastidx ≡ s.lastidx) × ((shrink n i color s).stop ≡ s.stop)
unfolding shrink
shrink_keeps n i color s = elim (Bool-cases (ltb ((i + 1 - s.lastidx) % n) s.bestlen)) [
  | inl better ↦ rw better (refl, refl)
  | inr same ↦ rw same (refl, refl)
]

module _ (arr : List ℕ) (n m : ℕ) (over : length arr < n) (colors : 0 < m) where
  shrinks-Before :
      (left i : ℕ) (s : Span)
      → i < length arr
      → s.lastidx + left ≤ i + 1
      → s.stop ≡ false
      → Ends (Before (i + 1)) (shrinks left arr n i s)
  unfolding shrinks
  shrinks-Before zero i s h last runs = record { last = omega arith; runs = runs }
  shrinks-Before (suc left) i s h last runs =
      let room : leb n (s.lastidx + 1) ≡ false = ground arith in
      let step : (s.lastidx + 1) % n ≡ s.lastidx + 1 = grind arith in
      let (color, here) = entry_at arr s.lastidx (omega arith) in
      let next : Span = record s { lastidx = (s.lastidx + 1) % n } in
      let (same, still) = shrink_keeps n i color next in
      rw (room, shrinks, here, Ends)
        (elim (Bool-cases (ltb 1 (count_of s.colors color))) [
          | inl more ↦
              rw (more, Ends)
                (shrinks-Before left i (shrink n i color next) h (omega (arith, same, step, last))
                  (rw still runs))
          | inr single ↦
              rw (single, Ends) (record { last = omega (arith, step, last); runs = runs })
        ])

  span_round-Before :
      (i : ℕ) (s : Span)
      → i < length arr
      → Before i s
      → Ends (Before (i + 1)) (span_round arr n m i s)
  unfolding span_round
  span_round-Before i s h b =
      let same : i % n ≡ i = grind arith in
      let (color, here) = entry_at arr i h in
      let few : (i + 1 - s.lastidx) % n ≤ i + 1 - s.lastidx = grind arith in
      rw (same, span_round, here, Ends)
        (elim (Bool-cases (m == length (increase s.colors color))) [
          | inl all ↦
              rw (all, Ends)
                (shrinks-Before ((i + 1 - s.lastidx) % n + 1 - m) i _ h (omega (arith, few, b.last))
                  b.runs)
          | inr other ↦ rw (other, Ends) (record { last = omega (arith, b.last); runs = b.runs })
        ])

  past_end : (i : ℕ) (s : Span) → i ≡ length arr → span_round arr n m i s ≡ undefined
  unfolding span_round
  past_end i s e =
      let same : i % n ≡ i = grind arith in
      let nothing = no_entry_at arr i (omega arith) in rw (same, span_round, nothing) refl

  goes_on :
      (left i : ℕ) (t : Span)
      → t.stop ≡ false
      → span_loop left arr n m (i + 1) t ≡ undefined
      → (elim t.stop [ true ↦ done t | false ↦ span_loop left arr n m (i + 1) t ]) ≡ undefined
  goes_on left i t runs e = helper t.stop runs
    where
      helper :
          (stop : Bool)
          → stop ≡ false
          → (elim stop [ true ↦ done t | false ↦ span_loop left arr n m (i + 1) t ]) ≡ undefined
      helper true f = cc
      helper false f = e

  span_loop-undefined :
      (left i : ℕ) (s : Span)
      → i ≤ length arr
      → length arr < i + left
      → Before i s
      → span_loop left arr n m i s ≡ undefined
  unfolding span_loop
  span_loop-undefined zero i s h far b = absurd (omega arith)
  span_loop-undefined (suc left) i s h far b = elim (Bool-cases (ltb i (length arr))) [
    | inl inside ↦
        let (t, round, next) =
          Ends-done (Before (i + 1)) (span_round arr n m i s)
            (span_round-Before i s (ltb→lt _ _ inside) b) in
        rw round (
          goes_on left i t next.runs (
            span_loop-undefined left (i + 1) t (omega (arith, ltb→lt _ _ inside)) (omega arith)
              next))
    | inr outside ↦ rw (past_end i s (omega (arith, ltb→le _ _ outside))) refl
  ]

-- Where at least one colour is asked for, and not more colours than there are beads, span_counter is
-- undefined if there are more beads than entries in the array, whatever it holds: the first loop
-- comes to the end of the array before it can stop (or 2 * n overflows before that).
pub span_counter-undefined :
    (arr : List ℕ) (n m : ℕ) → length arr < n → 0 < m → m ≤ n → span_counter arr n m ≡ undefined
unfolding span_counter
span_counter-undefined arr n m over colors enough =
    let room : ltb n m ≡ false = ground arith in
    let run =
      span_loop-undefined arr n m over colors (2 * n) 0
        (record { lastidx = 0; colors = []; bestlen = n + 1; bestidx = minus_one; stop = false })
        (omega arith) (omega arith) (record { last = omega arith; runs = refl }) in
    elim (Bool-cases (ltb (2 * n) 2147483648)) [
      | inl fits ↦ rw (room, fits, run) refl
      | inr large ↦ rw (room, large) refl
    ]
