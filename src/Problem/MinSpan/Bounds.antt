-- ===== src/Problem/MinSpan/Bounds.antt =====
-- Where min_span.cpp reads its array, and the bounds of what it returns.
use pungoo.Common.{
  lt→ltb, ℕ, zero, suc, ◌+◌, ◌-◌, ◌*◌, ◌%◌, ◌<◌, ◌≤◌, ◌≡◌, ◌⊎◌, inl, inr, refl, arith, Bool, true,
  false, Bool-cases, List, [], length, leb, ltb, ◌==◌, done, Ends, Ends-bind, entry_at,
}
use pungoo.Common.Int.{ℤ, pos, minus_one}
use pungoo.Problem.MinSpan.{
  Span, increase, count_of, shrink, shrinks, span_round, span_loop, span_counter,
}

-- No span is found, or one that is shorter than the ring and starts in it.
abbrev pub FoundIn : ℕ → ℕ × ℤ → Type 0
FoundIn n (len, first) =
    ((len ≡ n + 1) × (first ≡ minus_one)) ⊎ ((len < n) × (i : ℕ) × (i < n) × (first ≡ pos i))

record Inside (n : ℕ) (s : Span) : Type 0 where
  last : s.lastidx < n
  found : FoundIn n (s.bestlen, s.bestidx)

abbrev start : ℕ → Span
start n = record { lastidx = 0; colors = []; bestlen = n + 1; bestidx = minus_one; stop = false }

module _ (arr : List ℕ) (n m : ℕ) (ring : 0 < n) (fits : n ≤ length arr) where
  shrink-Inside : (i color : ℕ) (s : Span) → Inside n s → Inside n (shrink n i color s)
  unfolding shrink
  shrink-Inside i color s h = elim (Bool-cases (ltb ((i + 1 - s.lastidx) % n) s.bestlen)) [
    | inl better ↦
        rw better
          (record { last = h.last; found = inr (rest_below _ ring, s.lastidx, h.last, refl) })
    | inr same ↦ rw same (record { last = h.last; found = h.found })
  ]
    where
      rest_below : (k : ℕ) → 0 < n → k % n < n
      rest_below k r = grind arith

  shrinks-Inside : (left i : ℕ) (s : Span) → Inside n s → Ends (Inside n) (shrinks left arr n i s)
  unfolding shrinks
  shrinks-Inside zero i s h = h
  shrinks-Inside (suc left) i s h = elim (Bool-cases (leb n (s.lastidx + 1))) [
    | inl over ↦ rw (over, Ends) (record { last = h.last; found = h.found })
    | inr room ↦
        let (color, here) = entry_at arr s.lastidx (omega (arith, h.last)) in
        let last : (s.lastidx + 1) % n < n = grind arith in
        rw (room, shrinks, here)
          (elim (Bool-cases (ltb 1 (count_of s.colors color))) [
            | inl more ↦
                rw (more, Ends)
                  (shrinks-Inside left i _
                    (shrink-Inside i color _ (record { last = last; found = h.found })))
            | inr single ↦ rw (single, Ends) (record { last = last; found = h.found })
          ])
  ]

  span_round-Inside : (i : ℕ) (s : Span) → Inside n s → Ends (Inside n) (span_round arr n m i s)
  unfolding span_round
  span_round-Inside i s h =
      let inside : i % n < n = grind arith in
      let (color, here) = entry_at arr (i % n) (omega (arith, inside)) in
      rw here (elim (Bool-cases (m == length (increase s.colors color))) [
        | inl all ↦ rw all (shrinks-Inside _ i _ (record { last = h.last; found = h.found }))
        | inr few ↦ rw (few, Ends) (record { last = h.last; found = h.found })
      ])

  span_loop-Inside :
      (left i : ℕ) (s : Span) → Inside n s → Ends (Inside n) (span_loop left arr n m i s)
  unfolding span_loop
  span_loop-Inside zero i s h = h
  span_loop-Inside (suc left) i s h =
      Ends-bind (Inside n) (Inside n) (span_round arr n m i s) _ (span_round-Inside i s h)
        λ t q. stopped t.stop t q (span_loop-Inside left (i + 1) t q)
    where
      stopped :
          (stop : Bool) (t : Span)
          → Inside n t
          → Ends (Inside n) (span_loop left arr n m (i + 1) t)
          → Ends (Inside n) (elim stop [ true ↦ done t | false ↦ span_loop left arr n m (i + 1) t ])
      stopped true t q rest = q
      stopped false t q rest = rest

-- span_counter on a ring of n beads that the array holds, fewer than 2 ^ 30, makes no access outside
-- of it and returns: n + 1 and -1 if no span is found, and else a length below n and an index in the
-- ring.
pub span_counter-FoundIn :
    (arr : List ℕ) (n m : ℕ)
    → 0 < n
    → n ≤ length arr
    → n < 1073741824
    → Ends (FoundIn n) (span_counter arr n m)
unfolding span_counter
span_counter-FoundIn arr n m ring fits small = elim (Bool-cases (ltb n m)) [
  | inl few ↦ rw (few, Ends) (inl (refl, refl))
  | inr enough ↦
      rw (enough, lt→ltb (2 * n) 2147483648 (omega arith))
        (Ends-bind (Inside n) (FoundIn n) (span_loop (2 * n) arr n m 0 (start n)) _
          (span_loop-Inside arr n m ring fits (2 * n) 0 (start n)
            (record { last = ring; found = inl (refl, refl) }))
          λ s h. h.found)
]
