-- ===== src/Problem/MinSpan/Single.antt =====
-- min_span.cpp when it is asked for a span with one colour.
use pungoo.Common.{
  lt→ltb, ℕ, zero, suc, ◌+◌, ◌-◌, ◌*◌, ◌%◌, ◌<◌, ◌≤◌, ◌≡◌, inl, inr, refl, arith, true, false,
  Bool-cases, List, [], ◌∷◌, length, leb, ltb, ltb→lt, ltb→le, some, Ends, Ends-done, ◌∙◌, ◌==◌,
  get_elem?, done, entry_at,
}
use pungoo.Common.Int.{minus_one}
use pungoo.Problem.MinSpan.{
  Span, count_of, erase, shrink, shrinks, span_round, span_loop, span_counter,
}

-- Nothing is found, and no bead is in the span.
abbrev empty : ℕ → ℕ → Span
empty n i = record { lastidx = i; colors = []; bestlen = n + 1; bestidx = minus_one; stop = false }

eq_self : (c : ℕ) → (c == c) ≡ true
eq_self c = ground arith

-- Behind the bead that comes in.
abbrev with_bead : ℕ → ℕ → ℕ → Span
with_bead n i color = record (empty n i) { colors = (color, 1) ∷ [] }

module _ (arr : List ℕ) (n : ℕ) (ring : 2 ≤ n) where
  thrown :
      (i color : ℕ)
      → (i + 1) % n ≡ i + 1
      → (color == color) ≡ true
      → (elim (ltb 1 (count_of ((color, 1) ∷ []) color)) [
        | true ↦
            shrinks 0 arr n i
              (shrink n i color (record (with_bead n i color) { lastidx = (i + 1) % n }))
        | false ↦ done (record (with_bead n i color) {
          lastidx = (i + 1) % n;
          colors = erase ((color, 1) ∷ []) color;
        })
      ])
        ≡ done (empty n (i + 1))
  thrown i color step this = rw (this, step, this) refl

  -- It is thrown out at once.
  shrinks_one :
      (i color : ℕ)
      → get_elem? arr i ≡ some color
      → i + 1 < n
      → shrinks 1 arr n i (with_bead n i color) ≡ done (empty n (i + 1))
  unfolding shrinks
  shrinks_one i color here h =
      let room : leb n (i + 1) ≡ false = ground arith in
      let step : (i + 1) % n ≡ i + 1 = grind arith in
      let this = eq_self color in rw (room, shrinks, here) (thrown i color step this)

  shrinks_last :
      (i color : ℕ)
      → i + 1 ≡ n
      → shrinks 1 arr n i (with_bead n i color)
        ≡ done (record (with_bead n i color) { stop = true })
  unfolding shrinks
  shrinks_last i color h = let room : leb n (i + 1) ≡ true = ground arith in rw (room, shrinks) refl

  round_one :
      (i color : ℕ)
      → get_elem? arr i ≡ some color
      → i < n
      → span_round arr n 1 i (empty n i) ≡ shrinks 1 arr n i (with_bead n i color)
  unfolding span_round
  round_one i color here h =
      let same : i % n ≡ i = grind arith in
      let one : (i + 1 - i) % n + 1 - 1 ≡ 1 = grind arith in rw (same, span_round, here, one) refl

  loop_empty :
      (left i : ℕ)
      → n ≤ length arr
      → i < n
      → n ≤ i + left
      → Ends
          (λ (s : Span). (s.bestlen ≡ n + 1) × (s.bestidx ≡ minus_one))
          (span_loop left arr n 1 i (empty n i))
  unfolding span_loop
  loop_empty zero i fits h far = absurd (omega arith)
  loop_empty (suc left) i fits h far =
      let (color, here) = entry_at arr i (omega arith) in
      elim (Bool-cases (ltb (i + 1) n)) [
        | inl more ↦
            let below = ltb→lt _ _ more in
            let round : span_round arr n 1 i (empty n i) ≡ done (empty n (i + 1)) =
              round_one i color here h ∙ shrinks_one i color here below in
            rw round (loop_empty left (i + 1) fits below (omega arith))
        | inr last ↦
            let end : i + 1 ≡ n = omega (arith, ltb→le _ _ last) in
            let round : span_round arr n 1 i (empty n i)
                ≡ done (record (with_bead n i color) { stop = true }) =
              round_one i color here h ∙ shrinks_last i color end in
            rw round (refl, refl)
      ]

-- When it is asked for one colour, span_counter finds nothing in a ring of two beads or more (fewer
-- than 2 ^ 30, all of them in the array), though each bead is a span with one colour: it returns n + 1
-- and -1.
pub span_counter-one_color :
    (arr : List ℕ) (n : ℕ)
    → 2 ≤ n
    → n ≤ length arr
    → n < 1073741824
    → span_counter arr n 1 ≡ done (n + 1, minus_one)
unfolding span_counter
span_counter-one_color arr n ring fits small =
    let room : ltb n 1 ≡ false = ground arith in
    let (s, run, (len, first)) =
      Ends-done (λ (s : Span). (s.bestlen ≡ n + 1) × (s.bestidx ≡ minus_one)) _
        (loop_empty arr n ring (2 * n) 0 fits (omega arith) (omega arith)) in
    rw (room, lt→ltb (2 * n) 2147483648 (omega arith), run, len, first) refl
