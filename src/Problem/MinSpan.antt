-- ===== src/Problem/MinSpan.antt =====
-- cpp/problem/min_span.cpp: n beads in a ring, and the shortest span with m colours. The map of the
-- counts is an association list; n and m are not negative.
pub mod Bounds
pub mod Overrun
pub mod Single
use pungoo.Common.{
  ℕ, zero, suc, ◌+◌, ◌-◌, ◌*◌, ◌%◌, Bool, true, false, leb, ltb, ◌==◌, if◌then◌else◌, List, [], ◌∷◌,
  length, get_elem?, Run, done, undefined, ◌>>=◌,
}
use pungoo.Common.Int.{ℤ, pos, minus_one}
use pungoo.Disk.{or_undefined}

-- mapColor[color], where a color that is not there counts 0.
abbrev pub count_of : List (ℕ × ℕ) → ℕ → ℕ
count_of [] color = 0
count_of ((c, k) ∷ rest) color = if c == color then k else count_of rest color

-- ++mapColor[color]
abbrev pub increase : List (ℕ × ℕ) → ℕ → List (ℕ × ℕ)
increase [] color = (color, 1) ∷ []
increase ((c, k) ∷ rest) color =
    if c == color then (c, k + 1) ∷ rest else (c, k) ∷ increase rest color

-- --mapColor[color]
abbrev pub decrease : List (ℕ × ℕ) → ℕ → List (ℕ × ℕ)
decrease [] color = []
decrease ((c, k) ∷ rest) color =
    if c == color then (c, k - 1) ∷ rest else (c, k) ∷ decrease rest color

abbrev pub erase : List (ℕ × ℕ) → ℕ → List (ℕ × ℕ)
erase [] color = []
erase ((c, k) ∷ rest) color = if c == color then rest else (c, k) ∷ erase rest color

-- The variables of span_counter; `stop` is the flag that leaves the outer loop.
pub record Span : Type 0 where
  pub lastidx : ℕ
  pub colors : List (ℕ × ℕ)
  pub bestlen : ℕ
  pub bestidx : ℤ
  pub stop : Bool

-- What a bead that leaves the span does, where its color is left in it.
unfoldable pub shrink : ℕ → ℕ → ℕ → Span → Span
shrink n i color s =
    let len = (i + 1 - s.lastidx) % n in
    let colors = decrease s.colors color in
    if ltb len s.bestlen
    then record s { colors = colors; bestlen = len; bestidx = pos s.lastidx }
    else record s { colors = colors }

-- for (int j = 0; j < curlen1 - m + 1; ++j), with `left` rounds to come.
unfoldable pub shrinks : ℕ → List ℕ → ℕ → ℕ → Span → Run Span
unfolding shrink
shrinks zero arr n i s = done s
shrinks (suc left) arr n i s = elim (leb n (s.lastidx + 1)) [
  | true ↦ done (record s { stop = true })
  | false ↦ or_undefined (get_elem? arr s.lastidx) >>= λ color.
      elim (ltb 1 (count_of s.colors color)) [
        | true ↦
            shrinks left arr n i (shrink n i color (record s { lastidx = (s.lastidx + 1) % n }))
        | false ↦ done (record s { lastidx = (s.lastidx + 1) % n; colors = erase s.colors color })
      ]
]

-- One bead that the span takes in.
unfoldable pub span_round : List ℕ → ℕ → ℕ → ℕ → Span → Run Span
unfolding shrinks
span_round arr n m i s = or_undefined (get_elem? arr (i % n)) >>= λ color.
    let t : Span = record s { colors = increase s.colors color } in
    if m == length t.colors then shrinks ((i + 1 - t.lastidx) % n + 1 - m) arr n i t else done t

-- for (int i = 0; i < 2 * n; ++i), with `left` rounds to come.
unfoldable pub span_loop : ℕ → List ℕ → ℕ → ℕ → ℕ → Span → Run Span
unfolding span_round
span_loop zero arr n m i s = done s
span_loop (suc left) arr n m i s = span_round arr n m i s >>= λ t. elim t.stop [
  | true ↦ done t
  | false ↦ span_loop left arr n m (i + 1) t
]

-- The length, and `first`. `2 * n` is computed in int, where an overflow is undefined.
unfoldable pub span_counter : List ℕ → ℕ → ℕ → Run (ℕ × ℤ)
unfolding span_loop
span_counter arr n m =
    if ltb n m
    then done (n + 1, minus_one)
    else if ltb (2 * n) 2147483648
    then (span_loop (2 * n) arr n m 0
          (record { lastidx = 0; colors = []; bestlen = n + 1; bestidx = minus_one; stop = false })
        >>= λ s. done (s.bestlen, s.bestidx))
    else undefined

-- main calls span_counter with sizeof(arr), which is 68.
unfoldable pub main : Run (ℕ × ℤ)
unfolding span_counter
main = span_counter (1 ∷ 3 ∷ 3 ∷ 3 ∷ 4 ∷ 4 ∷ 3 ∷ 3 ∷ 4 ∷ 3 ∷ 4 ∷ 3 ∷ 3 ∷ 1 ∷ 2 ∷ 3 ∷ 4 ∷ []) 68 4
