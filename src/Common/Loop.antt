-- ===== src/Common/Loop.antt =====
-- `while (test) { body }` where the body may return from the function, on fuel, and its rule.
use pungoo.Common.Tests.{Bool-cases}
use pungoo.Common.Outcome.{Run, done, undefined, exhausted, ◌>>=◌, Ends, Ends-bind}
use pungoo.Common.Int.{ℤ}
use Prim.Native.Nat.{ℕ, zero, suc, ◌<◌}
use mathlib.Core.Path.{◌≡◌}
use mathlib.Core.Logic.{inl, inr}
use mathlib.Core.Bool.{Bool, true, false}
use native.Mathlib.Omega.{arith}

-- One round of a loop: it returns from the function, or goes on.
pub data Round {ℓ} (S : Type ℓ) : Type ℓ where
  return : ℤ → S → Round S
  again : S → Round S

module _ {ℓ} {S : Type ℓ} where
  abbrev go_on : (S → Run (ℤ × S)) → Round S → Run (ℤ × S)
  go_on rest (return r s) = done (r, s)
  go_on rest (again s) = rest s

  -- `after` is what the function returns behind the loop.
  unfoldable pub while_loop : (S → Bool) → (S → Run (Round S)) → (S → ℤ) → ℕ → S → Run (ℤ × S)
  while_loop test body after zero s = exhausted
  while_loop test body after (suc fuel) s = elim (test s) [
    | false ↦ done (after s, s)
    | true ↦ body s >>= λ round. go_on (λ s'. while_loop test body after fuel s') round
  ]

  -- A fault in the first round is the loop's.
  pub while_loop-undefined :
      (test : S → Bool) (body : S → Run (Round S)) (after : S → ℤ) (fuel : ℕ) (s : S)
      → 0 < fuel
      → test s ≡ true
      → body s ≡ undefined
      → while_loop test body after fuel s ≡ undefined
  unfolding while_loop
  while_loop-undefined test body after zero s h t b = elim h [ ]
  while_loop-undefined test body after (suc fuel) s h t b = rw (t, while_loop, b)

  -- A round keeps the invariant and lowers the measure, or returns what is promised.
  abbrev pub RoundKeeps : (S → Type 0) → (ℤ → S → Type 0) → (S → ℕ) → ℕ → Round S → Type 0
  RoundKeeps P Q measure m (return r s) = Q r s
  RoundKeeps P Q measure m (again s) = P s × (measure s < m)

  module _ (P : S → Type 0) (Q : ℤ → S → Type 0) (measure : S → ℕ) (test : S → Bool)
      (body : S → Run (Round S)) (after : S → ℤ)
      (step : (s : S) → P s → test s ≡ true → Ends (RoundKeeps P Q measure (measure s)) (body s))
      (stop : (s : S) → P s → test s ≡ false → Q (after s) s) where
    Ends-go_on :
        (m : ℕ) (round : Round S) (rest : S → Run (ℤ × S))
        → RoundKeeps P Q measure m round
        → ((s : S) → P s → measure s < m → Ends (λ (r, s'). Q r s') (rest s))
        → Ends (λ (r, s'). Q r s') (go_on rest round)
    Ends-go_on m (return r s) rest right k = right
    Ends-go_on m (again s) rest right k = k s right.0 right.1

    -- The loop ends, and its result is as promised.
    pub Ends-while_loop :
        (fuel : ℕ) (s : S)
        → P s
        → measure s < fuel
        → Ends (λ (r, s'). Q r s') (while_loop test body after fuel s)
    unfolding while_loop
    Ends-while_loop zero s p m = elim m [ ]
    Ends-while_loop (suc fuel) s p m = elim (Bool-cases (test s)) [
      | inl more ↦
          rw (more, Ends)
            (Ends-bind (RoundKeeps P Q measure (measure s)) _ _ _ (step s p more) λ round right.
              Ends-go_on (measure s) round _ right
                λ s' q d. Ends-while_loop fuel s' q (omega arith))
      | inr over ↦ rw (over, Ends) (stop s p over)
    ]
