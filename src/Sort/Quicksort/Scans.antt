-- ===== src/Sort/Quicksort/Scans.antt =====
-- The two scans of a round of partition.
use pungoo.Common.{
  ℕ, zero, suc, ◌+◌, ◌<◌, ◌≤◌, ◌≡◌, List, arith, ltb, leb, ltb→lt, ltb→le, length, Ends,
  Ends-weaken, ◌⊎◌, inl, inr, Bool-cases,
}
use pungoo.Sort.Moves.{entry, read_lem}
use pungoo.Sort.Quicksort.{scan_down, scan_up}

module _ (a : List ℕ) (number i : ℕ) where
  -- Where the scan from the right stops.
  abbrev pub Down : ℕ → ℕ → Type 0
  Down j j' =
      (i ≤ j')
      × (j' ≤ j)
      × ((k : ℕ) → j' < k → k ≤ j → number < entry a k)
      × ((i ≡ j') ⊎ (entry a j' ≤ number))

  pub scan_down-Down : (j : ℕ) → i ≤ j → j < length a → Ends (Down j) (scan_down a number i j)
  unfolding scan_down
  scan_down-Down zero p q = (p, omega arith, λ k s t. absurd (omega arith), inl (omega arith))
  scan_down-Down (suc j) p q = elim (Bool-cases (ltb i (suc j))) [
    | inr e ↦
        rw (e, scan_down)
          (p, omega arith, λ k s t. absurd (omega arith), inl (omega (arith, ltb→le _ _ e)))
    | inl e ↦
        rw (e, scan_down, read_lem a (suc j) q)
          (elim (Bool-cases (ltb number (entry a (suc j)))) [
            | inl f ↦
                rw (f, Ends)
                  (Ends-weaken (Down j) (Down (suc j)) (scan_down a number i j)
                    (scan_down-Down j (omega (arith, ltb→lt _ _ e)) (omega arith))
                    λ j' (x, y, z, w). (
                      x,
                      omega arith,
                      λ k s t. elim (Bool-cases (ltb j k)) [
                        | inl last ↦
                            let this : k ≡ suc j = omega (arith, ltb→lt _ _ last) in
                            rw this (ltb→lt _ _ f)
                        | inr low ↦ z k s (ltb→le _ _ low)
                      ],
                      w,
                    ))
            | inr f ↦
                rw (f, Ends) (p, omega arith, λ k s t. absurd (omega arith), inr (ltb→le _ _ f))
          ])
  ]

  -- Where the scan from the left stops.
  abbrev pub Up : ℕ → ℕ → ℕ → Type 0
  Up from j i' =
      (from ≤ i')
      × (i' ≤ j)
      × ((k : ℕ) → from ≤ k → k < i' → entry a k ≤ number)
      × ((i' ≡ j) ⊎ (number < entry a i'))

  pub scan_up-Up :
      (fuel from j : ℕ)
      → j < from + fuel
      → from ≤ j
      → j < length a
      → Ends (Up from j) (scan_up fuel a number from j)
  unfolding scan_up
  scan_up-Up zero from j d p q = absurd (omega arith)
  scan_up-Up (suc fuel) from j d p q = elim (Bool-cases (ltb from j)) [
    | inr e ↦
        rw (e, scan_up)
          (omega arith, p, λ k s t. absurd (omega arith), inl (omega (arith, ltb→le _ _ e)))
    | inl e ↦
        let less = ltb→lt from j e in
        rw (e, scan_up, read_lem a from (omega arith))
          (elim (Bool-cases (leb (entry a from) number)) [
            | inl f ↦
                rw (f, Ends)
                  (Ends-weaken (Up (from + 1) j) (Up from j) (scan_up fuel a number (from + 1) j)
                    (scan_up-Up fuel (from + 1) j (omega arith) (omega arith) q)
                    λ i' (x, y, z, w). (
                      omega arith,
                      y,
                      λ k s t. elim (Bool-cases (ltb from k)) [
                        | inl later ↦ z k (omega (arith, ltb→lt _ _ later)) t
                        | inr first ↦
                            let this : k ≡ from = omega (arith, ltb→le _ _ first) in
                            rw this (ground (arith, f))
                      ],
                      w,
                    ))
            | inr f ↦
                rw (f, Ends)
                  (omega arith, p, λ k s t. absurd (omega arith), inr (ground (arith, f)))
          ])
  ]
