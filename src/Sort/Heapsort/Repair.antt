-- ===== src/Sort/Heapsort/Repair.antt =====
-- heapify and buildheap: the least entry of a heap comes first.
use pungoo.Common.{
  ℕ, zero, suc, ◌+◌, ◌-◌, ◌*◌, ◌/◌, ◌<◌, ◌≤◌, ◌≡◌, ◌≢◌, refl, ◌∙◌, List, arith, ltb, ltb→lt, ltb→le,
  eq→==, ne→==, ◌==◌, length, Ends, Ends-bind, Ends-weaken, ◌⊎◌, inl, inr, Bool-cases,
}
use pungoo.Sort.Moves.{
  entry, read_lem, swap, swap_at-swap, length-swap, Rearranged, Rearranged-refl, Rearranged-trans,
  Rearranged-swap,
}
use pungoo.Sort.Heap.{
  AtMost, IsHeapFrom, DownInv, IsFirstChild, swap-DownInv, DownInv-settled, IsHeapFrom-DownInv,
}
use pungoo.Sort.Heapsort.{smaller, heapify, build_from, buildheap}

abbrev pub parent : ℕ → ℕ
parent c = (c - 1) / 2

pub parent_climbs : (c : ℕ) → 0 < c → parent c < c
parent_climbs c h = omega arith

module _ (a : List ℕ) (heapsize : ℕ) (room : heapsize ≤ length a) where
  -- What the test of a child leaves.
  abbrev Smaller : ℕ → ℕ → ℕ → Type 0
  Smaller current child m =
      ((m ≡ current) × (child < heapsize → entry a current ≤ entry a child))
      ⊎ ((m ≡ child) × (child < heapsize) × (entry a child < entry a current))

  smaller-Smaller :
      (current child : ℕ)
      → current < length a
      → Ends (Smaller current child) (smaller a heapsize current child)
  unfolding smaller
  smaller-Smaller current child h = elim (Bool-cases (ltb child heapsize)) [
    | inr e ↦ rw e (inl (refl, λ p. absurd (omega (arith, ltb→le _ _ e))))
    | inl e ↦
        rw (e, read_lem a current h, read_lem a child (omega (arith, ltb→lt _ _ e)))
          (elim (Bool-cases (ltb (entry a child) (entry a current))) [
            | inl f ↦ rw f (inr (refl, ltb→lt _ _ e, ltb→lt _ _ f))
            | inr f ↦ rw f (inl (refl, λ p. ltb→le _ _ f))
          ])
  ]

  current_room : {i m : ℕ} → i < heapsize → Smaller i (2 * i + 1) m → m < length a
  current_room h (inl (e, s)) = omega arith
  current_room h (inr (e, p, s)) = omega arith

  module _ (i : ℕ) (h : i < length a) where
    -- The node stays, or its first child is taken.
    abbrev Chosen : ℕ → Type 0
    Chosen m =
        ((m ≡ i) × ((c : ℕ) → 0 < c → c < heapsize → parent c ≡ i → entry a i ≤ entry a c))
        ⊎ ((m ≢ i) × IsFirstChild AtMost parent heapsize a i m × (entry a m < entry a i))

    children : (c : ℕ) → 0 < c → parent c ≡ i → (c ≡ 2 * i + 1) ⊎ (c ≡ 2 * i + 2)
    children c p e = elim (Bool-cases (c == 2 * i + 1)) [
      | inl f ↦ inl (ground arith)
      | inr f ↦ inr (ground arith)
    ]

    Smaller-Chosen : (m m' : ℕ) → Smaller i (2 * i + 1) m → Smaller m (2 * i + 2) m' → Chosen m'
    Smaller-Chosen m m' (inl (e, s)) (inl (e', s')) = inl (
      e' ∙ e,
      λ c p q f. elim (children c p f) [
        | inl g ↦ rw g (s (omega arith))
        | inr g ↦ let t = rw e at (s' (omega arith)) in rw g t
      ],
    )
    Smaller-Chosen m m' (inr (e, p, s)) (inl (e', s')) = inr (
      omega arith,
      (record {
        inside = omega arith;
        positive = omega arith;
        child = omega arith;
        first = λ c p q f. elim (children c p f) [
          | inl g ↦ rw (g, e', e) (omega arith)
          | inr g ↦ rw (g, e') (s' (omega arith))
        ];
      }),
      rw (e', e) s,
    )
    Smaller-Chosen m m' (inl (e, s)) (inr (e', q', s')) = inr (
      omega arith,
      (record {
        inside = omega arith;
        positive = omega arith;
        child = omega arith;
        first = λ c p q f. elim (children c p f) [
          | inl g ↦ let t = s (omega arith) in let t' = rw e at s' in rw (g, e') (omega arith)
          | inr g ↦ rw (g, e') (omega arith)
        ];
      }),
      let t' = rw e at s' in rw e' t',
    )
    Smaller-Chosen m m' (inr (e, p, s)) (inr (e', q', s')) = inr (
      omega arith,
      (record {
        inside = omega arith;
        positive = omega arith;
        child = omega arith;
        first = λ c p q f. elim (children c p f) [
          | inl g ↦ let t' = rw e at s' in rw (g, e') (omega arith)
          | inr g ↦ rw (g, e') (omega arith)
        ];
      }),
      let t' = rw e at s' in rw e' (omega arith),
    )

abbrev pub Repaired : ℕ → ℕ → List ℕ → List ℕ → Type 0
Repaired lo n a b = IsHeapFrom AtMost parent lo n b × Rearranged 0 n a b

pub heapify-Repaired :
    (fuel : ℕ) (lo : ℕ) (a : List ℕ) (i n : ℕ)
    → n - i < fuel
    → i < n
    → n ≤ length a
    → DownInv AtMost parent lo n a i
    → Ends (Repaired lo n a) (heapify fuel a i n)
unfolding heapify
heapify-Repaired zero lo a i n f h room v = absurd (omega arith)
heapify-Repaired (suc fuel) lo a i n f h room v =
    Ends-bind (Smaller a n room i (2 * i + 1)) (Repaired lo n a) (smaller a n i (2 * i + 1)) _
      (smaller-Smaller a n room i (2 * i + 1) (omega arith))
      λ m s.
        Ends-bind (Smaller a n room m (2 * i + 2)) (Repaired lo n a) (smaller a n m (2 * i + 2)) _
          (smaller-Smaller a n room m (2 * i + 2) (current_room a n room h s))
          λ m' s'. elim (Smaller-Chosen a n room i (omega arith) m m' s s') [
            | inl (e, settled) ↦ rw (eq→== m' i e) (
              DownInv-settled AtMost parent parent_climbs lo n a i v settled,
              Rearranged-refl 0 n a,
            )
            | inr (e, first, below) ↦
                let deeper : i < m' = omega (arith, first.positive, first.child) in
                let hi : i < length a = omega arith in
                let hm : m' < length a = omega (arith, first.inside) in
                let size = length-swap a i m' hi hm in
                rw (ne→== m' i e, swap_at-swap a i m' hi hm)
                  (Ends-weaken (Repaired lo n (swap a i m')) (Repaired lo n a)
                    (heapify fuel (swap a i m') m' n)
                    (heapify-Repaired fuel lo (swap a i m') m' n (omega arith) first.inside
                      (omega arith)
                      (swap-DownInv AtMost parent parent_climbs lo n a i m' room hi v first
                        (omega arith)))
                    λ b (heap, moved). (
                      heap,
                      Rearranged-trans
                          (Rearranged-swap {l = 0} {e = n} a i m' hi hm (omega arith) h
                            (omega arith) first.inside)
                          moved,
                    ))
          ]

pub build_from-Repaired :
    (n i : ℕ) (a : List ℕ)
    → i ≤ n
    → n ≤ length a
    → IsHeapFrom AtMost parent i n a
    → Ends (Repaired 0 n a) (build_from n i a)
unfolding build_from
build_from-Repaired n zero a p room h = (h, Rearranged-refl 0 n a)
build_from-Repaired n (suc i) a p room h =
    Ends-bind (Repaired i n a) (Repaired 0 n a) (heapify (n + 1) a i n) _
      (heapify-Repaired (n + 1) i a i n (omega arith) p room
        (IsHeapFrom-DownInv AtMost parent parent_climbs i n a h))
      λ b (heap, moved).
        Ends-weaken (Repaired 0 n b) (Repaired 0 n a) (build_from n i b)
          (build_from-Repaired n i b (omega arith) (omega (arith, moved.size)) heap)
          λ c (heap', moved'). (heap', Rearranged-trans moved moved')

-- buildheap makes a heap of the first `n` entries.
pub buildheap-Repaired : (a : List ℕ) (n : ℕ) → n ≤ length a → Ends (Repaired 0 n a) (buildheap a n)
unfolding buildheap
buildheap-Repaired a n room =
    build_from-Repaired n (n / 2) a (omega arith) room λ c p q r. absurd (omega arith)
