-- ===== src/Sort/Hsort/Repair.antt =====
-- heapAjust: the greatest entry of a heap comes first.
use pungoo.Common.{
  ℕ, zero, suc, ◌+◌, ◌-◌, ◌*◌, ◌/◌, ◌<◌, ◌≤◌, ◌≡◌, Option, none, some, List, arith, leb, ltb,
  ltb→lt, ltb→le, lt→leb, ==→eq, ◌==◌, if◌then◌else◌, length, done, Ends, Ends-bind, Ends-weaken,
  ◌>>=◌, ◌⊎◌, inl, inr, Bool-cases,
}
use pungoo.Sort.{swap_at}
use pungoo.Sort.Moves.{
  entry, read_lem, swap, swap_at-swap, length-swap, Rearranged, Rearranged-refl, Rearranged-trans,
  Rearranged-swap,
}
use pungoo.Sort.Heap.{
  AtLeast, IsHeapFrom, DownInv, IsFirstChild, swap-DownInv, DownInv-settled, IsHeapFrom-DownInv,
}
use pungoo.Sort.Hsort.{target, adjust_loop, heap_ajust, build_from}

abbrev pub parent : ℕ → ℕ
parent c = c / 2

pub parent_climbs : (c : ℕ) → 0 < c → parent c < c
parent_climbs c h = omega arith

module _ (a : List ℕ) (n pos : ℕ) where
  -- The node stays, or its first child is taken.
  abbrev Target : Option ℕ → Type 0
  Target none = (c : ℕ) → 0 < c → c < n → parent c ≡ pos → entry a c ≤ entry a pos
  Target (some m) = IsFirstChild AtLeast parent n a pos m × (entry a pos < entry a m)

  children : (c : ℕ) → 0 < c → parent c ≡ pos → (c ≡ pos * 2) ⊎ (c ≡ pos * 2 + 1)
  children c p e = elim (Bool-cases (c == pos * 2)) [
    | inl f ↦ inl (ground arith)
    | inr f ↦ inr (ground arith)
  ]

  -- A greater entry does not stand at the node itself.
  own_child : entry a pos < entry a (pos * 2) → 0 < pos * 2
  own_child h = elim (Bool-cases (pos == 0)) [
    | inl e ↦
        let z : pos ≡ 0 = ==→eq pos 0 e in
        let t : entry a 0 < entry a 0 = rw z at h in absurd (omega arith)
    | inr e ↦ ground arith
  ]

  -- The first child, if the other one is absent or not greater.
  first_left :
      pos * 2 < n
      → entry a pos < entry a (pos * 2)
      → (pos * 2 + 1 < n → entry a (pos * 2 + 1) ≤ entry a (pos * 2))
      → Target (some (pos * 2))
  first_left h p q = (
    record {
      inside = h;
      positive = own_child p;
      child = omega arith;
      first = λ c r s f. elim (children c r f) [
        | inl g ↦ rw g (omega arith)
        | inr g ↦ rw g (q (omega arith))
      ];
    },
    p,
  )

  first_right :
      pos * 2 + 1 < n
      → entry a pos < entry a (pos * 2 + 1)
      → entry a (pos * 2) ≤ entry a (pos * 2 + 1)
      → Target (some (pos * 2 + 1))
  first_right h p q = (
    record {
      inside = h;
      positive = omega arith;
      child = omega arith;
      first = λ c r s f. elim (children c r f) [ inl g ↦ rw g q | inr g ↦ rw g (omega arith) ];
    },
    p,
  )

  stays :
      entry a (pos * 2) ≤ entry a pos
      → (pos * 2 + 1 < n → entry a (pos * 2 + 1) ≤ entry a pos)
      → Target none
  stays p q c r s f = elim (children c r f) [ inl g ↦ rw g p | inr g ↦ rw g (q (omega arith)) ]

  module _ (room : n ≤ length a) (h : pos * 2 < n) where
    greater_child :
        pos * 2 + 1 < n
        → entry a pos < entry a (pos * 2) ⊎ (entry a pos < entry a (pos * 2 + 1))
        → Ends Target (
            if ltb (entry a (pos * 2)) (entry a (pos * 2 + 1))
            then done (some (pos * 2 + 1))
            else done (some (pos * 2)))
    greater_child e f = elim (Bool-cases (ltb (entry a (pos * 2)) (entry a (pos * 2 + 1)))) [
      | inl g ↦ rw g (first_right e (ground arith) (ground arith))
      | inr g ↦ rw g (first_left h (ground arith) λ p. ltb→le _ _ g)
    ]

    target-Target : Ends Target (target a n pos (pos * 2))
    unfolding target
    target-Target =
        rw (read_lem a pos (omega arith), read_lem a (pos * 2) (omega arith))
          (elim (Bool-cases (ltb (pos * 2 + 1) n)) [
            | inr e ↦ elim (Bool-cases (ltb (entry a pos) (entry a (pos * 2)))) [
              | inl f ↦
                  rw (e, f) (first_left h (ltb→lt _ _ f) λ p. absurd (omega (arith, ltb→le _ _ e)))
              | inr f ↦ rw (e, f) (stays (ltb→le _ _ f) λ p. absurd (omega (arith, ltb→le _ _ e)))
            ]
            | inl e ↦
                let less = ltb→lt _ _ e in
                rw (e, read_lem a (pos * 2 + 1) (omega arith))
                  (elim (Bool-cases (ltb (entry a pos) (entry a (pos * 2)))) [
                    | inl f ↦ rw f (greater_child less (inl (ltb→lt _ _ f)))
                    | inr f ↦ elim (Bool-cases (ltb (entry a pos) (entry a (pos * 2 + 1)))) [
                      | inl g ↦ rw (f, g) (greater_child less (inr (ltb→lt _ _ g)))
                      | inr g ↦ rw (f, g) (stays (ltb→le _ _ f) λ p. ltb→le _ _ g)
                    ]
                  ])
          ])

abbrev pub Repaired : ℕ → ℕ → List ℕ → List ℕ → Type 0
Repaired lo n a b = IsHeapFrom AtLeast parent lo n b × Rearranged 0 n a b

adjust_loop-Repaired :
    (fuel lo : ℕ) (a : List ℕ) (pos n : ℕ)
    → n - pos < fuel
    → pos < n
    → n ≤ length a
    → DownInv AtLeast parent lo n a pos
    → Ends (Repaired lo n a) (adjust_loop fuel a n pos)
unfolding adjust_loop
adjust_loop-Repaired zero lo a pos n f h room v = absurd (omega arith)
adjust_loop-Repaired (suc fuel) lo a pos n f h room v = elim (Bool-cases (ltb (pos * 2) n)) [
  | inr e ↦
      rw (e, adjust_loop)
        (
          DownInv-settled AtLeast parent parent_climbs lo n a pos v
              (λ c p q g. absurd (omega (arith, ltb→le _ _ e))),
          Rearranged-refl 0 n a,
        )
  | inl e ↦
      rw (e, adjust_loop)
        (Ends-bind (Target a n pos) (Repaired lo n a) (target a n pos (pos * 2)) _
          (target-Target a n pos room (ltb→lt _ _ e))
          λ found t.
            elim found
                as (λ o.
                  Target a n pos o
                  → Ends (Repaired lo n a) (elim o [
                    | none ↦ done a
                    | some next ↦ swap_at a pos next >>= λ b. adjust_loop fuel b n next
                  ])) [
                    | none ↦ λ settled. (
                      DownInv-settled AtLeast parent parent_climbs lo n a pos v settled,
                      Rearranged-refl 0 n a,
                    )
                    | some m ↦ λ (first, below).
                        let deeper : pos < m = omega (arith, first.positive, first.child) in
                        let hi : pos < length a = omega arith in
                        let hm : m < length a = omega (arith, first.inside) in
                        let size = length-swap a pos m hi hm in
                        rw (swap_at-swap a pos m hi hm) (
                          Ends-weaken (Repaired lo n (swap a pos m)) (Repaired lo n a)
                            (adjust_loop fuel (swap a pos m) n m)
                            (adjust_loop-Repaired fuel lo (swap a pos m) m n (omega arith)
                              first.inside (omega arith)
                              (swap-DownInv AtLeast parent parent_climbs lo n a pos m room hi v
                                first (omega arith)))
                            λ b (heap, moved). (
                              heap,
                              Rearranged-trans
                                  (Rearranged-swap {l = 0} {e = n} a pos m hi hm (omega arith) h
                                    (omega arith) first.inside)
                                  moved,
                            ))
                  ]
              t)
]

pub heap_ajust-Repaired :
    (lo : ℕ) (a : List ℕ) (pos n : ℕ)
    → pos < n
    → n ≤ length a
    → DownInv AtLeast parent lo n a pos
    → Ends (Repaired lo n a) (heap_ajust a n pos)
unfolding heap_ajust
heap_ajust-Repaired lo a pos n h room v =
    rw (lt→leb n pos h) (adjust_loop-Repaired (n + 1) lo a pos n (omega arith) h room v)

pub build_from-Repaired :
    (n i : ℕ) (a : List ℕ)
    → n ≤ length a
    → IsHeapFrom AtLeast parent i n a
    → Ends (Repaired 0 n a) (build_from n i a)
unfolding build_from heap_ajust
build_from-Repaired n zero a room h = (h, Rearranged-refl 0 n a)
build_from-Repaired n (suc i) a room h =
    let deepen : IsHeapFrom AtLeast parent i n a → Ends (Repaired 0 n a) (build_from n i a) =
      build_from-Repaired n i a room in
    elim (Bool-cases (leb n i)) [
      | inl e ↦ rw e (deepen λ c p q r. absurd (ground arith))
      | inr e ↦
          let less : i < n = ground arith in
          Ends-bind (Repaired i n a) (Repaired 0 n a) (heap_ajust a n i) _
            (heap_ajust-Repaired i a i n less room
              (IsHeapFrom-DownInv AtLeast parent parent_climbs i n a h))
            λ b (heap, moved).
              Ends-weaken (Repaired 0 n b) (Repaired 0 n a) (build_from n i b)
                (build_from-Repaired n i b (omega (arith, moved.size)) heap)
                λ c (heap', moved'). (heap', Rearranged-trans moved moved')
    ]
