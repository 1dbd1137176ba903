-- ===== src/Sort/Moves.antt =====
-- Arrays whose entries were moved: the entries of a range, rearranged.
use mathlib.Core.List.{Perm}
use mathlib.Core.List.Perm
use pungoo.Common.{
  ℕ, zero, suc, ◌<◌, ◌≤◌, ◌≡◌, refl, ◌∙◌, List, [], ◌∷◌, arith, ltb, lt→ltb, ◌==◌, if◌then◌else◌,
  length, done, ◌⊎◌, inl, inr, Bool-cases,
}
use pungoo.Common.{set}
use pungoo.Sort.{read, write, swap_at}

-- The entry at an index, and 0 past the end.
unfoldable pub entry : List ℕ → ℕ → ℕ
entry [] k = 0
entry (y ∷ ys) zero = y
entry (y ∷ ys) (suc k) = entry ys k

pub read_lem : (arr : List ℕ) (k : ℕ) → k < length arr → read arr k ≡ done (entry arr k)
unfolding read entry
read_lem [] k inside = absurd (omega arith)
read_lem (y ∷ ys) zero inside = refl
read_lem (y ∷ ys) (suc k) inside = read_lem ys k (omega arith)

pub length-set : (arr : List ℕ) (k new : ℕ) → length (set arr k new) ≡ length arr
length-set [] k new = refl
length-set (y ∷ ys) zero new = refl
length-set (y ∷ ys) (suc k) new = omega (arith, length-set ys k new)

pub write_lem : (arr : List ℕ) (k new : ℕ) → k < length arr → write arr k new ≡ done (set arr k new)
unfolding write
write_lem arr k new inside = rw (lt→ltb k (length arr) inside) refl

pub entry-set :
    (arr : List ℕ) (k m new : ℕ)
    → k < length arr
    → entry (set arr k new) m ≡ (if k == m then new else entry arr m)
unfolding entry
entry-set [] k m new inside = absurd (omega arith)
entry-set (y ∷ ys) zero zero new inside = refl
entry-set (y ∷ ys) zero (suc m) new inside = ground arith
entry-set (y ∷ ys) (suc k) zero new inside = ground arith
entry-set (y ∷ ys) (suc k) (suc m) new inside = ground (arith, entry-set ys k m new)

-- What a write puts into the array and what it takes out of it.
Perm-set :
    (arr : List ℕ) (k new : ℕ) → k < length arr → Perm (new ∷ arr) (entry arr k ∷ set arr k new)
unfolding entry
Perm-set [] k new inside = absurd (omega arith)
Perm-set (y ∷ ys) zero new inside = Perm.swap y new ys
Perm-set (y ∷ ys) (suc k) new inside =
    let deeper = Perm.cons y (Perm-set ys k new (omega arith)) in
    let front = Perm.trans (Perm.swap y new ys) deeper in
    Perm.trans front (Perm.swap (entry ys k) y (set ys k new))

unfoldable pub swap : List ℕ → ℕ → ℕ → List ℕ
swap arr k m = set (set arr k (entry arr m)) m (entry arr k)

module _ (arr : List ℕ) (k m : ℕ) (k_inside : k < length arr) (m_inside : m < length arr) where
  -- The array between the two writes.
  abbrev half : List ℕ
  half = set arr k (entry arr m)

  m_inside_half : m < length half
  m_inside_half = omega (arith, length-set arr k (entry arr m))

  pub swap_at-swap : swap_at arr k m ≡ done (swap arr k m)
  unfolding swap_at swap
  swap_at-swap =
      rw (read_lem arr k k_inside, read_lem arr m m_inside, write_lem arr k (entry arr m) k_inside)
        (write_lem half m (entry arr k) m_inside_half)

  pub write-swap : write half m (entry arr k) ≡ done (swap arr k m)
  unfolding swap
  write-swap = write_lem half m (entry arr k) m_inside_half

  pub entry-swap :
      (at : ℕ)
      → entry (swap arr k m) at
        ≡ (if m == at then entry arr k else if k == at then entry arr m else entry arr at)
  unfolding swap
  entry-swap at =
      rw
        (entry-set half m at (entry arr k) m_inside_half, entry-set arr k at (entry arr m) k_inside)
        refl

  entry-half : entry half m ≡ entry arr m
  entry-half = ground (arith, entry-set arr k m (entry arr m))

  Perm-swap : Perm (swap arr k m) arr
  unfolding swap
  Perm-swap =
      let first = Perm-set arr k (entry arr m) k_inside in
      let last = rw entry-half at (Perm-set half m (entry arr k) m_inside_half) in
      Perm.symm (Perm.cons_inv (Perm.trans first last))

  pub length-swap : length (swap arr k m) ≡ length arr
  unfolding swap
  length-swap = omega (arith, length-set half m (entry arr k), length-set arr k (entry arr m))

-- `b` is `a` with the entries from `l` on and before `e` rearranged.
pub record Rearranged (l e : ℕ) (a b : List ℕ) : Type 0 where
  pub size : length b ≡ length a
  pub perm : Perm b a
  pub outside : (k : ℕ) → (k < l) ⊎ (e ≤ k) → entry b k ≡ entry a k
  pub inside : (k : ℕ) → l ≤ k → k < e → (k' : ℕ) × (l ≤ k') × (k' < e) × (entry b k ≡ entry a k')

pub Rearranged-refl : (l e : ℕ) (a : List ℕ) → Rearranged l e a a
Rearranged-refl l e a = record {
  size = refl;
  perm = Perm.refl a;
  outside = λ k h. refl;
  inside = λ k p q. (k, p, q, refl);
}

pub Rearranged-trans :
    {l e : ℕ} {a b c : List ℕ} → Rearranged l e a b → Rearranged l e b c → Rearranged l e a c
Rearranged-trans {l} {e} r s = record {
  size = s.size ∙ r.size;
  perm = Perm.trans s.perm r.perm;
  outside = λ k h. s.outside k h ∙ r.outside k h;
  inside = λ k p q.
      let (k', p', q', f) = s.inside k p q in
      let (m, p'', q'', f') = r.inside k' p' q' in (m, p'', q'', f ∙ f');
}

-- A range inside of a larger one.
pub Rearranged-wider :
    {l e l' e' : ℕ} {a b : List ℕ} → Rearranged l e a b → l' ≤ l → e ≤ e' → Rearranged l' e' a b
Rearranged-wider {l} {e} {l'} {e'} r p q = record {
  size = r.size;
  perm = r.perm;
  outside = λ k h. r.outside k (ground arith);
  inside = λ k h t. elim (Bool-cases (ltb k l)) [
    | inl low ↦ (k, h, t, r.outside k (ground arith))
    | inr high ↦ elim (Bool-cases (ltb k e)) [
      | inl mid ↦
          let (k', a, b, f) = r.inside k (ground arith) (ground arith) in
          (k', omega arith, omega arith, f)
      | inr far ↦ (k, h, t, r.outside k (ground arith))
    ]
  ];
}

pub Rearranged-swap :
    {l e : ℕ} (a : List ℕ) (i j : ℕ)
    → i < length a
    → j < length a
    → l ≤ i
    → i < e
    → l ≤ j
    → j < e
    → Rearranged l e a (swap a i j)
Rearranged-swap {l} {e} a i j hi hj p q r s =
    let at = entry-swap a i j hi hj in
    record {
      size = length-swap a i j hi hj;
      perm = Perm-swap a i j hi hj;
      outside = λ k h. ground (arith, at k);
      inside = λ k t u. elim (Bool-cases (j == k)) [
        | inl here ↦ (i, p, q, ground (arith, at k))
        | inr other ↦ elim (Bool-cases (i == k)) [
          | inl there ↦ (j, r, s, ground (arith, at k))
          | inr away ↦ (k, t, u, ground (arith, at k))
        ]
      ];
    }

-- The entries from `l` on and before `e` are in order.
abbrev pub SortedFrom : ℕ → ℕ → List ℕ → Type 0
SortedFrom l e b = (i j : ℕ) → l ≤ i → i < j → j < e → entry b i ≤ entry b j
