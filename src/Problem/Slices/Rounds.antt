-- ===== src/Problem/Slices/Rounds.antt =====
-- The rounds of the loop of numberOfArithmeticSlices, and the slices in a run of equal gaps.
use pungoo.Common.{
  ℕ, zero, suc, ◌+◌, ◌-◌, ◌*◌, ◌<◌, ◌≡◌, refl, ◌∙◌, sym, ap, Bool, true, false, some, arith, leb,
  le→leb, lt→ltb, ◌≤◌, if◌then◌else◌, List, [], ◌∷◌, ◌++◌, length, length-append, get_elem?, done,
}
use mathlib.Core.List.{append_assoc}
use pungoo.Common.Int.{ℤ, eqb_ℤ, difference, is_int}
use pungoo.Problem.Multi.{int_of}
use pungoo.Problem.Slices.{Slicing, gap_at, slices_in, counted, slice_round, last_run}
use pungoo.Problem.Slices.Gaps.{gaps, run_of, slices_of, eqb_ℤ_sound}

-- Entries that follow each other are an int apart.
abbrev pub HasGaps : List ℕ → Type 0
HasGaps [] = Unit
HasGaps (x ∷ []) = Unit
HasGaps (x ∷ y ∷ rest) = (is_int (difference y x) ≡ true) × HasGaps (y ∷ rest)

-- The slices in a run of m gaps.
unfoldable pub pairs : ℕ → ℕ
pairs zero = 0
pairs (suc m) = pairs m + m

product_next : (k : ℕ) → k * suc k ≡ (k - 1) * k + 2 * k
product_next zero = omega arith
product_next (suc j) = let back : suc j - 1 ≡ j = omega arith in rw back (grind arith)

slices_in-pairs : (m : ℕ) → slices_in (suc m) ≡ pairs m
unfolding pairs
slices_in-pairs zero = refl
slices_in-pairs (suc k) =
    let low : suc k - 2 ≡ k - 1 = omega arith in
    let high : suc k - 1 ≡ k = omega arith in
    let before = rw (low, high) at (slices_in-pairs k) in
    let low' : suc (suc k) - 2 ≡ k = omega arith in
    let high' : suc (suc k) - 1 ≡ suc k = omega arith in
    rw (low', high') (omega (arith, before, product_next k))

-- The product and the sum that the end of a run of m gaps makes are ints.
abbrev pub Fits : ℕ → ℕ → Type 0
Fits ret m = (m ≤ 46341) × (ret + pairs m < 2147483648)

product_small : (m : ℕ) → m ≤ 46341 → (m - 1) * m < 2147483648
product_small m h = let low : (m - 1) * m ≤ 46340 * m = grind arith in omega (arith, low)

two_pairs : (m : ℕ) → 2 * pairs m + m ≡ m * m
unfolding pairs
two_pairs zero = omega arith
two_pairs (suc k) =
    let square : suc k * suc k ≡ k * k + 2 * k + 1 = grind arith in
    omega (arith, square, two_pairs k)

pub pairs_small : (m : ℕ) → m ≤ 46341 → pairs m < 2147483648
pairs_small m h = let high : m * m ≤ 46341 * m = grind arith in omega (arith, high, two_pairs m)

counted_lem : (ret m : ℕ) → Fits ret m → counted ret (suc m) ≡ done (ret + pairs m)
unfolding counted
counted_lem ret m (short, small) =
    let low : suc m - 2 ≡ m - 1 = omega arith in
    let high : suc m - 1 ≡ m = omega arith in
    let same = rw (low, high) at (slices_in-pairs m) in
    rw
      (low, high, lt→ltb _ _ (product_small m short), same, lt→ltb (ret + pairs m) 2147483648 small)
      refl

-- What the end of a run of m gaps adds, in the loop and behind it.
run_end :
    (ret m : ℕ)
    → 0 < m
    → Fits ret m
    → (if leb 3 (suc m) then counted ret (suc m) else done ret) ≡ done (ret + pairs m)
unfolding pairs
run_end ret zero h fits = absurd (omega arith)
run_end ret (suc zero) h fits = ap (λ (n : ℕ). done n) (omega arith)
run_end ret (suc (suc k)) h fits =
    rw (le→leb 3 (suc (suc (suc k))) (omega arith)) (counted_lem ret (suc (suc k)) fits)

pub run_last :
    (ret first m i : ℕ)
    → 0 < m
    → first + suc m ≡ i
    → Fits ret m
    → (if leb (first + 3) i then counted ret (i - first) else done ret) ≡ done (ret + pairs m)
run_last ret first m i h e fits =
    let size : i - first ≡ suc m = omega arith in
    let test : leb (first + 3) i ≡ leb 3 (suc m) = ground arith in
    rw (size, test) (run_end ret m h fits)

get_elem?-front :
    (front : List ℕ) (x : ℕ) (rest : List ℕ)
    → get_elem? (front ++ (x ∷ rest)) (length front) ≡ some x
get_elem?-front [] x rest = refl
get_elem?-front (y ∷ front) x rest = get_elem?-front front x rest

get_elem?-second :
    (front : List ℕ) (x y : ℕ) (rest : List ℕ)
    → get_elem? (front ++ (x ∷ y ∷ rest)) (suc (length front)) ≡ some y
get_elem?-second [] x y rest = refl
get_elem?-second (z ∷ front) x y rest = get_elem?-second front x y rest

gap_at-second :
    (front : List ℕ) (x y : ℕ) (rest : List ℕ)
    → is_int (difference y x) ≡ true
    → gap_at (front ++ (x ∷ y ∷ rest)) (suc (length front)) ≡ done (difference y x)
unfolding gap_at int_of
gap_at-second front x y rest h =
    let back : suc (length front) - 1 ≡ length front = omega arith in
    rw (get_elem?-second front x y rest, back, get_elem?-front front x (y ∷ rest), h) refl

abbrev pub slicing : ℕ → Bool → ℤ → ℕ → ℕ → Slicing
slicing i flag gap first ret = record { i = i; flag = flag; gap = gap; first = first; ret = ret }

-- What a loop that has come to the entry x behind `front` is to lead to.
abbrev pub Leads : List ℕ → ℕ → Slicing → Type 0
Leads a total s = last_run a s ≡ done total

product_step : (m r : ℕ) → (m + 1) * r ≡ m * r + r
product_step m r = grind arith

product_suc : (m r : ℕ) → m * suc r ≡ m * r + m
product_suc m r = grind arith

module _ (a : List ℕ) where
  -- Where a run starts anew.
  pub idle_round :
      (i first ret : ℕ) (gap g : ℤ)
      → gap_at a i ≡ done g
      → slice_round a (slicing i false gap first ret) ≡ done (slicing (i + 1) true g (i - 1) ret)
  unfolding slice_round
  idle_round i first ret gap g e = rw e refl

  -- Where a run goes on.
  pub equal_round :
      (i first ret : ℕ) (gap g : ℤ)
      → gap_at a i ≡ done g
      → eqb_ℤ gap g ≡ true
      → slice_round a (slicing i true gap first ret) ≡ done (slicing (i + 1) true gap first ret)
  unfolding slice_round
  equal_round i first ret gap g e f = rw (e, f) refl

  -- Where it ends.
  pub other_round :
      (i first ret m : ℕ) (gap g : ℤ)
      → gap_at a i ≡ done g
      → eqb_ℤ gap g ≡ false
      → i - first ≡ suc m
      → 0 < m
      → Fits ret m
      → slice_round a (slicing i true gap first ret)
        ≡ done (slicing i false gap first (ret + pairs m))
  unfolding slice_round
  other_round i first ret m gap g e f size h fits = rw (e, f, size, run_end ret m h fits) refl

-- The loop's place in the vector.
module _ (a front : List ℕ) (x y : ℕ) (rest : List ℕ) (i : ℕ) (e : a ≡ front ++ (x ∷ y ∷ rest))
    (f : i ≡ suc (length front)) where
  pub next_front : a ≡ (front ++ (x ∷ [])) ++ (y ∷ rest)
  next_front = e ∙ sym (append_assoc front (x ∷ []) (y ∷ rest))

  pub next_index : i + 1 ≡ suc (length (front ++ (x ∷ [])))
  next_index = omega (arith, length-append front (x ∷ []))

  pub index_inside : i < length a
  index_inside = let size = ap length e in omega (arith, length-append front (x ∷ y ∷ rest))

  pub gap_here : is_int (difference y x) ≡ true → gap_at a i ≡ done (difference y x)
  gap_here h = rw (e, f) (gap_at-second front x y rest h)

pub empty_step : (gap : ℤ) (m : ℕ) → m * run_of gap [] + slices_of [] ≡ 0
unfolding slices_of run_of
empty_step gap m = omega arith

pub short_gaps : (a : List ℕ) → length a < 3 → slices_of (gaps a) ≡ 0
unfolding slices_of run_of
short_gaps [] h = refl
short_gaps (x ∷ []) h = refl
short_gaps (x ∷ y ∷ []) h = refl
short_gaps (x ∷ y ∷ z ∷ rest) h = absurd (omega arith)

pub slices_of-step :
    (g : ℤ) (gs : List ℤ) → slices_of (g ∷ gs) ≡ pairs 1 + 1 * run_of g gs + slices_of gs
unfolding slices_of pairs
slices_of-step g gs = omega arith

pub equal_step :
    (gap g : ℤ) (gs : List ℤ) (m : ℕ)
    → eqb_ℤ gap g ≡ true
    → pairs (suc m) + suc m * run_of gap gs + slices_of gs
      ≡ pairs m + m * run_of gap (g ∷ gs) + slices_of (g ∷ gs)
unfolding slices_of run_of pairs
equal_step gap g gs m e =
    rw (e, ← eqb_ℤ_sound gap g e)
      (omega (arith, product_step m (run_of gap gs), product_suc m (run_of gap gs)))

pub other_step :
    (gap g : ℤ) (gs : List ℤ) (m : ℕ)
    → eqb_ℤ gap g ≡ false
    → slices_of (g ∷ gs) ≡ m * run_of gap (g ∷ gs) + slices_of (g ∷ gs)
unfolding run_of
other_step gap g gs m e = rw e (omega arith)
