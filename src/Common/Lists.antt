-- ===== src/Common/Lists.antt =====
-- Lists under native indices, for arrays and byte strings.
use Prim.Native.Nat.{ℕ, zero, suc, ◌+◌, ◌-◌, ◌≤◌, ◌<◌, min}
use mathlib.Core.Path.{◌≡◌, refl, ap, ◌∙◌}
use mathlib.Core.List.{List, [], ◌∷◌, ◌++◌, append_assoc}
use mathlib.Core.Option.{Option, none, some}
use native.Mathlib.Omega.{arith}
use Prim.Native.Nat.add
use pungoo.Common.Tests.{leb, le→leb, if◌then◌else◌}

module _ {ℓ} {A : Type ℓ} where
  abbrev pub length : List A → ℕ
  length [] = 0
  length (x ∷ xs) = suc (length xs)

  abbrev pub get_elem? : List A → ℕ → Option A
  get_elem? [] i = none
  get_elem? (x ∷ xs) zero = some x
  get_elem? (x ∷ xs) (suc i) = get_elem? xs i

  -- The entry at an index, replaced.
  abbrev pub set : List A → ℕ → A → List A
  set [] k new = []
  set (y ∷ ys) zero new = new ∷ ys
  set (y ∷ ys) (suc k) new = y ∷ set ys k new

  pub set-append :
      (front : List A) (y new : A) (ys : List A)
      → set (front ++ (y ∷ ys)) (length front) new ≡ front ++ (new ∷ ys)
  set-append [] y new ys = refl
  set-append (z ∷ front) y new ys = ap (◌∷◌ z) (set-append front y new ys)

  abbrev pub take : ℕ → List A → List A
  take zero xs = []
  take (suc n) [] = []
  take (suc n) (x ∷ xs) = x ∷ take n xs

  abbrev pub drop : ℕ → List A → List A
  drop zero xs = xs
  drop (suc n) [] = []
  drop (suc n) (x ∷ xs) = drop n xs

  abbrev pub replicate : ℕ → A → List A
  replicate zero a = []
  replicate (suc n) a = a ∷ replicate n a

  pub length-append : (xs ys : List A) → length (xs ++ ys) ≡ length xs + length ys
  length-append [] ys = omega arith
  length-append (x ∷ xs) ys = omega (arith, length-append xs ys)

  pub length-take : (n : ℕ) (xs : List A) → length (take n xs) ≡ min n (length xs)
  length-take zero xs = omega arith
  length-take (suc n) [] = omega arith
  length-take (suc n) (x ∷ xs) = omega (arith, length-take n xs)

  pub length-drop : (n : ℕ) (xs : List A) → length (drop n xs) ≡ length xs - n
  length-drop zero xs = omega arith
  length-drop (suc n) [] = omega arith
  length-drop (suc n) (x ∷ xs) = omega (arith, length-drop n xs)

  pub length-replicate : (n : ℕ) (a : A) → length (replicate n a) ≡ n
  length-replicate zero a = refl
  length-replicate (suc n) a = ap suc (length-replicate n a)

  pub entry_at : (xs : List A) (i : ℕ) → i < length xs → (x : A) × (get_elem? xs i ≡ some x)
  entry_at [] i h = absurd (omega arith)
  entry_at (x ∷ xs) zero h = (x, refl)
  entry_at (x ∷ xs) (suc i) h = entry_at xs i (omega arith)

  pub no_entry_at : (xs : List A) (i : ℕ) → length xs ≤ i → get_elem? xs i ≡ none
  no_entry_at [] i h = refl
  no_entry_at (x ∷ xs) zero h = absurd (omega arith)
  no_entry_at (x ∷ xs) (suc i) h = no_entry_at xs i (omega arith)

  pub replicate-get_elem? : (n i : ℕ) (a : A) → i < n → get_elem? (replicate n a) i ≡ some a
  replicate-get_elem? zero i a h = absurd (omega arith)
  replicate-get_elem? (suc n) zero a h = refl
  replicate-get_elem? (suc n) (suc i) a h = replicate-get_elem? n i a (omega arith)

  pub drop-replicate : (n : ℕ) (a : A) → drop n (replicate (suc n) a) ≡ a ∷ []
  drop-replicate zero a = refl
  drop-replicate (suc n) a = drop-replicate n a

  pub take_all : (n : ℕ) (xs : List A) → length xs ≤ n → take n xs ≡ xs
  take_all zero [] h = refl
  take_all zero (x ∷ xs) h = absurd (omega arith)
  take_all (suc n) [] h = refl
  take_all (suc n) (x ∷ xs) h = ap (◌∷◌ x) (take_all n xs (omega arith))

  pub drop_all : (n : ℕ) (xs : List A) → length xs ≤ n → drop n xs ≡ []
  drop_all zero [] h = refl
  drop_all zero (x ∷ xs) h = absurd (omega arith)
  drop_all (suc n) [] h = refl
  drop_all (suc n) (x ∷ xs) h = drop_all n xs (omega arith)

  pub take-append : (n : ℕ) (xs ys : List A) → length xs ≡ n → take n (xs ++ ys) ≡ xs
  take-append zero [] ys h = refl
  take-append (suc n) (x ∷ xs) ys h = ap (◌∷◌ x) (take-append n xs ys (omega arith))
  take-append n xs ys h = absurd (omega arith)

  pub drop-append : (n : ℕ) (xs ys : List A) → length xs ≡ n → drop n (xs ++ ys) ≡ ys
  drop-append zero [] ys h = refl
  drop-append (suc n) (x ∷ xs) ys h = drop-append n xs ys (omega arith)
  drop-append n xs ys h = absurd (omega arith)

  pub take-append-drop : (n : ℕ) (xs : List A) → take n xs ++ drop n xs ≡ xs
  take-append-drop zero xs = refl
  take-append-drop (suc n) [] = refl
  take-append-drop (suc n) (x ∷ xs) = ap (◌∷◌ x) (take-append-drop n xs)

  take_nil : (n : ℕ) → take n [] ≡ []
  take_nil zero = refl
  take_nil (suc n) = refl

  drop_nil : (n : ℕ) → drop n [] ≡ []
  drop_nil zero = refl
  drop_nil (suc n) = refl

  -- Two consecutive pieces make one.
  pub take-take_add : (m n : ℕ) (xs : List A) → take m xs ++ take n (drop m xs) ≡ take (m + n) xs
  take-take_add zero n xs = rw add.zero
  take-take_add (suc m) n [] = rw add.suc (take_nil n)
  take-take_add (suc m) n (x ∷ xs) = rw add.suc (ap (◌∷◌ x) (take-take_add m n xs))

  pub take-take : (m n : ℕ) (xs : List A) → m ≤ n → take m (take n xs) ≡ take m xs
  take-take zero n xs h = refl
  take-take (suc m) zero xs h = absurd (omega arith)
  take-take (suc m) (suc n) [] h = refl
  take-take (suc m) (suc n) (x ∷ xs) h = ap (◌∷◌ x) (take-take m n xs (omega arith))

  pub drop-drop : (m n : ℕ) (xs : List A) → drop n (drop m xs) ≡ drop (m + n) xs
  drop-drop zero n xs = rw add.zero
  drop-drop (suc m) n [] = rw add.suc (drop_nil n)
  drop-drop (suc m) n (x ∷ xs) = rw add.suc (drop-drop m n xs)

-- memcpy into an array at an offset. `none` if it would pass the end of the array.
module _ {ℓ} {A : Type ℓ} where
  unfoldable pub store : List A → ℕ → List A → Option (List A)
  store buf at bytes =
      if leb (at + length bytes) (length buf)
      then some (take at buf ++ (bytes ++ drop (at + length bytes) buf))
      else none

  pub store_lem :
      (buf : List A) (at : ℕ) (bytes : List A)
      → at + length bytes ≤ length buf
      → store buf at bytes ≡ some (take at buf ++ (bytes ++ drop (at + length bytes) buf))
  unfolding store
  store_lem buf at bytes h = rw (le→leb _ _ h)

  -- An array whose first `m` entries come from `xs` takes the next `n` entries of `xs`.
  pub store-filled :
      (xs buf : List A) (m n : ℕ)
      → m + n ≤ length buf
      → m + n ≤ length xs
      → store (take m xs ++ drop m buf) m (take n (drop m xs))
        ≡ some (take (m + n) xs ++ drop (m + n) buf)
  store-filled xs buf m n h k =
      let front : length (take m xs) ≡ m = omega (arith, length-take {ℓ} m xs) in
      let piece : length (take n (drop m xs)) ≡ n =
        omega (arith, length-take {ℓ} n (drop m xs), length-drop {ℓ} m xs) in
      let whole = length-append (take m xs) (drop m buf) in
      let tail : drop (m + n) (take m xs ++ drop m buf) ≡ drop (m + n) buf =
        rw (← drop-drop m n (take m xs ++ drop m buf), drop-append m _ (drop m buf) front)
          (drop-drop m n buf) in
      store_lem _ m _ (omega (arith, length-drop {ℓ} m buf))
      ∙ rw (piece, tail, take-append m _ (drop m buf) front, ← append_assoc) (rw take-take_add)
