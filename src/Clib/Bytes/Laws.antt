-- ===== src/Clib/Bytes/Laws.antt =====
-- What a C string holds after it was copied or printed into an array.
use Prim.Native.Nat.add
use mathlib.Core.List.{append_assoc, append-nil}
use pungoo.Common.{
  ℕ, zero, suc, ◌+◌, ◌-◌, ◌≤◌, ◌<◌, ◌≡◌, refl, ◌∙◌, true, none, some, [], ◌∷◌, ◌++◌, arith, le→leb,
  Bool-cases, ltb, ltb→lt, tests, inl, inr, take_all, length, take, drop, replicate, store,
  length-append, length-take, length-replicate,
}
use pungoo.Clib.Bytes.{Bytes, IsText, c_str, padded, strncpy, snprintf, str_eq}

-- A text with a NUL behind it is read back, whatever follows.
pub c_str-append : (s b : Bytes) → IsText s → c_str (s ++ 0 ∷ b) ≡ some s
unfolding c_str
c_str-append [] b h = refl
c_str-append (c ∷ s) b (p, h) = ground (arith, c_str-append s b h)

-- An array with no NUL in it is no C string.
pub c_str-eq-none : (s : Bytes) → IsText s → c_str s ≡ none
unfolding c_str
c_str-eq-none [] h = refl
c_str-eq-none (c ∷ s) (p, h) = ground (arith, c_str-eq-none s h)

pub take-IsText : (n : ℕ) (s : Bytes) → IsText s → IsText (take n s)
take-IsText zero s h = tt
take-IsText (suc n) [] h = tt
take-IsText (suc n) (c ∷ s) (p, h) = (p, take-IsText n s h)

pub append-IsText : (s t : Bytes) → IsText s → IsText t → IsText (s ++ t)
append-IsText [] t h k = k
append-IsText (c ∷ s) t (p, h) k = (p, append-IsText s t h k)

length-padded : (n : ℕ) (s : Bytes) → length (padded n s) ≡ n
unfolding padded
length-padded n s = omega (
  arith,
  length-append {0} (take n s) (replicate (n - length s) 0),
  length-take {0} n s,
  length-replicate {A = ℕ} (n - length s) 0,
)

-- A write of `b` at the front of an array that has room for it.
store_front :
    (buf b : Bytes) → length b ≤ length buf → store buf 0 b ≡ some (b ++ drop (length b) buf)
unfolding store
store_front buf b h = rw (add.zero (length b), le→leb _ _ h) refl

pub strncpy_lem :
    (buf s : Bytes) (n : ℕ) → n ≤ length buf → strncpy buf s n ≡ some (padded n s ++ drop n buf)
unfolding strncpy
strncpy_lem buf s n h = store_front buf (padded n s) (rw length-padded h) ∙ rw length-padded

-- A copied text that is shorter than the limit has a NUL behind it.
pub padded-nul : (n : ℕ) (s b : Bytes) → length s < n → (r : Bytes) × (padded n s ++ b ≡ s ++ 0 ∷ r)
unfolding padded
padded-nul n s b h = padded_by (n - length s - 1) (omega arith)
  where
    padded_by :
        (k : ℕ)
        → n - length s ≡ suc k
        → (r : Bytes) × (take n s ++ replicate (n - length s) 0) ++ b ≡ s ++ 0 ∷ r
    padded_by k e = (replicate k 0 ++ b, rw (take_all n s (omega arith), e, append_assoc) refl)

-- A copied text that is shorter than the limit is read back.
pub c_str-padded :
    (n : ℕ) (s b : Bytes) → IsText s → length s < n → c_str (padded n s ++ b) ≡ some s
unfolding padded
c_str-padded n s b t h =
    let e : n - length s ≡ suc (n - length s - 1) = omega arith in
    rw (take_all n s (omega arith), e, append_assoc) (c_str-append s _ t)

pub snprintf_lem :
    (buf text : Bytes) (size : ℕ)
    → 0 < size
    → size ≤ length buf
    → snprintf buf size text
      ≡ some ((take (size - 1) text ++ 0 ∷ []) ++ drop (length (take (size - 1) text) + 1) buf)
unfolding snprintf
snprintf_lem buf text size h k =
    let size_of = length-append (take (size - 1) text) (0 ∷ []) in
    store_front buf _ (omega (arith, size_of, length-take {0} (size - 1) text)) ∙ rw size_of

pub str_eq_refl : (s : Bytes) → str_eq s s ≡ true
unfolding str_eq
str_eq_refl [] = refl
str_eq_refl (c ∷ s) = ground (arith, str_eq_refl s)

pub str_eq_sound : (s t : Bytes) → str_eq s t ≡ true → s ≡ t
unfolding str_eq
str_eq_sound [] [] h = refl
str_eq_sound (c ∷ s) (d ∷ t) h = ground (arith, str_eq_sound s t)
str_eq_sound [] (d ∷ t) h = ground arith
str_eq_sound (c ∷ s) [] h = ground arith

-- A copied text that fits into the limit is read back from an array that ends in a NUL.
pub c_str-padded_nul :
    (n : ℕ) (s b : Bytes) → IsText s → length s ≤ n → c_str (padded n s ++ 0 ∷ b) ≡ some s
unfolding padded
c_str-padded_nul n s b t h = elim (Bool-cases (ltb (length s) n)) [
  | inl short ↦ c_str-padded n s (0 ∷ b) t (ltb→lt _ _ short)
  | inr full ↦
      let e : n - length s ≡ 0 = omega tests in
      rw (take_all n s h, e, append-nil) (c_str-append s b t)
]
