-- ===== src/Problem/Tinyurl/Codes.antt =====
-- The short urls of the numbers: they come to an end, and which of them decode reads back.
use pungoo.Common.{
  ℕ, zero, suc, ◌+◌, ◌-◌, ◌/◌, ◌%◌, ◌<◌, ◌≤◌, ◌≡◌, refl, Bool, true, false, ◌&&◌, some, arith, ltb,
  ltb→lt, ◌==◌, ==→eq, [], ◌∷◌, ◌++◌, length, get_elem?, Run, done, undefined, exhausted, Ends,
  Ends-bind, Ends-done, inl, inr, Bool-cases,
}
use pungoo.Clib.Bytes.{Bytes, lit}
use pungoo.Problem.Tinyurl.{dict, find_char, digits, pad, shorten, number_of}

abbrev Any : Bytes → Type 0
Any res = Unit

dict_in : (f i : ℕ) (d : Bytes) → i < length d → (c : ℕ) × (get_elem? d i ≡ some c)
dict_in f i [] h = absurd (omega arith)
dict_in f zero (x ∷ d) h = (x, refl)
dict_in f (suc i) (x ∷ d) h = dict_in f i d (omega arith)

digits_end : (fuel id : ℕ) (res : Bytes) → id < fuel → Ends Any (digits fuel id res)
unfolding digits
digits_end zero id res h = absurd (omega arith)
digits_end (suc fuel) id res h = elim (Bool-cases (ltb 0 id)) [
  | inr e ↦ rw (e, digits) tt
  | inl e ↦
      let (c, f) = dict_in 0 (id % 62) dict (omega arith) in
      rw (e, digits, f) (digits_end fuel (id / 62) (res ++ c ∷ []) (omega (arith, ltb→lt _ _ e)))
]

pad_end : (fuel : ℕ) (res : Bytes) → 6 - length res < fuel → Ends Any (pad fuel res)
unfolding pad
pad_end zero res h = absurd (omega arith)
pad_end (suc fuel) res h = elim (Bool-cases (ltb (length res) 6)) [
  | inr e ↦ rw (e, pad) tt
  | inl e ↦ rw (e, pad) (pad_end fuel (b'0' ∷ res) (omega (arith, ltb→lt _ _ e)))
]

-- Every number has a short url.
pub shorten_end : (id : ℕ) → (res : Bytes) × (shorten id ≡ done res)
unfolding shorten
shorten_end id =
    let (res, e, _) = Ends-done Any (shorten id) (
      Ends-bind Any Any (digits (id + 1) id []) _ (digits_end (id + 1) id [] (omega arith))
        λ res _. pad_end 7 res (omega arith)) in
    (res, e)

-- The short url of the number reads back as the number.
abbrev reads_back : ℕ → Run Bytes → Bool
reads_back id (done res) = number_of res 0 == id
reads_back id undefined = false
reads_back id exhausted = false

-- All of the numbers 1, ..., n.
all_to : ℕ → Bool
all_to zero = true
all_to (suc n) = reads_back (suc n) (shorten (suc n)) && all_to n

table : all_to 61 ≡ true
unfolding all_to shorten number_of find_char
table = refl

and-left : (b c : Bool) → (b && c) ≡ true → b ≡ true
and-left true c h = refl
and-left false c h = cc

and-right : (b c : Bool) → (b && c) ≡ true → c ≡ true
and-right true c h = h
and-right false c h = cc

all_to_sound : (n id : ℕ) → all_to n ≡ true → 0 < id → id ≤ n → reads_back id (shorten id) ≡ true
unfolding all_to
all_to_sound zero id h p q = absurd (omega arith)
all_to_sound (suc n) id h p q = elim (Bool-cases (id == suc n)) [
  | inl e ↦ rw (==→eq _ _ e) (and-left (reads_back (suc n) (shorten (suc n))) (all_to n) h)
  | inr e ↦
      all_to_sound n id (and-right (reads_back (suc n) (shorten (suc n))) (all_to n) h) p
        (ground arith)
]

reads_back-number_of :
    (id : ℕ) (m : Run Bytes) (res : Bytes)
    → reads_back id m ≡ true
    → m ≡ done res
    → number_of res 0 ≡ id
reads_back-number_of id m res h e = let h' = rw e at h in ==→eq (number_of res 0) id h'

-- Up to 61 the short url is read back.
pub number_of-shorten :
    (id : ℕ) (res : Bytes) → 0 < id → id ≤ 61 → shorten id ≡ done res → number_of res 0 ≡ id
number_of-shorten id res p q e =
    reads_back-number_of id (shorten id) res (all_to_sound 61 id table p q) e

-- The short url of 1, which 62 has too.
abbrev pub first_short : Bytes
first_short = lit "000001"

pub shorten_first : shorten 1 ≡ done first_short
unfolding shorten
shorten_first = refl

pub shorten_again : shorten 62 ≡ done first_short
unfolding shorten
shorten_again = refl
