-- ===== src/Leetcode/Battleships/Ships.antt =====
-- countBattleships, against the ships that lie along the rows and the columns.
use pungoo.Common.{
  ℕ, suc, ◌+◌, ◌≡◌, refl, ◌∙◌, Bool, true, false, not, ◌&&◌, ◌||◌, arith, ◌==◌, ==→eq,
  if◌then◌else◌, [], ◌∷◌, ◌++◌, length, length-append, set, set-append, inl, inr, Bool-cases,
}
use mathlib.Core.List.{append_assoc}
use pungoo.Clib.Bytes.{Bytes}
use pungoo.Leetcode.Battleships.{Sweep, sweep_char, sweep_row}

abbrev pub starts : Bytes → Bool
starts [] = false
starts (c ∷ rest) = c == b'x'

-- A row without its ships of two or more; `before` is whether an 'x' stands before it.
pub cleared : Bool → Bytes → Bytes
cleared before [] = []
cleared before (c ∷ rest) =
    (if c == b'x' && (before || starts rest) then b'.' else c) ∷ cleared (c == b'x') rest

-- How many ships of two or more start in a row.
pub long_ships : Bool → Bytes → ℕ
long_ships before [] = 0
long_ships before (c ∷ rest) =
    (if c == b'x' && (not before && starts rest) then 1 else 0) + long_ships (c == b'x') rest

-- What the pass over a row is to leave, behind the chars that it has passed.
abbrev Swept : Bytes → Bytes → ℕ → Sweep → Type 0
Swept front tail count s = (s.row ≡ front ++ tail) × (s.count ≡ count)

abbrev sweep : Bytes → ℕ → ℕ → ℕ → Sweep
sweep row flag pre count = record { row = row; flag = flag; pre = pre; count = count }

-- One more char has been passed.
passed :
    (front : Bytes) (c : ℕ) (tail row : Bytes)
    → row ≡ (front ++ (c ∷ [])) ++ tail
    → row ≡ front ++ (c ∷ tail)
passed front c tail row e = e ∙ append_assoc front (c ∷ []) tail

length-snoc : (front : Bytes) (c : ℕ) → length (front ++ (c ∷ [])) ≡ suc (length front)
length-snoc front c = omega (arith, length-append front (c ∷ []))

-- What each kind of char does.
char_water :
    (c at : ℕ) (row : Bytes) (flag pre count : ℕ)
    → (c == b'x') ≡ false
    → sweep_char c at (sweep row flag pre count) ≡ sweep row 0 pre count
unfolding sweep_char
char_water c at row flag pre count e = rw e refl

char_first :
    (c at : ℕ) (row : Bytes) (pre count : ℕ)
    → (c == b'x') ≡ true
    → sweep_char c at (sweep row 0 pre count) ≡ sweep row 1 at count
unfolding sweep_char
char_first c at row pre count e = rw e refl

char_second :
    (c : ℕ) (front rest : Bytes) (count : ℕ)
    → (c == b'x') ≡ true
    → sweep_char c (suc (length front)) (sweep (front ++ (b'x' ∷ c ∷ rest)) 1 (length front) count)
      ≡ sweep (front ++ (b'.' ∷ b'.' ∷ rest)) 2 (length front) (count + 1)
unfolding sweep_char
char_second c front rest count e =
    let behind : set (front ++ (b'.' ∷ c ∷ rest)) (suc (length front)) b'.'
        ≡ front ++ (b'.' ∷ b'.' ∷ rest) =
      rw
        (
          ← length-snoc front b'.',
          ← append_assoc front (b'.' ∷ []) (c ∷ rest),
          set-append (front ++ (b'.' ∷ [])) c b'.' rest,
        )
        (append_assoc front (b'.' ∷ []) (b'.' ∷ rest)) in
    rw (e, set-append front b'x' b'.' (c ∷ rest), behind) refl

char_later :
    (c : ℕ) (front rest : Bytes) (pre count : ℕ)
    → (c == b'x') ≡ true
    → sweep_char c (length front) (sweep (front ++ (c ∷ rest)) 2 pre count)
      ≡ sweep (front ++ (b'.' ∷ rest)) 2 pre count
unfolding sweep_char
char_later c front rest pre count e = rw (e, set-append front c b'.' rest) refl

mutual
  unfolding sweep_row cleared long_ships

  at_water :
      (rest front : Bytes) (pre count : ℕ)
      → Swept front
          (cleared false rest)
          (count + long_ships false rest)
          (sweep_row rest (length front) (sweep (front ++ rest) 0 pre count))
  at_water [] front pre count = (refl, omega arith)
  at_water (c ∷ rest) front pre count = elim (Bool-cases (c == b'x')) [
    | inl e ↦
        rw (char_first c (length front) (front ++ (c ∷ rest)) pre count e, sweep_row)
          (rw (==→eq c b'x' e) (at_first rest front count))
    | inr e ↦
        let next =
          rw (length-snoc front c, append_assoc front (c ∷ []) rest) at
            (at_water rest (front ++ (c ∷ [])) pre count) in
        let row = passed front c (cleared false rest) _ next.0 in
        let total = next.1 in
        rw (char_water c (length front) (front ++ (c ∷ rest)) 0 pre count e, sweep_row, e)
          (row, omega arith)
  ]

  at_first :
      (rest front : Bytes) (count : ℕ)
      → Swept front (cleared false (b'x' ∷ rest)) (count + long_ships false (b'x' ∷ rest)) (
          sweep_row rest
            (suc (length front))
            (sweep (front ++ (b'x' ∷ rest)) 1 (length front) count))
  at_first [] front count = (refl, omega arith)
  at_first (c ∷ rest) front count = elim (Bool-cases (c == b'x')) [
    | inr e ↦
        let both = front ++ (b'x' ∷ []) in
        let size : length (both ++ (c ∷ [])) ≡ suc (suc (length front)) =
          omega (arith, length-snoc both c, length-snoc front b'x') in
        let whole : (both ++ (c ∷ [])) ++ rest ≡ front ++ (b'x' ∷ c ∷ rest) =
          append_assoc both (c ∷ []) rest ∙ append_assoc front (b'x' ∷ []) (c ∷ rest) in
        let next = rw (size, whole) at (at_water rest (both ++ (c ∷ [])) (length front) count) in
        let row =
          passed front b'x' (c ∷ cleared false rest) _
            (passed both c (cleared false rest) _ next.0) in
        let total = next.1 in
        rw
          (
            char_water c (suc (length front)) (front ++ (b'x' ∷ c ∷ rest)) 1 (length front) count e,
            sweep_row,
            e,
          )
          (row, omega arith)
    | inl e ↦
        let both = front ++ (b'.' ∷ []) in
        let size : length (both ++ (b'.' ∷ [])) ≡ suc (suc (length front)) =
          omega (arith, length-snoc both b'.', length-snoc front b'.') in
        let whole : (both ++ (b'.' ∷ [])) ++ rest ≡ front ++ (b'.' ∷ b'.' ∷ rest) =
          append_assoc both (b'.' ∷ []) rest ∙ append_assoc front (b'.' ∷ []) (b'.' ∷ rest) in
        let next =
          rw (size, whole) at (at_ship rest (both ++ (b'.' ∷ [])) (length front) (count + 1)) in
        let row =
          passed front b'.' (b'.' ∷ cleared true rest) _
            (passed both b'.' (cleared true rest) _ next.0) in
        let total = next.1 in rw (char_second c front rest count e, sweep_row, e) (row, omega arith)
  ]

  at_ship :
      (rest front : Bytes) (pre count : ℕ)
      → Swept front
          (cleared true rest)
          (count + long_ships true rest)
          (sweep_row rest (length front) (sweep (front ++ rest) 2 pre count))
  at_ship [] front pre count = (refl, omega arith)
  at_ship (c ∷ rest) front pre count = elim (Bool-cases (c == b'x')) [
    | inr e ↦
        let next =
          rw (length-snoc front c, append_assoc front (c ∷ []) rest) at
            (at_water rest (front ++ (c ∷ [])) pre count) in
        let row = passed front c (cleared false rest) _ next.0 in
        let total = next.1 in
        rw (char_water c (length front) (front ++ (c ∷ rest)) 2 pre count e, sweep_row, e)
          (row, omega arith)
    | inl e ↦
        let next =
          rw (length-snoc front b'.', append_assoc front (b'.' ∷ []) rest) at
            (at_ship rest (front ++ (b'.' ∷ [])) pre count) in
        let row = passed front b'.' (cleared true rest) _ next.0 in
        let total = next.1 in
        rw (char_later c front rest pre count e, sweep_row, e) (row, omega arith)
  ]

-- The pass over a whole row.
pub sweep_row-cleared :
    (row : Bytes) (count : ℕ)
    → ((sweep_row row 0 (sweep row 0 0 count)).row ≡ cleared false row)
      × ((sweep_row row 0 (sweep row 0 0 count)).count ≡ count + long_ships false row)
sweep_row-cleared row count = at_water row [] 0 count

pub cleared-length : (before : Bool) (row : Bytes) → length (cleared before row) ≡ length row
unfolding cleared
cleared-length before [] = refl
cleared-length before (c ∷ rest) = omega (arith, cleared-length (c == b'x') rest)
