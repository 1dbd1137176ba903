-- ===== src/Leetcode/Battleships/Count.antt =====
-- countBattleships as a whole: the ships along the rows and, of what they leave, along the columns.
use pungoo.Common.{
  entry_at, ℕ, zero, suc, ◌+◌, ◌≤◌, ◌<◌, ◌≡◌, refl, ap, Bool, false, not, ◌&&◌, none, some, arith,
  ◌==◌, if◌then◌else◌, List, [], ◌∷◌, get_elem?, length, Ends, Ends-weaken, Ends-bind,
}
use pungoo.Clib.Bytes.{Bytes}
use pungoo.Leetcode.Battleships.{
  sweep_row, sweep_rows, column_char, column, columns, count_columns, count_battleships,
}
use pungoo.Leetcode.Battleships.Ships.{cleared, long_ships, sweep_row-cleared, cleared-length}

-- The board without the ships of two or more that lie along its rows, and how many these are.
pub cleared_board : List Bytes → List Bytes
cleared_board [] = []
cleared_board (row ∷ rest) = cleared false row ∷ cleared_board rest

pub row_ships : List Bytes → ℕ
row_ships [] = 0
row_ships (row ∷ rest) = long_ships false row + row_ships rest

-- A part of a ship stands in a row at a column.
abbrev pub is_ship : Bytes → ℕ → Bool
is_ship row offset = elim (get_elem? row offset) [ none ↦ false | some c ↦ c == b'x' ]

-- How many ships, of any length, start in a column; `above` is whether a part of one stands above.
pub column_ships : Bool → List Bytes → ℕ → ℕ
column_ships above [] offset = 0
column_ships above (row ∷ rest) offset =
    (if is_ship row offset && not above then 1 else 0)
    + column_ships (is_ship row offset) rest offset

-- The columns from `offset` on, `left` of them.
pub all_columns : ℕ → List Bytes → ℕ → ℕ
all_columns zero board offset = 0
all_columns (suc left) board offset =
    column_ships false board offset + all_columns left board (suc offset)

-- Each row has at least `width` chars.
abbrev pub IsWide : ℕ → List Bytes → Type 0
IsWide width [] = Unit
IsWide width (row ∷ rest) = (width ≤ length row) × IsWide width rest

column_char-flag :
    (c flag count : ℕ)
    → ((column_char c (flag, count)).1
        ≡ count + (if c == b'x' && not (not (flag == 0)) then 1 else 0))
      × (not ((column_char c (flag, count)).0 == 0) ≡ (c == b'x'))
unfolding column_char
column_char-flag c flag count = ground arith

column_ships-none : (above : Bool) (offset : ℕ) → column_ships above [] offset ≡ 0
unfolding column_ships
column_ships-none above offset = refl

column_ships-char :
    (above : Bool) (row : Bytes) (rest : List Bytes) (offset c : ℕ)
    → get_elem? row offset ≡ some c
    → column_ships above (row ∷ rest) offset
      ≡ (if c == b'x' && not above then 1 else 0) + column_ships (c == b'x') rest offset
unfolding column_ships
column_ships-char above row rest offset c e =
    let seen : is_ship row offset ≡ (c == b'x') = rw (e, is_ship) refl in
    ap (λ (b : Bool). (if b && not above then 1 else 0) + column_ships b rest offset) seen

column-ships :
    (board : List Bytes) (offset width flag count : ℕ)
    → offset < width
    → IsWide width board
    → Ends
        (λ (f, n). n ≡ count + column_ships (not (flag == 0)) board offset)
        (column board offset (flag, count))
unfolding column
column-ships [] offset width flag count h wide =
    omega (arith, column_ships-none (not (flag == 0)) offset)
column-ships (row ∷ rest) offset width flag count h (here, wide) =
    let (c, e) = entry_at row offset (omega arith) in
    let (total, next) = column_char-flag c flag count in
    let s = column_char c (flag, count) in
    let above = not (flag == 0) in
    let run = column-ships rest offset width s.0 s.1 h wide in
    rw e (
      Ends-weaken _ _ (column rest offset s) run λ (f, n) k.
        let k' = rw next at k in
        omega (arith, total, k', column_ships-char above row rest offset c e))

columns-ships :
    (left : ℕ) (board : List Bytes) (offset width count : ℕ)
    → offset + left ≤ width
    → IsWide width board
    → Ends (λ n. n ≡ count + all_columns left board offset) (columns left board offset count)
unfolding columns all_columns
columns-ships zero board offset width count h wide = omega arith
columns-ships (suc left) board offset width count h wide =
    Ends-bind _ _ (column board offset (0, count)) _
      (column-ships board offset width 0 count (omega arith) wide)
      λ (f, n) k.
        Ends-weaken (λ m. m ≡ n + all_columns left board (suc offset)) _
          (columns left board (suc offset) n)
          (columns-ships left board (suc offset) width n (omega arith) wide)
          λ m k'. omega (arith, k, k')

sweep_rows-cleared_board :
    (board : List Bytes) (count : ℕ)
    → ((sweep_rows board count).0 ≡ cleared_board board)
      × ((sweep_rows board count).1 ≡ count + row_ships board)
unfolding sweep_rows cleared_board row_ships
sweep_rows-cleared_board [] count = (refl, omega arith)
sweep_rows-cleared_board (row ∷ rest) count =
    let (e, f) = sweep_row-cleared row count in
    let (e', f') =
      sweep_rows-cleared_board rest
        (sweep_row row 0 (record { row = row; flag = 0; pre = 0; count = count })).count in
    (rw (e, e') refl, omega (arith, f, f'))

cleared_board-IsWide :
    (width : ℕ) (board : List Bytes) → IsWide width board → IsWide width (cleared_board board)
unfolding cleared_board
cleared_board-IsWide width [] h = h
cleared_board-IsWide width (row ∷ rest) (h, t) =
    (omega (arith, cleared-length false row), cleared_board-IsWide width rest t)

cleared_board-cons :
    (row : Bytes) (rest : List Bytes)
    → cleared_board (row ∷ rest) ≡ cleared false row ∷ cleared_board rest
unfolding cleared_board
cleared_board-cons row rest = refl

count_columns-ships :
    (width : ℕ) (board : List Bytes) (row : Bytes) (rest : List Bytes) (count : ℕ)
    → board ≡ row ∷ rest
    → length row ≡ width
    → IsWide width board
    → Ends (λ n. n ≡ count + all_columns width board 0) (count_columns board count)
unfolding count_columns
count_columns-ships width [] row rest count e size wide = cc
count_columns-ships width (r ∷ board) row rest count e size wide =
    let head : r ≡ row = cc in
    let same : length r ≡ width = rw head size in
    rw same (columns-ships width (r ∷ board) 0 width count (omega arith) wide)

-- On a board that has a first row, and no row that is shorter than it, countBattleships makes no
-- access outside of the board and returns the number of the ships of two or more along its rows and,
-- of what the board is without these, of the ships of any length along the columns of the first row.
pub count_battleships-ships :
    (row : Bytes) (rest : List Bytes)
    → IsWide (length row) rest
    → Ends
        (λ n. n ≡ row_ships (row ∷ rest) + all_columns (length row) (cleared_board (row ∷ rest)) 0)
        (count_battleships (row ∷ rest))
unfolding count_battleships
count_battleships-ships row rest wide =
    let (e, f) = sweep_rows-cleared_board (row ∷ rest) 0 in
    rw (e, f)
      (Ends-weaken _ _ (count_columns (cleared_board (row ∷ rest)) (0 + row_ships (row ∷ rest)))
        (count_columns-ships (length row) (cleared_board (row ∷ rest)) (cleared false row)
          (cleared_board rest) (0 + row_ships (row ∷ rest)) (cleared_board-cons row rest)
          (cleared-length false row)
          (cleared_board-IsWide (length row) (row ∷ rest) (omega arith, wide)))
        λ n k. omega (arith, k))
