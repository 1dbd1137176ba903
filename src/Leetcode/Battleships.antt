-- ===== src/Leetcode/Battleships.antt =====
-- cpp/leetcode/419.BattleshipsInABoard.cpp: the ships on a board of chars, where a row is the list
-- of its chars.
pub mod Ships
pub mod Count
use pungoo.Common.{
  ℕ, zero, suc, ◌+◌, Bool, true, false, ◌==◌, if◌then◌else◌, List, [], ◌∷◌, ◌++◌, get_elem?, length,
  set, Run, done, undefined, ◌>>=◌,
}
use pungoo.Clib.Bytes.{Bytes, lit, decimal}
use pungoo.Common.Int.{pos}
use pungoo.Disk.{or_undefined}

-- The board as the first loop prints it.
unfoldable pub shown_row : Bytes → Bytes
shown_row [] = lit "\n"
shown_row (c ∷ rest) = c ∷ (lit "    " ++ shown_row rest)

unfoldable pub shown : List Bytes → Bytes
unfolding shown_row
shown [] = []
shown (row ∷ rest) = shown_row row ++ shown rest

-- The variables of the pass over a row.
pub record Sweep : Type 0 where
  pub row : Bytes
  pub flag : ℕ
  pub pre : ℕ
  pub count : ℕ

-- One char of a row, at the index `at`.
unfoldable pub sweep_char : ℕ → ℕ → Sweep → Sweep
sweep_char c at s =
    if c == b'x'
    then (if s.flag == 0
        then record s { flag = 1; pre = at }
        else if s.flag == 1
        then record s { flag = 2; row = set (set s.row s.pre b'.') at b'.'; count = s.count + 1 }
        else if s.flag == 2
        then record s { row = set s.row at b'.' }
        else s)
    else record s { flag = 0 }

-- The rest of the row is as it was: a char is changed when the loop has come to it.
unfoldable pub sweep_row : Bytes → ℕ → Sweep → Sweep
unfolding sweep_char
sweep_row [] at s = s
sweep_row (c ∷ rest) at s = sweep_row rest (suc at) (sweep_char c at s)

-- The second loop: the board that it leaves, and the count.
unfoldable pub sweep_rows : List Bytes → ℕ → List Bytes × ℕ
unfolding sweep_row
sweep_rows [] count = ([], count)
sweep_rows (row ∷ rest) count =
    let s = sweep_row row 0 (record { row = row; flag = 0; pre = 0; count = count }) in
    let (board, total) = sweep_rows rest s.count in (s.row ∷ board, total)

-- The char of a row in a column: flag and count.
unfoldable pub column_char : ℕ → ℕ × ℕ → ℕ × ℕ
column_char c (flag, count) =
    if c == b'x'
    then (if flag == 0 then (1, count + 1) else if flag == 1 then (2, count) else (flag, count))
    else (0, count)

unfoldable pub column : List Bytes → ℕ → ℕ × ℕ → Run (ℕ × ℕ)
unfolding column_char
column [] offset s = done s
column (row ∷ rest) offset s =
    or_undefined (get_elem? row offset) >>= λ c. column rest offset (column_char c s)

-- The columns from `offset` on, `left` of them.
unfoldable pub columns : ℕ → List Bytes → ℕ → ℕ → Run ℕ
unfolding column
columns zero board offset count = done count
columns (suc left) board offset count =
    column board offset (0, count) >>= λ s. columns left board (suc offset) s.1

-- first_row->size(): an empty board has no first row.
unfoldable pub count_columns : List Bytes → ℕ → Run ℕ
unfolding columns
count_columns [] count = undefined
count_columns (row ∷ rest) count = columns (length row) (row ∷ rest) 0 count

unfoldable pub count_battleships : List Bytes → Run ℕ
count_battleships board = let (swept, count) = sweep_rows board 0 in count_columns swept count

-- What the program prints.
unfoldable pub main : Run Bytes
unfolding shown sweep_rows count_columns count_battleships
main =
    let board = lit "x..x" ∷ lit "...x" ∷ lit "...x" ∷ [] in
    count_battleships board >>= λ count. done (shown board ++ (decimal (pos count) ++ lit "\n"))
