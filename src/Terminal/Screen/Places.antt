-- ===== src/Terminal/Screen/Places.antt =====
-- The loops of terminal/src/terminalscreen.cpp again, by the row and the column of a cell.
use mesh_commander.Prelude.{
  ℕ, ◌+◌, ◌*◌, ◌≤◌, ◌<◌, ◌≡◌, ◌&&◌, List, ltb, leb, ◌==◌, if◌then◌else◌, length, get_or, set,
  get_or-set, arith,
}
use mesh_commander.Terminal.Screen.{Cell, blank, clear_columns, clear_rows, shift_rows}
use mesh_commander.Terminal.Screen.Grid.{
  get-clear_columns, get-clear_rows, get-shift_rows, index_inj, le_index_iff, get_or-eq,
}

pub clear_columns_at :
    (w row c n : ℕ) (cells : List Cell) (q d : ℕ)
    → c + n ≤ w
    → d < w
    → get_or (clear_columns w row c n cells) (q * w + d) blank
      ≡ (if (q == row) && leb c d && ltb d (c + n) then blank else get_or cells (q * w + d) blank)
clear_columns_at w row c n cells q d h b = ground (
  arith,
  get-clear_columns w row c n cells (q * w + d),
  le_index_iff w row q d b,
  le_index_iff w q row d b,
  le_index_iff w (row + 1) q d b,
)

pub clear_rows_at :
    (w row n : ℕ) (cells : List Cell) (q d : ℕ)
    → d < w
    → get_or (clear_rows w row n cells) (q * w + d) blank
      ≡ (if leb row q && ltb q (row + n) then blank else get_or cells (q * w + d) blank)
clear_rows_at w row n cells q d b = ground (
  arith,
  get-clear_rows w row n cells (q * w + d),
  le_index_iff w row q d b,
  le_index_iff w (row + n) q d b,
)

pub shift_rows_at :
    (w row n : ℕ) (cells : List Cell) (q d : ℕ)
    → (row + n) * w ≤ length cells
    → d < w
    → get_or (shift_rows w row n cells) (q * w + d) blank ≡ (
        if leb row q && ltb q (row + n)
        then get_or cells ((q + 1) * w + d) blank
        else get_or cells (q * w + d) blank)
shift_rows_at w row n cells q d l b = ground (
  arith,
  get-shift_rows w row n cells (q * w + d) l,
  le_index_iff w row q d b,
  le_index_iff w (row + n) q d b,
  get_or-eq cells (q * w + d + w) ((q + 1) * w + d) (omega arith),
)

pub index_lt : (w h r c : ℕ) → r < h → c < w → r * w + c < h * w
index_lt w h r c hr hc = grind arith

pub set_at :
    (w h row c : ℕ) (cells : List Cell) (v : Cell) (q d : ℕ)
    → length cells ≡ h * w
    → row < h
    → c < w
    → d < w
    → get_or (set cells (row * w + c) v) (q * w + d) blank
      ≡ (if (q == row) && (d == c) then v else get_or cells (q * w + d) blank)
set_at w h row c cells v q d l hr hc hd = ground (
  arith,
  get_or-set cells (row * w + c) (q * w + d) v blank,
  index_inj w row q c d,
  index_lt w h row c,
)
