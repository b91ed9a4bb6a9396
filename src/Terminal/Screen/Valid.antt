-- ===== src/Terminal/Screen/Valid.antt =====
-- The invariant of TerminalScreen (terminal/src/terminalscreen.cpp): the grid is full and the
-- cursor is on it, or one past the last column.
use mesh_commander.Prelude.{
  ℕ, suc, ◌+◌, ◌-◌, ◌*◌, ◌≤◌, ◌<◌, min, ◌≡◌, refl, ap, Bool, true, false, List, [], ◌∷◌, leb,
  if◌then◌else◌, length, length-set, map, replicate, length-replicate, ℤ, pos, negsuc,
  clamp_from_zero-le, arith,
}
use mesh_commander.Terminal.Screen.{
  Cell, blank, Qt, TerminalScreen, init, resized, resize, clear, low_half, put_cell_at_cursor,
  set_cursor, carriage_return, shift_rows, clear_columns, clear_rows, line_feed, backspace, tab,
  erase_in_line, erase_in_display, set_attr, emit_response,
}
use mesh_commander.Terminal.Screen.Grid.{
  length-clear_columns, length-clear_rows, length-shift_rows, length-copy_rows,
}

pub record IsValid (s : TerminalScreen) : Type 0 where
  pub has_rows : 1 ≤ s.rows
  pub has_columns : 1 ≤ s.columns
  pub full : length s.cells ≡ s.rows * s.columns
  pub row_in : s.cursor_row < s.rows
  pub column_in : s.cursor_column ≤ s.columns

pub init-IsValid : IsValid init
unfolding init
init-IsValid = record {
  has_rows = omega arith;
  has_columns = omega arith;
  full = length-replicate (24 * 80) blank;
  row_in = omega arith;
  column_in = omega arith;
}

length-map-blank : (cells : List Cell) → length (map (λ (c : Cell). blank) cells) ≡ length cells
length-map-blank [] = refl
length-map-blank (c ∷ cells) = ap suc (length-map-blank cells)

pub clear-IsValid : {s : TerminalScreen} → IsValid s → IsValid (clear s)
unfolding clear
clear-IsValid {s} v = ground (arith, length-map-blank s.cells)

resized-IsValid :
    {s : TerminalScreen} (h w : ℕ) → IsValid s → 1 ≤ h → 1 ≤ w → IsValid (resized s h w)
unfolding resized
resized-IsValid {s} h w v hh hw = ground (
  arith,
  length-copy_rows s.cells s.columns w (min s.columns w) 0 (min s.rows h) (replicate (h * w) blank),
  length-replicate (h * w) blank,
)

pub resize-IsValid : {s : TerminalScreen} (h w : ℤ) → IsValid s → IsValid (resize s h w)
unfolding resize
resize-IsValid {s} (pos h) (pos w) v = ground (arith, resized-IsValid h w v)
resize-IsValid (pos h) (negsuc w) v = v
resize-IsValid (negsuc h) w v = v

pub put_cell_at_cursor-IsValid :
    {s : TerminalScreen} (qt : Qt) (f : List ℕ) → IsValid s → IsValid (put_cell_at_cursor qt f s)
unfolding put_cell_at_cursor
put_cell_at_cursor-IsValid qt [] v = v
put_cell_at_cursor-IsValid {s} qt (a ∷ f) v =
    let column : ℕ = if leb s.columns s.cursor_column then s.columns - 1 else s.cursor_column in
    ground (
      arith,
      length-set s.cells (s.cursor_row * s.columns + column)
          (record (s.pen) { ch = a; low_surrogate = low_half qt a f }),
    )

pub set_cursor-IsValid :
    {s : TerminalScreen} (row column : ℤ) → IsValid s → IsValid (set_cursor row column s)
unfolding set_cursor
set_cursor-IsValid {s} row column v =
    ground (arith, clamp_from_zero-le row (s.rows - 1), clamp_from_zero-le column (s.columns - 1))

pub line_feed-IsValid : {s : TerminalScreen} → IsValid s → IsValid (line_feed s)
unfolding line_feed
line_feed-IsValid {s} v = ground (
  arith,
  length-clear_columns s.columns (s.rows - 1) 0 s.columns
      (shift_rows s.columns 0 (s.rows - 1) s.cells),
  length-shift_rows s.columns 0 (s.rows - 1) s.cells,
)

pub backspace-IsValid : {s : TerminalScreen} → IsValid s → IsValid (backspace s)
unfolding backspace
backspace-IsValid v = ground arith

pub tab-IsValid : {s : TerminalScreen} → IsValid s → IsValid (tab s)
unfolding tab
tab-IsValid v = ground arith

pub carriage_return-IsValid : {s : TerminalScreen} → IsValid s → IsValid (carriage_return s)
unfolding carriage_return
carriage_return-IsValid v = ground arith

pub erase_in_line-IsValid :
    {s : TerminalScreen} (mode : ℕ) → IsValid s → IsValid (erase_in_line mode s)
unfolding erase_in_line
erase_in_line-IsValid {s} mode v = ground (
  arith,
  length-clear_columns s.columns s.cursor_row s.cursor_column (s.columns - s.cursor_column) s.cells,
  length-clear_columns s.columns s.cursor_row 0 (min (s.cursor_column + 1) s.columns) s.cells,
  length-clear_columns s.columns s.cursor_row 0 s.columns s.cells,
)

pub erase_in_display-IsValid :
    {s : TerminalScreen} (mode : ℕ) → IsValid s → IsValid (erase_in_display mode s)
unfolding erase_in_display
erase_in_display-IsValid {s} mode v =
    let w : ℕ = s.columns in
    let r : ℕ = s.cursor_row in
    let below : List Cell = clear_columns w r s.cursor_column (w - s.cursor_column) s.cells in
    let above : List Cell = clear_rows w 0 r s.cells in
    ground (
      arith,
      length-clear_columns w r s.cursor_column (w - s.cursor_column) s.cells,
      length-clear_rows w (r + 1) (s.rows - (r + 1)) below,
      length-clear_rows w 0 r s.cells,
      length-clear_columns w r 0 (min (s.cursor_column + 1) w) above,
      length-clear_rows w 0 s.rows s.cells,
    )

pub set_attr-IsValid :
    {s : TerminalScreen} (bit : ℕ) (on : Bool) → IsValid s → IsValid (set_attr bit on s)
unfolding set_attr
set_attr-IsValid bit true v = ground arith
set_attr-IsValid bit false v = ground arith

pub emit_response-IsValid :
    {s : TerminalScreen} (bytes : List ℕ) → IsValid s → IsValid (emit_response bytes s)
unfolding emit_response
emit_response-IsValid [] v = v
emit_response-IsValid (b ∷ bytes) v = ground arith
