-- ===== src/Terminal/Screen/Cells.antt =====
-- What the operations of terminal/src/terminalscreen.cpp do to each cell on the screen.
use mesh_commander.Prelude.{
  ℕ, ◌+◌, ◌-◌, ◌*◌, ◌≤◌, ◌<◌, min, ◌≡◌, Bool, true, ◌&&◌, ◌||◌, List, ◌∷◌, ltb, leb, ◌==◌,
  if◌then◌else◌, replicate, get_or, get_or-replicate, length-replicate, pos, arith,
}
use mesh_commander.Terminal.Screen.{
  Cell, blank, Qt, TerminalScreen, cell, clear_columns, clear_rows, shift_rows, erase_in_line,
  erase_in_display, line_feed, resized, resize, low_half, put_cell_at_cursor,
}
use mesh_commander.Terminal.Screen.Grid.{get-copy_rows}
use mesh_commander.Terminal.Screen.Valid.{IsValid}
use mesh_commander.Terminal.Screen.Places.{clear_columns_at, clear_rows_at, shift_rows_at, set_at}

-- Which columns of the cursor's line `CSI Ps K` blanks.
abbrev pub in_erased_line : ℕ → ℕ → ℕ → Bool
in_erased_line mode cursor column =
    if mode == 0 then leb cursor column else if mode == 1 then leb column cursor else mode == 2

-- On a valid screen, after eraseInLine a cell of the cursor's row is blank when the mode's
-- columns hold it (0 from the cursor on, 1 up to the cursor, 2 all), and every other cell is
-- unchanged.
pub cell-erase_in_line :
    (s : TerminalScreen) (mode row column : ℕ)
    → IsValid s
    → row < s.rows
    → column < s.columns
    → cell (erase_in_line mode s) (pos row) (pos column) ≡ (
        if (row == s.cursor_row) && in_erased_line mode s.cursor_column column
        then blank
        else cell s (pos row) (pos column))
unfolding cell erase_in_line
cell-erase_in_line s mode row column v hr hc = ground (
  arith,
  clear_columns_at s.columns s.cursor_row s.cursor_column (s.columns - s.cursor_column) s.cells row
      column (omega arith) hc,
  clear_columns_at s.columns s.cursor_row 0 (min (s.cursor_column + 1) s.columns) s.cells row column
      (omega arith) hc,
  clear_columns_at s.columns s.cursor_row 0 s.columns s.cells row column (omega arith) hc,
)

-- Which cells `CSI Ps J` blanks, the cursor at `crow`, `ccolumn`.
abbrev pub in_erased_display : ℕ → ℕ → ℕ → ℕ → ℕ → Bool
in_erased_display mode crow ccolumn row column =
    if mode == 0
    then ltb crow row || ((row == crow) && leb ccolumn column)
    else if mode == 1
    then ltb row crow || ((row == crow) && leb column ccolumn)
    else true

below_at :
    (w h r a : ℕ) (cells : List Cell) (row column : ℕ)
    → r < h
    → row < h
    → column < w
    → a ≤ w
    → get_or
        (clear_rows w (r + 1) (h - (r + 1)) (clear_columns w r a (w - a) cells))
        (row * w + column)
        blank
      ≡ (if ltb r row || ((row == r) && leb a column)
          then blank
          else get_or cells (row * w + column) blank)
below_at w h r a cells row column hr hrow hc ha =
    let line : List Cell = clear_columns w r a (w - a) cells in
    ground (
      arith,
      clear_columns_at w r a (w - a) cells row column (omega arith) hc,
      clear_rows_at w (r + 1) (h - (r + 1)) line row column hc,
    )

above_at :
    (w r a : ℕ) (cells : List Cell) (row column : ℕ)
    → column < w
    → get_or (clear_columns w r 0 (min (a + 1) w) (clear_rows w 0 r cells)) (row * w + column) blank
      ≡ (if ltb row r || ((row == r) && leb column a)
          then blank
          else get_or cells (row * w + column) blank)
above_at w r a cells row column hc = ground (
  arith,
  clear_rows_at w 0 r cells row column hc,
  clear_columns_at w r 0 (min (a + 1) w) (clear_rows w 0 r cells) row column (omega arith) hc,
)

-- On a valid screen, after eraseInDisplay each cell of the grid is blank when the mode's region
-- holds it (0 from the cursor on, 1 up to the cursor, any other mode the whole grid), and
-- unchanged otherwise.
pub cell-erase_in_display :
    (s : TerminalScreen) (mode row column : ℕ)
    → IsValid s
    → row < s.rows
    → column < s.columns
    → cell (erase_in_display mode s) (pos row) (pos column) ≡ (
        if in_erased_display mode s.cursor_row s.cursor_column row column
        then blank
        else cell s (pos row) (pos column))
unfolding cell erase_in_display
cell-erase_in_display s mode row column v hr hc = ground (
  arith,
  below_at s.columns s.rows s.cursor_row s.cursor_column s.cells row column v.row_in hr hc
      v.column_in,
  above_at s.columns s.cursor_row s.cursor_column s.cells row column hc,
  clear_rows_at s.columns 0 s.rows s.cells row column hc,
)

-- On a valid screen, a line feed on the last row moves every row up by one and leaves the last
-- row blank; on any other row it leaves the cells as they are.
pub cell-line_feed :
    (s : TerminalScreen) (row column : ℕ)
    → IsValid s
    → row < s.rows
    → column < s.columns
    → cell (line_feed s) (pos row) (pos column) ≡ (
        if s.cursor_row + 1 == s.rows
        then if row + 1 == s.rows then blank else cell s (pos (row + 1)) (pos column)
        else cell s (pos row) (pos column))
unfolding cell line_feed
cell-line_feed s row column v hr hc =
    let w : ℕ = s.columns in
    let shifted : List Cell = shift_rows w 0 (s.rows - 1) s.cells in
    ground (
      arith,
      clear_columns_at w (s.rows - 1) 0 w shifted row column (omega arith) hc,
      shift_rows_at w 0 (s.rows - 1) s.cells row column (grind arith) hc,
    )

cell-resized :
    (s : TerminalScreen) (h w row column : ℕ)
    → row < h
    → column < w
    → cell (resized s h w) (pos row) (pos column)
      ≡ (if ltb row s.rows && ltb column s.columns then cell s (pos row) (pos column) else blank)
unfolding cell resized
cell-resized s h w row column hr hc =
    let fresh : List Cell = replicate (h * w) blank in
    ground (
      arith,
      get-copy_rows s.cells s.columns w (min s.columns w) 0 (min s.rows h) fresh row column
          (omega arith) hc (grind (arith, length-replicate (h * w) blank)),
      get_or-replicate (h * w) (row * w + column) blank,
    )

-- After a resize to h rows and w columns each cell of the new grid is the old cell at that
-- place if the old grid had one there, and blank otherwise.
pub cell-resize :
    (s : TerminalScreen) (h w row column : ℕ)
    → row < h
    → column < w
    → cell (resize s (pos h) (pos w)) (pos row) (pos column)
      ≡ (if ltb row s.rows && ltb column s.columns then cell s (pos row) (pos column) else blank)
unfolding resize
cell-resize s h w row column hr hc = ground (arith, cell-resized s h w row column hr hc)

-- Where the next character goes.
abbrev pub target_column : TerminalScreen → ℕ
target_column s = if leb s.columns s.cursor_column then s.columns - 1 else s.cursor_column

-- On a valid screen, putting a non-empty fragment changes one cell, the one at the cursor (in
-- the last column when the cursor is past it), to the pen with the fragment's first unit and,
-- for a surrogate pair, its low half.
pub cell-put_cell_at_cursor :
    (s : TerminalScreen) (qt : Qt) (first : ℕ) (rest : List ℕ) (row column : ℕ)
    → IsValid s
    → row < s.rows
    → column < s.columns
    → cell (put_cell_at_cursor qt (first ∷ rest) s) (pos row) (pos column) ≡ (
        if (row == s.cursor_row) && (column == target_column s)
        then record (s.pen) { ch = first; low_surrogate = low_half qt first rest }
        else cell s (pos row) (pos column))
unfolding cell put_cell_at_cursor
cell-put_cell_at_cursor s qt first rest row column v hr hc = ground (
  arith,
  set_at s.columns s.rows s.cursor_row (target_column s) s.cells
      (record (s.pen) { ch = first; low_surrogate = low_half qt first rest }) row column v.full
      v.row_in (ground arith) hc,
)
