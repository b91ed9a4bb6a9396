-- ===== src/Terminal/Screen.antt =====
-- terminal/include/terminal/terminalscreen.h and terminal/src/terminalscreen.cpp: the character
-- grid with its cursor and pen. A mutator returns the new screen; what it emits goes on the
-- front of `signals`. The `int`s that the code keeps at zero or more are natural numbers.
pub mod Grid
pub mod Places
pub mod Valid
pub mod Cells
use mesh_commander.Prelude.{
  ℕ, zero, suc, ◌+◌, ◌-◌, ◌*◌, ◌/◌, min, bit_and, bit_or, Bool, true, false, ◌&&◌, ◌||◌, List, [],
  ◌∷◌, ltb, leb, ◌==◌, if◌then◌else◌, get_or, set, replicate, map, ℤ, pos, negsuc, clamp_from_zero,
}

-- `enum CellAttr`
abbrev pub attr_bold : ℕ
attr_bold = 0x01

abbrev pub attr_underline : ℕ
attr_underline = 0x02

abbrev pub attr_reverse : ℕ
attr_reverse = 0x04

pub record Cell : Type 0 where
  pub ch : ℕ
  pub low_surrogate : ℕ
  pub fg : ℕ
  pub bg : ℕ
  pub attrs : ℕ

-- `Cell{}`
abbrev pub blank : Cell
blank = record { ch = 0x20; low_surrogate = 0; fg = 0xFF; bg = 0xFF; attrs = 0 }

pub data Signal : Type 0 where
  geometry_changed cursor_moved screen_updated bell : Signal
  respond : List ℕ → Signal

-- The cells are row-major. The parser that the class also owns is beside it, in `Terminal`.
pub record TerminalScreen : Type 0 where
  pub rows : ℕ
  pub columns : ℕ
  pub cursor_row : ℕ
  pub cursor_column : ℕ
  pub saved_row : ℕ
  pub saved_column : ℕ
  pub version : ℕ
  pub pen : Cell
  pub cells : List Cell
  pub signals : List Signal

-- What Qt does for the terminal: QString::fromUtf8 into UTF-16 code units, the tests on a code
-- unit, and QByteArray::number.
pub record Qt : Type 0 where
  pub from_utf8 : List ℕ → List ℕ
  pub number : ℕ → List ℕ
  pub is_high_surrogate : ℕ → Bool
  pub is_low_surrogate : ℕ → Bool

unfoldable pub emit : Signal → TerminalScreen → TerminalScreen
emit e s = record s { signals = e ∷ s.signals }

unfoldable pub init : TerminalScreen
init = record {
  rows = 24;
  columns = 80;
  cursor_row = 0;
  cursor_column = 0;
  saved_row = 0;
  saved_column = 0;
  version = 0;
  pen = blank;
  cells = replicate (24 * 80) blank;
  signals = [];
}

unfoldable pub cell : TerminalScreen → ℤ → ℤ → Cell
cell s (pos row) (pos column) =
    if leb s.rows row || leb s.columns column
    then blank
    else get_or s.cells (row * s.columns + column) blank
cell s (pos row) (negsuc column) = blank
cell s (negsuc row) column = blank

unfoldable pub touch : TerminalScreen → TerminalScreen
unfolding emit
touch s = emit screen_updated (record s { version = s.version + 1 })

-- `for (; n > 0; --n, ++c) next[row * to + c] = from[row * width + c];`
unfoldable pub copy_columns : List Cell → ℕ → ℕ → ℕ → ℕ → ℕ → List Cell → List Cell
copy_columns from width to row c zero next = next
copy_columns from width to row c (suc n) next =
    copy_columns from width to row (c + 1) n
      (set next (row * to + c) (get_or from (row * width + c) blank))

unfoldable pub copy_rows : List Cell → ℕ → ℕ → ℕ → ℕ → ℕ → List Cell → List Cell
unfolding copy_columns
copy_rows from width to copied row zero next = next
copy_rows from width to copied row (suc n) next =
    copy_rows from width to copied (row + 1) n (copy_columns from width to row 0 copied next)

unfoldable pub resized : TerminalScreen → ℕ → ℕ → TerminalScreen
unfolding copy_rows emit touch
resized s new_rows new_columns = touch (
    emit cursor_moved (
      emit geometry_changed (record s {
        cells =
            copy_rows s.cells s.columns new_columns (min s.columns new_columns) 0
              (min s.rows new_rows) (replicate (new_rows * new_columns) blank);
        rows = new_rows;
        columns = new_columns;
        cursor_row = min s.cursor_row (new_rows - 1);
        cursor_column = min s.cursor_column (new_columns - 1);
      })))

-- A negative size is refused like a size of 0.
unfoldable pub resize : TerminalScreen → ℤ → ℤ → TerminalScreen
unfolding resized
resize s (pos new_rows) (pos new_columns) =
    if (new_rows == 0) || (new_columns == 0)
    then s
    else if (new_rows == s.rows) && (new_columns == s.columns)
    then s
    else resized s new_rows new_columns
resize s (pos new_rows) (negsuc new_columns) = s
resize s (negsuc new_rows) new_columns = s

unfoldable pub clear : TerminalScreen → TerminalScreen
unfolding emit touch
clear s = touch (
    emit cursor_moved (record s {
      cells = map (λ c. blank) s.cells;
      cursor_row = 0;
      cursor_column = 0;
      pen = blank;
    }))

-- The second half of a surrogate pair, or 0.
unfoldable pub low_half : Qt → ℕ → List ℕ → ℕ
low_half qt first [] = 0
low_half qt first (second ∷ rest) =
    if qt.is_high_surrogate first && qt.is_low_surrogate second then second else 0

unfoldable pub put_cell_at_cursor : Qt → List ℕ → TerminalScreen → TerminalScreen
unfolding low_half emit
put_cell_at_cursor qt [] s = s
put_cell_at_cursor qt (first ∷ rest) s =
    let column : ℕ = if leb s.columns s.cursor_column then s.columns - 1 else s.cursor_column in
    emit cursor_moved (record s {
      cells =
          set s.cells (s.cursor_row * s.columns + column)
            (record (s.pen) { ch = first; low_surrogate = low_half qt first rest });
      cursor_column = if ltb column (s.columns - 1) then column + 1 else s.columns;
    })

unfoldable pub set_cursor : ℤ → ℤ → TerminalScreen → TerminalScreen
unfolding emit clamp_from_zero
set_cursor row column s = emit cursor_moved (record s {
  cursor_row = clamp_from_zero row (s.rows - 1);
  cursor_column = clamp_from_zero column (s.columns - 1);
})

unfoldable pub carriage_return : TerminalScreen → TerminalScreen
unfolding emit
carriage_return s = emit cursor_moved (record s { cursor_column = 0 })

-- One row of `scrollUp`, in place: the `n` columns from `c` on of row `row` take the row below.
unfoldable pub shift_columns : ℕ → ℕ → ℕ → ℕ → List Cell → List Cell
shift_columns columns row c zero cells = cells
shift_columns columns row c (suc n) cells =
    shift_columns columns row (c + 1) n
      (set cells (row * columns + c) (get_or cells ((row + 1) * columns + c) blank))

unfoldable pub shift_rows : ℕ → ℕ → ℕ → List Cell → List Cell
unfolding shift_columns
shift_rows columns row zero cells = cells
shift_rows columns row (suc n) cells =
    shift_rows columns (row + 1) n (shift_columns columns row 0 columns cells)

-- `for (; n > 0; --n, ++c) cellMut(row, c) = Cell{};`
unfoldable pub clear_columns : ℕ → ℕ → ℕ → ℕ → List Cell → List Cell
clear_columns columns row c zero cells = cells
clear_columns columns row c (suc n) cells =
    clear_columns columns row (c + 1) n (set cells (row * columns + c) blank)

unfoldable pub clear_rows : ℕ → ℕ → ℕ → List Cell → List Cell
unfolding clear_columns
clear_rows columns row zero cells = cells
clear_rows columns row (suc n) cells =
    clear_rows columns (row + 1) n (clear_columns columns row 0 columns cells)

unfoldable pub scroll_up : TerminalScreen → TerminalScreen
unfolding shift_rows clear_columns
scroll_up s = record s {
  cells =
      clear_columns s.columns (s.rows - 1) 0 s.columns
        (shift_rows s.columns 0 (s.rows - 1) s.cells);
}

unfoldable pub line_feed : TerminalScreen → TerminalScreen
unfolding scroll_up emit
line_feed s = emit cursor_moved (
    if leb s.rows (s.cursor_row + 1)
    then scroll_up s
    else record s { cursor_row = s.cursor_row + 1 })

unfoldable pub backspace : TerminalScreen → TerminalScreen
unfolding emit
backspace s =
    if ltb 0 s.cursor_column
    then emit cursor_moved (record s { cursor_column = s.cursor_column - 1 })
    else s

unfoldable pub tab : TerminalScreen → TerminalScreen
unfolding emit
tab s =
    let next : ℕ = (s.cursor_column / 8 + 1) * 8 in
    emit cursor_moved
      (record s { cursor_column = if leb s.columns next then s.columns - 1 else next })

unfoldable pub erase_in_line : ℕ → TerminalScreen → TerminalScreen
unfolding clear_columns
erase_in_line mode s =
    if mode == 0
    then record s {
      cells =
          clear_columns s.columns s.cursor_row s.cursor_column (s.columns - s.cursor_column)
            s.cells;
    }
    else if mode == 1
    then record s {
      cells = clear_columns s.columns s.cursor_row 0 (min (s.cursor_column + 1) s.columns) s.cells;
    }
    else if mode == 2
    then record s { cells = clear_columns s.columns s.cursor_row 0 s.columns s.cells }
    else s

unfoldable pub erase_in_display : ℕ → TerminalScreen → TerminalScreen
unfolding clear_columns clear_rows
erase_in_display mode s =
    if mode == 0
    then record s {
      cells = clear_rows s.columns (s.cursor_row + 1) (s.rows - (s.cursor_row + 1)) (
          clear_columns s.columns s.cursor_row s.cursor_column (s.columns - s.cursor_column)
            s.cells);
    }
    else if mode == 1
    then record s {
      cells =
          clear_columns s.columns s.cursor_row 0 (min (s.cursor_column + 1) s.columns)
            (clear_rows s.columns 0 s.cursor_row s.cells);
    }
    else record s { cells = clear_rows s.columns 0 s.rows s.cells }

unfoldable pub reset_attributes : TerminalScreen → TerminalScreen
reset_attributes s = record s { pen = blank }

unfoldable pub set_fg : ℕ → TerminalScreen → TerminalScreen
set_fg index s = record s { pen = record (s.pen) { fg = index } }

unfoldable pub set_bg : ℕ → TerminalScreen → TerminalScreen
set_bg index s = record s { pen = record (s.pen) { bg = index } }

-- On a byte, `& ~bit` keeps the bits of 255 - bit.
unfoldable pub set_attr : ℕ → Bool → TerminalScreen → TerminalScreen
set_attr bit true s = record s { pen = record (s.pen) { attrs = bit_or s.pen.attrs bit } }
set_attr bit false s = record s { pen = record (s.pen) { attrs = bit_and s.pen.attrs (255 - bit) } }

unfoldable pub save_cursor : TerminalScreen → TerminalScreen
save_cursor s = record s { saved_row = s.cursor_row; saved_column = s.cursor_column }

unfoldable pub restore_cursor : TerminalScreen → TerminalScreen
unfolding set_cursor
restore_cursor s = set_cursor (pos s.saved_row) (pos s.saved_column) s

unfoldable pub emit_response : List ℕ → TerminalScreen → TerminalScreen
unfolding emit
emit_response [] s = s
emit_response (b ∷ bytes) s = emit (respond (b ∷ bytes)) s
