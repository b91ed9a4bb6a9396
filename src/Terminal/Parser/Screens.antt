-- ===== src/Terminal/Parser/Screens.antt =====
-- The operations that terminal/src/vt100parser.cpp calls keep the screen and its pen in order.
use mesh_commander.Prelude.{
  drop_last, get_last_or, get_or, pos, sub_ℕ, ℕ, ◌+◌, Bool, List, [], ◌∷◌, ℤ, arith,
}
use mesh_commander.Terminal.Screen.{
  Cell, TerminalScreen, Qt, clear, emit, bell, touch, put_cell_at_cursor, set_cursor,
  carriage_return, line_feed, backspace, tab, erase_in_line, erase_in_display, save_cursor,
  restore_cursor, emit_response,
}
use mesh_commander.Terminal.Screen.Valid.{
  IsValid, clear-IsValid, put_cell_at_cursor-IsValid, set_cursor-IsValid, carriage_return-IsValid,
  line_feed-IsValid, backspace-IsValid, tab-IsValid, erase_in_line-IsValid,
  erase_in_display-IsValid, emit_response-IsValid,
}
use mesh_commander.Terminal.Sgr.{handle_sgr}
use mesh_commander.Terminal.Sgr.Pen.{IsPen, handle_sgr-IsPen}
use mesh_commander.Terminal.Parser.{
  parse_params, offset, param_or, handle_c0, move_cursor, handle_window_ops, csi_dispatch,
  handle_csi,
}

pub record IsSound (s : TerminalScreen) : Type 0 where
  pub valid : IsValid s
  pub is_pen : IsPen s.pen

pub clear-IsSound : {s : TerminalScreen} → IsSound s → IsSound (clear s)
unfolding clear
clear-IsSound {s} k = record { valid = clear-IsValid k.valid; is_pen = omega arith }

pub set_cursor-IsSound :
    {s : TerminalScreen} (row column : ℤ) → IsSound s → IsSound (set_cursor row column s)
unfolding set_cursor
set_cursor-IsSound row column k = record {
  valid = set_cursor-IsValid row column k.valid;
  is_pen = k.is_pen;
}

pub erase_in_line-IsSound :
    {s : TerminalScreen} (mode : ℕ) → IsSound s → IsSound (erase_in_line mode s)
unfolding erase_in_line
erase_in_line-IsSound mode k = record {
  valid = erase_in_line-IsValid mode k.valid;
  is_pen = ground arith;
}

pub erase_in_display-IsSound :
    {s : TerminalScreen} (mode : ℕ) → IsSound s → IsSound (erase_in_display mode s)
unfolding erase_in_display
erase_in_display-IsSound mode k = record {
  valid = erase_in_display-IsValid mode k.valid;
  is_pen = ground arith;
}

pub emit_response-IsSound :
    {s : TerminalScreen} (bytes : List ℕ) → IsSound s → IsSound (emit_response bytes s)
unfolding emit_response
emit_response-IsSound [] k = k
emit_response-IsSound (b ∷ bytes) k = record {
  valid = emit_response-IsValid (b ∷ bytes) k.valid;
  is_pen = k.is_pen;
}

pub put_cell_at_cursor-IsSound :
    {s : TerminalScreen} (qt : Qt) (text : List ℕ)
    → IsSound s
    → IsSound (put_cell_at_cursor qt text s)
unfolding put_cell_at_cursor
put_cell_at_cursor-IsSound qt [] k = k
put_cell_at_cursor-IsSound qt (c ∷ text) k = record {
  valid = put_cell_at_cursor-IsValid qt (c ∷ text) k.valid;
  is_pen = k.is_pen;
}

pub pen-IsValid : {s : TerminalScreen} (c : Cell) → IsValid s → IsValid (record s { pen = c })
pen-IsValid c v = record {
  has_rows = v.has_rows;
  has_columns = v.has_columns;
  full = v.full;
  row_in = v.row_in;
  column_in = v.column_in;
}

pub handle_sgr-IsSound :
    {s : TerminalScreen} (params : List ℕ) → IsSound s → IsSound (handle_sgr params s)
handle_sgr-IsSound {s} params k =
    let h = handle_sgr-IsPen params s k.is_pen in
    record { valid = rw h.0 (pen-IsValid (handle_sgr params s).pen k.valid); is_pen = h.1 }

pub carriage_return-IsSound : {s : TerminalScreen} → IsSound s → IsSound (carriage_return s)
unfolding carriage_return
carriage_return-IsSound k = record { valid = carriage_return-IsValid k.valid; is_pen = k.is_pen }

pub line_feed-IsSound : {s : TerminalScreen} → IsSound s → IsSound (line_feed s)
unfolding line_feed
line_feed-IsSound k = record { valid = line_feed-IsValid k.valid; is_pen = ground arith }

pub backspace-IsSound : {s : TerminalScreen} → IsSound s → IsSound (backspace s)
unfolding backspace
backspace-IsSound k = record { valid = backspace-IsValid k.valid; is_pen = ground arith }

pub tab-IsSound : {s : TerminalScreen} → IsSound s → IsSound (tab s)
unfolding tab
tab-IsSound k = record { valid = tab-IsValid k.valid; is_pen = k.is_pen }

pub bell-IsSound : {s : TerminalScreen} → IsSound s → IsSound (emit bell s)
unfolding emit
bell-IsSound k = ground arith

pub handle_c0-IsSound : {s : TerminalScreen} (b : ℕ) → IsSound s → IsSound (handle_c0 b s)
unfolding handle_c0
handle_c0-IsSound {s} b k = ground (
  arith,
  bell-IsSound k,
  backspace-IsSound k,
  tab-IsSound k,
  line_feed-IsSound k,
  carriage_return-IsSound k,
)

pub move_cursor-IsSound :
    {s : TerminalScreen} (rows columns : ℤ) → IsSound s → IsSound (move_cursor rows columns s)
unfolding move_cursor
move_cursor-IsSound {s} rows columns k =
    set_cursor-IsSound (offset s.cursor_row rows) (offset s.cursor_column columns) k

pub save_cursor-IsSound : {s : TerminalScreen} → IsSound s → IsSound (save_cursor s)
unfolding save_cursor
save_cursor-IsSound k = ground arith

pub restore_cursor-IsSound : {s : TerminalScreen} → IsSound s → IsSound (restore_cursor s)
unfolding restore_cursor
restore_cursor-IsSound {s} k = set_cursor-IsSound (pos s.saved_row) (pos s.saved_column) k

module _ (qt : Qt) where
  pub handle_window_ops-IsSound :
      {s : TerminalScreen} (params : List ℕ) → IsSound s → IsSound (handle_window_ops qt params s)
  unfolding handle_window_ops
  handle_window_ops-IsSound {s} params k = grind (arith, emit_response-IsSound)

  pub csi_dispatch-IsSound :
      {s : TerminalScreen} (final : ℕ) (params : List ℕ)
      → IsSound s
      → IsSound (csi_dispatch qt final params s)
  unfolding csi_dispatch
  csi_dispatch-IsSound {s} final params k =
      let n : ℕ = param_or params 0 1 in
      ground (
        arith,
        move_cursor-IsSound (sub_ℕ 0 n) (pos 0) k,
        move_cursor-IsSound (pos n) (pos 0) k,
        move_cursor-IsSound (pos 0) (pos n) k,
        move_cursor-IsSound (pos 0) (sub_ℕ 0 n) k,
        set_cursor-IsSound (pos (s.cursor_row + n)) (pos 0) k,
        set_cursor-IsSound (sub_ℕ s.cursor_row n) (pos 0) k,
        set_cursor-IsSound (pos s.cursor_row) (sub_ℕ n 1) k,
        set_cursor-IsSound (sub_ℕ n 1) (sub_ℕ (param_or params 1 1) 1) k,
        erase_in_display-IsSound (get_or params 0 0) k,
        erase_in_line-IsSound (get_or params 0 0) k,
        handle_sgr-IsSound params k,
        save_cursor-IsSound k,
        handle_window_ops-IsSound params k,
        restore_cursor-IsSound k,
      )

  pub handle_csi-IsSound :
      {s : TerminalScreen} (seq : List ℕ) (csi_private : Bool)
      → IsSound s
      → IsSound (handle_csi qt seq csi_private s)
  unfolding handle_csi
  handle_csi-IsSound [] csi_private k = k
  handle_csi-IsSound (b ∷ seq) csi_private k =
      ground
        (arith, csi_dispatch-IsSound (get_last_or seq b) (parse_params (drop_last (b ∷ seq))).0 k)

pub touch-IsSound : {s : TerminalScreen} → IsSound s → IsSound (touch s)
unfolding touch
touch-IsSound k = ground arith
