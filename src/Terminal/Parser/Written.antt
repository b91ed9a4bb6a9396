-- ===== src/Terminal/Parser/Written.antt =====
-- What a host sees on the screen after cursor positioning and after text, from the bytes that
-- terminal/src/vt100parser.cpp reads to the cells of terminal/src/terminalscreen.cpp.
use mesh_commander.Prelude.{
  ℕ, zero, suc, ◌+◌, ◌-◌, ◌≤◌, ◌<◌, min, ◌≡◌, ◌≢◌, refl, ap, true, false, ◌&&◌, List, [], ◌∷◌, ◌++◌,
  ltb, leb, ◌==◌, if◌then◌else◌, length, get_or, arith, pos, length-append,
}
use mesh_commander.Terminal.Screen.{
  Qt, TerminalScreen, cell, low_half, put_cell_at_cursor, set_cursor,
}
use mesh_commander.Terminal.Screen.Valid.{IsValid, put_cell_at_cursor-IsValid}
use mesh_commander.Terminal.Screen.Cells.{cell-put_cell_at_cursor}
use mesh_commander.Terminal.Params.{is_digit, parse_params}
use mesh_commander.Terminal.Params.Digits.{
  AllDigits, AllWritten, decimal, render_more, parse_params-render,
}
use mesh_commander.Terminal.Parser.{State, Terminal, is_csi_final, csi_dispatch, parser_feed}
use mesh_commander.Terminal.Parser.Sequences.{idle, AllBodyBytes, feed_csi}
use mesh_commander.Terminal.Parser.Streams.{AllPrintable, put_text, feed_text}

digit_body : (b : ℕ) → is_digit b ≡ true → (is_csi_final b ≡ false) × (b ≢ b'?')
unfolding is_csi_final
digit_body b h = ground arith

AllBodyBytes-digits :
    (ds rest : List ℕ) → AllDigits ds → AllBodyBytes rest → AllBodyBytes (ds ++ rest)
AllBodyBytes-digits [] rest a r = r
AllBodyBytes-digits (d ∷ ds) rest a r =
    let h = digit_body d a.0 in (h.0, h.1, AllBodyBytes-digits ds rest a.1 r)

AllBodyBytes-render :
    (params : List (List ℕ)) → AllWritten params → AllBodyBytes (render_more params)
unfolding is_csi_final
AllBodyBytes-render [] a = tt
AllBodyBytes-render (ds ∷ rest) a = (
  refl,
  omega arith,
  AllBodyBytes-digits ds (render_more rest) a.0 (AllBodyBytes-render rest a.2),
)

set_cursor_from_one :
    (qt : Qt) (s : TerminalScreen) (row column : ℕ) (params : List ℕ)
    → params ≡ row ∷ column ∷ []
    → let u = csi_dispatch qt b'H' params s in
      (u.cursor_row ≡ min (row - 1) (s.rows - 1))
      × (u.cursor_column ≡ min (column - 1) (s.columns - 1))
      × (u.cells ≡ s.cells)
      × (u.pen ≡ s.pen)
unfolding csi_dispatch set_cursor
set_cursor_from_one qt s row column params e = rw e (ground arith)

-- From ground, ESC [ row ; column H, each written in at most six digits or left empty, puts the
-- cursor at that place counted from one and cut to the grid, and leaves cells and pen as they
-- are.
pub feed_cursor_position :
    (qt : Qt) (t : Terminal) (row column : List ℕ)
    → t.parser.state ≡ State.ground
    → AllWritten (row ∷ column ∷ [])
    → let u =
        parser_feed qt t (0x1B ∷ b'[' ∷ [] ++ (row ++ render_more (column ∷ [])) ++ b'H' ∷ []) in
      (u.parser ≡ idle t.parser)
      × (u.screen.cursor_row ≡ min (decimal 0 row - 1) (t.screen.rows - 1))
      × (u.screen.cursor_column ≡ min (decimal 0 column - 1) (t.screen.columns - 1))
      × (u.screen.cells ≡ t.screen.cells)
      × (u.screen.pen ≡ t.screen.pen)
unfolding is_csi_final
feed_cursor_position qt t row column g a =
    let body : List ℕ = row ++ render_more (column ∷ []) in
    let moved =
      set_cursor_from_one qt t.screen (decimal 0 row) (decimal 0 column) (parse_params body).0
        (ap (λ (x : List ℕ × ℕ). x.0) (parse_params-render row (column ∷ []) a)) in
    rw
      (feed_csi qt t body b'H' g
        (AllBodyBytes-digits row (render_more (column ∷ [])) a.0
          (AllBodyBytes-render (column ∷ []) a.2))
        (omega (arith, length-append row (render_more (column ∷ [])), length-append column []))
        refl)
      (refl, moved.0, moved.1, moved.2, moved.3)

-- One character away from the right margin.
put_one :
    (qt : Qt) (b : ℕ) (s : TerminalScreen)
    → s.cursor_column < s.columns
    → let u = put_cell_at_cursor qt (b ∷ []) s in
      (u.cursor_row ≡ s.cursor_row)
      × (u.cursor_column ≡ s.cursor_column + 1)
      × (u.rows ≡ s.rows)
      × (u.columns ≡ s.columns)
      × (u.pen ≡ s.pen)
unfolding put_cell_at_cursor
put_one qt b s h = ground arith

get_or-eq : (text : List ℕ) (i j : ℕ) → i ≡ j → get_or text i 0 ≡ get_or text j 0
get_or-eq text i j e = ap (λ (k : ℕ). get_or text k 0) e

get_or-cons :
    (b : ℕ) (text : List ℕ) (n : ℕ)
    → get_or (b ∷ text) n 0 ≡ (if n == 0 then b else get_or text (n - 1) 0)
get_or-cons b text zero = refl
get_or-cons b text (suc n) = ground arith

put_one-cell :
    (qt : Qt) (b : ℕ) (s : TerminalScreen) (row column : ℕ)
    → IsValid s
    → s.cursor_column < s.columns
    → row < s.rows
    → column < s.columns
    → cell (put_cell_at_cursor qt (b ∷ []) s) (pos row) (pos column) ≡ (
        if (row == s.cursor_row) && (column == s.cursor_column)
        then record (s.pen) { ch = b; low_surrogate = 0 }
        else cell s (pos row) (pos column))
unfolding low_half
put_one-cell qt b s row column v h hr hc =
    ground (arith, cell-put_cell_at_cursor s qt b [] row column v hr hc)

put_text-cell :
    (qt : Qt) (text : List ℕ) (s : TerminalScreen) (row column : ℕ)
    → IsValid s
    → s.cursor_column + length text ≤ s.columns
    → row < s.rows
    → column < s.columns
    → cell (put_text qt text s) (pos row) (pos column) ≡ (
        if (row == s.cursor_row)
          && leb s.cursor_column column
          && ltb column (s.cursor_column + length text)
        then record (s.pen) { ch = get_or text (column - s.cursor_column) 0; low_surrogate = 0 }
        else cell s (pos row) (pos column))
put_text-cell qt [] s row column v h hr hc = ground arith
put_text-cell qt (b ∷ text) s row column v h hr hc =
    let s' : TerminalScreen = put_cell_at_cursor qt (b ∷ []) s in
    let k = put_one qt b s (omega arith) in
    ground (
      arith,
      put_text-cell qt text s' row column (put_cell_at_cursor-IsValid qt (b ∷ []) v) (omega arith)
          (omega arith) (omega arith),
      put_one-cell qt b s row column v (omega arith) hr hc,
      get_or-cons b text (column - s.cursor_column),
      get_or-eq text (column - s.cursor_column - 1) (column - s'.cursor_column) (omega arith),
    )

-- On a valid screen in ground, a printable ASCII text that fits on the cursor's row behind the
-- cursor is in the cells from the cursor on, in the pen's colours and attributes, and every
-- other cell is unchanged.
pub feed_text-cell :
    (qt : Qt) (t : Terminal) (text : List ℕ) (row column : ℕ)
    → t.parser.state ≡ State.ground
    → IsValid t.screen
    → AllPrintable text
    → t.screen.cursor_column + length text ≤ t.screen.columns
    → row < t.screen.rows
    → column < t.screen.columns
    → cell (parser_feed qt t text).screen (pos row) (pos column) ≡ (
        if (row == t.screen.cursor_row)
          && leb t.screen.cursor_column column
          && ltb column (t.screen.cursor_column + length text)
        then record (t.screen.pen) {
          ch = get_or text (column - t.screen.cursor_column) 0;
          low_surrogate = 0;
        }
        else cell t.screen (pos row) (pos column))
feed_text-cell qt t text row column g v a h hr hc =
    rw (feed_text qt t text g a) (put_text-cell qt text t.screen row column v h hr hc)
