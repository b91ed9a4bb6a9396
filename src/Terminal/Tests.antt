-- ===== src/Terminal/Tests.antt =====
-- Runs of the terminal of terminal/ on small inputs.
use mesh_commander.Prelude.{
  ℕ, zero, suc, ◌+◌, ◌*◌, ◌%◌, ◌≡◌, refl, inl, false, ◌&&◌, [], ◌∷◌, ◌++◌, ltb, leb, get_or, arith,
  replicate, pos,
}
use mesh_commander.Terminal.Screen.{
  Cell, blank, Qt, TerminalScreen, cell, erase_in_display, line_feed, resize, scroll_up,
}
use mesh_commander.Terminal.Screen.Valid.{IsValid}
use mesh_commander.Terminal.Screen.Cells.{cell-erase_in_display, cell-line_feed, cell-resize}
use mesh_commander.Terminal.Html.{line_html, escaped}
use mesh_commander.Terminal.Html.Tags.{outside, IsShown, outside-line_html}
use mesh_commander.Terminal.Params.{parse_params}
use mesh_commander.Terminal.Params.Digits.{decimal, render_more}
use mesh_commander.Terminal.Sgr.{handle_sgr}
use mesh_commander.Terminal.Parser.{Terminal, reset, parser_feed, feed, is_csi_final, csi_dispatch}
use mesh_commander.Terminal.Parser.Sound.{IsOrderly, feed-IsOrderly}
use mesh_commander.Terminal.Parser.Sequences.{AllBodyBytes, feed_csi}
use mesh_commander.Terminal.Parser.Written.{feed_cursor_position, feed_text-cell}

-- A stand-in for Qt: text is Latin-1, and numbers are one digit.
abbrev latin : Qt
latin = record {
  from_utf8 = λ bytes. bytes;
  number = λ n. (b'0' + n % 10) ∷ [];
  is_high_surrogate = λ c. leb 0xD800 c && ltb c 0xDC00;
  is_low_surrogate = λ c. leb 0xDC00 c && ltb c 0xE000;
}

abbrev letter : ℕ → Cell
letter c = record blank { ch = c }

-- `ab` over `cd`, the cursor on the `d`.
abbrev small : TerminalScreen
small = record {
  rows = 2;
  columns = 2;
  cursor_row = 1;
  cursor_column = 1;
  saved_row = 0;
  saved_column = 0;
  version = 0;
  pen = blank;
  cells = letter b'a' ∷ letter b'b' ∷ letter b'c' ∷ letter b'd' ∷ [];
  signals = [];
}

abbrev small_terminal : Terminal
small_terminal = record { parser = reset; screen = small }

small-IsValid : IsValid small
small-IsValid = omega arith

small_terminal-IsOrderly : IsOrderly small_terminal
small_terminal-IsOrderly = ground arith

-- `ESC [ 2 J`, then `x`.
clear_and_write :
    (feed latin small_terminal (0x1B ∷ b'[' ∷ b'2' ∷ b'J' ∷ b'x' ∷ [])).screen.cells
    ≡ blank ∷ blank ∷ blank ∷ letter b'x' ∷ []
unfolding feed
clear_and_write = refl

scrolled : (scroll_up small).cells ≡ letter b'c' ∷ letter b'd' ∷ blank ∷ blank ∷ []
unfolding scroll_up
scrolled = refl

cell-erase_in_display_example : cell (erase_in_display 1 small) (pos 0) (pos 1) ≡ blank
cell-erase_in_display_example =
    cell-erase_in_display small 1 0 1 small-IsValid (omega arith) (omega arith)

cell-line_feed_example : cell (line_feed small) (pos 0) (pos 1) ≡ letter b'd'
unfolding cell
cell-line_feed_example = cell-line_feed small 0 1 small-IsValid (omega arith) (omega arith)

cell-resize_example : cell (resize small (pos 3) (pos 1)) (pos 1) (pos 0) ≡ letter b'c'
unfolding cell
cell-resize_example = cell-resize small 3 1 1 0 (omega arith) (omega arith)

-- `12;;7`
-- Bold and palette entry 196.
sgr_bold_red : (handle_sgr (1 ∷ 38 ∷ 5 ∷ 196 ∷ []) small).pen ≡ record blank { fg = 196; attrs = 1 }
unfolding handle_sgr
sgr_bold_red = refl

feed-IsOrderly_example : IsOrderly (feed latin small_terminal (0x1B ∷ b'[' ∷ 0xE2 ∷ []))
feed-IsOrderly_example =
    feed-IsOrderly latin small_terminal (0x1B ∷ b'[' ∷ 0xE2 ∷ []) small_terminal-IsOrderly

feed_csi_example :
    parser_feed latin small_terminal (0x1B ∷ b'[' ∷ [] ++ b'1' ∷ [] ++ b'K' ∷ [])
    ≡ record { parser = reset; screen = csi_dispatch latin b'K' (parse_params (b'1' ∷ [])).0 small }
unfolding is_csi_final
feed_csi_example =
    feed_csi latin small_terminal (b'1' ∷ []) b'K' refl (refl, omega arith, tt) (omega arith) refl

-- U+20AC in three bytes.
-- `ESC [ 1 ; 9 H` on a screen of two columns.
feed_cursor_position_example :
    let u =
      parser_feed latin small_terminal
        (0x1B ∷ b'[' ∷ [] ++ ((b'1' ∷ []) ++ render_more ((b'9' ∷ []) ∷ [])) ++ b'H' ∷ []) in
    (u.parser ≡ reset)
    × (u.screen.cursor_row ≡ 0)
    × (u.screen.cursor_column ≡ 1)
    × (u.screen.cells ≡ small.cells)
    × (u.screen.pen ≡ blank)
unfolding decimal
feed_cursor_position_example =
    feed_cursor_position latin small_terminal (b'1' ∷ []) (b'9' ∷ []) refl
      ((refl, tt), omega arith, ((refl, tt), omega arith, tt))

feed_text-cell_example :
    cell (parser_feed latin small_terminal (b'!' ∷ [])).screen (pos 1) (pos 1) ≡ letter b'!'
feed_text-cell_example =
    feed_text-cell latin small_terminal (b'!' ∷ []) 1 1 refl small-IsValid (omega arith)
      (omega arith) (omega arith) (omega arith)

-- As many parameter bytes as the accumulator holds, and one more byte.
zeros-AllBodyBytes : (n : ℕ) → AllBodyBytes (replicate n b'0')
unfolding is_csi_final
zeros-AllBodyBytes zero = tt
zeros-AllBodyBytes (suc n) = (refl, omega arith, zeros-AllBodyBytes n)

-- Every cell of `small`, and the blank behind them.
letter-IsShown : (c : ℕ) → IsShown (letter c)
letter-IsShown c = record { fg_byte = omega arith; bg_byte = omega arith; whole = inl refl }

small-IsShown : (j : ℕ) → IsShown (get_or small.cells j blank)
small-IsShown zero = letter-IsShown b'a'
small-IsShown (suc zero) = letter-IsShown b'b'
small-IsShown (suc (suc zero)) = letter-IsShown b'c'
small-IsShown (suc (suc (suc zero))) = letter-IsShown b'd'
small-IsShown (suc (suc (suc (suc j)))) = letter-IsShown b' '

outside-line_html_example :
    outside false (line_html small (pos 1)) ≡ escaped small.cells (1 * small.columns) small.columns
outside-line_html_example = outside-line_html small 1 small-IsShown (omega arith) (omega arith)
