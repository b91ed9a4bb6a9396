-- ===== src/Terminal/Parser.antt =====
-- terminal/include/terminal/vt100parser.h and terminal/src/vt100parser.cpp: the byte-driven state
-- machine, with the screen that it drives. Qt's text functions are a parameter.
pub mod Screens
pub mod Sound
pub mod Sequences
pub mod Streams
pub mod Utf8
pub mod Written
use mesh_commander.Prelude.{
  ℕ, zero, suc, ◌+◌, ◌-◌, ◌*◌, bit_and, Bool, true, false, ◌&&◌, ◌||◌, List, [], ◌∷◌, ◌++◌, ltb,
  leb, ◌==◌, if◌then◌else◌, length, get_or, get_last_or, drop_last, ℤ, pos, negsuc, sub_ℕ,
}
use mesh_commander.Terminal.Screen.{
  Qt, TerminalScreen, bell, emit, clear, put_cell_at_cursor, set_cursor, carriage_return, line_feed,
  backspace, tab, erase_in_line, erase_in_display, save_cursor, restore_cursor, emit_response,
  touch,
}
use mesh_commander.Terminal.Screen
use mesh_commander.Terminal.Params.{parse_params}
use mesh_commander.Terminal.Sgr.{handle_sgr}

pub data State : Type 0 where
  ground escape csi osc : State

pub record Vt100Parser : Type 0 where
  pub state : State
  pub seq : List ℕ
  pub utf8 : List ℕ
  pub utf8_remaining : ℕ
  pub csi_private : Bool

-- A TerminalScreen object, with the parser that it owns.
pub record Terminal : Type 0 where
  pub parser : Vt100Parser
  pub screen : TerminalScreen

-- Vt100Parser::reset, and the state of a new parser.
abbrev pub reset : Vt100Parser
reset = record { state = ground; seq = []; utf8 = []; utf8_remaining = 0; csi_private = false }

unfoldable pub init : Terminal
unfolding Screen.init
init = record { parser = reset; screen = Screen.init }

abbrev pub csi_max_bytes : ℕ
csi_max_bytes = 4096

unfoldable pub is_csi_final : ℕ → Bool
is_csi_final b = leb 0x40 b && leb b 0x7E

unfoldable pub handle_c0 : ℕ → TerminalScreen → TerminalScreen
unfolding emit
handle_c0 b s =
    if b == 0x07
    then emit bell s
    else if b == 0x08
    then backspace s
    else if b == 0x09
    then tab s
    else if (b == 0x0A) || (b == 0x0B) || (b == 0x0C)
    then line_feed s
    else if b == 0x0D
    then carriage_return s
    else s

-- TerminalScreen::moveCursor; `offset a d` is a + d.
abbrev pub offset : ℕ → ℤ → ℤ
offset a (pos d) = pos (a + d)
offset a (negsuc d) = sub_ℕ a (d + 1)

unfoldable pub move_cursor : ℤ → ℤ → TerminalScreen → TerminalScreen
move_cursor row_delta column_delta s =
    set_cursor (offset s.cursor_row row_delta) (offset s.cursor_column column_delta) s

-- The lambda `p` of handleCsi.
abbrev pub param_or : List ℕ → ℕ → ℕ → ℕ
param_or params index default =
    let value : ℕ = get_or params index 0 in if ltb 0 value then value else default

-- `s.isEmpty() ? "?" : s`
abbrev pub or_question_mark : List ℕ → List ℕ
or_question_mark [] = b'?' ∷ []
or_question_mark (c ∷ text) = c ∷ text

module _ (qt : Qt) where
  unfoldable pub handle_window_ops : List ℕ → TerminalScreen → TerminalScreen
  handle_window_ops params s =
      let op : ℕ = get_or params 0 0 in
      if op == 14
      then emit_response
          (0x1B ∷ b'[' ∷ b'4' ∷ b';' ∷ []
            ++ qt.number (s.rows * 16)
            ++ b';' ∷ []
            ++ qt.number (s.columns * 8)
            ++ b't' ∷ [])
          s
      else if op == 18
      then emit_response
          (0x1B ∷ b'[' ∷ b'8' ∷ b';' ∷ []
            ++ qt.number s.rows
            ++ b';' ∷ []
            ++ qt.number s.columns
            ++ b't' ∷ [])
          s
      else if op == 19
      then emit_response
          (0x1B ∷ b'[' ∷ b'9' ∷ b';' ∷ []
            ++ qt.number s.rows
            ++ b';' ∷ []
            ++ qt.number s.columns
            ++ b't' ∷ [])
          s
      else s

  -- The switch of handleCsi on the final byte.
  unfoldable pub csi_dispatch : ℕ → List ℕ → TerminalScreen → TerminalScreen
  csi_dispatch final params s =
      let n : ℕ = param_or params 0 1 in
      if final == b'A'
      then move_cursor (sub_ℕ 0 n) (pos 0) s
      else if final == b'B'
      then move_cursor (pos n) (pos 0) s
      else if final == b'C'
      then move_cursor (pos 0) (pos n) s
      else if final == b'D'
      then move_cursor (pos 0) (sub_ℕ 0 n) s
      else if final == b'E'
      then set_cursor (pos (s.cursor_row + n)) (pos 0) s
      else if final == b'F'
      then set_cursor (sub_ℕ s.cursor_row n) (pos 0) s
      else if final == b'G'
      then set_cursor (pos s.cursor_row) (sub_ℕ n 1) s
      else if (final == b'H') || (final == b'f')
      then set_cursor (sub_ℕ n 1) (sub_ℕ (param_or params 1 1) 1) s
      else if final == b'J'
      then erase_in_display (get_or params 0 0) s
      else if final == b'K'
      then erase_in_line (get_or params 0 0) s
      else if final == b'm'
      then handle_sgr params s
      else if final == b's'
      then save_cursor s
      else if final == b't'
      then handle_window_ops params s
      else if final == b'u'
      then restore_cursor s
      else s

  unfoldable pub handle_csi : List ℕ → Bool → TerminalScreen → TerminalScreen
  handle_csi [] csi_private s = s
  handle_csi (b ∷ seq) csi_private s =
      let (params, end) = parse_params (drop_last (b ∷ seq)) in
      if csi_private then s else csi_dispatch (get_last_or seq b) params s

  -- The second result is the text that a complete sequence stands for, else empty.
  unfoldable pub consume_utf8 : ℕ → Vt100Parser → Vt100Parser × List ℕ
  consume_utf8 b p = elim p.utf8_remaining [
    | zero ↦
        if bit_and b 0xE0 == 0xC0
        then (record p { utf8_remaining = 1; utf8 = b ∷ [] }, [])
        else if bit_and b 0xF0 == 0xE0
        then (record p { utf8_remaining = 2; utf8 = b ∷ [] }, [])
        else if bit_and b 0xF8 == 0xF0
        then (record p { utf8_remaining = 3; utf8 = b ∷ [] }, [])
        else (p, b'?' ∷ [])
    | suc zero ↦ (
      record p { utf8_remaining = 0; utf8 = [] },
      or_question_mark (qt.from_utf8 (p.utf8 ++ b ∷ [])),
    )
    | suc (suc n) ↦ (record p { utf8_remaining = suc n; utf8 = p.utf8 ++ b ∷ [] }, [])
  ]

  unfoldable pub step_ground : ℕ → Terminal → Terminal
  step_ground b t =
      let (parser, text) = consume_utf8 b t.parser in
      if b == 0x1B
      then record t { parser = record (t.parser) { state = escape; seq = []; csi_private = false } }
      else if ltb b 0x20
      then record t { screen = handle_c0 b t.screen }
      else if ltb b 0x80
      then record t { screen = put_cell_at_cursor qt (b ∷ []) t.screen }
      else record t { parser = parser; screen = put_cell_at_cursor qt text t.screen }

  unfoldable pub step_escape : ℕ → Terminal → Terminal
  step_escape b t =
      if b == b'['
      then record t { parser = record (t.parser) { state = csi } }
      else if b == b']'
      then record t { parser = record (t.parser) { state = osc } }
      else record t {
        parser = record (t.parser) { state = ground };
        screen =
            if b == b'c'
            then clear t.screen
            else if b == b'7'
            then save_cursor t.screen
            else if b == b'8'
            then restore_cursor t.screen
            else t.screen;
      }

  unfoldable pub step_csi : ℕ → Terminal → Terminal
  unfolding is_csi_final
  step_csi b t =
      let p : Vt100Parser = t.parser in
      let seq : List ℕ = p.seq ++ b ∷ [] in
      if (length p.seq == 0) && (b == b'?')
      then record t { parser = record p { csi_private = true } }
      else if leb csi_max_bytes (length p.seq)
      then record t { parser = record p { seq = []; csi_private = false; state = ground } }
      else if is_csi_final b
      then record t {
        parser = record p { seq = []; csi_private = false; state = ground };
        screen = handle_csi seq p.csi_private t.screen;
      }
      else record t { parser = record p { seq = seq } }

  unfoldable pub step_osc : ℕ → Terminal → Terminal
  step_osc b t =
      if b == 0x07
      then record t { parser = record (t.parser) { state = ground } }
      else if b == 0x1B
      then record t { parser = record (t.parser) { state = escape } }
      else t

  -- One byte of Vt100Parser::feed.
  unfoldable pub dispatch : State → ℕ → Terminal → Terminal
  dispatch ground = step_ground
  dispatch escape = step_escape
  dispatch csi = step_csi
  dispatch osc = step_osc

  unfoldable pub step : Terminal → ℕ → Terminal
  unfolding dispatch
  step t b = dispatch t.parser.state b t

  -- Vt100Parser::feed.
  unfoldable pub parser_feed : Terminal → List ℕ → Terminal
  unfolding step
  parser_feed t [] = t
  parser_feed t (b ∷ bytes) = parser_feed (step t b) bytes

  -- TerminalScreen::feed.
  unfoldable pub feed : Terminal → List ℕ → Terminal
  unfolding parser_feed step_ground step_escape step_csi step_osc consume_utf8 handle_csi
      csi_dispatch handle_window_ops handle_c0 move_cursor parse_params handle_sgr clear
      put_cell_at_cursor set_cursor carriage_return line_feed backspace tab erase_in_line
      erase_in_display save_cursor restore_cursor emit_response touch
  feed t bytes = let t' : Terminal = parser_feed t bytes in record t' { screen = touch t'.screen }
