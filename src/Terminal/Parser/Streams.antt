-- ===== src/Terminal/Parser/Streams.antt =====
-- Text and operating system commands through Vt100Parser::feed (terminal/src/vt100parser.cpp).
use mesh_commander.Prelude.{ℕ, ◌≤◌, ◌<◌, ◌≡◌, ◌≢◌, refl, ap, ◌∙◌, false, List, [], ◌∷◌, ◌++◌, arith}
use mesh_commander.Terminal.Screen.{Qt, TerminalScreen}
use mesh_commander.Terminal.Parser.{
  put_cell_at_cursor, dispatch, step_escape, step_osc, step_ground, step, State, Terminal,
  parser_feed,
}
use mesh_commander.Terminal.Parser.Sequences.{parser_feed-append, idle}

-- Bytes that do not end an operating system command.
abbrev pub AllOscBytes : List ℕ → Type 0
AllOscBytes [] = Unit {0}
AllOscBytes (b ∷ bytes) = (b ≢ 0x07) × (b ≢ 0x1B) × AllOscBytes bytes

abbrev pub AllPrintable : List ℕ → Type 0
AllPrintable [] = Unit {0}
AllPrintable (b ∷ bytes) = (0x20 ≤ b) × (b < 0x80) × AllPrintable bytes

module _ (qt : Qt) where
  osc_step :
      (t : Terminal) (b : ℕ) → t.parser.state ≡ State.osc → b ≢ 0x07 → b ≢ 0x1B → step qt t b ≡ t
  unfolding step step_osc
  osc_step t b o h k = rw (o, dispatch) (ground arith)

  osc_run :
      (payload rest : List ℕ) (t : Terminal)
      → t.parser.state ≡ State.osc
      → AllOscBytes payload
      → parser_feed qt t (payload ++ rest) ≡ parser_feed qt t rest
  unfolding parser_feed
  osc_run [] rest t o a = refl
  osc_run (b ∷ payload) rest t o a =
      ap (λ (u : Terminal). parser_feed qt u (payload ++ rest)) (osc_step t b o a.0 a.1)
      ∙ osc_run payload rest t o a.2

  -- A terminal inside an operating system command.
  abbrev inside_osc : Terminal → Terminal
  inside_osc t = record {
    parser = record (t.parser) { state = State.osc; seq = []; csi_private = false };
    screen = t.screen;
  }

  enter_osc :
      (t : Terminal)
      → t.parser.state ≡ State.ground
      → parser_feed qt t (0x1B ∷ b']' ∷ []) ≡ inside_osc t
  unfolding parser_feed step_ground step_escape
  enter_osc t g = rw (g, dispatch)

  leave_osc :
      (t : Terminal)
      → (parser_feed qt (inside_osc t) (0x07 ∷ [])
          ≡ record { parser = idle t.parser; screen = t.screen })
        × (parser_feed qt (inside_osc t) (0x1B ∷ 0x5C ∷ [])
            ≡ record { parser = idle t.parser; screen = t.screen })
  unfolding parser_feed step_osc step_escape
  leave_osc t = (refl, refl)

  -- From ground, an OSC string without BEL and ESC is dropped, ended by BEL or by ESC \: the
  -- screen is as it was and the parser is in ground with nothing held.
  pub feed_osc :
      (t : Terminal) (payload : List ℕ)
      → t.parser.state ≡ State.ground
      → AllOscBytes payload
      → (parser_feed qt t (0x1B ∷ b']' ∷ [] ++ payload ++ 0x07 ∷ [])
          ≡ record { parser = idle t.parser; screen = t.screen })
        × (parser_feed qt t (0x1B ∷ b']' ∷ [] ++ payload ++ 0x1B ∷ 0x5C ∷ [])
            ≡ record { parser = idle t.parser; screen = t.screen })
  feed_osc t payload g a =
      (ending (0x07 ∷ []) ∙ (leave_osc t).0, ending (0x1B ∷ 0x5C ∷ []) ∙ (leave_osc t).1)
    where
      ending :
          (rest : List ℕ)
          → parser_feed qt t (0x1B ∷ b']' ∷ (payload ++ rest)) ≡ parser_feed qt (inside_osc t) rest
      ending rest =
          parser_feed-append qt t (0x1B ∷ b']' ∷ []) (payload ++ rest)
          ∙ ap (λ (u : Terminal). parser_feed qt u (payload ++ rest)) (enter_osc t g)
          ∙ osc_run payload rest (inside_osc t) refl a

  -- Each byte of a printable text as one character at the cursor.
  abbrev pub put_text : List ℕ → TerminalScreen → TerminalScreen
  put_text [] s = s
  put_text (b ∷ text) s = put_text text (put_cell_at_cursor qt (b ∷ []) s)

  printable_step :
      (t : Terminal) (b : ℕ)
      → t.parser.state ≡ State.ground
      → 0x20 ≤ b
      → b < 0x80
      → step qt t b ≡ record t { screen = put_cell_at_cursor qt (b ∷ []) t.screen }
  unfolding step step_ground
  printable_step t b g lo hi = rw (g, dispatch) (ground arith)

  -- In ground, a printable ASCII text puts its bytes at the cursor one after the other and
  -- leaves the parser as it is.
  pub feed_text :
      (t : Terminal) (text : List ℕ)
      → t.parser.state ≡ State.ground
      → AllPrintable text
      → parser_feed qt t text ≡ record t { screen = put_text text t.screen }
  unfolding parser_feed
  feed_text t [] g a = refl
  feed_text t (b ∷ text) g a =
      ap (λ (u : Terminal). parser_feed qt u text) (printable_step t b g a.0 a.1)
      ∙ feed_text (record t { screen = put_cell_at_cursor qt (b ∷ []) t.screen }) text g a.2
