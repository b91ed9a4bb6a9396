-- ===== src/Terminal/Parser/Utf8.antt =====
-- Vt100Parser::consumeUtf8 of terminal/src/vt100parser.cpp through the feed.
use mathlib.Core.List.{append_assoc}
use mesh_commander.Prelude.{
  ℕ, zero, suc, ◌≤◌, ◌<◌, ◌≡◌, refl, ap, ◌∙◌, Bool, true, ◌&&◌, List, [], ◌∷◌, ◌++◌, ltb, leb, ◌==◌,
  if◌then◌else◌, length, arith, bit_and, all_below, all_from, all_below_sound, same, same_eq,
}
use mesh_commander.Terminal.Screen.{Qt, put_cell_at_cursor}
use mesh_commander.Terminal.Parser.{
  TerminalScreen, State, Vt100Parser, Terminal, or_question_mark, consume_utf8, step_ground,
  dispatch, step, parser_feed,
}

-- How many bytes follow a lead byte.
abbrev pub continuation_count : ℕ → ℕ
continuation_count b =
    if ltb b 0xC0
    then 0
    else if ltb b 0xE0
    then 1
    else if ltb b 0xF0
    then 2
    else if ltb b 0xF8
    then 3
    else 0

-- The masks of the code, as ranges.
lead_test : ℕ → Bool
lead_test b =
    same (bit_and b 0xE0 == 0xC0) (leb 0xC0 b && ltb b 0xE0)
    && same (bit_and b 0xF0 == 0xE0) (leb 0xE0 b && ltb b 0xF0)
    && same (bit_and b 0xF8 == 0xF0) (leb 0xF0 b && ltb b 0xF8)

lead_table : all_below 256 lead_test ≡ true
unfolding all_below all_from lead_test
lead_table = refl

lead_ranges :
    (b : ℕ)
    → b < 256
    → ((bit_and b 0xE0 == 0xC0) ≡ (leb 0xC0 b && ltb b 0xE0))
      × ((bit_and b 0xF0 == 0xE0) ≡ (leb 0xE0 b && ltb b 0xF0))
      × ((bit_and b 0xF8 == 0xF0) ≡ (leb 0xF0 b && ltb b 0xF8))
unfolding lead_test
lead_ranges b h =
    let t = all_below_sound 256 lead_test b lead_table h in
    (
      same_eq (bit_and b 0xE0 == 0xC0) (leb 0xC0 b && ltb b 0xE0) (ground arith),
      same_eq (bit_and b 0xF0 == 0xE0) (leb 0xE0 b && ltb b 0xF0) (ground arith),
      same_eq (bit_and b 0xF8 == 0xF0) (leb 0xF0 b && ltb b 0xF8) (ground arith),
    )

abbrev pub AllHigh : List ℕ → Type 0
AllHigh [] = Unit {0}
AllHigh (b ∷ bytes) = (0x80 ≤ b) × AllHigh bytes

module _ (qt : Qt) where
  -- A terminal that waits for `n` more bytes of a character.
  abbrev waiting : Vt100Parser → TerminalScreen → List ℕ → ℕ → Terminal
  waiting p s held n = record {
    parser = record p { state = State.ground; utf8 = held; utf8_remaining = n };
    screen = s;
  }

  -- The terminal when the bytes of a character are there.
  abbrev pub decoded : Vt100Parser → TerminalScreen → List ℕ → Terminal
  decoded p s held = record {
    parser = record p { state = State.ground; utf8 = []; utf8_remaining = 0 };
    screen = put_cell_at_cursor qt (or_question_mark (qt.from_utf8 held)) s;
  }

  wait_more :
      (p : Vt100Parser) (s : TerminalScreen) (held : List ℕ) (n b : ℕ)
      → 0x80 ≤ b
      → step qt (waiting p s held (suc (suc n))) b ≡ waiting p s (held ++ b ∷ []) (suc n)
  unfolding step step_ground consume_utf8 put_cell_at_cursor
  wait_more p s held n b h = ground arith

  wait_last :
      (p : Vt100Parser) (s : TerminalScreen) (held : List ℕ) (b : ℕ)
      → 0x80 ≤ b
      → step qt (waiting p s held 1) b ≡ decoded p s (held ++ b ∷ [])
  unfolding step step_ground consume_utf8
  wait_last p s held b h = ground arith

  wait_run :
      (n : ℕ) (p : Vt100Parser) (s : TerminalScreen) (held bytes : List ℕ)
      → length bytes ≡ suc n
      → AllHigh bytes
      → parser_feed qt (waiting p s held (suc n)) bytes ≡ decoded p s (held ++ bytes)
  unfolding parser_feed
  wait_run n p s held [] l a = absurd (omega arith)
  wait_run zero p s held (b ∷ []) l a = wait_last p s held b a.0
  wait_run zero p s held (b ∷ c ∷ bytes) l a = absurd (omega arith)
  wait_run (suc n) p s held (b ∷ bytes) l a =
      ap (λ (t : Terminal). parser_feed qt t bytes) (wait_more p s held n b a.0)
      ∙ wait_run n p s (held ++ b ∷ []) bytes (omega arith) a.1
      ∙ ap (decoded p s) (append_assoc held (b ∷ []) bytes)

  lead_step :
      (t : Terminal) (b n : ℕ)
      → t.parser.state ≡ State.ground
      → t.parser.utf8_remaining ≡ 0
      → b < 256
      → continuation_count b ≡ suc n
      → step qt t b ≡ waiting t.parser t.screen (b ∷ []) (suc n)
  unfolding step step_ground consume_utf8 put_cell_at_cursor
  lead_step t b n g r h c = rw (g, dispatch) (ground (arith, lead_ranges b h))

  -- From ground with no UTF-8 bytes awaited, a lead byte and as many bytes of 0x80 and above as
  -- it announces put the text that Qt decodes from them at the cursor, or `?` when Qt decodes
  -- nothing.
  pub feed_utf8 :
      (t : Terminal) (lead : ℕ) (rest : List ℕ)
      → t.parser.state ≡ State.ground
      → t.parser.utf8_remaining ≡ 0
      → lead < 256
      → 1 ≤ length rest
      → continuation_count lead ≡ length rest
      → AllHigh rest
      → parser_feed qt t (lead ∷ rest) ≡ decoded t.parser t.screen (lead ∷ rest)
  unfolding parser_feed
  feed_utf8 t lead [] g r h o c a = absurd (omega arith)
  feed_utf8 t lead (b ∷ rest) g r h o c a =
      ap (λ (u : Terminal). parser_feed qt u (b ∷ rest)) (lead_step t lead (length rest) g r h c)
      ∙ wait_run (length rest) t.parser t.screen (lead ∷ []) (b ∷ rest) refl a
