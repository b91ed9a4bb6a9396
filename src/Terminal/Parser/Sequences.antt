-- ===== src/Terminal/Parser/Sequences.antt =====
-- Whole control sequences through Vt100Parser::feed (terminal/src/vt100parser.cpp).
use mesh_commander.Prelude.{
  ℕ, ◌+◌, ◌≤◌, ◌<◌, ◌≡◌, ◌≢◌, refl, ap, ◌∙◌, Bool, true, false, List, [], ◌∷◌, ◌++◌, length,
  length-append, arith, if◌then◌else◌, get_last_or-append, drop_last-append,
}
use mathlib.Core.List.{append_assoc, append-nil}
use mesh_commander.Terminal.Screen.{Qt, TerminalScreen}
use mesh_commander.Terminal.Params.{parse_params}
use mesh_commander.Terminal.Parser.{
  step_escape, step_ground, State, Vt100Parser, Terminal, csi_max_bytes, is_csi_final, csi_dispatch,
  handle_csi, step_csi, step, dispatch, parser_feed,
}

-- A terminal that collects a CSI sequence, with `seq` so far.
abbrev collecting : Vt100Parser → TerminalScreen → Bool → List ℕ → Terminal
collecting p s csi_private seq = record {
  parser = record p { state = State.csi; seq = seq; csi_private = csi_private };
  screen = s;
}

-- The parser back in the ground state, with nothing of a sequence left.
abbrev pub idle : Vt100Parser → Vt100Parser
idle p = record p { state = State.ground; seq = []; csi_private = false }

-- Bytes that do not end a CSI sequence and are no `?`.
abbrev pub AllBodyBytes : List ℕ → Type 0
AllBodyBytes [] = Unit {0}
AllBodyBytes (b ∷ bytes) = (is_csi_final b ≡ false) × (b ≢ b'?') × AllBodyBytes bytes

module _ (qt : Qt) where
  pub parser_feed-append :
      (t : Terminal) (xs ys : List ℕ)
      → parser_feed qt t (xs ++ ys) ≡ parser_feed qt (parser_feed qt t xs) ys
  unfolding parser_feed
  parser_feed-append t [] ys = refl
  parser_feed-append t (x ∷ xs) ys = parser_feed-append (step qt t x) xs ys

  collect_one :
      (p : Vt100Parser) (s : TerminalScreen) (private : Bool) (seq : List ℕ) (b : ℕ)
      → is_csi_final b ≡ false
      → b ≢ b'?'
      → length seq < csi_max_bytes
      → step qt (collecting p s private seq) b ≡ collecting p s private (seq ++ b ∷ [])
  unfolding step step_csi
  collect_one p s private seq b f q l = ground arith

  collect :
      (p : Vt100Parser) (s : TerminalScreen) (private : Bool) (seq body : List ℕ)
      → AllBodyBytes body
      → length seq + length body ≤ csi_max_bytes
      → parser_feed qt (collecting p s private seq) body ≡ collecting p s private (seq ++ body)
  unfolding parser_feed
  collect p s private seq [] a l = ap (collecting p s private) (rw append-nil)
  collect p s private seq (b ∷ body) a l =
      ap (λ (t : Terminal). parser_feed qt t body)
        (collect_one p s private seq b a.0 a.1 (omega arith))
      ∙ collect p s private (seq ++ b ∷ []) body a.2 (omega (arith, length-append seq (b ∷ [])))
      ∙ ap (collecting p s private) (append_assoc seq (b ∷ []) body)

  handle_csi-append :
      (body : List ℕ) (final : ℕ) (private : Bool) (s : TerminalScreen)
      → handle_csi qt (body ++ final ∷ []) private s
        ≡ (if private then s else csi_dispatch qt final (parse_params body).0 s)
  unfolding handle_csi
  handle_csi-append [] final private s = refl
  handle_csi-append (c ∷ body) final private s =
      rw (get_last_or-append body final c, drop_last-append (c ∷ body) final)

  finish :
      (p : Vt100Parser) (s : TerminalScreen) (private : Bool) (body : List ℕ) (final : ℕ)
      → is_csi_final final ≡ true
      → length body < csi_max_bytes
      → step qt (collecting p s private body) final ≡ record {
        parser = idle p;
        screen = if private then s else csi_dispatch qt final (parse_params body).0 s;
      }
  unfolding step step_csi
  finish p s private body final f l = ground (arith, handle_csi-append body final private s)

  enter_csi :
      (t : Terminal)
      → t.parser.state ≡ State.ground
      → parser_feed qt t (0x1B ∷ b'[' ∷ []) ≡ collecting t.parser t.screen false []
  unfolding parser_feed step_ground step_escape
  enter_csi t g = rw (g, dispatch)

  run_csi :
      (p : Vt100Parser) (s : TerminalScreen) (private : Bool) (body : List ℕ) (final : ℕ)
      → AllBodyBytes body
      → length body < csi_max_bytes
      → is_csi_final final ≡ true
      → parser_feed qt (collecting p s private []) (body ++ final ∷ []) ≡ record {
        parser = idle p;
        screen = if private then s else csi_dispatch qt final (parse_params body).0 s;
      }
  run_csi p s private body final a l f =
      parser_feed-append (collecting p s private []) body (final ∷ [])
      ∙ ap (λ (t : Terminal). parser_feed qt t (final ∷ []))
          (collect p s private [] body a (omega arith))
      ∙ last
    where
      last : parser_feed qt (collecting p s private body) (final ∷ []) ≡ record {
        parser = idle p;
        screen = if private then s else csi_dispatch qt final (parse_params body).0 s;
      }
      last = unfold parser_feed in finish p s private body final f l

  -- From ground, ESC [, a body of fewer than 4096 bytes that end no sequence and hold no `?`,
  -- and a final byte run the final byte's operation on the parameters that the body parses to,
  -- and leave the parser in ground with nothing held.
  pub feed_csi :
      (t : Terminal) (body : List ℕ) (final : ℕ)
      → t.parser.state ≡ State.ground
      → AllBodyBytes body
      → length body < csi_max_bytes
      → is_csi_final final ≡ true
      → parser_feed qt t (0x1B ∷ b'[' ∷ [] ++ body ++ final ∷ []) ≡ record {
        parser = idle t.parser;
        screen = csi_dispatch qt final (parse_params body).0 t.screen;
      }
  feed_csi t body final g a l f =
      parser_feed-append t (0x1B ∷ b'[' ∷ []) (body ++ final ∷ [])
      ∙ ap (λ (u : Terminal). parser_feed qt u (body ++ final ∷ [])) (enter_csi t g)
      ∙ run_csi t.parser t.screen false body final a l f

  enter_private :
      (p : Vt100Parser) (s : TerminalScreen)
      → parser_feed qt (collecting p s false []) (b'?' ∷ []) ≡ collecting p s true []
  unfolding parser_feed step_csi
  enter_private p s = refl

  -- A private sequence is dropped.
  feed_private_csi :
      (t : Terminal) (body : List ℕ) (final : ℕ)
      → t.parser.state ≡ State.ground
      → AllBodyBytes body
      → length body < csi_max_bytes
      → is_csi_final final ≡ true
      → parser_feed qt t (0x1B ∷ b'[' ∷ b'?' ∷ [] ++ body ++ final ∷ [])
        ≡ record { parser = idle t.parser; screen = t.screen }
  feed_private_csi t body final g a l f =
      parser_feed-append t (0x1B ∷ b'[' ∷ []) (b'?' ∷ (body ++ final ∷ []))
      ∙ ap (λ (u : Terminal). parser_feed qt u (b'?' ∷ (body ++ final ∷ []))) (enter_csi t g)
      ∙ parser_feed-append (collecting t.parser t.screen false []) (b'?' ∷ []) (body ++ final ∷ [])
      ∙ ap (λ (u : Terminal). parser_feed qt u (body ++ final ∷ []))
          (enter_private t.parser t.screen)
      ∙ run_csi t.parser t.screen true body final a l f

  overflow_step :
      (p : Vt100Parser) (s : TerminalScreen) (body : List ℕ) (b : ℕ)
      → csi_max_bytes ≤ length body
      → parser_feed qt (collecting p s false body) (b ∷ []) ≡ record { parser = idle p; screen = s }
  unfolding parser_feed step_csi
  overflow_step p s body b l = ground arith

  -- From ground, a CSI body of exactly 4096 bytes that end no sequence and hold no `?`, and one
  -- byte more, leave the screen as it is and the parser in ground with nothing held.
  pub feed_csi_overflow :
      (t : Terminal) (body : List ℕ) (b : ℕ)
      → t.parser.state ≡ State.ground
      → AllBodyBytes body
      → length body ≡ csi_max_bytes
      → parser_feed qt t (0x1B ∷ b'[' ∷ [] ++ body ++ b ∷ [])
        ≡ record { parser = idle t.parser; screen = t.screen }
  feed_csi_overflow t body b g a l =
      parser_feed-append t (0x1B ∷ b'[' ∷ []) (body ++ b ∷ [])
      ∙ ap (λ (u : Terminal). parser_feed qt u (body ++ b ∷ [])) (enter_csi t g)
      ∙ parser_feed-append (collecting t.parser t.screen false []) body (b ∷ [])
      ∙ ap (λ (u : Terminal). parser_feed qt u (b ∷ []))
          (collect t.parser t.screen false [] body a (omega arith))
      ∙ overflow_step t.parser t.screen body b (omega arith)
