-- ===== src/Terminal/Parser/Sound.antt =====
-- The invariant of a terminal: every byte that terminal/src/vt100parser.cpp is fed keeps the grid,
-- the pen and the parser's own buffers in order.
use mesh_commander.Prelude.{
  ℕ, ◌+◌, ◌≤◌, ◌≡◌, refl, ◌⊎◌, false, List, [], ◌∷◌, ◌++◌, length, length-append, arith,
}
use mesh_commander.Terminal.Screen.{Qt}
use mesh_commander.Terminal.Screen.Valid.{init-IsValid}
use mesh_commander.Terminal.Parser.{
  init, State, Vt100Parser, Terminal, csi_max_bytes, consume_utf8, step_ground, step_escape,
  step_csi, step_osc, dispatch, parser_feed, feed,
}
use mesh_commander.Terminal.Parser.Screens.{
  IsSound, clear-IsSound, put_cell_at_cursor-IsSound, handle_c0-IsSound, save_cursor-IsSound,
  restore_cursor-IsSound, handle_csi-IsSound, touch-IsSound,
}

-- The parser's buffers are small, and hold nothing of a sequence outside one.
pub record IsTidy (p : Vt100Parser) : Type 0 where
  pub seq_bounded : length p.seq ≤ csi_max_bytes
  pub utf8_bounded : length p.utf8 + p.utf8_remaining ≤ 4
  pub utf8_few : p.utf8_remaining ≤ 3
  pub idle : (p.state ≡ State.csi) ⊎ ((p.seq ≡ []) × (p.csi_private ≡ false))

pub record IsOrderly (t : Terminal) : Type 0 where
  pub tidy : IsTidy t.parser
  pub sound : IsSound t.screen

module _ (qt : Qt) where
  consume_utf8-IsTidy : {p : Vt100Parser} (b : ℕ) → IsTidy p → IsTidy (consume_utf8 qt b p).0
  unfolding consume_utf8
  consume_utf8-IsTidy {p} b v = ground (arith, length-append p.utf8 (b ∷ []))

  step_ground-IsOrderly : (b : ℕ) {t : Terminal} → IsOrderly t → IsOrderly (step_ground qt b t)
  unfolding step_ground
  step_ground-IsOrderly b {t} v = ground (
    arith,
    consume_utf8-IsTidy b v.tidy,
    handle_c0-IsSound b v.sound,
    put_cell_at_cursor-IsSound qt (b ∷ []) v.sound,
    put_cell_at_cursor-IsSound qt (consume_utf8 qt b t.parser).1 v.sound,
  )

  step_escape-IsOrderly :
      (b : ℕ) {t : Terminal}
      → t.parser.state ≡ State.escape
      → IsOrderly t
      → IsOrderly (step_escape qt b t)
  unfolding step_escape
  step_escape-IsOrderly b {t} e v =
      ground
        (arith, clear-IsSound v.sound, save_cursor-IsSound v.sound, restore_cursor-IsSound v.sound)

  step_csi-IsOrderly :
      (b : ℕ) {t : Terminal}
      → t.parser.state ≡ State.csi
      → IsOrderly t
      → IsOrderly (step_csi qt b t)
  unfolding step_csi
  step_csi-IsOrderly b {t} e v = ground (
    arith,
    length-append t.parser.seq (b ∷ []),
    handle_csi-IsSound qt (t.parser.seq ++ b ∷ []) t.parser.csi_private v.sound,
  )

  step_osc-IsOrderly :
      (b : ℕ) {t : Terminal}
      → t.parser.state ≡ State.osc
      → IsOrderly t
      → IsOrderly (step_osc qt b t)
  unfolding step_osc
  step_osc-IsOrderly b {t} e v = ground arith

  dispatch-IsOrderly :
      (state : State) (b : ℕ) {t : Terminal}
      → t.parser.state ≡ state
      → IsOrderly t
      → IsOrderly (dispatch qt state b t)
  unfolding dispatch
  dispatch-IsOrderly State.ground b e v = step_ground-IsOrderly b v
  dispatch-IsOrderly State.escape b e v = step_escape-IsOrderly b e v
  dispatch-IsOrderly State.csi b e v = step_csi-IsOrderly b e v
  dispatch-IsOrderly State.osc b e v = step_osc-IsOrderly b e v

  parser_feed-IsOrderly :
      (bytes : List ℕ) {t : Terminal} → IsOrderly t → IsOrderly (parser_feed qt t bytes)
  unfolding parser_feed
  parser_feed-IsOrderly [] v = v
  parser_feed-IsOrderly (b ∷ bytes) {t} v =
      parser_feed-IsOrderly bytes (dispatch-IsOrderly t.parser.state b refl v)

  -- Feeding any bytes to a terminal keeps its invariant: the grid has rows * columns cells, the
  -- cursor is on it or one past the last column, the pen is a blank with byte colours and known
  -- attributes, the held CSI bytes never exceed 4096 and are none outside a sequence, and at
  -- most four UTF-8 bytes are held.
  pub feed-IsOrderly : (t : Terminal) (bytes : List ℕ) → IsOrderly t → IsOrderly (feed qt t bytes)
  unfolding feed
  feed-IsOrderly t bytes v =
      let w = parser_feed-IsOrderly bytes v in
      record { tidy = w.tidy; sound = touch-IsSound w.sound }

pub init-IsOrderly : IsOrderly init
unfolding init
init-IsOrderly = record {
  tidy = ground arith;
  sound = record { valid = init-IsValid; is_pen = omega arith };
}
