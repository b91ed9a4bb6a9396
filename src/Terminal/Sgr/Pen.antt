-- ===== src/Terminal/Sgr/Pen.antt =====
-- What handleSgr of terminal/src/vt100parser.cpp does to the pen, and that it does nothing else.
use mesh_commander.Prelude.{
  all_below_sound, all_below, all_from, ◌∷◌, ℕ, zero, suc, ◌-◌, ◌≤◌, ◌<◌, ◌≡◌, refl, ap, ◌∙◌, min,
  Bool, true, false, ◌&&◌, List, [], Option, none, some, bit_or, bit_and, ltb, get_or, arith,
}
use mesh_commander.Terminal.Screen.{
  Cell, TerminalScreen, reset_attributes, set_attr, set_fg, set_bg,
}
use mesh_commander.Terminal.Sgr.{
  quantize_rgb_to_256, handle_sgr, sgr_from, consume_extended_color, set_colour, sgr_step,
}
use mesh_commander.Terminal.Sgr.Quantize.{quantize_bounds}

-- A pen that draws no character of its own, with byte colours and the three known attributes.
pub record IsPen (c : Cell) : Type 0 where
  pub space : c.ch ≡ 0x20
  pub no_surrogate : c.low_surrogate ≡ 0
  pub fg_byte : c.fg ≤ 255
  pub bg_byte : c.bg ≤ 255
  pub known_attrs : c.attrs < 8

-- The attribute bits of SGR keep an attribute set below 8.
attr_test : ℕ → ℕ → Bool
attr_test bit a = ltb (bit_or a bit) 8 && ltb (bit_and a (255 - bit)) 8

attr_tables :
    (all_below 8 (attr_test 1) ≡ true)
    × (all_below 8 (attr_test 2) ≡ true)
    × (all_below 8 (attr_test 4) ≡ true)
unfolding all_below all_from attr_test
attr_tables = (refl, refl, refl)

set_attr-IsPen :
    (s : TerminalScreen) (bit : ℕ) (on : Bool)
    → all_below 8 (attr_test bit) ≡ true
    → IsPen s.pen
    → IsPen (set_attr bit on s).pen
unfolding set_attr attr_test
set_attr-IsPen s bit true t v =
    ground (arith, all_below_sound 8 (attr_test bit) s.pen.attrs t v.known_attrs)
set_attr-IsPen s bit false t v =
    ground (arith, all_below_sound 8 (attr_test bit) s.pen.attrs t v.known_attrs)

abbrev ColourByte : Option ℕ → Type 0
ColourByte none = Unit {0}
ColourByte (some c) = c ≤ 255

consume-ColourByte : (rest : List ℕ) → ColourByte (consume_extended_color rest).0
unfolding consume_extended_color
consume-ColourByte rest =
    ground (arith, quantize_bounds (get_or rest 1 0) (get_or rest 2 0) (get_or rest 3 0))

set_fg-IsPen :
    (s : TerminalScreen) (index : ℕ) → index ≤ 255 → IsPen s.pen → IsPen (set_fg index s).pen
unfolding set_fg
set_fg-IsPen s index h v = ground arith

set_bg-IsPen :
    (s : TerminalScreen) (index : ℕ) → index ≤ 255 → IsPen s.pen → IsPen (set_bg index s).pen
unfolding set_bg
set_bg-IsPen s index h v = ground arith

-- The same screen but for the pen, which is one.
record KeepsScreen (s t : TerminalScreen) : Type 0 where
  rest_kept : t ≡ record s { pen = t.pen }
  pen_kept : IsPen t.pen

set_attr-rest :
    (bit : ℕ) (on : Bool) (s : TerminalScreen)
    → set_attr bit on s ≡ record s { pen = (set_attr bit on s).pen }
unfolding set_attr
set_attr-rest bit true s = refl
set_attr-rest bit false s = refl

attr-KeepsScreen :
    (s : TerminalScreen) (bit : ℕ) (on : Bool)
    → all_below 8 (attr_test bit) ≡ true
    → IsPen s.pen
    → KeepsScreen s (set_attr bit on s)
attr-KeepsScreen s bit on t v = record {
  rest_kept = set_attr-rest bit on s;
  pen_kept = set_attr-IsPen s bit on t v;
}

fg-KeepsScreen :
    (s : TerminalScreen) (c : Option ℕ)
    → ColourByte c
    → IsPen s.pen
    → KeepsScreen s (set_colour set_fg c s)
unfolding set_fg
fg-KeepsScreen s none h v = record { rest_kept = refl; pen_kept = v }
fg-KeepsScreen s (some c) h v = record { rest_kept = refl; pen_kept = ground arith }

bg-KeepsScreen :
    (s : TerminalScreen) (c : Option ℕ)
    → ColourByte c
    → IsPen s.pen
    → KeepsScreen s (set_colour set_bg c s)
unfolding set_bg
bg-KeepsScreen s none h v = record { rest_kept = refl; pen_kept = v }
bg-KeepsScreen s (some c) h v = record { rest_kept = refl; pen_kept = ground arith }

reset-KeepsScreen : (s : TerminalScreen) → KeepsScreen s (reset_attributes s)
unfolding reset_attributes
reset-KeepsScreen s = record { rest_kept = refl; pen_kept = ground arith }

sgr_step-KeepsScreen :
    (code : ℕ) (rest : List ℕ) (s : TerminalScreen)
    → IsPen s.pen
    → KeepsScreen s (sgr_step code rest s).0
unfolding sgr_step
sgr_step-KeepsScreen code rest s v = ground (
  arith,
  reset-KeepsScreen s,
  attr-KeepsScreen s 1 true attr_tables.0 v,
  attr-KeepsScreen s 2 true attr_tables.1 v,
  attr-KeepsScreen s 4 true attr_tables.2 v,
  attr-KeepsScreen s 1 false attr_tables.0 v,
  attr-KeepsScreen s 2 false attr_tables.1 v,
  attr-KeepsScreen s 4 false attr_tables.2 v,
  fg-KeepsScreen s (consume_extended_color rest).0 (consume-ColourByte rest) v,
  bg-KeepsScreen s (consume_extended_color rest).0 (consume-ColourByte rest) v,
)

KeepsScreen-trans : {s t u : TerminalScreen} → KeepsScreen s t → KeepsScreen t u → KeepsScreen s u
KeepsScreen-trans {s} {t} {u} h k = record {
  rest_kept = k.rest_kept ∙ ap (λ (x : TerminalScreen). record x { pen = u.pen }) h.rest_kept;
  pen_kept = k.pen_kept;
}

sgr_from-KeepsScreen :
    (skip : ℕ) (params : List ℕ) (s : TerminalScreen)
    → IsPen s.pen
    → KeepsScreen s (sgr_from skip params s)
unfolding sgr_from
sgr_from-KeepsScreen skip [] s v = record { rest_kept = refl; pen_kept = v }
sgr_from-KeepsScreen zero (code ∷ rest) s v =
    let k = sgr_step-KeepsScreen code rest s v in
    KeepsScreen-trans k (sgr_from-KeepsScreen (sgr_step code rest s).1 rest _ k.pen_kept)
sgr_from-KeepsScreen (suc skip) (code ∷ rest) s v = sgr_from-KeepsScreen skip rest s v

handle_sgr-KeepsScreen :
    (params : List ℕ) (s : TerminalScreen) → IsPen s.pen → KeepsScreen s (handle_sgr params s)
unfolding handle_sgr
handle_sgr-KeepsScreen [] s v = reset-KeepsScreen s
handle_sgr-KeepsScreen (code ∷ rest) s v = sgr_from-KeepsScreen 0 (code ∷ rest) s v

-- SGR parameters change nothing of the screen but the pen, and keep it a blank with byte
-- colours and the three known attributes.
pub handle_sgr-IsPen :
    (params : List ℕ) (s : TerminalScreen)
    → IsPen s.pen
    → (handle_sgr params s ≡ record s { pen = (handle_sgr params s).pen })
      × IsPen (handle_sgr params s).pen
handle_sgr-IsPen params s v = let k = handle_sgr-KeepsScreen params s v in (k.rest_kept, k.pen_kept)

consume_indexed :
    (n : ℕ) (rest : List ℕ) → consume_extended_color (5 ∷ n ∷ rest) ≡ (some (min n 255), 2)
unfolding consume_extended_color
consume_indexed n rest = ground arith

consume_rgb :
    (r g b : ℕ) (rest : List ℕ)
    → consume_extended_color (2 ∷ r ∷ g ∷ b ∷ rest) ≡ (some (quantize_rgb_to_256 r g b), 4)
unfolding consume_extended_color
consume_rgb r g b rest = ground arith

fg_extended :
    (rest : List ℕ) (s : TerminalScreen) {c : Option ℕ} {k : ℕ}
    → consume_extended_color rest ≡ (c, k)
    → handle_sgr (38 ∷ rest) s ≡ sgr_from k rest (set_colour set_fg c s)
unfolding handle_sgr
fg_extended rest s e = ap (λ (x : Option ℕ × ℕ). sgr_from x.1 rest (set_colour set_fg x.0 s)) e

bg_extended :
    (rest : List ℕ) (s : TerminalScreen) {c : Option ℕ} {k : ℕ}
    → consume_extended_color rest ≡ (c, k)
    → handle_sgr (48 ∷ rest) s ≡ sgr_from k rest (set_colour set_bg c s)
unfolding handle_sgr
bg_extended rest s e = ap (λ (x : Option ℕ × ℕ). sgr_from x.1 rest (set_colour set_bg x.0 s)) e

-- SGR 38;5;n and 48;5;n set the foreground or background to n cut to 255, 38;2;r;g;b and
-- 48;2;r;g;b to the quantized colour, and the parameters behind them are handled next.
pub handle_sgr_extended :
    (n r g b : ℕ) (rest : List ℕ) (s : TerminalScreen)
    → (handle_sgr (38 ∷ 5 ∷ n ∷ rest) s ≡ sgr_from 0 rest (set_fg (min n 255) s))
      × (handle_sgr (48 ∷ 5 ∷ n ∷ rest) s ≡ sgr_from 0 rest (set_bg (min n 255) s))
      × (handle_sgr (38 ∷ 2 ∷ r ∷ g ∷ b ∷ rest) s
          ≡ sgr_from 0 rest (set_fg (quantize_rgb_to_256 r g b) s))
      × (handle_sgr (48 ∷ 2 ∷ r ∷ g ∷ b ∷ rest) s
          ≡ sgr_from 0 rest (set_bg (quantize_rgb_to_256 r g b) s))
unfolding handle_sgr
handle_sgr_extended n r g b rest s = (
  fg_extended (5 ∷ n ∷ rest) s (consume_indexed n rest),
  bg_extended (5 ∷ n ∷ rest) s (consume_indexed n rest),
  fg_extended (2 ∷ r ∷ g ∷ b ∷ rest) s (consume_rgb r g b rest),
  bg_extended (2 ∷ r ∷ g ∷ b ∷ rest) s (consume_rgb r g b rest),
)
