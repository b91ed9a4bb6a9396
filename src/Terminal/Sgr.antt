-- ===== src/Terminal/Sgr.antt =====
-- CSI ... m: quantizeRgbTo256, consumeExtendedColor and handleSgr of terminal/src/vt100parser.cpp.
pub mod Quantize
pub mod Pen
use mesh_commander.Prelude.{
  ℕ, zero, suc, ◌+◌, ◌-◌, ◌*◌, ◌/◌, ◌%◌, min, true, false, ◌&&◌, List, [], ◌∷◌, Option, none, some,
  leb, ltb, ◌==◌, if◌then◌else◌, length, get_or,
}
use mesh_commander.Terminal.Screen.{
  TerminalScreen, attr_bold, attr_underline, attr_reverse, reset_attributes, set_attr, set_fg,
  set_bg,
}

-- The lambda `step`, and the clamp of its result to 0..5.
unfoldable pub cube_step : ℕ → ℕ
cube_step v = if ltb v 48 then 0 else if ltb v 115 then 1 else min ((v - 35) / 40) 5

unfoldable pub quantize_rgb_to_256 : ℕ → ℕ → ℕ → ℕ
unfolding cube_step
quantize_rgb_to_256 r g b = (16 + 36 * cube_step r + 6 * cube_step g + cube_step b) % 256

-- `rest` is what stands after the 38 or 48 at `*i`, and the second result is by how much `*i`
-- grows; `size` is the distance from `*i` to the end.
unfoldable pub consume_extended_color : List ℕ → Option ℕ × ℕ
unfolding quantize_rgb_to_256
consume_extended_color rest =
    let size : ℕ = length rest + 1 in
    let mode : ℕ = get_or rest 0 0 in
    if leb size 1
    then (none, size)
    else if mode == 5
    then if leb size 2 then (none, size) else (some (min (get_or rest 1 0) 255 % 256), 2)
    else if mode == 2
    then if leb size 4
      then (none, size)
      else (some (quantize_rgb_to_256 (get_or rest 1 0) (get_or rest 2 0) (get_or rest 3 0)), 4)
    else (none, 1)

abbrev pub set_colour :
    (ℕ → TerminalScreen → TerminalScreen) → Option ℕ → TerminalScreen → TerminalScreen
set_colour f none s = s
set_colour f (some index) s = f index s

-- The body of the loop, at the parameter `code` with `rest` after it: the screen, and by how much
-- the body moves `i` itself.
unfoldable pub sgr_step : ℕ → List ℕ → TerminalScreen → TerminalScreen × ℕ
unfolding consume_extended_color reset_attributes set_attr set_fg set_bg
sgr_step code rest s =
    let (index, advance) = consume_extended_color rest in
    if code == 0
    then (reset_attributes s, 0)
    else if code == 1
    then (set_attr attr_bold true s, 0)
    else if code == 4
    then (set_attr attr_underline true s, 0)
    else if code == 7
    then (set_attr attr_reverse true s, 0)
    else if code == 22
    then (set_attr attr_bold false s, 0)
    else if code == 24
    then (set_attr attr_underline false s, 0)
    else if code == 27
    then (set_attr attr_reverse false s, 0)
    else if leb 30 code && leb code 37
    then (set_fg (code - 30) s, 0)
    else if code == 38
    then (set_colour set_fg index s, advance)
    else if code == 39
    then (set_fg 0xFF s, 0)
    else if leb 40 code && leb code 47
    then (set_bg (code - 40) s, 0)
    else if code == 48
    then (set_colour set_bg index s, advance)
    else if code == 49
    then (set_bg 0xFF s, 0)
    else if leb 90 code && leb code 97
    then (set_fg (code - 90 + 8) s, 0)
    else if leb 100 code && leb code 107
    then (set_bg (code - 100 + 8) s, 0)
    else (s, 0)

-- `for (; i < params.size(); ++i)`; `skip` parameters have been consumed already.
unfoldable pub sgr_from : ℕ → List ℕ → TerminalScreen → TerminalScreen
unfolding sgr_step
sgr_from skip [] s = s
sgr_from zero (code ∷ rest) s = let (s', advance) = sgr_step code rest s in sgr_from advance rest s'
sgr_from (suc skip) (code ∷ rest) s = sgr_from skip rest s

unfoldable pub handle_sgr : List ℕ → TerminalScreen → TerminalScreen
unfolding sgr_from
handle_sgr [] s = reset_attributes s
handle_sgr (code ∷ rest) s = sgr_from 0 (code ∷ rest) s
