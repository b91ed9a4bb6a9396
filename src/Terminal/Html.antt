-- ===== src/Terminal/Html.antt =====
-- TerminalScreen::lineHtml of terminal/src/terminalscreen.cpp, with its palette and escapeHtml. A text
-- is its UTF-16 units. The three nested loops that fill the colour cube write its entries in order,
-- so the palette is a list.
pub mod Tags
use Prim.Native.Char.{code}
use Prim.Native.String.{String}
use mesh_commander.Prelude.{
  ℕ, zero, suc, ◌+◌, ◌-◌, ◌*◌, ◌/◌, ◌%◌, ◌^◌, ◌≤◌, ◌<◌, min, ◌≡◌, ◌≢◌, refl, sym, ap, ◌∙◌, ◌⊎◌, inl,
  inr, ◌↔◌, Bool, true, false, not, ◌&&◌, ◌||◌, List, [], ◌∷◌, ◌++◌, Option, none, some, map, ltb,
  leb, ◌==◌, if◌then◌else◌, length, get_or, Bool-cases, Option-cases, arith, set, ℤ, pos, negsuc,
  bit_and,
}
use mesh_commander.Terminal.Screen.{
  Cell, blank, TerminalScreen, attr_bold, attr_underline, attr_reverse,
}

abbrev pub codes : String → List ℕ
codes String.[] = []
codes (String.◌∷◌ c s) = code c ∷ codes s

-- `%02X` of a byte.
abbrev pub hex_digit : ℕ → ℕ
hex_digit d = if ltb d 10 then b'0' + d else b'A' + (d - 10)

abbrev pub hex2 : ℕ → List ℕ
hex2 v = hex_digit (v / 16) ∷ hex_digit (v % 16) ∷ []

abbrev pub colour : ℕ → ℕ → ℕ → List ℕ
colour r g b = b'#' ∷ (hex2 r ++ (hex2 g ++ hex2 b))

abbrev pub base : List (List ℕ)
base = map codes (
    "#0E0F12" ∷ "#E25555" ∷ "#5EE08A" ∷ "#E0C46C" ∷ "#5BB1F0" ∷ "#C58CF0" ∷ "#5EE0D8" ∷ "#C8CBD1"
    ∷ "#3A3D45" ∷ "#FF7878" ∷ "#7CF4A8" ∷ "#FFD888" ∷ "#7DC8FF" ∷ "#D9A8FF" ∷ "#7CFFF4" ∷ "#FFFFFF"
    ∷ [])

abbrev pub steps : List ℕ
steps = 0 ∷ 95 ∷ 135 ∷ 175 ∷ 215 ∷ 255 ∷ []

abbrev pub join_lists : List (List (List ℕ)) → List (List ℕ)
join_lists [] = []
join_lists (x ∷ xs) = x ++ join_lists xs

abbrev pub cube : List (List ℕ)
cube = join_lists (map (λ r. join_lists (map (λ g. map (λ b. colour r g b) steps) steps)) steps)

-- `count` greys from the level `v` on.
abbrev pub greys : ℕ → ℕ → List (List ℕ)
greys v zero = []
greys v (suc count) = colour v v v ∷ greys (v + 10) count

unfoldable pub palette : List (List ℕ)
palette = base ++ (cube ++ greys 8 24)

unfoldable pub escape_html : Cell → List ℕ
escape_html c =
    if not (c.low_surrogate == 0)
    then c.ch ∷ c.low_surrogate ∷ []
    else if c.ch == b'<'
    then codes "&lt;"
    else if c.ch == b'>'
    then codes "&gt;"
    else if c.ch == b'&'
    then codes "&amp;"
    else if c.ch == b' '
    then codes "&nbsp;"
    else c.ch ∷ []

abbrev pub has_attr : ℕ → Cell → Bool
has_attr bit c = not (bit_and c.attrs bit == 0)

unfoldable pub colour_style : List ℕ → ℕ → List ℕ
unfolding palette
colour_style property index =
    if index == 0xFF then [] else property ++ (get_or palette index [] ++ codes ";")

-- `styles` of a run that starts with the cell `c`.
unfoldable pub styles : Cell → List ℕ
unfolding colour_style
styles c =
    let fg : ℕ = if has_attr attr_reverse c then c.bg else c.fg in
    let bg : ℕ = if has_attr attr_reverse c then c.fg else c.bg in
    colour_style (codes "color:") fg
    ++ (colour_style (codes "background-color:") bg
        ++ ((if has_attr attr_bold c then codes "font-weight:bold;" else [])
            ++ (if has_attr attr_underline c then codes "text-decoration:underline;" else [])))

-- `count` cells of the grid from index `at` on.
unfoldable pub escaped : List Cell → ℕ → ℕ → List ℕ
unfolding escape_html
escaped cells at zero = []
escaped cells at (suc count) = escape_html (get_or cells at blank) ++ escaped cells (at + 1) count

-- flushRun, for the cells of the grid from index `start` up to `stop`.
unfoldable pub flush_run : List Cell → ℕ → ℕ → List ℕ
unfolding styles escaped
flush_run cells start stop =
    let style : List ℕ = styles (get_or cells start blank) in
    let text : List ℕ = escaped cells start (stop - start) in
    if leb stop start
    then []
    else if length style == 0
    then text
    else codes "<span style=\"" ++ (style ++ (codes "\">" ++ (text ++ codes "</span>")))

abbrev pub same_run : List Cell → ℕ → ℕ → Bool
same_run cells a b =
    let x : Cell = get_or cells a blank in
    let y : Cell = get_or cells b blank in (x.fg == y.fg) && (x.bg == y.bg) && (x.attrs == y.attrs)

-- The loop with `left` cells to look at, the next one at `i`; then the last flush.
unfoldable pub runs_from : List Cell → ℕ → ℕ → ℕ → List ℕ
runs_from cells start i zero = flush_run cells start i
runs_from cells start i (suc left) =
    let more : List ℕ =
      runs_from cells (if same_run cells start i then start else i) (i + 1) left in
    if same_run cells start i then more else flush_run cells start i ++ more

unfoldable pub line_html : TerminalScreen → ℤ → List ℕ
unfolding runs_from flush_run
line_html s (negsuc n) = []
line_html s (pos row) =
    let first : ℕ = row * s.columns in
    if leb s.rows row
    then []
    else if s.columns == 0
    then flush_run s.cells first first
    else runs_from s.cells first (first + 1) (s.columns - 1)
