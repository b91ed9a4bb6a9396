-- ===== src/Terminal/Html/Tags.antt =====
-- What a reader of lineHtml of terminal/src/terminalscreen.cpp sees: the text outside the tags.
use mesh_commander.Prelude.{
  ℕ, zero, suc, ◌+◌, ◌-◌, ◌*◌, ◌≤◌, ◌<◌, ◌≡◌, ◌≢◌, refl, sym, ap, ◌∙◌, ◌⊎◌, inl, inr, Bool, true,
  false, not, ◌&&◌, List, [], ◌∷◌, ◌++◌, leb, ◌==◌, if◌then◌else◌, length, get_or, Bool-cases,
  arith, pos, all_below, all_from, all_below_sound,
}
use mathlib.Core.List.{append_assoc, append-nil}
use mesh_commander.Terminal.Screen.{
  Cell, blank, TerminalScreen, attr_bold, attr_underline, attr_reverse,
}
use mesh_commander.Terminal.Html.{
  codes, palette, escape_html, colour_style, styles, escaped, flush_run, same_run, runs_from,
  line_html, has_attr,
}

-- The text outside the tags; the flag says whether a tag is open.
unfoldable pub outside : Bool → List ℕ → List ℕ
outside tag [] = []
outside false (c ∷ text) = if c == b'<' then outside true text else c ∷ outside false text
outside true (c ∷ text) = if c == b'>' then outside false text else outside true text

unfoldable lacks : ℕ → List ℕ → Bool
lacks c [] = true
lacks c (x ∷ text) = not (x == c) && lacks c text

lacks-append :
    (c : ℕ) (a b : List ℕ) → lacks c a ≡ true → lacks c b ≡ true → lacks c (a ++ b) ≡ true
unfolding lacks
lacks-append c [] b h k = k
lacks-append c (x ∷ a) b h k = ground (arith, lacks-append c a b)

outside_text : (a b : List ℕ) → lacks b'<' a ≡ true → outside false (a ++ b) ≡ a ++ outside false b
unfolding lacks outside
outside_text [] b h = refl
outside_text (x ∷ a) b h = ground (arith, outside_text a b)

outside_tag : (a b : List ℕ) → lacks b'>' a ≡ true → outside true (a ++ b'>' ∷ b) ≡ outside false b
unfolding lacks outside
outside_tag [] b h = refl
outside_tag (x ∷ a) b h = ground (arith, outside_tag a b)

-- A cell that is shown as it should be: byte colours, and a surrogate pair that holds no `<`.
pub record IsShown (c : Cell) : Type 0 where
  pub fg_byte : c.fg ≤ 255
  pub bg_byte : c.bg ≤ 255
  pub whole : (c.low_surrogate ≡ 0) ⊎ ((c.ch ≢ b'<') × (c.low_surrogate ≢ b'<'))

escape-lacks : (c : Cell) → IsShown c → lacks b'<' (escape_html c) ≡ true
unfolding escape_html lacks
escape-lacks c v = ground (arith, v.whole)

entry_test : ℕ → Bool
entry_test i = lacks b'>' (get_or palette i [])

entry_table : all_below 256 entry_test ≡ true
unfolding all_below all_from entry_test palette lacks
entry_table = refl

colour_style-lacks :
    (property : List ℕ) (index : ℕ)
    → lacks b'>' property ≡ true
    → index ≤ 255
    → lacks b'>' (colour_style property index) ≡ true
unfolding colour_style entry_test lacks
colour_style-lacks property index h k = elim (Bool-cases (index == 0xFF)) [
  | inl e ↦ rw e refl
  | inr n ↦ rw n (
      lacks-append b'>' property (get_or palette index [] ++ codes ";") h (
        lacks-append b'>' (get_or palette index []) (codes ";")
          (all_below_sound 256 entry_test index entry_table (omega arith)) refl))
]

lacks_if : (b : Bool) (a : List ℕ) → lacks b'>' a ≡ true → lacks b'>' (if b then a else []) ≡ true
unfolding lacks
lacks_if true a h = h
lacks_if false a h = refl

byte_if : (b : Bool) (m n : ℕ) → m ≤ 255 → n ≤ 255 → (if b then m else n) ≤ 255
byte_if true m n h k = h
byte_if false m n h k = k

styles-lacks : (c : Cell) → IsShown c → lacks b'>' (styles c) ≡ true
unfolding styles lacks
styles-lacks c v =
    lacks-append b'>' fg (bg ++ (bold ++ line))
      (colour_style-lacks (codes "color:") front refl (byte_if swap c.bg c.fg v.bg_byte v.fg_byte))
      (lacks-append b'>' bg (bold ++ line)
        (colour_style-lacks (codes "background-color:") back refl
          (byte_if swap c.fg c.bg v.fg_byte v.bg_byte))
        (lacks-append b'>' bold line
          (lacks_if (has_attr attr_bold c) (codes "font-weight:bold;") refl)
          (lacks_if (has_attr attr_underline c) (codes "text-decoration:underline;") refl)))
  where
    swap : Bool
    swap = has_attr attr_reverse c

    front : ℕ
    front = if swap then c.bg else c.fg

    back : ℕ
    back = if swap then c.fg else c.bg

    fg : List ℕ
    fg = colour_style (codes "color:") front

    bg : List ℕ
    bg = colour_style (codes "background-color:") back

    bold : List ℕ
    bold = if has_attr attr_bold c then codes "font-weight:bold;" else []

    line : List ℕ
    line = if has_attr attr_underline c then codes "text-decoration:underline;" else []

escaped-lacks :
    (cells : List Cell) (at n : ℕ)
    → ((i : ℕ) → IsShown (get_or cells i blank))
    → lacks b'<' (escaped cells at n) ≡ true
unfolding escaped lacks
escaped-lacks cells at zero v = refl
escaped-lacks cells at (suc n) v =
    lacks-append b'<' (escape_html (get_or cells at blank)) (escaped cells (at + 1) n)
      (escape-lacks (get_or cells at blank) (v at)) (escaped-lacks cells (at + 1) n v)

escaped-split :
    (cells : List Cell) (at n m next total : ℕ)
    → next ≡ at + n
    → total ≡ n + m
    → escaped cells at n ++ escaped cells next m ≡ escaped cells at total
unfolding escaped
escaped-split cells at zero m next total e f =
    let same : next ≡ at = omega (arith, e) in
    let all : total ≡ m = omega (arith, f) in rw (same, all) refl
escaped-split cells at (suc n) m next zero e f = absurd (omega (arith, f))
escaped-split cells at (suc n) m next (suc total) e f =
    append_assoc (escape_html (get_or cells at blank)) (escaped cells (at + 1) n)
      (escaped cells next m)
    ∙ ap (λ (x : List ℕ). escape_html (get_or cells at blank) ++ x)
        (escaped-split cells (at + 1) n m next total (omega (arith, e)) (omega (arith, f)))

regrouped :
    (style text end rest : List ℕ)
    → (style ++ (codes "\">" ++ (text ++ end))) ++ rest
      ≡ (style ++ codes "\"") ++ (b'>' ∷ (text ++ (end ++ rest)))
regrouped style text end rest =
    append_assoc style (codes "\">" ++ (text ++ end)) rest
    ∙ ap (λ (x : List ℕ). style ++ (codes "\">" ++ x)) (append_assoc text end rest)
    ∙ sym (append_assoc style (codes "\"") (b'>' ∷ (text ++ (end ++ rest))))

-- One run, whatever follows it.
outside-flush_run :
    (cells : List Cell) (start stop : ℕ) (rest : List ℕ)
    → ((i : ℕ) → IsShown (get_or cells i blank))
    → start < stop
    → outside false (flush_run cells start stop ++ rest)
      ≡ escaped cells start (stop - start) ++ outside false rest
unfolding flush_run lacks outside
outside-flush_run cells start stop rest v h = elim (Bool-cases (length style == 0)) [
  | inl e ↦ rw (runs, e) (outside_text text rest plain)
  | inr n ↦
      rw (runs, n)
        (ap (λ (x : List ℕ). outside true (codes "span style=\"" ++ x))
            (regrouped style text (codes "</span>") rest)
          ∙ outside_tag tag (text ++ (codes "</span>" ++ rest)) no_end
          ∙ outside_text text (codes "</span>" ++ rest) plain)
]
  where
    style : List ℕ
    style = styles (get_or cells start blank)

    text : List ℕ
    text = escaped cells start (stop - start)

    tag : List ℕ
    tag = codes "span style=\"" ++ (style ++ codes "\"")

    runs : leb stop start ≡ false
    runs = ground (arith, h)

    plain : lacks b'<' text ≡ true
    plain = escaped-lacks cells start (stop - start) v

    no_end : lacks b'>' tag ≡ true
    no_end =
        lacks-append b'>' style (codes "\"") (styles-lacks (get_or cells start blank) (v start))
          refl

-- The loop, from a run that starts at `start` and has reached `i`.
outside-runs_from :
    (cells : List Cell) (start i left : ℕ)
    → ((j : ℕ) → IsShown (get_or cells j blank))
    → start < i
    → outside false (runs_from cells start i left) ≡ escaped cells start (i + left - start)
unfolding runs_from outside
outside-runs_from cells start i zero v h =
    ap (outside false) (sym (append-nil (flush_run cells start i)))
    ∙ outside-flush_run cells start i [] v h
    ∙ append-nil (escaped cells start (i - start))
    ∙ ap (escaped cells start) (omega arith)
outside-runs_from cells start i (suc left) v h = elim (Bool-cases (same_run cells start i)) [
  | inl e ↦ rw e (
      outside-runs_from cells start (i + 1) left v (omega arith)
      ∙ ap (escaped cells start) (omega arith))
  | inr n ↦ rw n (
      outside-flush_run cells start i (runs_from cells i (i + 1) left) v h
      ∙ ap (λ (x : List ℕ). escaped cells start (i - start) ++ x)
          (outside-runs_from cells i (i + 1) left v (omega arith)
            ∙ ap (escaped cells i) (omega arith))
      ∙ escaped-split cells start (i - start) (suc left) i (i + suc left - start) (omega arith)
          (omega arith))
]

-- For a row of the grid, when every cell has byte colours and no cell with a low surrogate
-- holds `<`, the text of lineHtml outside its tags is the escaped text of the row's cells, each
-- once and in order.
pub outside-line_html :
    (s : TerminalScreen) (row : ℕ)
    → ((j : ℕ) → IsShown (get_or s.cells j blank))
    → row < s.rows
    → 1 ≤ s.columns
    → outside false (line_html s (pos row)) ≡ escaped s.cells (row * s.columns) s.columns
unfolding line_html
outside-line_html s row v h k =
    let on_screen : leb s.rows row ≡ false = ground (arith, h) in
    let some_columns : (s.columns == 0) ≡ false = ground (arith, k) in
    rw (on_screen, some_columns)
      (outside-runs_from s.cells (row * s.columns) (row * s.columns + 1) (s.columns - 1) v
          (omega arith)
        ∙ ap (escaped s.cells (row * s.columns)) (omega (arith, k)))
