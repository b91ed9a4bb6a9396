-- ===== src/Terminal/Screen/Grid.antt =====
-- The loops over the row-major cells of terminal/src/terminalscreen.cpp, as facts about each index.
use mesh_commander.Prelude.{
  ℕ, zero, suc, ◌+◌, ◌*◌, ◌≤◌, ◌<◌, ◌≡◌, refl, ap, ◌∙◌, ◌⊎◌, inl, inr, ◌↔◌, ◌&&◌, List, ltb, leb,
  ◌==◌, if◌then◌else◌, length, length-set, get_or, set, get_or-set, get_or-set_default, arith,
}
use mesh_commander.Terminal.Screen.{
  Cell, blank, clear_columns, clear_rows, shift_columns, shift_rows, copy_columns, copy_rows,
}

pub length-clear_columns :
    (w row c n : ℕ) (cells : List Cell) → length (clear_columns w row c n cells) ≡ length cells
unfolding clear_columns
length-clear_columns w row c zero cells = refl
length-clear_columns w row c (suc n) cells =
    length-clear_columns w row (c + 1) n (set cells (row * w + c) blank)
    ∙ length-set cells (row * w + c) blank

pub length-clear_rows :
    (w row n : ℕ) (cells : List Cell) → length (clear_rows w row n cells) ≡ length cells
unfolding clear_rows
length-clear_rows w row zero cells = refl
length-clear_rows w row (suc n) cells =
    length-clear_rows w (row + 1) n (clear_columns w row 0 w cells)
    ∙ length-clear_columns w row 0 w cells

pub length-shift_columns :
    (w row c n : ℕ) (cells : List Cell) → length (shift_columns w row c n cells) ≡ length cells
unfolding shift_columns
length-shift_columns w row c zero cells = refl
length-shift_columns w row c (suc n) cells =
    length-shift_columns w row (c + 1) n (set cells (row * w + c) below)
    ∙ length-set cells (row * w + c) below
  where
    below : Cell
    below = get_or cells ((row + 1) * w + c) blank

pub length-shift_rows :
    (w row n : ℕ) (cells : List Cell) → length (shift_rows w row n cells) ≡ length cells
unfolding shift_rows
length-shift_rows w row zero cells = refl
length-shift_rows w row (suc n) cells =
    length-shift_rows w (row + 1) n (shift_columns w row 0 w cells)
    ∙ length-shift_columns w row 0 w cells

pub length-copy_columns :
    (from : List Cell) (width to row c n : ℕ) (next : List Cell)
    → length (copy_columns from width to row c n next) ≡ length next
unfolding copy_columns
length-copy_columns from width to row c zero next = refl
length-copy_columns from width to row c (suc n) next =
    length-copy_columns from width to row (c + 1) n (set next (row * to + c) old)
    ∙ length-set next (row * to + c) old
  where
    old : Cell
    old = get_or from (row * width + c) blank

pub length-copy_rows :
    (from : List Cell) (width to copied row n : ℕ) (next : List Cell)
    → length (copy_rows from width to copied row n next) ≡ length next
unfolding copy_rows
length-copy_rows from width to copied row zero next = refl
length-copy_rows from width to copied row (suc n) next =
    length-copy_rows from width to copied (row + 1) n (copy_columns from width to row 0 copied next)
    ∙ length-copy_columns from width to row 0 copied next

-- Clearing makes one stretch of cells blank.
pub get-clear_columns :
    (w row c n : ℕ) (cells : List Cell) (i : ℕ)
    → get_or (clear_columns w row c n cells) i blank
      ≡ (if leb (row * w + c) i && ltb i (row * w + c + n) then blank else get_or cells i blank)
unfolding clear_columns
get-clear_columns w row c zero cells i = ground arith
get-clear_columns w row c (suc n) cells i = ground (
  arith,
  get-clear_columns w row (c + 1) n (set cells (row * w + c) blank) i,
  get_or-set_default cells (row * w + c) i blank,
)

pub get-clear_rows :
    (w row n : ℕ) (cells : List Cell) (i : ℕ)
    → get_or (clear_rows w row n cells) i blank
      ≡ (if leb (row * w) i && ltb i ((row + n) * w) then blank else get_or cells i blank)
unfolding clear_rows
get-clear_rows w row zero cells i = ground arith
get-clear_rows w row (suc n) cells i = ground (
  arith,
  get-clear_rows w (row + 1) n (clear_columns w row 0 w cells) i,
  get-clear_columns w row 0 w cells i,
)

pub get_or-eq : (cells : List Cell) (i j : ℕ) → i ≡ j → get_or cells i blank ≡ get_or cells j blank
get_or-eq cells i j e = ap (λ k. get_or cells k blank) e

lt_cases : (a b : ℕ) → (a < b) ⊎ (b < a) ⊎ (a ≡ b)
lt_cases a b = grind arith

-- One row takes the row below it.
pub get-shift_columns :
    (w row c n : ℕ) (cells : List Cell) (i : ℕ)
    → c + n ≤ w
    → (row + 1) * w ≤ length cells
    → get_or (shift_columns w row c n cells) i blank ≡ (
        if leb (row * w + c) i && ltb i (row * w + c + n)
        then get_or cells (i + w) blank
        else get_or cells i blank)
unfolding shift_columns
get-shift_columns w row c zero cells i h l = ground arith
get-shift_columns w row c (suc n) cells i h l = ground (
  arith,
  get-shift_columns w row (c + 1) n (set cells (row * w + c) below) i (omega arith)
      (omega (arith, length-set cells (row * w + c) below)),
  get_or-set cells (row * w + c) i below blank,
  get_or-set cells (row * w + c) (i + w) below blank,
  λ (e : row * w + c ≡ i). get_or-eq cells ((row + 1) * w + c) (i + w) (omega arith),
)
  where
    below : Cell
    below = get_or cells ((row + 1) * w + c) blank

-- All rows at once: every index of the stretch takes the cell one row below.
pub get-shift_rows :
    (w row n : ℕ) (cells : List Cell) (i : ℕ)
    → (row + n) * w ≤ length cells
    → get_or (shift_rows w row n cells) i blank ≡ (
        if leb (row * w) i && ltb i ((row + n) * w)
        then get_or cells (i + w) blank
        else get_or cells i blank)
unfolding shift_rows
get-shift_rows w row zero cells i l = ground arith
get-shift_rows w row (suc n) cells i l = ground (
  arith,
  get-shift_rows w (row + 1) n (shift_columns w row 0 w cells) i
      (omega (arith, length-shift_columns w row 0 w cells)),
  get-shift_columns w row 0 w cells i (omega arith) (grind arith),
  get-shift_columns w row 0 w cells (i + w) (omega arith) (grind arith),
)

-- Two places with the same index are the same place.
pub row_mono : (w r q : ℕ) → r < q → r * w + w ≤ q * w
row_mono w r q h = grind arith

pub index_inj : (w r q c d : ℕ) → c < w → d < w → r * w + c ≡ q * w + d → r ≡ q
index_inj w r q c d hc hd e = elim (lt_cases r q) [
  | inl h ↦ absurd (omega (arith, row_mono w r q h))
  | inr (inl h) ↦ absurd (omega (arith, row_mono w q r h))
  | inr (inr h) ↦ h
]

-- Where an index lies against the ends of a row.
pub le_index_iff : (w r q d : ℕ) → d < w → (r * w ≤ q * w + d) ↔ (r ≤ q)
le_index_iff w r q d h = elim (lt_cases q r) [
  | inl l ↦ let m = row_mono w q r l in (λ e. absurd (omega arith), λ e. absurd (omega arith))
  | inr (inl l) ↦ let m = row_mono w r q l in (λ e. omega arith, λ e. omega arith)
  | inr (inr l) ↦ (λ e. omega arith, λ e. rw l (omega arith))
]

-- Copying writes one stretch of `next`.
pub get-copy_columns :
    (from : List Cell) (width to row c n : ℕ) (next : List Cell) (q d : ℕ)
    → c + n ≤ to
    → d < to
    → (row + 1) * to ≤ length next
    → get_or (copy_columns from width to row c n next) (q * to + d) blank ≡ (
        if (q == row) && leb c d && ltb d (c + n)
        then get_or from (q * width + d) blank
        else get_or next (q * to + d) blank)
unfolding copy_columns
get-copy_columns from width to row c zero next q d h b l = ground arith
get-copy_columns from width to row c (suc n) next q d h b l = ground (
  arith,
  get-copy_columns from width to row (c + 1) n (set next (row * to + c) old) q d (omega arith) b
      (omega (arith, length-set next (row * to + c) old)),
  get_or-set next (row * to + c) (q * to + d) old blank,
  index_inj to row q c d,
)
  where
    old : Cell
    old = get_or from (row * width + c) blank

pub get-copy_rows :
    (from : List Cell) (width to copied row n : ℕ) (next : List Cell) (q d : ℕ)
    → copied ≤ to
    → d < to
    → (row + n) * to ≤ length next
    → get_or (copy_rows from width to copied row n next) (q * to + d) blank ≡ (
        if leb row q && ltb q (row + n) && ltb d copied
        then get_or from (q * width + d) blank
        else get_or next (q * to + d) blank)
unfolding copy_rows
get-copy_rows from width to copied row zero next q d h b l = ground arith
get-copy_rows from width to copied row (suc n) next q d h b l = ground (
  arith,
  get-copy_rows from width to copied (row + 1) n (copy_columns from width to row 0 copied next) q d
      h b (omega (arith, length-copy_columns from width to row 0 copied next)),
  get-copy_columns from width to row 0 copied next q d (omega arith) b (grind arith),
)
