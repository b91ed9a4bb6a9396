-- ===== src/Terminal/Params/Digits.antt =====
-- parseParams of terminal/src/vt100parser.cpp reads back what is written in decimal digits.
use mesh_commander.Prelude.{
  ℕ, zero, suc, ◌+◌, ◌-◌, ◌*◌, ◌^◌, ◌≤◌, ◌<◌, ◌≡◌, refl, ap, ◌∙◌, true, List, [], ◌∷◌, ◌++◌, Option,
  none, some, map, length, arith, length-append,
}
use native.Mathlib.Nat.{pow-suc}
use mesh_commander.Terminal.Params.{param_value, is_digit, parse_from, parse_params}

abbrev pub AllDigits : List ℕ → Type 0
AllDigits [] = Unit {0}
AllDigits (d ∷ ds) = (is_digit d ≡ true) × AllDigits ds

-- The number that the digits `ds` stand for behind those of `n`.
unfoldable pub decimal : ℕ → List ℕ → ℕ
decimal n [] = n
decimal n (d ∷ ds) = decimal (n * 10 + (d - b'0')) ds

-- Parameters of at most six digits each; one may be left empty.
abbrev pub AllWritten : List (List ℕ) → Type 0
AllWritten [] = Unit {0}
AllWritten (ds ∷ rest) = AllDigits ds × (length ds ≤ 6) × AllWritten rest

-- The parameters with `;` between them.
abbrev pub render_more : List (List ℕ) → List ℕ
render_more [] = []
render_more (ds ∷ rest) = b';' ∷ (ds ++ render_more rest)

pow10-le : (k : ℕ) → k ≤ 5 → 10 ^ k ≤ 100000
pow10-le zero h = omega arith
pow10-le (suc zero) h = omega arith
pow10-le (suc (suc zero)) h = omega arith
pow10-le (suc (suc (suc zero))) h = omega arith
pow10-le (suc (suc (suc (suc zero)))) h = omega arith
pow10-le (suc (suc (suc (suc (suc zero))))) h = omega arith
pow10-le (suc (suc (suc (suc (suc (suc k)))))) h = absurd (omega arith)

digit_step :
    (d n i : ℕ) (body : List ℕ)
    → is_digit d ≡ true
    → n < 100000
    → parse_from (some n) i (d ∷ body) ≡ parse_from (some (n * 10 + (d - b'0'))) (i + 1) body
unfolding parse_from
digit_step d n i body h l = ground arith

first_digit :
    (d i : ℕ) (body : List ℕ)
    → is_digit d ≡ true
    → parse_from none i (d ∷ body) ≡ parse_from (some (0 * 10 + (d - b'0'))) (i + 1) body
unfolding parse_from
first_digit d i body h = ground arith

-- A run of digits, `k` of which have been read already, gives the number that they write.
parse_from-digits :
    (ds : List ℕ) (n k i : ℕ) (rest : List ℕ)
    → AllDigits ds
    → n < 10 ^ k
    → k + length ds ≤ 6
    → parse_from (some n) i (ds ++ rest) ≡ parse_from (some (decimal n ds)) (i + length ds) rest
unfolding parse_from decimal
parse_from-digits [] n k i rest a h l = ap (λ j. parse_from (some n) j rest) (omega arith)
parse_from-digits (d ∷ ds) n k i rest a h l =
    digit_step d n i (ds ++ rest) a.0 (omega (arith, pow10-le k))
    ∙ parse_from-digits ds (n * 10 + (d - b'0')) (suc k) (i + 1) rest a.1 next (omega arith)
    ∙ ap (λ j. parse_from (some (decimal (n * 10 + (d - b'0')) ds)) j rest) (omega arith)
  where
    next : n * 10 + (d - b'0') < 10 ^ suc k
    next = ground (arith, a.0, pow-suc 10 k)

-- What is held after one written parameter.
read_one :
    (ds : List ℕ) (i : ℕ) (rest : List ℕ)
    → AllDigits ds
    → length ds ≤ 6
    → (n : Option ℕ) × (param_value n ≡ decimal 0 ds)
      × (parse_from none i (ds ++ rest) ≡ parse_from n (i + length ds) rest)
unfolding decimal
read_one [] i rest a l = (none, refl, ap (λ j. parse_from none j rest) (omega arith))
read_one (d ∷ ds) i rest a l = (
  some (decimal (0 * 10 + (d - b'0')) ds),
  refl,
  first_digit d i (ds ++ rest) a.0
      ∙ parse_from-digits ds (0 * 10 + (d - b'0')) 1 (i + 1) rest a.1 (ground (arith, a.0))
          (omega arith)
      ∙ ap (λ j. parse_from (some (decimal (0 * 10 + (d - b'0')) ds)) j rest) (omega arith),
)

last_param :
    (n : Option ℕ) (v i j : ℕ) → param_value n ≡ v → i ≡ j → parse_from n i [] ≡ (v ∷ [], j)
unfolding parse_from
last_param n v i j e h = ground arith

next_param :
    (n : Option ℕ) (v i : ℕ) (body : List ℕ) {vs : List ℕ} {j k : ℕ}
    → param_value n ≡ v
    → parse_from none (i + 1) body ≡ (vs, j)
    → j ≡ k
    → parse_from n i (b';' ∷ body) ≡ (v ∷ vs, k)
unfolding parse_from
next_param n v i body e p h = ground arith

parse_from-render :
    (ds : List ℕ) (rest : List (List ℕ)) (i : ℕ)
    → AllWritten (ds ∷ rest)
    → parse_from none i (ds ++ render_more rest)
      ≡ (decimal 0 ds ∷ map (decimal 0) rest, i + length (ds ++ render_more rest))
parse_from-render ds [] i a =
    let (n, e, p) = read_one ds i [] a.0 a.1 in
    p ∙ last_param n (decimal 0 ds) _ _ e (omega (arith, length-append ds []))
parse_from-render ds (es ∷ rest) i a =
    let (n, e, p) = read_one ds i (render_more (es ∷ rest)) a.0 a.1 in
    p
    ∙ next_param n (decimal 0 ds) (i + length ds) (es ++ render_more rest) e
        (parse_from-render es rest (i + length ds + 1) a.2)
        (omega (arith, length-append ds (b';' ∷ (es ++ render_more rest))))

-- Numbers of at most six digits each, some left empty, written with `;` between them, are
-- parsed back to their decimal values, an empty one to 0, and the whole text is consumed.
pub parse_params-render :
    (ds : List ℕ) (rest : List (List ℕ))
    → AllWritten (ds ∷ rest)
    → parse_params (ds ++ render_more rest)
      ≡ (decimal 0 ds ∷ map (decimal 0) rest, length (ds ++ render_more rest))
unfolding parse_params
parse_params-render ds rest a =
    parse_from-render ds rest 0 a
    ∙ ap (λ (j : ℕ). (decimal 0 ds ∷ map (decimal 0) rest, j)) (omega arith)
