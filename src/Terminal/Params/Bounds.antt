-- ===== src/Terminal/Params/Bounds.antt =====
-- The bounds that parseParams of terminal/src/vt100parser.cpp keeps whatever it is given.
use mesh_commander.Prelude.{ℕ, ◌+◌, ◌≤◌, ◌<◌, ◌≡◌, true, List, [], ◌∷◌, Option, none, length, arith}
use mesh_commander.Terminal.Params.{param_value, is_digit, add_digit, parse_from, parse_params}

abbrev pub AllBelow : ℕ → List ℕ → Type 0
AllBelow m [] = Unit {0}
AllBelow m (n ∷ ns) = (n < m) × AllBelow m ns

add_digit-lt :
    (n : Option ℕ) (b : ℕ)
    → is_digit b ≡ true
    → param_value n < 1000000
    → param_value (add_digit n b) < 1000000
unfolding add_digit
add_digit-lt n b d h = ground arith

-- What parse_from promises of its result.
record Fits (i : ℕ) (body : List ℕ) (result : List ℕ × ℕ) : Type 0 where
  small : AllBelow 1000000 result.0
  some_param : 1 ≤ length result.0
  few : length result.0 ≤ length body + 1
  stop : result.1 ≤ i + length body

parse_from-Fits :
    (n : Option ℕ) (i : ℕ) (body : List ℕ)
    → param_value n < 1000000
    → Fits i body (parse_from n i body)
unfolding parse_from
parse_from-Fits n i [] h = ground arith
parse_from-Fits n i (b ∷ body) h = ground (
  arith,
  parse_from-Fits none (i + 1) body (omega arith),
  parse_from-Fits (add_digit n b) (i + 1) body,
  add_digit-lt n b,
)

-- Whatever the body, every parameter is below 1000000, there is at least one and at most one
-- more than there are bytes, and the intermediate bytes start inside the body or at its end.
pub parse_params_bounds :
    (body : List ℕ)
    → AllBelow 1000000 (parse_params body).0
      × (1 ≤ length (parse_params body).0)
      × (length (parse_params body).0 ≤ length body + 1)
      × ((parse_params body).1 ≤ length body)
unfolding parse_params
parse_params_bounds body =
    let f = parse_from-Fits none 0 body (omega arith) in (f.small, f.some_param, f.few, omega arith)
