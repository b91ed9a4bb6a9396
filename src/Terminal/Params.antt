-- ===== src/Terminal/Params.antt =====
-- The parameters of a CSI sequence: parseParams of terminal/src/vt100parser.cpp.
pub mod Bounds
pub mod Digits
use mesh_commander.Prelude.{
  ℕ, ◌+◌, ◌-◌, ◌*◌, Bool, ◌&&◌, List, [], ◌∷◌, Option, none, some, leb, ◌==◌, if◌then◌else◌,
}

-- `n < 0 ? 0 : n`; `none` is the -1 of a parameter with no digit yet.
abbrev pub param_value : Option ℕ → ℕ
param_value none = 0
param_value (some n) = n

abbrev pub is_digit : ℕ → Bool
is_digit b = leb b'0' b && leb b b'9'

-- A value that has reached 100000 takes no further digit.
unfoldable pub add_digit : Option ℕ → ℕ → Option ℕ
add_digit n b =
    let k : ℕ = param_value n in if leb 100000 k then some k else some (k * 10 + (b - b'0'))

-- `i` is the position in the body; the second result is where the parameters end.
unfoldable pub parse_from : Option ℕ → ℕ → List ℕ → List ℕ × ℕ
unfolding add_digit
parse_from n i [] = (param_value n ∷ [], i)
parse_from n i (b ∷ body) =
    let separated = parse_from none (i + 1) body in
    let continued = parse_from (add_digit n b) (i + 1) body in
    if b == b';'
    then (param_value n ∷ separated.0, separated.1)
    else if is_digit b
    then continued
    else (param_value n ∷ [], i)

unfoldable pub parse_params : List ℕ → List ℕ × ℕ
unfolding parse_from
parse_params body = parse_from none 0 body
