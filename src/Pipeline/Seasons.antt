-- ===== src/Pipeline/Seasons.antt =====
-- The season lists of backend/internal/pipeline: seasonsJSON and itoa64 (seerr.go) write them,
-- parseSeasons (fanout.go) reads them back. int64 does not wrap for numerals of up to 18 digits.
pub mod RoundTrip
use journarr.Base.{
  ℕ, ◌+◌, ◌-◌, ◌*◌, Bool, true, false, ◌&&◌, Option, none, some, List, [], ◌∷◌, ◌++◌, leb,
  if◌then◌else◌, Text, text,
}
use journarr.Store.Decimal.{itoa}

-- itoa64 of a number that is not negative runs the loop of itoa.
unfoldable pub itoa64 : ℕ → Text
unfolding itoa
itoa64 n = itoa n

-- The elements behind the first one.
unfoldable pub seasons_tail : List ℕ → Text
seasons_tail [] = text "]"
seasons_tail (s ∷ ss) = text "," ++ (itoa64 s ++ seasons_tail ss)

unfoldable pub seasons_json : List ℕ → Text
unfolding seasons_tail
seasons_json [] = []
seasons_json (s ∷ ss) = text "[" ++ (itoa64 s ++ seasons_tail ss)

unfoldable pub is_digit : ℕ → Bool
is_digit c = leb b'0' c && leb c b'9'

-- num = num*10 + digit, from 0 where `num` is -1.
unfoldable pub add_digit : Option ℕ → ℕ → ℕ
add_digit none c = c - b'0'
add_digit (some num) c = num * 10 + (c - b'0')

-- append(out, num), unless `num` is -1.
abbrev pub emit : Option ℕ → List ℕ → List ℕ
emit none out = out
emit (some num) out = num ∷ out

-- The loop; `none` stands for num = -1. What it appends to `out` is the list that it returns.
unfoldable pub parse_loop : Option ℕ → Text → List ℕ
unfolding is_digit add_digit
parse_loop num [] = emit num []
parse_loop num (c ∷ s) = elim (is_digit c) [
  | true ↦ parse_loop (some (add_digit num c)) s
  | false ↦ emit num (parse_loop none s)
]

unfoldable pub parse_seasons : Text → List ℕ
unfolding parse_loop
parse_seasons s = parse_loop none s
