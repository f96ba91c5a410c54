-- ===== src/Poll/Cursors.antt =====
-- The poll cursors of backend/internal/store/correlate.go, and the numbers that the pollers keep in
-- them. strconv.ParseInt is read without a sign, since FormatInt of an id writes none: a text that is
-- not all digits is a syntax error, whose value is 0, and a number out of range is the largest int64.
pub mod RoundTrip
use journarr.Base.{
  ℕ, ◌+◌, ◌-◌, ◌*◌, ◌^◌, Bool, true, false, Option, none, some, List, [], ◌∷◌, ltb, if◌then◌else◌,
  Text, text_eq,
}
use journarr.Pipeline.Seasons.{is_digit}

-- poll_state, by source.
abbrev pub PollState : Type 0
PollState = List (Text × Text)

-- GetPollCursor; the empty text where the source has no row.
unfoldable pub get_poll_cursor : Text → PollState → Text
get_poll_cursor source [] = []
get_poll_cursor source ((s, cursor) ∷ rows) =
    let rest = get_poll_cursor source rows in if text_eq s source then cursor else rest

-- SetPollCursor: INSERT … ON CONFLICT(source) DO UPDATE.
unfoldable pub set_poll_cursor : Text → Text → PollState → PollState
set_poll_cursor source cursor [] = (source, cursor) ∷ []
set_poll_cursor source cursor ((s, old) ∷ rows) =
    let rest = set_poll_cursor source cursor rows in
    if text_eq s source then (s, cursor) ∷ rows else (s, old) ∷ rest

unfoldable pub digits_value : ℕ → Text → Option ℕ
unfolding is_digit
digits_value acc [] = some acc
digits_value acc (c ∷ s) =
    let rest = digits_value (acc * 10 + (c - b'0')) s in if is_digit c then rest else none

abbrev pub clamp_int64 : Option ℕ → ℕ
clamp_int64 none = 0
clamp_int64 (some n) = if ltb n (2 ^ 63) then n else 2 ^ 63 - 1

-- The value of strconv.ParseInt(s, 10, 64), whose error the callers drop.
unfoldable pub parse_int : Text → ℕ
unfolding digits_value
parse_int [] = 0
parse_int (c ∷ s) = clamp_int64 (digits_value 0 (c ∷ s))
