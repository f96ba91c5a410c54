-- ===== src/Actions/Remove/ByteUnits.antt =====
-- The loop of humanBytes (backend/internal/actions/remove.go) ends by its test, and its letter is there.
use journarr.Base.{ℕ, ◌*◌, ◌^◌, ◌≤◌, ◌<◌, Option, none, some, arith}
use journarr.Actions.Remove.{byte_unit, human_unit}

-- What a divisor and a letter have to be for n bytes.
abbrev pub Fits : ℕ → Option (ℕ × ℕ) → Type 0
Fits n none = ⊥
Fits n (some (div, letter)) = (div ≤ n) × (n < div * 1024)

-- For every size that int64 holds, from 1024 bytes on, the loop ends by its test within the fuel, the
-- letter is there, and the quotient, before it is rounded, is at least 1 and below 1024.
pub human_unit-Fits : (n : ℕ) → 1024 ≤ n → n < 2 ^ 63 → Fits n (human_unit n)
unfolding human_unit byte_unit
human_unit-Fits n low high = ground arith
