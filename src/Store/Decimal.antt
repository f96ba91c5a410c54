-- ===== src/Store/Decimal.antt =====
-- The decimal numerals of backend/internal/store/events.go (`itoa`), which strconv.FormatInt prints
-- too. The loop fills a buffer of 20 bytes from its end; the fuel is that length.
use journarr.Base.{ℕ, zero, suc, ◌+◌, ◌/◌, ◌%◌, ◌==◌, [], ◌∷◌, if◌then◌else◌, Text, text}

unfoldable pub itoa_loop : ℕ → ℕ → Text → Text
itoa_loop zero n acc = acc
itoa_loop (suc room) n acc =
    let rest = itoa_loop room (n / 10) ((b'0' + n % 10) ∷ acc) in if n == 0 then acc else rest

abbrev pub buffer : ℕ
buffer = 20

unfoldable pub itoa : ℕ → Text
unfolding itoa_loop
itoa n = if n == 0 then text "0" else itoa_loop buffer n []
