-- ===== src/Poll/Cursors/RoundTrip.antt =====
-- A number that a poller saves is read back.
use journarr.Base.{
  ℕ, zero, suc, ◌+◌, ◌-◌, ◌*◌, ◌/◌, ◌%◌, ◌^◌, ◌<◌, ◌≡◌, refl, sym, ap, ◌∙◌, ◌≢◌, inl, inr, true,
  false, some, [], ◌∷◌, arith, ◌==◌, if◌then◌else◌, ==_iff, Bool-cases, Text, text, text_eq,
  text_eq_iff,
}
use journarr.Store.Decimal.{itoa, itoa_loop}
use journarr.Pipeline.Seasons.{is_digit, itoa64}
use journarr.Poll.Cursors.{PollState, get_poll_cursor, set_poll_cursor, digits_value, parse_int}

digits_value-digit :
    (acc n : ℕ) (s : Text)
    → digits_value acc ((b'0' + n % 10) ∷ s) ≡ digits_value (acc * 10 + n % 10) s
unfolding digits_value is_digit
digits_value-digit acc n s =
    let e : b'0' + n % 10 - b'0' ≡ n % 10 = omega arith in
    let h : is_digit (b'0' + n % 10) ≡ true = ground arith in rw (h, e) refl

digits_value-itoa_loop :
    (room n : ℕ) (s : Text) → n < 10 ^ room → digits_value 0 (itoa_loop room n s) ≡ digits_value n s
unfolding itoa_loop
digits_value-itoa_loop zero n s h = let e : 0 ≡ n = omega arith in ap (λ k. digits_value k s) e
digits_value-itoa_loop (suc room) n s h = elim (Bool-cases (n == 0)) [
  | inl e ↦ rw e (ap (λ k. digits_value k s) (sym ((==_iff n 0).0 e)))
  | inr e ↦
      let whole : n / 10 * 10 + n % 10 ≡ n = omega arith in
      rw e (
        digits_value-itoa_loop room (n / 10) ((b'0' + n % 10) ∷ s) (omega arith)
        ∙ digits_value-digit (n / 10) n s
        ∙ ap (λ k. digits_value k s) whole)
]

parse_int-value :
    (s : Text) (n : ℕ) → n < 2 ^ 63 → digits_value 0 s ≡ some n → s ≢ [] → parse_int s ≡ n
unfolding parse_int
parse_int-value [] n h e ne = absurd (ne refl)
parse_int-value (c ∷ s) n h e ne = rw e (ground arith)

itoa_loop-nonempty : (room n c : ℕ) (s : Text) → itoa_loop room n (c ∷ s) ≢ []
unfolding itoa_loop
itoa_loop-nonempty zero n c s = cc
itoa_loop-nonempty (suc room) n c s = elim (Bool-cases (n == 0)) [
  | inl e ↦ rw e (cc)
  | inr e ↦ rw e (itoa_loop-nonempty room (n / 10) (b'0' + n % 10) (c ∷ s))
]

itoa_loop_value :
    (room n : ℕ)
    → (n == 0) ≡ false
    → n < 10 ^ suc room
    → n < 2 ^ 63
    → parse_int (itoa_loop (suc room) n []) ≡ n
unfolding digits_value itoa_loop
itoa_loop_value room n e fits h =
    parse_int-value (itoa_loop (suc room) n []) n h (digits_value-itoa_loop (suc room) n [] fits)
      (rw e (itoa_loop-nonempty room (n / 10) (b'0' + n % 10) []))

parse_int_zero : parse_int (text "0") ≡ 0
unfolding parse_int
parse_int_zero = refl

parse_int-numeral :
    (room n : ℕ)
    → n < 10 ^ suc room
    → n < 2 ^ 63
    → parse_int (if n == 0 then text "0" else itoa_loop (suc room) n []) ≡ n
parse_int-numeral room n fits h = elim (Bool-cases (n == 0)) [
  | inl e ↦ rw e (parse_int_zero ∙ sym ((==_iff n 0).0 e))
  | inr e ↦ rw e (itoa_loop_value room n e fits h)
]

-- FormatInt and ParseInt of an id that int64 holds.
pub parse_int-itoa64 : (n : ℕ) → n < 2 ^ 63 → parse_int (itoa64 n) ≡ n
unfolding itoa64 itoa
parse_int-itoa64 n h = parse_int-numeral 19 n (omega arith) h

-- The cursor of one source, after a write under another or the same.
pub get-set_poll_cursor :
    (source other cursor : Text) (rows : PollState)
    → get_poll_cursor other (set_poll_cursor source cursor rows)
      ≡ (if text_eq source other then cursor else get_poll_cursor other rows)
unfolding get_poll_cursor set_poll_cursor
get-set_poll_cursor source other cursor [] = refl
get-set_poll_cursor source other cursor ((s, old) ∷ rows) = elim (Bool-cases (text_eq s source)) [
  | inl e ↦ rw (e, (text_eq_iff s source).0 e) (ground arith)
  | inr e ↦ ground (
    arith,
    get-set_poll_cursor source other cursor rows,
    text_eq_iff s other,
    text_eq_iff source other,
    text_eq_iff s source,
  )
]
