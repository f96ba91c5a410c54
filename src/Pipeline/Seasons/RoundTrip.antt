-- ===== src/Pipeline/Seasons/RoundTrip.antt =====
-- parseSeasons reads back what seasonsJSON wrote (backend/internal/pipeline/seerr.go and fanout.go).
use journarr.Base.{
  ℕ, zero, suc, ◌+◌, ◌/◌, ◌%◌, ◌^◌, ◌<◌, ◌≡◌, refl, sym, ap, ◌∙◌, subst, inl, inr, true, false,
  Option, none, some, List, [], ◌∷◌, ◌++◌, arith, ◌==◌, if◌then◌else◌, ==_iff, Bool-cases, nz, All,
  Text, text,
}
use journarr.Store.Decimal.{itoa, itoa_loop, buffer}
use journarr.Pipeline.Seasons.{
  itoa64, seasons_tail, seasons_json, is_digit, add_digit, emit, parse_loop, parse_seasons,
}

-- A digit of a number.
digit_is : (n : ℕ) → is_digit (b'0' + n % 10) ≡ true
unfolding is_digit
digit_is n = ground arith

add_digit_is : (n : ℕ) → add_digit (nz (n / 10)) (b'0' + n % 10) ≡ n
unfolding add_digit
add_digit_is n = ground arith

parse_digit :
    (num : Option ℕ) (c : ℕ) (s : Text)
    → is_digit c ≡ true
    → parse_loop num (c ∷ s) ≡ parse_loop (some (add_digit num c)) s
unfolding parse_loop
parse_digit num c s h =
    subst
      (λ b.
        elim b [
          | true ↦ parse_loop (some (add_digit num c)) s
          | false ↦ emit num (parse_loop none s)
        ]
        ≡ parse_loop (some (add_digit num c)) s)
      (sym h) refl

-- The digits that the loop puts in front are read back as the number.
parse_itoa_loop :
    (room n : ℕ) (acc s : Text)
    → n < 10 ^ room
    → parse_loop none (itoa_loop room n acc ++ s) ≡ parse_loop (nz n) (acc ++ s)
unfolding itoa_loop
parse_itoa_loop zero n acc s h =
    let empty : n ≡ 0 = omega arith in ap (λ n. parse_loop (nz n) (acc ++ s)) (sym empty)
parse_itoa_loop (suc room) n acc s h = elim (Bool-cases (n == 0)) [
  | inl e ↦ rw e refl
  | inr e ↦
      let d = b'0' + n % 10 in
      rw e (
        parse_itoa_loop room (n / 10) (d ∷ acc) s (omega arith)
        ∙ parse_digit (nz (n / 10)) d (acc ++ s) (digit_is n)
        ∙ ap (λ k. parse_loop (some k) (acc ++ s)) (add_digit_is n))
]

parse_zero : (s : Text) → parse_loop none (text "0" ++ s) ≡ parse_loop (some 0) s
unfolding parse_loop is_digit add_digit
parse_zero s = refl

parse_numeral :
    (room n : ℕ) (s : Text)
    → n < 10 ^ room
    → parse_loop none ((if n == 0 then text "0" else itoa_loop room n []) ++ s)
      ≡ parse_loop (some n) s
parse_numeral room n s h = elim (Bool-cases (n == 0)) [
  | inl e ↦
      let empty : 0 ≡ n = sym ((==_iff n 0).0 e) in
      rw e (parse_zero s ∙ ap (λ n. parse_loop (some n) s) empty)
  | inr e ↦
      let same : nz n ≡ some n = ground arith in
      rw e (parse_itoa_loop room n [] s h ∙ ap (λ o. parse_loop o s) same)
]

pub parse_itoa64 :
    (n : ℕ) (s : Text) → n < 2 ^ 63 → parse_loop none (itoa64 n ++ s) ≡ parse_loop (some n) s
unfolding itoa64 itoa
parse_itoa64 n s h = parse_numeral buffer n s (omega arith)

parse_tail :
    (n : ℕ) (ss : List ℕ)
    → All (λ s. s < 2 ^ 63) ss
    → parse_loop (some n) (seasons_tail ss) ≡ n ∷ ss
unfolding seasons_tail parse_loop is_digit
parse_tail n [] h = refl
parse_tail n (s ∷ ss) h =
    ap (λ xs. n ∷ xs) (parse_itoa64 s (seasons_tail ss) h.0 ∙ parse_tail s ss h.1)

-- A list of int64 season numbers, none of them negative, is read back as it was written.
pub parse_seasons-seasons_json :
    (ss : List ℕ) → All (λ s. s < 2 ^ 63) ss → parse_seasons (seasons_json ss) ≡ ss
unfolding parse_seasons seasons_json
parse_seasons-seasons_json [] h = refl
parse_seasons-seasons_json (s ∷ ss) h = parse_itoa64 s (seasons_tail ss) h.0 ∙ parse_tail s ss h.1
