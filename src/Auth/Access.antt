-- ===== src/Auth/Access.antt =====
-- Which requests pass the guards of backend/internal/auth/auth.go.
use journarr.Base.{
  ℕ, ◌≡◌, refl, ap, ◌∙◌, ◌≢◌, ◌↔◌, ◌⊎◌, inl, inr, Bool, true, false, Option, none, some, [], ◌∷◌,
  ◌++◌, ◌==◌, maybe, Bool-cases, if_case, is_some, is_empty, Text, text, text_eq, text_eq_iff,
  ==_iff,
}
use journarr.Auth.{Config, Site, User, cut_prefix, token_ok, user_from}

differs : {b : Bool} → b ≡ true → b ≡ false → ⊥
differs h g = cc

some-injective : {s t : Text} → some s ≡ some t → s ≡ t
some-injective {s} e = ap (λ (o : Option Text). maybe o s λ x. x) e

cut_prefix_sound : (s p r : Text) → cut_prefix s p ≡ some r → s ≡ p ++ r
unfolding cut_prefix
cut_prefix_sound s [] r h = some-injective h
cut_prefix_sound [] (p ∷ ps) r h = absurd (cc)
cut_prefix_sound (c ∷ s) (p ∷ ps) r h =
    if_case (λ (o : Option Text). o ≡ some r → c ∷ s ≡ p ∷ ps ++ r) (c == p)
      (λ e h. rw ((==_iff c p).0 e, cut_prefix_sound s ps r h) refl) (λ _ h. absurd (cc)) h

-- The request carries the configured token.
abbrev pub IsBearer : Config → Text → Type 0
IsBearer cfg header = (cfg.api_token ≢ []) × (header ≡ text "Bearer " ++ cfg.api_token)

bearer-cut :
    (cfg : Config) (header : Text) (o : Option Text)
    → cut_prefix header (text "Bearer ") ≡ o
    → maybe o false (λ got. text_eq got cfg.api_token) ≡ true
    → header ≡ text "Bearer " ++ cfg.api_token
bearer-cut cfg header none e h = absurd (cc)
bearer-cut cfg header (some got) e h =
    cut_prefix_sound header (text "Bearer ") got e
    ∙ ap (λ (s : Text). text "Bearer " ++ s) ((text_eq_iff got cfg.api_token).0 h)

cons-not_empty : (c : ℕ) (s : Text) → (c ∷ s) ≢ []
cons-not_empty c s = cc

filled : (s : Text) → (is_empty s ≡ false) ↔ (s ≢ [])
filled [] = (λ h. absurd (cc), λ h. absurd (h refl))
filled (c ∷ s) = (λ h. cons-not_empty c s, λ h. refl)

emptied : (s : Text) → (is_empty s ≡ true) ↔ (s ≡ [])
emptied [] = (λ h. refl, λ h. refl)
emptied (c ∷ s) = (λ h. absurd (cc), λ h. absurd (cons-not_empty c s h))

token_ok_lem : (cfg : Config) (header : Text) → (token_ok cfg header ≡ true) ↔ IsBearer cfg header
unfolding token_ok
token_ok_lem cfg header = elim (Bool-cases (is_empty cfg.api_token)) [
  | inl e ↦ rw e (λ h. absurd (cc), λ h. absurd (h.0 ((emptied cfg.api_token).0 e)))
  | inr e ↦ rw e (
    λ h. (
      (filled cfg.api_token).0 e,
      bearer-cut cfg header (cut_prefix header (text "Bearer ")) refl h,
    ),
    λ h. rw h.1 ((text_eq_iff cfg.api_token cfg.api_token).1 refl),
  )
]

session_lem :
    (o : Option User)
    → ((maybe {B = Option User × Bool} o (none, false) (λ u. (some u, true))).1 ≡ true)
      ↔ (is_some o ≡ true)
session_lem none = (λ h. h, λ h. h)
session_lem (some u) = (λ h. refl, λ h. refl)

-- UserFrom lets a request pass exactly where sign-on is off, the request carries the configured token,
-- or the browser has a session.
pub user_from_lem :
    (cfg : Config) (header : Text) (site : Site)
    → ((user_from cfg header site).1 ≡ true)
      ↔ ((cfg.issuer_url ≡ []) ⊎ (IsBearer cfg header ⊎ (is_some site.session ≡ true)))
unfolding user_from
user_from_lem cfg header site = elim (Bool-cases (is_empty cfg.issuer_url)) [
  | inl off ↦ rw off (λ h. inl ((emptied cfg.issuer_url).0 off), λ h. refl)
  | inr on ↦ elim (Bool-cases (token_ok cfg header)) [
    | inl ok ↦ rw (on, ok) (λ h. inr (inl ((token_ok_lem cfg header).0 ok)), λ h. refl)
    | inr un ↦
        rw (on, un)
          (
            λ h. inr (inr ((session_lem site.session).0 h)),
            λ h. elim h [
              | inl e ↦ absurd ((filled cfg.issuer_url).0 on e)
              | inr r ↦ elim r [
                | inl b ↦ absurd (differs ((token_ok_lem cfg header).1 b) un)
                | inr s ↦ (session_lem site.session).1 s
              ]
            ],
          )
  ]
]
