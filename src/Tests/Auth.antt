-- ===== src/Tests/Auth.antt =====
-- The sign-on of backend/internal/auth/auth.go on concrete data.
use journarr.Base.{
  ◌≡◌, refl, ◌↔◌, ◌⊎◌, true, false, none, some, [], ◌∷◌, if◌then◌else◌, is_some, text, text_eq,
}
use journarr.Ingest.ArrHooks.{has_prefix}
use journarr.Auth.{
  Config, User, Provider, Site, redirect, CallbackQuery, safe_redirect, overlaps, start_session,
  redeem, answer_callback, handle_login, handle_callback, user_from,
}
use journarr.Auth.Admission.{Admission, handle_callback-Admission}
use journarr.Auth.Redirects.{fresh, logs_in, GoesLocal, Visits-GoesLocal}
use journarr.Auth.Access.{IsBearer, user_from_lem}

abbrev config : Config
config = record {
  issuer_url = text "https://id.example";
  allowed_groups = text "family" ∷ [];
  api_token = text "t0ken";
}

abbrev provider : Provider
provider = record {
  discovers = true;
  exchange =
      λ code verifier. if text_eq verifier (text "v") then some (some (text "raw")) else none;
  verify = λ raw. some (text "sub");
  claims = λ raw. some (record {
    email = [];
    name = [];
    preferred_username = text "trinity";
    picture = [];
    groups = text "guests" ∷ text "family" ∷ [];
  });
  saves_flow = true;
  saves_session = true;
}

abbrev signed_out : Site
signed_out = record { ready = false; flow = none; session = none }

-- The browser starts a login for a page of another site.
abbrev site : Site
site = (handle_login config provider (text "s") (text "v") (text "//evil.example") signed_out).1

abbrev answer : CallbackQuery
answer = record { state = text "s"; error = []; code = text "c" }

abbrev trinity : User
trinity = record { subject = text "sub"; email = []; name = text "trinity"; picture = [] }

handle_callback-Admission_example : Admission config provider answer site trinity
unfolding handle_login handle_callback answer_callback redeem start_session overlaps
handle_callback-Admission_example =
    handle_callback-Admission config provider answer site trinity refl refl

Visits-GoesLocal_example : GoesLocal (handle_callback config provider answer site).0
Visits-GoesLocal_example =
    Visits-GoesLocal config site provider answer
      (logs_in fresh provider (text "s") (text "v") (text "//evil.example"))

sent_home : (handle_callback config provider answer site).0 ≡ redirect (text "/")
unfolding handle_login handle_callback answer_callback redeem start_session overlaps safe_redirect
    has_prefix
sent_home = refl

-- A backslash behind the slash is let through.
backslash_passes : safe_redirect (b'/' ∷ 92 ∷ text "evil.example") ≡ b'/' ∷ 92 ∷ text "evil.example"
unfolding safe_redirect has_prefix
backslash_passes = refl

user_from_lem_example : ((user_from config (text "Bearer t0ken") signed_out).1 ≡ true) ↔ (
    (config.issuer_url ≡ [])
    ⊎ (IsBearer config (text "Bearer t0ken") ⊎ (is_some signed_out.session ≡ true)))
user_from_lem_example = user_from_lem config (text "Bearer t0ken") signed_out
