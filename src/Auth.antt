-- ===== src/Auth.antt =====
-- backend/internal/auth/auth.go: the optional single sign-on. What the OIDC provider and its libraries
-- answer is a parameter. A `Site` is what one browser holds, as the cookie store decodes it (`none` for
-- a cookie that is missing, expired or forged), and whether the provider was discovered. Cookie
-- attributes and the derivation of the store's keys are left out.
pub mod Admission
pub mod Redirects
pub mod Access
use journarr.Base.{
  ℕ, Bool, true, false, not, ◌&&◌, ◌||◌, Option, none, some, List, [], ◌∷◌, ◌==◌, if◌then◌else◌,
  maybe, exists, length, is_empty, Text, text, text_eq,
}
use journarr.Ingest.ArrHooks.{has_prefix}

pub record Config : Type 0 where
  pub issuer_url : Text
  pub allowed_groups : List Text
  pub api_token : Text

pub record User : Type 0 where
  pub subject : Text
  pub email : Text
  pub name : Text
  pub picture : Text

-- The values of the flow cookie.
pub record LoginFlow : Type 0 where
  pub state : Text
  pub verifier : Text
  pub rd : Text

pub record Claims : Type 0 where
  pub email : Text
  pub name : Text
  pub preferred_username : Text
  pub picture : Text
  pub groups : List Text

-- `exchange` is of a code and a verifier, and may come without an ID token; `verify` gives the subject.
pub record Provider : Type 0 where
  pub discovers : Bool
  pub exchange : Text → Text → Option (Option Text)
  pub verify : Text → Option Text
  pub claims : Text → Option Claims
  pub saves_flow : Bool
  pub saves_session : Bool

pub record Site : Type 0 where
  pub ready : Bool
  pub flow : Option LoginFlow
  pub session : Option User

pub data Answer : Type 0 where
  redirect : Text → Answer
  to_provider : Text → Text → Answer
  to_login : Text → Answer
  bad_request unauthorized forbidden server_error bad_gateway unavailable unauthenticated served :
      Answer

abbrev pub is_enabled : Config → Bool
is_enabled cfg = not (is_empty cfg.issuer_url)

-- init: discovery, once.
abbrev pub init : Provider → Site → Bool × Site
init world site = let ok = site.ready || world.discovers in (ok, record site { ready = ok })

unfoldable pub safe_redirect : Text → Text
unfolding has_prefix
safe_redirect rd =
    if is_empty rd || (not (has_prefix rd (text "/")) || has_prefix rd (text "//"))
    then text "/"
    else rd

unfoldable pub overlaps : List Text → List Text → Bool
overlaps have [] = false
overlaps have (w ∷ want) =
    let rest = overlaps have want in if exists (λ h. text_eq h w) have then true else rest

-- handleLogin; `state` and `verifier` are random.
unfoldable pub handle_login : Config → Provider → Text → Text → Text → Site → Answer × Site
unfolding safe_redirect
handle_login cfg world state verifier rd site =
    let (ok, site') = init world site in
    if not (is_enabled cfg)
    then (redirect (text "/"), site)
    else if not ok
    then (unavailable, site')
    else if not world.saves_flow
    then (server_error, site')
    else (
      to_provider state verifier,
      record site' {
        flow = some (record { state = state; verifier = verifier; rd = safe_redirect rd });
      },
    )

-- The query of the callback.
pub record CallbackQuery : Type 0 where
  pub state : Text
  pub error : Text
  pub code : Text

abbrev pub is_allowed : Config → Claims → Bool
is_allowed cfg c = length cfg.allowed_groups == 0 || overlaps c.groups cfg.allowed_groups

abbrev pub user_of : Text → Claims → User
user_of subject c = record {
  subject = subject;
  email = c.email;
  name = if is_empty c.name then c.preferred_username else c.name;
  picture = c.picture;
}

-- The session for a verified user.
unfoldable pub start_session : Config → Provider → Text → Claims → Text → Site → Answer × Site
unfolding overlaps
start_session cfg world rd c subject site =
    if not (is_allowed cfg c)
    then (forbidden, site)
    else if not world.saves_session
    then (server_error, site)
    else (
      redirect (if is_empty rd then text "/" else rd),
      record site { session = some (user_of subject c) },
    )

-- From the code to the claims.
unfoldable pub redeem : Config → Provider → LoginFlow → Text → Site → Answer × Site
unfolding start_session
redeem cfg world flow code site =
    maybe (world.exchange code flow.verifier) (bad_gateway, site)
      λ token.
        maybe token (bad_gateway, site)
          λ raw.
            maybe (world.verify raw) (unauthorized, site)
              λ subject.
                maybe (world.claims raw) (bad_gateway, site)
                  λ c. start_session cfg world flow.rd c subject site

-- With a flow cookie, which is dropped whatever comes of it.
unfoldable pub answer_callback :
    Config → Provider → CallbackQuery → LoginFlow → Site → Answer × Site
unfolding redeem
answer_callback cfg world q flow site =
    let dropped = record site { flow = if world.saves_flow then none else site.flow } in
    if is_empty flow.state || not (text_eq q.state flow.state)
    then (bad_request, dropped)
    else if not (is_empty q.error)
    then (bad_request, dropped)
    else redeem cfg world flow q.code dropped

unfoldable pub handle_callback : Config → Provider → CallbackQuery → Site → Answer × Site
unfolding answer_callback
handle_callback cfg world q site =
    let (ok, site') = init world site in
    if not (is_enabled cfg)
    then (redirect (text "/"), site)
    else if not ok
    then (unavailable, site')
    else maybe site'.flow (bad_request, site') λ flow. answer_callback cfg world q flow site'

unfoldable pub handle_logout : Config → Provider → Site → Answer × Site
handle_logout cfg world site = (
  redirect (text "/"),
  if is_enabled cfg && world.saves_session then record site { session = none } else site,
)

-- strings.CutPrefix.
unfoldable pub cut_prefix : Text → Text → Option Text
cut_prefix s [] = some s
cut_prefix [] (p ∷ ps) = none
cut_prefix (c ∷ s) (p ∷ ps) = let rest = cut_prefix s ps in if c == p then rest else none

unfoldable pub token_ok : Config → Text → Bool
unfolding cut_prefix
token_ok cfg header =
    if is_empty cfg.api_token
    then false
    else maybe (cut_prefix header (text "Bearer ")) false λ got. text_eq got cfg.api_token

abbrev pub api_user : User
api_user = record { subject = text "api-token"; email = []; name = text "API token"; picture = [] }

-- UserFrom, with the Authorization header.
unfoldable pub user_from : Config → Text → Site → Option User × Bool
unfolding token_ok
user_from cfg header site =
    if not (is_enabled cfg)
    then (none, true)
    else if token_ok cfg header
    then (some api_user, true)
    else maybe site.session (none, false) λ u. (some u, true)

unfoldable pub require_api : Config → Text → Site → Answer
unfolding user_from
require_api cfg header site = if (user_from cfg header site).1 then served else unauthenticated

unfoldable pub require_browser : Config → Text → Text → Site → Answer
unfolding user_from
require_browser cfg header uri site = if (user_from cfg header site).1 then served else to_login uri
