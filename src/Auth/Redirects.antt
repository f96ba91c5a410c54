-- ===== src/Auth/Redirects.antt =====
-- Where backend/internal/auth/auth.go sends a browser behind a login.
use journarr.Base.{
  ◌≡◌, refl, subst, ◌≢◌, true, false, not, ◌&&◌, ◌||◌, Option, none, [], ◌∷◌, ◌==◌, if◌then◌else◌,
  maybe, maybe_case, if_case, is_empty, Text, text, text_eq, arith,
}
use journarr.Ingest.ArrHooks.{has_prefix}
use journarr.Auth.{
  Config, LoginFlow, Claims, Provider, Site, Answer, redirect, is_enabled, init, safe_redirect,
  handle_login, CallbackQuery, is_allowed, start_session, redeem, answer_callback, handle_callback,
  handle_logout,
}

-- What stands behind a slash, where no second one does.
abbrev pub IsPath : Text → Type 0
IsPath [] = Unit
IsPath (c ∷ s) = c ≢ b'/'

abbrev pub IsLocal : Text → Type 0
IsLocal [] = ⊥
IsLocal (c ∷ s) = (c ≡ b'/') × IsPath s

safe_redirect-IsLocal : (rd : Text) → IsLocal (safe_redirect rd)
unfolding safe_redirect has_prefix
safe_redirect-IsLocal [] = (refl, tt)
safe_redirect-IsLocal (c ∷ []) =
    if_case IsLocal (not (c == b'/' && true) || c == b'/' && false) (λ _. (refl, tt))
      (λ h. (ground arith, tt))
safe_redirect-IsLocal (c ∷ d ∷ s) =
    if_case IsLocal (not (c == b'/' && true) || c == b'/' && (d == b'/' && true)) (λ _. (refl, tt))
      (λ h. (ground arith, ground arith))

-- What a browser does to its site: it logs in and comes back by the callback, logs out, and loses its
-- cookies when they expire.
pub data Visits (cfg : Config) : Site → Type 0 where
  fresh : Visits cfg (record { ready = false; flow = none; session = none })
  logs_in :
      {site : Site}
      → Visits cfg site
      → (world : Provider) (state verifier rd : Text)
      → Visits cfg (handle_login cfg world state verifier rd site).1
  comes_back :
      {site : Site}
      → Visits cfg site
      → (world : Provider) (q : CallbackQuery) → Visits cfg (handle_callback cfg world q site).1
  logs_out :
      {site : Site}
      → Visits cfg site
      → (world : Provider) → Visits cfg (handle_logout cfg world site).1
  loses_flow : {site : Site} → Visits cfg site → Visits cfg (record site { flow = none })
  loses_session : {site : Site} → Visits cfg site → Visits cfg (record site { session = none })

abbrev HasLocalFlow : Site → Type 0
HasLocalFlow site = maybe site.flow Unit λ f. IsLocal f.rd

handle_login-HasLocalFlow :
    (cfg : Config) (world : Provider) (state verifier rd : Text) (site : Site)
    → HasLocalFlow site
    → HasLocalFlow (handle_login cfg world state verifier rd site).1
unfolding handle_login
handle_login-HasLocalFlow cfg world state verifier rd site h =
    let P = λ (r : Answer × Site). HasLocalFlow r.1 in
    if_case P (not (is_enabled cfg)) (λ _. h)
      λ _.
        if_case P (not (init world site).0) (λ _. h)
          λ _. if_case P (not world.saves_flow) (λ _. h) λ _. safe_redirect-IsLocal rd

-- An answer that redirects goes to a local path.
abbrev pub GoesLocal : Answer → Type 0
GoesLocal (redirect to) = IsLocal to
GoesLocal _ = Unit

-- What an answer and its site promise.
abbrev Stays : Answer × Site → Type 0
Stays r = GoesLocal r.0 × HasLocalFlow r.1

rooted : (rd : Text) → IsLocal rd → IsLocal (if is_empty rd then text "/" else rd)
rooted [] h = (refl, tt)
rooted (c ∷ s) h = h

start_session-Stays :
    (cfg : Config) (world : Provider) (rd : Text) (c : Claims) (subject : Text) (site : Site)
    → IsLocal rd
    → HasLocalFlow site
    → Stays (start_session cfg world rd c subject site)
unfolding start_session
start_session-Stays cfg world rd c subject site here h =
    if_case Stays (not (is_allowed cfg c)) (λ _. (tt, h))
      λ _. if_case Stays (not world.saves_session) (λ _. (tt, h)) λ _. (rooted rd here, h)

redeem-Stays :
    (cfg : Config) (world : Provider) (flow : LoginFlow) (code : Text) (site : Site)
    → IsLocal flow.rd
    → HasLocalFlow site
    → Stays (redeem cfg world flow code site)
unfolding redeem
redeem-Stays cfg world flow code site here h =
    maybe_case Stays (world.exchange code flow.verifier) (tt, h)
      λ token _.
        maybe_case Stays token (tt, h)
          λ raw _.
            maybe_case Stays (world.verify raw) (tt, h)
              λ subject _.
                maybe_case Stays (world.claims raw) (tt, h)
                  λ c _. start_session-Stays cfg world flow.rd c subject site here h

answer_callback-Stays :
    (cfg : Config) (world : Provider) (q : CallbackQuery) (flow : LoginFlow) (site : Site)
    → IsLocal flow.rd
    → HasLocalFlow site
    → Stays (answer_callback cfg world q flow site)
unfolding answer_callback
answer_callback-Stays cfg world q flow site here h =
    let dropped : Site = record site { flow = if world.saves_flow then none else site.flow } in
    let kept : HasLocalFlow dropped =
      if_case (λ (o : Option LoginFlow). maybe o Unit λ f. IsLocal f.rd) world.saves_flow (λ _. tt)
        (λ _. h) in
    if_case Stays (is_empty flow.state || not (text_eq q.state flow.state)) (λ _. (tt, kept))
      λ _.
        if_case Stays (not (is_empty q.error)) (λ _. (tt, kept))
          λ _. redeem-Stays cfg world flow q.code dropped here kept

handle_callback-Stays :
    (cfg : Config) (world : Provider) (q : CallbackQuery) (site : Site)
    → HasLocalFlow site
    → Stays (handle_callback cfg world q site)
unfolding handle_callback
handle_callback-Stays cfg world q site h =
    let site' = (init world site).1 in
    if_case Stays (not (is_enabled cfg)) (λ _. ((refl, tt), h))
      λ _.
        if_case Stays (not (init world site).0) (λ _. (tt, h))
          λ _.
            maybe_case Stays site.flow (tt, h)
              λ flow e.
                answer_callback-Stays cfg world q flow site'
                  (subst (λ (o : Option LoginFlow). maybe o Unit λ f. IsLocal f.rd) e h) h

handle_logout-HasLocalFlow :
    (cfg : Config) (world : Provider) (site : Site)
    → HasLocalFlow site
    → HasLocalFlow (handle_logout cfg world site).1
unfolding handle_logout
handle_logout-HasLocalFlow cfg world site h =
    if_case HasLocalFlow (is_enabled cfg && world.saves_session) (λ _. h) (λ _. h)

Visits-HasLocalFlow : {cfg : Config} {site : Site} → Visits cfg site → HasLocalFlow site
Visits-HasLocalFlow fresh = tt
Visits-HasLocalFlow {cfg} (logs_in {site} v world state verifier rd) =
    handle_login-HasLocalFlow cfg world state verifier rd site (Visits-HasLocalFlow v)
Visits-HasLocalFlow {cfg} (comes_back {site} v world q) =
    (handle_callback-Stays cfg world q site (Visits-HasLocalFlow v)).1
Visits-HasLocalFlow {cfg} (logs_out {site} v world) =
    handle_logout-HasLocalFlow cfg world site (Visits-HasLocalFlow v)
Visits-HasLocalFlow (loses_flow v) = tt
Visits-HasLocalFlow (loses_session v) = Visits-HasLocalFlow v

-- Whatever a browser did before and whatever its requests say, a callback that redirects it leads to a
-- path that begins with one slash, never with two.
pub Visits-GoesLocal :
    (cfg : Config) (site : Site) (world : Provider) (q : CallbackQuery)
    → Visits cfg site
    → GoesLocal (handle_callback cfg world q site).0
Visits-GoesLocal cfg site world q v =
    (handle_callback-Stays cfg world q site (Visits-HasLocalFlow v)).0
