-- ===== src/Auth/Admission.antt =====
-- Who gets a session by the callback of backend/internal/auth/auth.go.
use journarr.Base.{
  ◌≡◌, sym, ap, ◌∙◌, ◌⊎◌, true, false, not, ◌||◌, Option, none, some, if◌then◌else◌, maybe,
  maybe_case, if_case, length, is_empty, Text, text_eq, text_eq_iff, arith,
}
use journarr.Auth.{
  Config, User, LoginFlow, Claims, Provider, Site, Answer, is_enabled, init, overlaps,
  CallbackQuery, is_allowed, start_session, redeem, answer_callback, handle_callback,
}

-- A login by the flow that the browser started: the provider gave back its state, its code was
-- exchanged with the flow's verifier, the ID token was verified as that of the user, and the user is in
-- an allowed group, where groups are asked for.
pub record Admission (cfg : Config) (world : Provider) (q : CallbackQuery) (site : Site) (u : User)
    : Type 0 where
  pub flow : LoginFlow
  pub held : site.flow ≡ some flow
  pub state : is_empty flow.state ≡ false
  pub echoed : q.state ≡ flow.state
  pub quiet : is_empty q.error ≡ true
  pub raw : Text
  pub exchanged : world.exchange q.code flow.verifier ≡ some (some raw)
  pub verified : world.verify raw ≡ some u.subject
  pub claims : Claims
  pub read : world.claims raw ≡ some claims
  pub allowed : (length cfg.allowed_groups ≡ 0) ⊎ (overlaps claims.groups cfg.allowed_groups ≡ true)

nobody : {A : Type 0} {u : User} {o : Option User} → o ≡ none → o ≡ some u → A
nobody n s = absurd (cc)

same_user : {u v : User} → some u ≡ some v → u ≡ v
same_user {u} e = ap (λ (o : Option User). maybe o u λ x. x) e

-- What it takes to get a session from the ID token on.
record Verified (cfg : Config) (world : Provider) (flow : LoginFlow) (code : Text) (u : User)
    : Type 0 where
  pub raw : Text
  pub exchanged : world.exchange code flow.verifier ≡ some (some raw)
  pub verified : world.verify raw ≡ some u.subject
  pub claims : Claims
  pub read : world.claims raw ≡ some claims
  pub allowed : (length cfg.allowed_groups ≡ 0) ⊎ (overlaps claims.groups cfg.allowed_groups ≡ true)

start_session_lem :
    (cfg : Config) (world : Provider) (rd : Text) (c : Claims) (subject : Text) (site : Site)
    (u : User)
    → site.session ≡ none
    → (start_session cfg world rd c subject site).1.session ≡ some u
    → (u.subject ≡ subject)
      × ((length cfg.allowed_groups ≡ 0) ⊎ (overlaps c.groups cfg.allowed_groups ≡ true))
unfolding start_session
start_session_lem cfg world rd c subject site u empty =
    let Goal =
      (u.subject ≡ subject)
      × ((length cfg.allowed_groups ≡ 0) ⊎ (overlaps c.groups cfg.allowed_groups ≡ true)) in
    let P = λ (r : Answer × Site). r.1.session ≡ some u → Goal in
    if_case P (not (is_allowed cfg c)) (λ _ s. nobody empty s)
      λ allowed.
        if_case P (not world.saves_session) (λ _ s. nobody empty s)
          λ _ s. (sym (ap (λ (x : User). x.subject) (same_user s)), ground arith)

redeem_lem :
    (cfg : Config) (world : Provider) (flow : LoginFlow) (code : Text) (site : Site) (u : User)
    → site.session ≡ none
    → (redeem cfg world flow code site).1.session ≡ some u
    → Verified cfg world flow code u
unfolding redeem
redeem_lem cfg world flow code site u empty =
    let P = λ (r : Answer × Site). r.1.session ≡ some u → Verified cfg world flow code u in
    maybe_case P (world.exchange code flow.verifier) (λ s. nobody empty s)
      λ token e.
        maybe_case P token (λ s. nobody empty s)
          λ raw f.
            maybe_case P (world.verify raw) (λ s. nobody empty s)
              λ subject v.
                maybe_case P (world.claims raw) (λ s. nobody empty s)
                  λ c k s.
                    let (who, allowed) =
                      start_session_lem cfg world flow.rd c subject site u empty s in
                    record {
                      raw = raw;
                      exchanged = e ∙ ap some f;
                      verified = v ∙ ap some (sym who);
                      claims = c;
                      read = k;
                      allowed = allowed;
                    }

answer_callback_lem :
    (cfg : Config) (world : Provider) (q : CallbackQuery) (flow : LoginFlow) (site : Site)
    (u : User)
    → site.session ≡ none
    → site.flow ≡ some flow
    → (answer_callback cfg world q flow site).1.session ≡ some u
    → Admission cfg world q site u
unfolding answer_callback
answer_callback_lem cfg world q flow site u empty held =
    let P = λ (r : Answer × Site). r.1.session ≡ some u → Admission cfg world q site u in
    let dropped : Site = record site { flow = if world.saves_flow then none else site.flow } in
    if_case P (is_empty flow.state || not (text_eq q.state flow.state)) (λ _ s. nobody empty s)
      λ same.
        if_case P (not (is_empty q.error)) (λ _ s. nobody empty s)
          λ quiet s.
            let v = redeem_lem cfg world flow q.code dropped u empty s in
            record {
              flow = flow;
              held = held;
              state = ground arith;
              echoed = (text_eq_iff q.state flow.state).0 (ground arith);
              quiet = ground arith;
              raw = v.raw;
              exchanged = v.exchanged;
              verified = v.verified;
              claims = v.claims;
              read = v.read;
              allowed = v.allowed;
            }

-- A browser without a session has one after the callback only by a login that it started itself and
-- that the provider and the groups admit.
pub handle_callback-Admission :
    (cfg : Config) (world : Provider) (q : CallbackQuery) (site : Site) (u : User)
    → site.session ≡ none
    → (handle_callback cfg world q site).1.session ≡ some u
    → Admission cfg world q site u
unfolding handle_callback
handle_callback-Admission cfg world q site u empty =
    let P = λ (r : Answer × Site). r.1.session ≡ some u → Admission cfg world q site u in
    let site' = (init world site).1 in
    if_case P (not (is_enabled cfg)) (λ _ s. nobody empty s)
      λ _.
        if_case P (not (init world site).0) (λ _ s. nobody empty s)
          λ _.
            maybe_case P site.flow (λ s. nobody empty s)
              λ flow held s.
                let a = answer_callback_lem cfg world q flow site' u empty held s in
                record {
                  flow = a.flow;
                  held = a.held;
                  state = a.state;
                  echoed = a.echoed;
                  quiet = a.quiet;
                  raw = a.raw;
                  exchanged = a.exchanged;
                  verified = a.verified;
                  claims = a.claims;
                  read = a.read;
                  allowed = a.allowed;
                }
