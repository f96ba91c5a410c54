-- ===== src/Ingest.antt =====
-- backend/internal/ingest: webhooks of Seerr, Sonarr, Radarr, Arrarr and Tdarr become events. A body is
-- kept decoded, `none` where json.Unmarshal refuses it; signs of numbers are not read.
pub mod ArrHooks
pub mod SeerrHook
pub mod OtherHooks
pub mod Guarded
use journarr.Base.{
  ℕ, Bool, true, false, not, Option, none, some, List, [], ◌∷◌, if◌then◌else◌, maybe, is_empty,
  Text, text_eq,
}
use journarr.Poll.Emit.{Emitter}

-- The status of the answer: 503, 401, 400, 200.
pub data Response : Type 0 where
  disabled invalid_token read_error accepted : Response

-- A handler: false is an error.
abbrev pub Handler : Type 0 → Type 0
Handler P = Option P → Emitter → Bool × Emitter

-- The token of the header, else that of the query.
abbrev pub given_token : Text → Text → Text
given_token header query = if is_empty header then query else header

-- wrap; `body` is `none` where the request cannot be read, then what a handler decodes.
unfoldable pub wrap :
    {P : Type 0} → Text → Handler P → Text → Text → Option (Option P) → Emitter → Response × Emitter
wrap token handle header query body s =
    if is_empty token
    then (disabled, s)
    else if not (text_eq (given_token header query) token)
    then (invalid_token, s)
    else maybe body (read_error, s) λ payload. (accepted, (handle payload s).1)
