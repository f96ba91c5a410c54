-- ===== src/Poll/SeerrRequests.antt =====
-- backend/internal/poll/seerrreq.go: request changes that the webhooks missed. Seerr's answers are
-- parameters; `none` is an error.
use journarr.Base.{
  ℕ, Bool, true, false, not, ◌&&◌, Option, none, some, List, [], ◌∷◌, ◌++◌, ◌==◌, leb,
  if◌then◌else◌, maybe, is_empty, Text, text,
}
use journarr.Pipeline.Ops.{
  RequestType, SeerrKind, pending_kind, approved_kind, declined_kind, available_kind, failed_kind,
  SeerrOp, seerr_op,
}
use journarr.Pipeline.Seasons.{itoa64}
use journarr.Store.Rows.{Db, Request}
use journarr.Store.Requests.{find_request_by_seerr_id}
use journarr.Poll.Cursors.{PollState, get_poll_cursor, set_poll_cursor}
use journarr.Poll.Emit.{Emitter, emit_event}

-- SeerrRequest of the client.
pub record SeerrRequest : Type 0 where
  pub id : ℕ
  pub status : ℕ
  pub media_type : RequestType
  pub tmdb_id : ℕ
  pub tvdb_id : ℕ
  pub media_status : ℕ
  pub requested_by : Text
  pub seasons : List ℕ
  pub updated_at : Text

-- MediaTitle: the title, the year and the poster.
pub record MediaTitle : Type 0 where
  pub title : Text
  pub year : ℕ
  pub poster : Text

abbrev pub no_title : MediaTitle
no_title = record { title = []; year = 0; poster = [] }

-- seerrStatusKind; `none` is the empty kind.
unfoldable pub seerr_status_kind : SeerrRequest → Option SeerrKind
seerr_status_kind r =
    if leb 5 r.media_status
    then some available_kind
    else if r.status == 1
    then some pending_kind
    else if r.status == 2
    then some approved_kind
    else if r.status == 3
    then some declined_kind
    else if r.status == 4
    then some failed_kind
    else if r.status == 5
    then some available_kind
    else none

abbrev pub is_available_kind : SeerrKind → Bool
is_available_kind available_kind = true
is_available_kind _ = false

unfoldable pub seerr_key : SeerrRequest → Text
seerr_key r =
    text "seerr:req:"
    ++ (itoa64 r.id
        ++ (text ":"
            ++ (itoa64 r.status
                ++ (text ":" ++ (itoa64 r.media_status ++ (text ":" ++ r.updated_at))))))

-- Requests that were never seen, or have no title.
abbrev pub lacks_title : Option Request → Bool
lacks_title none = true
lacks_title (some r) = is_empty r.title

abbrev pub fetched_title : Option MediaTitle → MediaTitle
fetched_title none = no_title
fetched_title (some t) = t

abbrev pub TitleLookup : Type 0
TitleLookup = RequestType → ℕ → Option MediaTitle

unfoldable pub seerr_payload : TitleLookup → SeerrRequest → SeerrKind → Db → SeerrOp
seerr_payload titles r kind db =
    let found =
      if lacks_title (find_request_by_seerr_id r.id db)
      then fetched_title (titles r.media_type r.tmdb_id)
      else no_title in
    record {
      seerr_request_id = r.id;
      kind = kind;
      media_type = r.media_type;
      tmdb_id = r.tmdb_id;
      tvdb_id = r.tvdb_id;
      title = found.title;
      year = found.year;
      poster = found.poster;
      requested_by = r.requested_by;
      seasons = r.seasons;
    }

-- One request of the loop; the first run takes the available ones only.
unfoldable pub observe_request : TitleLookup → Bool → SeerrRequest → Emitter → Emitter
unfolding seerr_status_kind seerr_key seerr_payload emit_event
observe_request titles first_run r s = maybe (seerr_status_kind r) s λ kind.
    if first_run && not (is_available_kind kind)
    then s
    else emit_event (seerr_key r) (seerr_op (seerr_payload titles r kind s.db)) s

unfoldable pub observe_requests : TitleLookup → Bool → List SeerrRequest → Emitter → Emitter
unfolding observe_request
observe_requests titles first_run [] s = s
observe_requests titles first_run (r ∷ rs) s =
    observe_requests titles first_run rs (observe_request titles first_run r s)

abbrev pub requests_cursor : Text
requests_cursor = text "seerr:requests"

-- pass.
unfoldable pub seerr_pass :
    TitleLookup → Option (List SeerrRequest) → PollState × Emitter → PollState × Emitter
unfolding observe_requests get_poll_cursor set_poll_cursor
seerr_pass titles answer s =
    let first_run = is_empty (get_poll_cursor requests_cursor s.0) in
    maybe answer s λ rs. (
      if first_run then set_poll_cursor requests_cursor (text "initialized") s.0 else s.0,
      observe_requests titles first_run rs s.1,
    )
