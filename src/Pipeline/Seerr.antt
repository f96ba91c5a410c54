-- ===== src/Pipeline/Seerr.antt =====
-- backend/internal/pipeline/seerr.go: the life of a request as Seerr reports it.
use journarr.Base.{ℕ, ◌||◌, Option, none, List, [], ◌∷◌, ◌==◌, if◌then◌else◌, maybe, nz, Text, text}
use journarr.Pipeline.Ops.{
  SeerrOp, SeerrKind, pending_kind, approved_kind, declined_kind, available_kind, failed_kind,
  other_kind, RequestType, movie, tv,
}
use journarr.Store.Stages.{
  requested, approved, available, movie_item, matched, ignored, completed, canceled,
}
use journarr.Store.Rows.{Db, MediaItem}
use journarr.Store.Items.{NewItem, ensure_media_item, items_for_request, set_item_error}
use journarr.Store.Requests.{NewRequest, upsert_request, set_request_status}
use journarr.Store.Removal.{is_seerr_request_removed}
use journarr.Store.Stuck.{is_being_worked}
use journarr.Pipeline.Projector.{Projector, Outcome, outcome, set_db, touch, apply}
use journarr.Pipeline.Seasons.{seasons_json}
use journarr.Pipeline.Fanout.{Sonarr, fanout_tv}

abbrev pub movie_row : ℕ → SeerrOp → NewItem
movie_row request_id op = record {
  request_id = request_id;
  media_type = movie_item;
  tmdb_id = nz op.tmdb_id;
  tvdb_id = none;
  sonarr_series_id = none;
  sonarr_episode_id = none;
  radarr_movie_id = none;
  season_number = none;
  episode_number = none;
  title = op.title;
}

-- ensureMovieItem; 0 on an error.
unfoldable pub ensure_movie_item : ℕ → SeerrOp → Projector → ℕ × Projector
ensure_movie_item request_id op p =
    maybe (ensure_media_item (movie_row request_id op) p.db) (0, p) λ r. (r.0, set_db r.1 p)

abbrev pub request_row : SeerrOp → NewRequest
request_row op = record {
  seerr_request_id = op.seerr_request_id;
  media_type = op.media_type;
  tmdb_id = nz op.tmdb_id;
  tvdb_id = nz op.tvdb_id;
  title = op.title;
  year = nz op.year;
  poster_url = op.poster;
  requested_by = op.requested_by;
  seasons = seasons_json op.seasons;
}

unfoldable pub seerr_pending : ℕ → ℕ → SeerrOp → RequestType → Projector → Outcome × Projector
unfolding ensure_movie_item
seerr_pending request_id event op movie p =
    let r = ensure_movie_item request_id op p in
    (
      outcome matched request_id r.0 0,
      apply r.0 request_id event requested (text "seerr request") r.1,
    )
seerr_pending request_id event op kind p = (outcome matched request_id 0 0, p)

unfoldable pub seerr_approved :
    Option Sonarr → ℕ → ℕ → SeerrOp → RequestType → Projector → Outcome × Projector
unfolding ensure_movie_item
seerr_approved sonarr request_id event op movie p =
    let r = ensure_movie_item request_id op p in
    (
      outcome matched request_id r.0 0,
      apply r.0 request_id event approved (text "seerr approval")
          (apply r.0 request_id event requested [] r.1),
    )
seerr_approved sonarr request_id event op kind p =
    (outcome matched request_id 0 0, fanout_tv sonarr request_id op.tvdb_id op.seasons event p)

unfoldable pub apply_available_all : ℕ → ℕ → List MediaItem → Projector → Projector
apply_available_all request_id event [] p = p
apply_available_all request_id event (m ∷ ms) p =
    apply_available_all request_id event ms
      (apply m.id request_id event available (text "seerr MEDIA_AVAILABLE") p)

-- An empty movie request gets its item, an empty tv request is closed out.
unfoldable pub seerr_available :
    ℕ → ℕ → SeerrOp → RequestType → List MediaItem → Projector → Projector
unfolding ensure_movie_item apply_available_all
seerr_available request_id event op movie [] p =
    let q = (ensure_movie_item request_id op p).1 in
    apply_available_all request_id event (items_for_request request_id q.db) q
seerr_available request_id event op tv [] p =
    set_db (set_request_status request_id completed p.db) p
seerr_available request_id event op kind items p = apply_available_all request_id event items p

abbrev pub failed_text : Text
failed_text = text "Seerr: processing failed"

unfoldable pub mark_failed : List MediaItem → Db → Db
mark_failed [] db = db
mark_failed (m ∷ ms) db =
    mark_failed ms
      (if is_being_worked m.current_stage then set_item_error m.id failed_text db else db)

unfoldable pub seerr_dispatch :
    Option Sonarr → ℕ → ℕ → SeerrOp → SeerrKind → Projector → Outcome × Projector
unfolding seerr_pending seerr_approved seerr_available mark_failed
seerr_dispatch sonarr request_id event op pending_kind p =
    seerr_pending request_id event op op.media_type p
seerr_dispatch sonarr request_id event op approved_kind p =
    seerr_approved sonarr request_id event op op.media_type p
seerr_dispatch sonarr request_id event op declined_kind p =
    (outcome matched request_id 0 0, set_db (set_request_status request_id canceled p.db) p)
seerr_dispatch sonarr request_id event op available_kind p = (
  outcome matched request_id 0 0,
  seerr_available request_id event op op.media_type (items_for_request request_id p.db) p,
)
seerr_dispatch sonarr request_id event op failed_kind p = (
  outcome matched request_id 0 0,
  set_db (mark_failed (items_for_request request_id p.db) p.db) p,
)
seerr_dispatch sonarr request_id event op other_kind p = (outcome ignored request_id 0 0, p)

-- applySeerr.
unfoldable pub apply_seerr : Option Sonarr → ℕ → SeerrOp → Projector → Outcome × Projector
unfolding seerr_dispatch
apply_seerr sonarr event op p =
    if op.seerr_request_id == 0 || is_seerr_request_removed op.seerr_request_id p.db
    then (outcome ignored 0 0 0, p)
    else maybe (upsert_request (request_row op) p.db) (outcome ignored 0 0 0, p)
        λ r. seerr_dispatch sonarr r.0 event op op.kind (touch r.0 (set_db r.1 p))
