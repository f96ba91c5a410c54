-- ===== src/Store/Requests.antt =====
-- backend/internal/store/requests.go: the table `requests`.
pub mod Rollup
use journarr.Base.{
  ℕ, ◌+◌, Bool, true, false, not, ◌&&◌, ◌||◌, Option, none, some, List, [], ◌∷◌, ◌++◌, ◌==◌, leb,
  if◌then◌else◌, opt_is, opt_eq, or_else, is_some, maybe, Text, nonempty_or, select, first, last,
  exists, update, count, next_id,
}
use journarr.Pipeline.Ops.{RequestType, movie, tv, unknown}
use journarr.Store.Stages.{
  Stage, requested, approved, available, ordinal, RequestStatus, active, completed, partial, failed,
  canceled,
}
use journarr.Store.Rows.{Db, MediaItem, Request}
use journarr.Store.Items.{is_active}

abbrev pub request_type_eq : RequestType → RequestType → Bool
request_type_eq movie movie = true
request_type_eq tv tv = true
request_type_eq unknown unknown = true
request_type_eq _ _ = false

-- CHECK (media_type IN ('movie', 'tv')).
abbrev pub is_valid_type : RequestType → Bool
is_valid_type unknown = false
is_valid_type _ = true

abbrev pub status_eq : RequestStatus → RequestStatus → Bool
status_eq active active = true
status_eq completed completed = true
status_eq partial partial = true
status_eq failed failed = true
status_eq canceled canceled = true
status_eq _ _ = false

pub record NewRequest : Type 0 where
  pub seerr_request_id : ℕ
  pub media_type : RequestType
  pub tmdb_id : Option ℕ
  pub tvdb_id : Option ℕ
  pub title : Text
  pub year : Option ℕ
  pub poster_url : Text
  pub requested_by : Text
  pub seasons : Text

unfoldable pub new_request_row : ℕ → ℕ → NewRequest → Request
new_request_row id now r = record {
  id = id;
  seerr_request_id = some r.seerr_request_id;
  media_type = r.media_type;
  tmdb_id = r.tmdb_id;
  tvdb_id = r.tvdb_id;
  title = r.title;
  year = r.year;
  poster_url = r.poster_url;
  requested_by = r.requested_by;
  requested_at = none;
  seasons = r.seasons;
  status = active;
  awaiting_release_at = none;
  updated_at = now;
}

-- ON CONFLICT (seerr_request_id) DO UPDATE SET.
unfoldable pub refresh_request : ℕ → NewRequest → Request → Request
refresh_request now n r = record r {
  tmdb_id = or_else n.tmdb_id r.tmdb_id;
  tvdb_id = or_else n.tvdb_id r.tvdb_id;
  title = nonempty_or n.title r.title;
  year = or_else n.year r.year;
  poster_url = nonempty_or n.poster_url r.poster_url;
  requested_by = nonempty_or n.requested_by r.requested_by;
  seasons = nonempty_or n.seasons r.seasons;
  updated_at = now;
}

abbrev pub has_seerr_id : ℕ → Request → Bool
has_seerr_id seerr r = opt_is seerr r.seerr_request_id

-- The row that is inserted or refreshed, by the key seerr_request_id.
unfoldable pub upsert_request_row : NewRequest → Db → ℕ × Db
unfolding new_request_row refresh_request
upsert_request_row n db =
    let id = next_id (λ (r : Request). r.id) db.requests in
    let p = has_seerr_id n.seerr_request_id in
    maybe (first p db.requests)
      (id, record db { requests = db.requests ++ new_request_row id db.now n ∷ [] })
      λ old. (old.id, record db { requests = update p (refresh_request db.now n) db.requests })

-- UpsertRequest of a request that has a Seerr id, which is how the projector calls it; `none` where
-- the CHECK refuses the type.
unfoldable pub upsert_request : NewRequest → Db → Option (ℕ × Db)
unfolding upsert_request_row
upsert_request n db = if is_valid_type n.media_type then some (upsert_request_row n db) else none

unfoldable pub orphan_row : ℕ → ℕ → RequestType → Text → Option ℕ → Option ℕ → Request
orphan_row id now kind title tmdb tvdb = record {
  id = id;
  seerr_request_id = none;
  media_type = kind;
  tmdb_id = tmdb;
  tvdb_id = tvdb;
  title = title;
  year = none;
  poster_url = [];
  requested_by = [];
  requested_at = some now;
  seasons = [];
  status = active;
  awaiting_release_at = none;
  updated_at = now;
}

-- InsertOrphanRequest; its callers name the type themselves, so no CHECK fails.
unfoldable pub insert_orphan_request : RequestType → Text → Option ℕ → Option ℕ → Db → ℕ × Db
unfolding orphan_row
insert_orphan_request kind title tmdb tvdb db =
    let id = next_id (λ (r : Request). r.id) db.requests in
    (id, record db { requests = db.requests ++ orphan_row id db.now kind title tmdb tvdb ∷ [] })

unfoldable pub find_request_by_seerr_id : ℕ → Db → Option Request
find_request_by_seerr_id seerr db = first (has_seerr_id seerr) db.requests

unfoldable pub find_active_request_by_tvdb : ℕ → Db → Option Request
find_active_request_by_tvdb tvdb db =
    last (λ r. opt_is tvdb r.tvdb_id && is_active r.status) db.requests

unfoldable pub find_active_request_by_tmdb : ℕ → RequestType → Db → Option Request
find_active_request_by_tmdb tmdb kind db =
    last (λ r. opt_is tmdb r.tmdb_id && request_type_eq r.media_type kind && is_active r.status)
      db.requests

unfoldable pub find_request_by_tmdb : ℕ → RequestType → Db → Option Request
find_request_by_tmdb tmdb kind db =
    last (λ r. opt_is tmdb r.tmdb_id && request_type_eq r.media_type kind) db.requests

unfoldable pub find_request_by_tvdb : ℕ → Db → Option Request
find_request_by_tvdb tvdb db = last (λ r. opt_is tvdb r.tvdb_id) db.requests

unfoldable pub get_request : ℕ → Db → Option Request
get_request id db = first (λ r. r.id == id) db.requests

unfoldable pub set_request_status : ℕ → RequestStatus → Db → Db
set_request_status id status db = record db {
  requests =
      update (λ r. r.id == id) (λ r. record r { status = status; updated_at = db.now }) db.requests;
}

-- An item that reached 'available' or beyond.
abbrev pub is_done : MediaItem → Bool
is_done m = leb (ordinal available) (ordinal m.current_stage)

abbrev pub of_request : ℕ → MediaItem → Bool
of_request id m = opt_is id m.request_id

abbrev pub rollup : ℕ → Db → RequestStatus
rollup id db =
    if count (λ m. of_request id m && is_done m) db.items == count (of_request id) db.items
    then completed
    else active

-- What RecomputeRequestStatus writes for a request that stands at `status`.
unfoldable pub derived_status : ℕ → RequestStatus → Db → RequestStatus
derived_status id canceled db = canceled
derived_status id failed db = failed
derived_status id status db = if count (of_request id) db.items == 0 then status else rollup id db

-- RecomputeRequestStatus; `none` where the request is not there.
unfoldable pub recompute_request_status : ℕ → Db → Option RequestStatus × Db
unfolding derived_status get_request set_request_status
recompute_request_status id db =
    maybe (get_request id db) (none, db)
      λ r.
        let next = derived_status id r.status db in
        (some next, if status_eq next r.status then db else set_request_status id next db)

-- ActiveTVRequestsWithoutItems.
unfoldable pub active_tv_requests_without_items : Db → List Request
active_tv_requests_without_items db =
    select
      (λ r.
        request_type_eq r.media_type tv
        && is_active r.status
        && is_some r.seerr_request_id
        && is_some r.tvdb_id
        && not (exists (of_request r.id) db.items))
      db.requests
