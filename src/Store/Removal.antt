-- ===== src/Store/Removal.antt =====
-- backend/internal/store/removal.go: titles that were removed everywhere. The deletions that
-- ON DELETE CASCADE makes are written out.
pub mod Purge
pub mod References
pub mod Downloads
use journarr.Base.{
  ℕ, ◌+◌, ◌*◌, Bool, true, false, not, ◌&&◌, ◌||◌, Option, none, some, List, [], ◌∷◌, ◌++◌, ◌==◌,
  ltb, if◌then◌else◌, opt_is, Text, exists, select, next_id,
}
use journarr.Pipeline.Ops.{Arr, sonarr, radarr, RequestType, tv}
use journarr.Store.Stages.{
  TaskStatus, pending_task, failed_task, dead_task, TargetType, request_target, media_item_target,
  no_target,
}
use journarr.Store.Rows.{Db, MediaItem, Request, Link, Event, Removed}
use journarr.Store.Requests.{request_type_eq}
use journarr.Store.Events.{seconds_per_day}

pub record Tombstone : Type 0 where
  pub title : Text
  pub sonarr_series_ids : List ℕ
  pub radarr_movie_ids : List ℕ
  pub seerr_request_ids : List ℕ

-- An id that is given and is not 0 takes part in the search.
abbrev pub given : Option ℕ → Option ℕ
given none = none
given (some n) = if n == 0 then none else some n

abbrev pub column_is : Option ℕ → Option ℕ → Bool
column_is none c = false
column_is (some n) c = opt_is n c

-- RequestsForTitle: tv matches on tvdb or tmdb, movies on tmdb.
unfoldable pub requests_for_title : RequestType → Option ℕ → Option ℕ → Db → List Request
requests_for_title kind tmdb tvdb db =
    select
      (λ r.
        request_type_eq r.media_type kind
        && (column_is (given tmdb) r.tmdb_id
            || (request_type_eq kind tv && column_is (given tvdb) r.tvdb_id)))
      db.requests

abbrev pub in_list : List ℕ → ℕ → Bool
in_list ids n = exists (λ i. i == n) ids

abbrev pub opt_in : List ℕ → Option ℕ → Bool
opt_in ids none = false
opt_in ids (some n) = in_list ids n

-- The ids that `seen` does not hold yet, and not 0.
abbrev pub add_seen : Option ℕ → List ℕ → List ℕ
add_seen none ids = ids
add_seen (some id) ids = if id == 0 || in_list ids id then ids else ids ++ id ∷ []

unfoldable pub distinct_ids : (MediaItem → Option ℕ) → List MediaItem → List ℕ → List ℕ
distinct_ids column [] ids = ids
distinct_ids column (m ∷ ms) ids = distinct_ids column ms (add_seen (column m) ids)

-- ArrIDsForRequests: the series and the movies of the requests' items.
unfoldable pub arr_ids_for_requests : List ℕ → Db → List ℕ × List ℕ
unfolding distinct_ids
arr_ids_for_requests ids db =
    let items = select (λ (m : MediaItem). opt_in ids m.request_id) db.items in
    (
      distinct_ids (λ m. m.sonarr_series_id) items [],
      distinct_ids (λ m. m.radarr_movie_id) items [],
    )

-- (SELECT id FROM media_items WHERE request_id IN …), as a test.
abbrev pub is_doomed_item : List ℕ → Db → ℕ → Bool
is_doomed_item ids db item =
    exists (λ (m : MediaItem). m.id == item && opt_in ids m.request_id) db.items

-- status IN ('pending', 'failed', 'dead').
abbrev pub is_unfinished : TaskStatus → Bool
is_unfinished pending_task = true
is_unfinished failed_task = true
is_unfinished dead_task = true
is_unfinished _ = false

abbrev pub targets : List ℕ → Db → TargetType → Option ℕ → Bool
targets ids db request_target id = opt_in ids id
targets ids db media_item_target none = false
targets ids db media_item_target (some item) = is_doomed_item ids db item
targets ids db no_target id = false

abbrev pub is_doomed_event : List ℕ → Db → Event → Bool
is_doomed_event ids db e =
    opt_in ids e.request_id
    || elim e.media_item_id [ none ↦ false | some item ↦ is_doomed_item ids db item ]

-- Linked to a doomed item, and to no other.
abbrev pub is_doomed_download : List ℕ → Db → ℕ → Bool
is_doomed_download ids db download =
    exists (λ (l : Link). l.download_id == download && is_doomed_item ids db l.media_item_id)
      db.links
    && not (
        exists
          (λ (l : Link). l.download_id == download && not (is_doomed_item ids db l.media_item_id))
          db.links)

-- The four DELETEs of PurgeRequests, with their cascades.
unfoldable pub delete_requests : List ℕ → Db → Db
delete_requests ids db = record db {
  tasks =
      select (λ t. not (is_unfinished t.status && targets ids db t.target_type t.target_id))
        db.tasks;
  events = select (λ e. not (is_doomed_event ids db e)) db.events;
  downloads = select (λ d. not (is_doomed_download ids db d.id)) db.downloads;
  links =
      select
        (λ l.
          not (is_doomed_download ids db l.download_id || is_doomed_item ids db l.media_item_id))
        db.links;
  transitions = select (λ t. not (is_doomed_item ids db t.media_item_id)) db.transitions;
  items = select (λ m. not (opt_in ids m.request_id)) db.items;
  requests = select (λ r. not (in_list ids r.id)) db.requests;
}

abbrev pub add_removed : Option Arr → Option ℕ → Option ℕ → Text → Db → Db
add_removed arr arr_id seerr title db =
    let id = next_id (λ (r : Removed). r.id) db.removed in
    record db {
      removed =
          db.removed
          ++ record {
            id = id;
            arr = arr;
            arr_id = arr_id;
            seerr_request_id = seerr;
            title = title;
            removed_at = db.now;
          }
            ∷ [];
    }

unfoldable pub bury_series : List ℕ → Text → Db → Db
bury_series [] title db = db
bury_series (id ∷ ids) title db =
    bury_series ids title (add_removed (some sonarr) (some id) none title db)

unfoldable pub bury_movies : List ℕ → Text → Db → Db
bury_movies [] title db = db
bury_movies (id ∷ ids) title db =
    bury_movies ids title (add_removed (some radarr) (some id) none title db)

unfoldable pub bury_requests : List ℕ → Text → Db → Db
bury_requests [] title db = db
bury_requests (id ∷ ids) title db =
    bury_requests ids title (add_removed none none (some id) title db)

-- PurgeRequests, committed as one transaction. With no request only the tombstone is written.
unfoldable pub purge_requests : List ℕ → Tombstone → Db → Db
unfolding delete_requests bury_series bury_movies bury_requests
purge_requests [] t db =
    bury_requests t.seerr_request_ids t.title
      (bury_movies t.radarr_movie_ids t.title (bury_series t.sonarr_series_ids t.title db))
purge_requests (i ∷ ids) t db = bury_requests t.seerr_request_ids t.title (
    bury_movies t.radarr_movie_ids t.title
      (bury_series t.sonarr_series_ids t.title (delete_requests (0 ∷ i ∷ ids) db)))

abbrev pub arr_eq : Arr → Arr → Bool
arr_eq sonarr sonarr = true
arr_eq radarr radarr = true
arr_eq _ _ = false

abbrev pub arr_is : Arr → Option Arr → Bool
arr_is a none = false
arr_is a (some b) = arr_eq b a

unfoldable pub is_arr_removed : Arr → ℕ → Db → Bool
is_arr_removed arr id db =
    not (id == 0) && exists (λ (r : Removed). arr_is arr r.arr && opt_is id r.arr_id) db.removed

unfoldable pub is_seerr_request_removed : ℕ → Db → Bool
is_seerr_request_removed id db =
    not (id == 0) && exists (λ (r : Removed). opt_is id r.seerr_request_id) db.removed

unfoldable pub reap_removed : ℕ → Db → Db
reap_removed days db = record db {
  removed = select (λ r. not (ltb (r.removed_at + days * seconds_per_day) db.now)) db.removed;
}
