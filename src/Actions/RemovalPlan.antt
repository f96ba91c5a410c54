-- ===== src/Actions/RemovalPlan.antt =====
-- PlanRemoval of backend/internal/actions/remove.go: what a title's removal would delete, looked up in
-- every system. What the systems answer is a parameter; the texts of warnings and errors are left out.
pub mod Data
pub use journarr.Actions.RemovalPlan.Data.{
  ArrTitle, QueueEntry, Session, Deletion, Systems, Warning, RemovalPlan, RemovalError, Result,
  deleted, gone, refused, not_configured, recycle_bin_unknown, seerr_failed, sessions_unavailable,
  not_found, arr_lookup_failed, queue_failed, being_watched, downloads_failed, deletion_failed, ok,
  err, ◌>>=◌,
}
use journarr.Base.{
  ℕ, Bool, not, ◌&&◌, ◌||◌, Option, none, some, List, [], ◌∷◌, ◌++◌, ◌==◌, if◌then◌else◌, maybe,
  or_else, map, exists, is_empty, Text, text, text_eq,
}
use mathlib.Core.List.{reverse}
use journarr.Pipeline.Ops.{Arr, sonarr, radarr, RequestType, movie, tv, unknown}
use journarr.Pipeline.Seasons.{itoa64}
use journarr.Store.Rows.{Db, Request}
use journarr.Store.Requests.{get_request}
use journarr.Store.Removal.{requests_for_title, arr_ids_for_requests, in_list, given}
use journarr.Ingest.ArrHooks.{equal_fold, has_prefix}

-- arrFor(mediaType, ""), and p.Arr.
abbrev pub client_for : RequestType → Arr
client_for movie = radarr
client_for tv = sonarr
client_for unknown = sonarr

abbrev pub arr_for : RequestType → Arr
arr_for tv = sonarr
arr_for movie = radarr
arr_for unknown = radarr

abbrev pub is_configured : Systems → Arr → Bool
is_configured sys sonarr = sys.has_sonarr
is_configured sys radarr = sys.has_radarr

unfoldable pub append_unique : List ℕ → ℕ → List ℕ
append_unique ids id = if in_list ids id then ids else ids ++ id ∷ []

-- The first id of the column that is given and is not 0.
unfoldable pub first_given : (Request → Option ℕ) → List Request → Option ℕ
first_given column [] = none
first_given column (r ∷ rs) = or_else (given (column r)) (first_given column rs)

unfoldable pub seerr_ids_of : List Request → List ℕ
seerr_ids_of [] = []
seerr_ids_of (r ∷ rs) = let rest = seerr_ids_of rs in maybe r.seerr_request_id rest λ id. id ∷ rest

-- p.tmdbID starts at the request's own; a 0 is passed over.
abbrev pub own_or_first : Option ℕ → Option ℕ → ℕ
own_or_first none none = 0
own_or_first none (some n) = n
own_or_first (some n) first = n

abbrev pub requests_of : Request → List Request → List Request
requests_of r [] = r ∷ []
requests_of r (x ∷ xs) = x ∷ xs

-- The series ids are tried until one is found; an error stops the plan.
unfoldable pub find_series : Systems → List ℕ → Option ArrTitle → Result (Option ArrTitle)
find_series sys [] found = ok found
find_series sys (id ∷ ids) (some t) = ok (some t)
find_series sys (id ∷ ids) none =
    maybe (sys.series_by_id id) (err arr_lookup_failed) λ found. find_series sys ids found

-- The movie ids are tried until one is found; an error and the id 0 are passed over.
abbrev pub movie_found : Option (Option ArrTitle) → Option ArrTitle
movie_found none = none
movie_found (some none) = none
movie_found (some (some t)) = if t.id == 0 then none else some t

unfoldable pub find_movie : Systems → List ℕ → Option ArrTitle → Option ArrTitle
find_movie sys [] found = found
find_movie sys (id ∷ ids) (some t) = some t
find_movie sys (id ∷ ids) none = find_movie sys ids (movie_found (sys.movie_by_id id))

abbrev pub looked_up : Option (Option ArrTitle) → Result (Option ArrTitle)
looked_up none = err arr_lookup_failed
looked_up (some t) = ok t

-- The title at its arr, where that is configured.
unfoldable pub find_title : Systems → Arr → List Request → List ℕ → ℕ → Result (Option ArrTitle)
unfolding find_series find_movie first_given
find_title sys sonarr rs ids tmdb =
    if not sys.has_sonarr
    then ok none
    else maybe (first_given (λ r. r.tvdb_id) rs) (ok none)
        (λ tvdb. looked_up (sys.series_by_tvdb_id tvdb))
      >>= find_series sys ids
find_title sys radarr rs ids tmdb =
    if not sys.has_radarr
    then ok none
    else (if tmdb == 0 then ok none else looked_up (sys.movie_by_tmdb_id tmdb)) >>= λ found.
        ok (find_movie sys ids found)

unfoldable pub with_title : Option ArrTitle → RemovalPlan → RemovalPlan
unfolding append_unique
with_title none p = p
with_title (some t) p = record p {
  arr_id = t.id;
  path = t.path;
  files = t.files;
  size_bytes = t.size_bytes;
  seasons = t.seasons;
  arr_ids = append_unique p.arr_ids t.id;
}

abbrev pub is_of_title : Arr → ℕ → QueueEntry → Bool
is_of_title sonarr id q = q.series_id == id
is_of_title radarr id q = q.movie_id == id

-- A season pack is listed once per episode, under one download id.
abbrev pub queue_key : QueueEntry → Text
queue_key q = if is_empty q.download_id then itoa64 q.id else q.download_id

unfoldable pub title_queue : Arr → ℕ → List Text → List QueueEntry → List QueueEntry
title_queue arr id seen [] = []
title_queue arr id seen (q ∷ qs) =
    let others = title_queue arr id seen qs in
    let rest = title_queue arr id (queue_key q ∷ seen) qs in
    if not (is_of_title arr id q) || exists (λ k. text_eq k (queue_key q)) seen
    then others
    else q ∷ rest

abbrev pub with_recycle_bin : Option (Text × ℕ) → RemovalPlan → RemovalPlan
with_recycle_bin none p = record p { warnings = p.warnings ++ recycle_bin_unknown ∷ [] }
with_recycle_bin (some bin) p = record p { recycle_bin = bin.0; recycle_days = bin.1 }

unfoldable pub with_queue : Systems → RemovalPlan → Result RemovalPlan
unfolding title_queue
with_queue sys p =
    if not (is_configured sys (client_for p.media_type)) || p.arr_id == 0
    then ok p
    else maybe sys.queue (err queue_failed) λ entries.
      let found = title_queue p.arr p.arr_id [] entries in
      ok (record (with_recycle_bin sys.recycle_bin p) {
        queue_ids = map (λ q. q.id) found;
        downloads = map (λ q. q.title) found;
      })

unfoldable pub with_seerr : Systems → RemovalPlan → RemovalPlan
with_seerr sys p =
    if not sys.has_seerr || p.tmdb_id == 0
    then p
    else maybe (sys.media_id p.media_type p.tmdb_id)
        (record p { warnings = p.warnings ++ seerr_failed ∷ [] })
        λ id. record p { seerr_media = id }

-- strings.TrimRight(path, "/").
unfoldable pub trim_slashes : Text → Text
trim_slashes [] = []
trim_slashes (c ∷ s) = if c == b'/' then trim_slashes s else c ∷ s

-- Is a path the title's, or below it?
unfoldable pub is_below : Text → Text → Bool
unfolding trim_slashes has_prefix
is_below path root =
    text_eq path root || has_prefix path (reverse (trim_slashes (reverse root)) ++ text "/")

abbrev pub name_of : RequestType → Session → Text
name_of tv s = s.series_name
name_of _ s = s.item_name

-- watching.
unfoldable pub is_watching : Session → RemovalPlan → Bool
unfolding is_below equal_fold
is_watching s p =
    if not (is_empty s.path) && not (is_empty p.path)
    then is_below s.path p.path
    else not (is_empty (name_of p.media_type s)) && equal_fold (name_of p.media_type s) p.title

unfoldable pub viewers_of : RemovalPlan → List Session → List Text
unfolding is_watching
viewers_of p [] = []
viewers_of p (s ∷ ss) =
    let rest = viewers_of p ss in
    if is_watching s p then (s.user ++ (text " (" ++ (s.title ++ text ")"))) ∷ rest else rest

unfoldable pub with_viewers : Systems → RemovalPlan → RemovalPlan
unfolding viewers_of
with_viewers sys p =
    if not sys.has_jellyfin
    then p
    else maybe sys.sessions (record p { warnings = p.warnings ++ sessions_unavailable ∷ [] })
        λ ss. record p { viewers = viewers_of p ss }

abbrev pub ids_at : Arr → List ℕ × List ℕ → List ℕ
ids_at sonarr ids = ids.0
ids_at radarr ids = ids.1

-- The plan before any system is asked.
unfoldable pub first_plan : Systems → Request → Db → List Request → RemovalPlan
unfolding arr_ids_for_requests seerr_ids_of first_given
first_plan sys r db rs =
    let arr = arr_for r.media_type in
    record {
      title = r.title;
      media_type = r.media_type;
      arr = arr;
      arr_id = 0;
      path = [];
      files = 0;
      size_bytes = 0;
      seasons = 0;
      downloads = [];
      recycle_bin = [];
      recycle_days = 0;
      viewers = [];
      warnings = if is_configured sys arr then [] else not_configured arr ∷ [];
      request_ids = map (λ x. x.id) rs;
      seerr_ids = seerr_ids_of rs;
      seerr_media = 0;
      arr_ids = ids_at arr (arr_ids_for_requests (map (λ x. x.id) rs) db);
      queue_ids = [];
      tmdb_id = own_or_first (given r.tmdb_id) (first_given (λ x. x.tmdb_id) rs);
    }

unfoldable pub complete_plan : Systems → List Request → RemovalPlan → Result RemovalPlan
unfolding find_title with_title with_queue with_seerr with_viewers
complete_plan sys rs p = find_title sys p.arr rs p.arr_ids p.tmdb_id >>= λ t.
    with_queue sys (with_title t p) >>= λ q. ok (with_viewers sys (with_seerr sys q))

-- PlanRemoval.
unfoldable pub plan_removal : Systems → ℕ → Db → Result RemovalPlan
unfolding first_plan complete_plan requests_for_title get_request
plan_removal sys id db = maybe (get_request id db) (err not_found) λ r.
    let rs = requests_of r (requests_for_title r.media_type r.tmdb_id r.tvdb_id db) in
    complete_plan sys rs (first_plan sys r db rs)
