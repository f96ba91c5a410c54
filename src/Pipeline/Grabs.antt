-- ===== src/Pipeline/Grabs.antt =====
-- backend/internal/pipeline/grabs.go: how a grab, an import or a failure finds its items, and what a
-- grab does. `range` is the order in which Go iterates a map.
pub mod Replay
pub mod Frames
pub mod Round
use journarr.Base.{
  ℕ, Bool, false, not, ◌&&◌, ◌||◌, Option, none, some, List, [], ◌∷◌, ◌==◌, ltb, if◌then◌else◌,
  maybe, from_option, nz, Text, text_eq, is_empty,
}
use journarr.Pipeline.Ops.{Arr, sonarr, radarr, movie, tv, SeriesRef, EpisodeRef, MovieRef, GrabOp}
use journarr.Store.Stages.{grabbed, episode_item, movie_item, matched, orphan, ignored}
use journarr.Store.Rows.{Db, MediaItem}
use journarr.Store.Items.{
  NewItem, ensure_media_item, get_media_item, find_item_by_sonarr_episode, bump_item_cycle,
}
use journarr.Store.Requests.{find_request_by_tvdb, find_request_by_tmdb, insert_orphan_request}
use journarr.Store.Removal.{is_arr_removed}
use journarr.Store.Normalize.{normalize_download_id}
use journarr.Store.Downloads.{NewDownload, upsert_download, link_download_item}
use journarr.Store.Correlate.{cycle_for_item_download, download_client_id_for_item_cycle}
use journarr.Store.Transitions.{apply_stage, has_transition}
use journarr.Pipeline.Projector.{Projector, Outcome, outcome, set_db, announce}

-- A Go map from Sonarr's episode ids to items.
abbrev pub ItemMap : Type 0
ItemMap = List (ℕ × MediaItem)

-- out[key] = item.
unfoldable pub put_item : ℕ → MediaItem → ItemMap → ItemMap
put_item k m [] = (k, m) ∷ []
put_item k m ((j, n) ∷ rest) = if j == k then (k, m) ∷ rest else (j, n) ∷ put_item k m rest

pub record Resolved : Type 0 where
  pub items : ItemMap
  pub request_id : ℕ
  pub db : Db

abbrev pub missing_row : ℕ → SeriesRef → EpisodeRef → NewItem
missing_row request_id series ep = record {
  request_id = request_id;
  media_type = episode_item;
  tmdb_id = none;
  tvdb_id = nz series.tvdb_id;
  sonarr_series_id = some series.sonarr_id;
  sonarr_episode_id = some ep.sonarr_id;
  radarr_movie_id = none;
  season_number = some ep.season;
  episode_number = some ep.episode;
  title = ep.title;
}

-- The request of a series, in any status, or a new one that nobody asked for.
unfoldable pub series_request : SeriesRef → Db → ℕ × Db
series_request series db =
    maybe (find_request_by_tvdb series.tvdb_id db)
      (insert_orphan_request tv series.title (nz series.tmdb_id) (nz series.tvdb_id) db)
      λ r. (r.id, db)

unfoldable pub attach_episode : SeriesRef → EpisodeRef → Resolved → Resolved
unfolding series_request put_item
attach_episode series ep r =
    let found = if r.request_id == 0 then series_request series r.db else (r.request_id, r.db) in
    let r' = record r { request_id = found.0; db = found.1 } in
    maybe (ensure_media_item (missing_row found.0 series ep) found.1) r' λ e.
      maybe (get_media_item e.0 e.1) (record r' { db = e.1 })
        λ m. record r' { items = put_item ep.sonarr_id m r.items; db = e.1 }

-- One episode; `before` is the database at the lookup by episode ids, ahead of the loop.
unfoldable pub resolve_episode : Db → SeriesRef → EpisodeRef → Resolved → Resolved
unfolding attach_episode put_item
resolve_episode before series ep r =
    maybe (find_item_by_sonarr_episode ep.sonarr_id before) (attach_episode series ep r) λ m.
      record r {
        items = put_item ep.sonarr_id m r.items;
        request_id = from_option r.request_id m.request_id;
      }

unfoldable pub resolve_episodes : Db → SeriesRef → List EpisodeRef → Resolved → Resolved
unfolding resolve_episode
resolve_episodes before series [] r = r
resolve_episodes before series (ep ∷ eps) r =
    resolve_episodes before series eps (resolve_episode before series ep r)

-- resolveEpisodeItems.
unfoldable pub resolve_episode_items : Option SeriesRef → List EpisodeRef → Db → Resolved
unfolding resolve_episodes
resolve_episode_items none eps db = record { items = []; request_id = 0; db = db }
resolve_episode_items (some series) eps db =
    resolve_episodes db series eps (record { items = []; request_id = 0; db = db })

abbrev pub radarr_row : ℕ → MovieRef → NewItem
radarr_row request_id m = record {
  request_id = request_id;
  media_type = movie_item;
  tmdb_id = nz m.tmdb_id;
  tvdb_id = none;
  sonarr_series_id = none;
  sonarr_episode_id = none;
  radarr_movie_id = some m.radarr_id;
  season_number = none;
  episode_number = none;
  title = m.title;
}

unfoldable pub movie_request : MovieRef → Db → ℕ × Db
movie_request m db =
    maybe (find_request_by_tmdb m.tmdb_id movie db)
      (insert_orphan_request movie m.title (nz m.tmdb_id) none db) λ r. (r.id, db)

-- resolveMovieItem; the map holds the item under the key 0.
unfoldable pub resolve_movie_item : Option MovieRef → Db → Resolved
unfolding movie_request
resolve_movie_item none db = record { items = []; request_id = 0; db = db }
resolve_movie_item (some m) db =
    let found = movie_request m db in
    let r : Resolved = record { items = []; request_id = found.0; db = found.1 } in
    maybe (ensure_media_item (radarr_row found.0 m) found.1) r λ e.
      maybe (get_media_item e.0 e.1) (record r { db = e.1 })
        λ item. record r { items = (0, item) ∷ []; db = e.1 }

-- The items of an event, by the arr that it comes from.
unfoldable pub resolve : Arr → Option SeriesRef → List EpisodeRef → Option MovieRef → Db → Resolved
unfolding resolve_episode_items resolve_movie_item
resolve sonarr series eps m db = resolve_episode_items series eps db
resolve radarr series eps m db = resolve_movie_item m db

-- removed.
unfoldable pub is_removed : Option SeriesRef → Option MovieRef → Db → Bool
is_removed series m db =
    maybe series false (λ s. is_arr_removed sonarr s.sonarr_id db)
    || maybe m false (λ r. is_arr_removed radarr r.radarr_id db)

-- The cycle that a grab of the download `key` belongs to: the linked one for a replay, the next one
-- for a new download of a cycle that was grabbed already, else the current one.
unfoldable pub grab_cycle : Text → MediaItem → Db → ℕ × Db
grab_cycle [] m db = (m.current_cycle, db)
grab_cycle (c ∷ s) m db =
    let linked = cycle_for_item_download m.id (c ∷ s) db in
    let prev = download_client_id_for_item_cycle m.id m.current_cycle db in
    let bumped = bump_item_cycle m.id db in
    if ltb 0 linked
    then (linked, db)
    else if has_transition m.id m.current_cycle grabbed db
        && not (is_empty prev)
        && not (text_eq prev (c ∷ s))
    then (from_option m.current_cycle bumped.0, bumped.1)
    else (m.current_cycle, db)

-- One round of the loop: the first item so far, and the state.
unfoldable pub grab_item : ℕ → Text → Text → ℕ → ℕ → MediaItem → ℕ × Projector → ℕ × Projector
unfolding grab_cycle
grab_item event key title request_id download m (first, p) =
    let c = grab_cycle key m p.db in
    let linked = if download == 0 then c.1 else link_download_item download m.id c.0 c.1 in
    maybe (apply_stage m.id c.0 grabbed event title linked) (first, set_db linked p)
      λ r. (
        if first == 0 then m.id else first,
        announce r.0 m.id request_id grabbed c.0 (set_db r.1 p),
      )

unfoldable pub grab_items : ℕ → Text → Text → ℕ → ℕ → ItemMap → ℕ × Projector → ℕ × Projector
unfolding grab_item
grab_items event key title request_id download [] s = s
grab_items event key title request_id download ((k, m) ∷ rest) s =
    grab_items event key title request_id download rest
      (grab_item event key title request_id download m s)

abbrev pub grab_row : Text → GrabOp → NewDownload
grab_row key op = record {
  client_download_id = key;
  arr = op.arr;
  source = op.protocol;
  release_title = op.release_title;
  indexer = op.indexer;
  size_bytes = nz op.size;
}

unfoldable pub grab_download : Text → GrabOp → Db → ℕ × Db
grab_download [] op db = (0, db)
grab_download (c ∷ s) op db = upsert_download (grab_row (c ∷ s) op) db

module _ (range : ItemMap → ItemMap) where
  unfoldable pub grab_resolved : ℕ → GrabOp → Resolved → Projector → Outcome × Projector
  unfolding grab_items grab_download
  grab_resolved event op r p =
      let key = normalize_download_id op.download_id in
      let d = grab_download key op r.db in
      let s =
        grab_items event key op.release_title r.request_id d.0 (range r.items) (0, set_db d.1 p) in
      (outcome matched r.request_id s.0 d.0, s.1)

  -- No item, or the first of them and the rest.
  unfoldable pub grab_found : ℕ → GrabOp → ItemMap → Resolved → Projector → Outcome × Projector
  unfolding grab_resolved
  grab_found event op [] r p = (outcome orphan r.request_id 0 0, set_db r.db p)
  grab_found event op (x ∷ xs) r p = grab_resolved event op r p

  -- applyGrab.
  unfoldable pub apply_grab : ℕ → GrabOp → Projector → Outcome × Projector
  unfolding grab_found
  apply_grab event op p =
      let r = resolve op.arr op.series op.episodes op.movie p.db in
      if is_removed op.series op.movie p.db
      then (outcome ignored 0 0 0, p)
      else grab_found event op r.items r p
