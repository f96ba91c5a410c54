-- ===== src/Store/Items.antt =====
-- backend/internal/store/media.go: the table `media_items`.
use journarr.Base.{
  ℕ, ◌+◌, Bool, true, false, ◌&&◌, Option, none, some, List, [], ◌∷◌, ◌++◌, ◌==◌, ltb,
  if◌then◌else◌, opt_is, opt_eq, or_else, Text, nonempty_or, select, first, last, exists, update,
  next_id,
}
use journarr.Store.Stages.{
  requested, available, ordinal, ItemType, movie_item, episode_item, item_type_eq, RequestStatus,
  active,
}
use journarr.Store.Rows.{Db, MediaItem, Request}

abbrev pub is_active : RequestStatus → Bool
is_active active = true
is_active _ = false

-- UPDATE media_items SET f WHERE id = ?.
abbrev pub update_item : ℕ → (MediaItem → MediaItem) → Db → Db
update_item id f db = record db { items = update (λ m. m.id == id) f db.items }

-- The columns that an INSERT names; the others take their defaults.
pub record NewItem : Type 0 where
  pub request_id : ℕ
  pub media_type : ItemType
  pub tmdb_id : Option ℕ
  pub tvdb_id : Option ℕ
  pub sonarr_series_id : Option ℕ
  pub sonarr_episode_id : Option ℕ
  pub radarr_movie_id : Option ℕ
  pub season_number : Option ℕ
  pub episode_number : Option ℕ
  pub title : Text

-- UNIQUE (request_id, media_type, season_number, episode_number).
abbrev pub same_key : NewItem → MediaItem → Bool
same_key n m =
    opt_is n.request_id m.request_id
    && item_type_eq n.media_type m.media_type
    && opt_eq n.season_number m.season_number
    && opt_eq n.episode_number m.episode_number

unfoldable pub insert_row : ℕ → ℕ → NewItem → MediaItem
insert_row id now n = record {
  id = id;
  request_id = some n.request_id;
  media_type = n.media_type;
  tmdb_id = n.tmdb_id;
  tvdb_id = n.tvdb_id;
  sonarr_series_id = n.sonarr_series_id;
  sonarr_episode_id = n.sonarr_episode_id;
  radarr_movie_id = n.radarr_movie_id;
  season_number = n.season_number;
  episode_number = n.episode_number;
  title = n.title;
  current_stage = requested;
  current_cycle = 1;
  stuck_since = none;
  last_error = [];
  imported_path = [];
  jellyfin_item_id = [];
  awaiting_release_at = none;
  updated_at = now;
}

-- ON CONFLICT … DO UPDATE SET.
unfoldable pub refresh_row : ℕ → NewItem → MediaItem → MediaItem
refresh_row now n m = record m {
  sonarr_series_id = or_else n.sonarr_series_id m.sonarr_series_id;
  sonarr_episode_id = or_else n.sonarr_episode_id m.sonarr_episode_id;
  radarr_movie_id = or_else n.radarr_movie_id m.radarr_movie_id;
  title = nonempty_or n.title m.title;
  updated_at = now;
}

unfoldable pub upsert_item : NewItem → Db → Db
unfolding insert_row refresh_row
upsert_item n db =
    if exists (same_key n) db.items
    then record db { items = update (same_key n) (refresh_row db.now n) db.items }
    else record db { items = db.items ++ insert_row (next_id (λ m. m.id) db.items) db.now n ∷ [] }

-- EnsureMediaItem. The statement fails where the request is not there (a foreign key).
unfoldable pub ensure_media_item : NewItem → Db → Option (ℕ × Db)
unfolding upsert_item
ensure_media_item n db =
    let db' = upsert_item n db in
    if exists (λ (r : Request). r.id == n.request_id) db.requests
    then elim (first (same_key n) db'.items) [ none ↦ none | some m ↦ some (m.id, db') ]
    else none

unfoldable pub get_media_item : ℕ → Db → Option MediaItem
get_media_item id db = first (λ m. m.id == id) db.items

-- FindItemsBySonarrEpisodeIDs, at one of the ids: the newest item wins.
unfoldable pub find_item_by_sonarr_episode : ℕ → Db → Option MediaItem
find_item_by_sonarr_episode ep db = last (λ m. opt_is ep m.sonarr_episode_id) db.items

unfoldable pub find_item_by_episode_numbers : ℕ → ℕ → ℕ → Db → Option MediaItem
find_item_by_episode_numbers request_id season episode db =
    first
      (λ m.
        opt_is request_id m.request_id
        && item_type_eq m.media_type episode_item
        && opt_is season m.season_number
        && opt_is episode m.episode_number)
      db.items

unfoldable pub find_movie_item_by_tmdb : ℕ → Db → Option MediaItem
find_movie_item_by_tmdb tmdb db =
    last (λ m. item_type_eq m.media_type movie_item && opt_is tmdb m.tmdb_id) db.items

unfoldable pub find_episode_item_by_tvdb : ℕ → ℕ → ℕ → Db → Option MediaItem
find_episode_item_by_tvdb tvdb season episode db =
    last
      (λ m.
        item_type_eq m.media_type episode_item
        && opt_is tvdb m.tvdb_id
        && opt_is season m.season_number
        && opt_is episode m.episode_number)
      db.items

unfoldable pub set_item_jellyfin_id : ℕ → Text → Db → Db
set_item_jellyfin_id id jelly db =
    update_item id (λ m. record m { jellyfin_item_id = jelly; updated_at = db.now }) db

unfoldable pub set_item_error : ℕ → Text → Db → Db
set_item_error id msg db =
    update_item id (λ m. record m { last_error = msg; updated_at = db.now }) db

unfoldable pub set_item_imported_path : ℕ → Text → Db → Db
set_item_imported_path id path db =
    update_item id (λ m. record m { imported_path = path; updated_at = db.now }) db

unfoldable pub set_item_radarr_movie_id : ℕ → ℕ → Db → Db
set_item_radarr_movie_id id movie db =
    update_item id (λ m. record m { radarr_movie_id = some movie; updated_at = db.now }) db

-- A new attempt: the pointer goes back to the start of the next cycle.
unfoldable pub next_attempt : ℕ → MediaItem → MediaItem
next_attempt now m = record m {
  current_cycle = m.current_cycle + 1;
  current_stage = requested;
  last_error = [];
  stuck_since = none;
  updated_at = now;
}

-- BumpItemCycle, with the new cycle number; `none` where the item is not there.
unfoldable pub bump_item_cycle : ℕ → Db → Option ℕ × Db
unfolding next_attempt get_media_item
bump_item_cycle id db =
    let db' = update_item id (next_attempt db.now) db in
    (elim (get_media_item id db') [ none ↦ none | some m ↦ some m.current_cycle ], db')

-- The items of a request in the table's order; the source sorts them by season and episode.
unfoldable pub items_for_request : ℕ → Db → List MediaItem
items_for_request request_id db = select (λ m. opt_is request_id m.request_id) db.items

unfoldable pub is_request_active : Db → Option ℕ → Bool
is_request_active db none = false
is_request_active db (some id) =
    exists (λ (r : Request). r.id == id && is_active r.status) db.requests

-- ListUnavailableActiveItems, unordered.
unfoldable pub list_unavailable_active_items : Db → List MediaItem
unfolding is_request_active
list_unavailable_active_items db =
    select
      (λ m. is_request_active db m.request_id && ltb (ordinal m.current_stage) (ordinal available))
      db.items
