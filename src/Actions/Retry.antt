-- ===== src/Actions/Retry.antt =====
-- Retry of backend/internal/actions/actions.go: the downloads in flight are canceled, the cycles of all
-- items that they carry are bumped, and the arr searches anew.
use journarr.Base.{
  ℕ, Bool, true, false, Option, none, some, List, [], ◌∷◌, ◌++◌, ◌==◌, if◌then◌else◌, maybe, exists,
  text, is_empty,
}
use mathlib.Core.List.{reverse}
use journarr.Pipeline.Ops.{Arr}
use journarr.Store.Stages.{ItemType, movie_item, episode_item, canceled_dl, is_terminal}
use journarr.Store.Rows.{Db, MediaItem, Download}
use journarr.Store.Items.{get_media_item, set_item_radarr_movie_id, bump_item_cycle}
use journarr.Store.Downloads.{downloads_for_item_cycle, set_download_state, item_ids_for_download}
use journarr.Pipeline.Grabs.{ItemMap}
use journarr.Actions.Clients.{
  Clients, Intervention, call, write, arr_of_type, has_arr, clear_queue, search_movies,
  search_episodes,
}

-- The items of a download, but those that are collected already.
unfoldable pub collect : List ℕ → Db → ItemMap → ItemMap
collect [] db affected = affected
collect (id ∷ ids) db affected = collect ids db (
    if exists (λ (e : ℕ × MediaItem). e.0 == id) affected
    then affected
    else maybe (get_media_item id db) affected λ m. affected ++ (id, m) ∷ [])

-- One download in flight.
unfoldable pub supersede : Arr → Download → ItemMap × Intervention → ItemMap × Intervention
unfolding collect
supersede arr d (affected, s) =
    let asked =
      if is_empty d.client_download_id
      then s
      else call (clear_queue arr d.client_download_id true) s in
    let db' = set_download_state d.id canceled_dl (text "superseded by retry") asked.db in
    (collect (item_ids_for_download d.id db') db' affected, write db' asked)

unfoldable pub supersede_all : Arr → List Download → ItemMap × Intervention → ItemMap × Intervention
unfolding supersede
supersede_all arr [] s = s
supersede_all arr (d ∷ ds) s =
    supersede_all arr ds (if is_terminal d.state then s else supersede arr d s)

-- The ids to search for: movies and episodes.
pub record Found : Type 0 where
  pub movies : List ℕ
  pub episodes : List ℕ
  pub db : Db

-- The Radarr id of a movie that was never grabbed is looked up and kept.
unfoldable pub resolve_movie : Clients → MediaItem → Db → Option ℕ × Db
resolve_movie c m db =
    maybe m.radarr_movie_id
      (maybe m.tmdb_id (none, db)
        λ tmdb.
          maybe (if c.has_radarr then c.movie_by_tmdb_id tmdb else none) (none, db)
            λ movie. (some movie, set_item_radarr_movie_id m.id movie db))
      λ movie. (some movie, db)

abbrev pub add_id : Option ℕ → List ℕ → List ℕ
add_id none ids = ids
add_id (some id) ids = ids ++ id ∷ []

-- The arr's id of one item, ahead of its bump.
unfoldable pub find_arr_id : Clients → ItemType → MediaItem → Found → Found
unfolding resolve_movie
find_arr_id c movie_item m f =
    let r = resolve_movie c m f.db in record f { movies = add_id r.0 f.movies; db = r.1 }
find_arr_id c episode_item m f = record f { episodes = add_id m.sonarr_episode_id f.episodes }

unfoldable pub bump_one : Clients → MediaItem → Found → Found
unfolding find_arr_id
bump_one c m f =
    let found = find_arr_id c m.media_type m f in
    record found { db = (bump_item_cycle m.id found.db).1 }

unfoldable pub bump_all : Clients → ItemMap → Found → Found
unfolding bump_one
bump_all c [] f = f
bump_all c ((id, m) ∷ rest) f = bump_all c rest (bump_one c m f)

-- The new search, with whether it was accepted.
unfoldable pub search_again : Clients → Arr → List ℕ → List ℕ → Intervention → Bool × Intervention
search_again c arr [] [] s = (false, s)
search_again c arr [] (e ∷ es) s = (c.accepts s.calls, call (search_episodes arr (e ∷ es)) s)
search_again c arr (m ∷ ms) episodes s = (c.accepts s.calls, call (search_movies arr (m ∷ ms)) s)

module _ (range : ItemMap → ItemMap) (c : Clients) where
  unfoldable pub retry_item : ℕ → MediaItem → Intervention → Bool × Intervention
  unfolding supersede_all bump_all search_again
  retry_item id m s =
      let arr = arr_of_type m.media_type in
      let (affected, s') =
        supersede_all arr (reverse (downloads_for_item_cycle id m.current_cycle s.db))
          ((id, m) ∷ [], s) in
      let found = bump_all c (range affected) (record { movies = []; episodes = []; db = s'.db }) in
      if has_arr c arr
      then search_again c arr found.movies found.episodes (write found.db s')
      else (false, s)

  -- Retry; false is an error.
  unfoldable pub retry : ℕ → Intervention → Bool × Intervention
  unfolding retry_item
  retry id s = maybe (get_media_item id s.db) (false, s) λ m. retry_item id m s
