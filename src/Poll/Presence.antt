-- ===== src/Poll/Presence.antt =====
-- backend/internal/poll/presence.go: items whose file is in the library although no event said so. What
-- Sonarr and Radarr answer is a parameter; `order` is Go's iteration over the map of series.
use journarr.Base.{
  ℕ, Bool, false, ◌&&◌, Option, List, [], ◌∷◌, ◌++◌, ◌==◌, if◌then◌else◌, maybe, is_some, last,
  select, opt_is, Text, text,
}
use journarr.Pipeline.Ops.{available_op}
use journarr.Pipeline.Seasons.{itoa64}
use journarr.Store.Stages.{movie_item, episode_item, item_type_eq}
use journarr.Store.Rows.{MediaItem}
use journarr.Store.Items.{list_unavailable_active_items}
use journarr.Store.Removal.{in_list}
use journarr.Poll.Emit.{Emitter, emit_event}

-- EpisodesBySeries and MovieByID, for the configured arrs; `none` is an error.
pub record Library : Type 0 where
  pub has_sonarr : Bool
  pub has_radarr : Bool
  pub episodes : ℕ → Option (List (ℕ × Bool))
  pub movie_has_file : ℕ → Option Bool

unfoldable pub presence_key : MediaItem → Text
presence_key m = text "presence:avail:" ++ (itoa64 m.id ++ (text ":" ++ itoa64 m.current_cycle))

unfoldable pub emit_present : MediaItem → Emitter → Emitter
unfolding emit_event presence_key
emit_present m s =
    emit_event (presence_key m)
      (available_op (record {
        media_item_id = m.id;
        jellyfin_item_id = [];
        note = text "present in library (reconciled)";
      }))
      s

-- hasFile[id]; the last entry of an id counts.
unfoldable pub has_file : List (ℕ × Bool) → ℕ → Bool
has_file eps id = maybe (last (λ (e : ℕ × Bool). e.0 == id) eps) false λ e. e.1

abbrev pub is_present : List (ℕ × Bool) → MediaItem → Bool
is_present eps m = maybe m.sonarr_episode_id false λ id. has_file eps id

-- The keys of bySeries, in the order of their first items.
unfoldable pub series_ids : List MediaItem → List ℕ → List ℕ
series_ids [] ids = ids
series_ids (m ∷ ms) ids =
    series_ids ms
      (maybe m.sonarr_series_id ids λ id. if in_list ids id then ids else ids ++ id ∷ [])

unfoldable pub emit_all : List MediaItem → Emitter → Emitter
unfolding emit_present
emit_all [] s = s
emit_all (m ∷ ms) s = emit_all ms (emit_present m s)

unfoldable pub emit_series : Library → List MediaItem → List ℕ → Emitter → Emitter
unfolding emit_all has_file
emit_series lib items [] s = s
emit_series lib items (id ∷ ids) s = emit_series lib items ids (
    maybe (lib.episodes id) s
      λ eps. emit_all (select (λ m. opt_is id m.sonarr_series_id && is_present eps m) items) s)

unfoldable pub emit_movies : Library → List MediaItem → Emitter → Emitter
unfolding emit_present
emit_movies lib [] s = s
emit_movies lib (m ∷ ms) s = emit_movies lib ms (
    maybe m.radarr_movie_id s
      λ id. maybe (lib.movie_has_file id) s λ present. if present then emit_present m s else s)

abbrev pub is_tracked_episode : Library → MediaItem → Bool
is_tracked_episode lib m =
    item_type_eq m.media_type episode_item && is_some m.sonarr_series_id && lib.has_sonarr

abbrev pub is_tracked_movie : Library → MediaItem → Bool
is_tracked_movie lib m =
    item_type_eq m.media_type movie_item && is_some m.radarr_movie_id && lib.has_radarr

-- pass.
unfoldable pub presence_pass : (List ℕ → List ℕ) → Library → Emitter → Emitter
unfolding list_unavailable_active_items series_ids emit_series emit_movies
presence_pass order lib s =
    let items = list_unavailable_active_items s.db in
    let episodes = select (is_tracked_episode lib) items in
    emit_movies lib (select (is_tracked_movie lib) items)
      (emit_series lib episodes (order (series_ids episodes [])) s)
