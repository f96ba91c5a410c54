-- ===== src/Pipeline/Notices.antt =====
-- backend/internal/pipeline/arrarr.go: items that are available in Jellyfin, or were announced.
use journarr.Base.{
  ℕ, not, ◌&&◌, List, [], ◌∷◌, ◌==◌, if◌then◌else◌, maybe, from_option, text, is_empty, nonempty_or,
}
use journarr.Pipeline.Ops.{AvailableOp, NotifiedOp, EpisodeNum, RequestType, movie, tv}
use journarr.Store.Stages.{available, notified, matched, orphan, ignored}
use journarr.Store.Rows.{MediaItem}
use journarr.Store.Items.{
  get_media_item, set_item_jellyfin_id, find_movie_item_by_tmdb, find_item_by_episode_numbers,
}
use journarr.Store.Requests.{find_request_by_tmdb}
use journarr.Pipeline.Projector.{Projector, Outcome, outcome, set_db, apply}
use journarr.Pipeline.Imports.{first_of_two}
use journarr.Pipeline.Arrarr.{Reached, start}

unfoldable pub link_jellyfin : AvailableOp → MediaItem → Projector → Projector
link_jellyfin op m p =
    if not (is_empty op.jellyfin_item_id) && is_empty m.jellyfin_item_id
    then set_db (set_item_jellyfin_id m.id op.jellyfin_item_id p.db) p
    else p

-- applyAvailable.
unfoldable pub apply_available : ℕ → AvailableOp → Projector → Outcome × Projector
unfolding link_jellyfin
apply_available event op p =
    if op.media_item_id == 0
    then (outcome ignored 0 0 0, p)
    else maybe (get_media_item op.media_item_id p.db) (outcome ignored 0 0 0, p)
        λ m.
          let request_id = from_option 0 m.request_id in
          (
            outcome matched request_id m.id 0,
            apply m.id request_id event available (nonempty_or op.note (text "jellyfin"))
                (link_jellyfin op m p),
          )

-- The items that Journarr announced itself.
unfoldable pub notify_ids : ℕ → List ℕ → Reached → Reached
notify_ids event [] s = s
notify_ids event (id ∷ ids) s = notify_ids event ids (
    maybe (get_media_item id s.projector.db) s λ m.
      let request_id = from_option s.request_id m.request_id in
      record {
        request_id = request_id;
        first = first_of_two s.first m.id;
        projector = apply m.id request_id event notified (text "journarr") s.projector;
      })

unfoldable pub notify_movie : ℕ → ℕ → Projector → Outcome × Projector
notify_movie event tmdb p =
    maybe (find_movie_item_by_tmdb tmdb p.db) (outcome orphan 0 0 0, p)
      λ m.
        let request_id = from_option 0 m.request_id in
        (outcome matched request_id m.id 0, apply m.id request_id event notified (text "waha") p)

unfoldable pub notify_episodes : ℕ → ℕ → List EpisodeNum → ℕ × Projector → ℕ × Projector
notify_episodes event request_id [] s = s
notify_episodes event request_id (e ∷ es) (first, p) = notify_episodes event request_id es (
    maybe (find_item_by_episode_numbers request_id e.season e.episode p.db) (first, p)
      λ m. (first_of_two first m.id, apply m.id request_id event notified (text "waha") p))

unfoldable pub notify_tv : ℕ → ℕ → List EpisodeNum → Projector → Outcome × Projector
unfolding notify_episodes
notify_tv event tmdb es p =
    maybe (find_request_by_tmdb tmdb tv p.db) (outcome orphan 0 0 0, p)
      λ r.
        let s = notify_episodes event r.id es (0, p) in
        (outcome (if s.0 == 0 then orphan else matched) r.id s.0 0, s.1)

unfoldable pub notify_by_tmdb : ℕ → RequestType → NotifiedOp → Projector → Outcome × Projector
unfolding notify_movie notify_tv
notify_by_tmdb event movie op p = notify_movie event op.tmdb_id p
notify_by_tmdb event kind op p = notify_tv event op.tmdb_id op.episodes p

unfoldable pub notify_exact : ℕ → List ℕ → Projector → Outcome × Projector
unfolding notify_ids
notify_exact event ids p =
    let s = notify_ids event ids (start p) in
    (
      if s.first == 0 then outcome orphan 0 0 0 else outcome matched s.request_id s.first 0,
      s.projector,
    )

unfoldable pub notify_dispatch : ℕ → List ℕ → NotifiedOp → Projector → Outcome × Projector
unfolding notify_exact notify_by_tmdb
notify_dispatch event (id ∷ ids) op p = notify_exact event (id ∷ ids) p
notify_dispatch event [] op p =
    if op.tmdb_id == 0 then (outcome ignored 0 0 0, p) else notify_by_tmdb event op.media_type op p

-- applyNotified.
unfoldable pub apply_notified : ℕ → NotifiedOp → Projector → Outcome × Projector
unfolding notify_dispatch
apply_notified event op p = notify_dispatch event op.media_item_ids op p
