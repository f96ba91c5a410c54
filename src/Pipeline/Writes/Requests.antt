-- ===== src/Pipeline/Writes/Requests.antt =====
-- The statements of applySeerr and fanoutTV.
use journarr.Base.{ℕ, ◌||◌, Option, none, some, List, [], ◌∷◌, ◌==◌, maybe_case, if_case, select}
use journarr.Pipeline.Ops.{
  SeerrOp, RequestType, movie, tv, pending_kind, approved_kind, declined_kind, available_kind,
  failed_kind, other_kind, SeerrKind,
}
use journarr.Store.Stages.{canceled, completed}
use journarr.Store.Rows.{Db, MediaItem}
use journarr.Store.Items.{ensure_media_item, items_for_request}
use journarr.Store.Requests.{upsert_request}
use journarr.Store.Removal.{is_seerr_request_removed}
use journarr.Store.Stuck.{is_being_worked}
use journarr.Store.Writes.{Writes, done, append}
use journarr.Store.Writes.Statements.{
  of_Elsewhere, set_request_status-Elsewhere, upsert_request-Elsewhere, ensure_media_item-Writes,
  set_item_error-Writes,
}
use journarr.Pipeline.Projector.{Projector, Outcome, set_db}
use journarr.Pipeline.Fanout.{
  Sonarr, Series, Episode, fanout_episode, fanout_episodes, fanout_series, fanout_tv, is_wanted,
  episode_row, queue_fanout_retry,
}
use journarr.Pipeline.Seerr.{
  ensure_movie_item, movie_row, request_row, seerr_pending, seerr_approved, seerr_available,
  apply_available_all, mark_failed, seerr_dispatch, apply_seerr, failed_text,
}
use journarr.Pipeline.Writes.Stages.{Runs, apply-Runs, touch-Runs}

fanout_episode-Runs :
    (request_id event : ℕ) (series : Series) (ep : Episode) (p : Projector)
    → Runs p (fanout_episode request_id event series ep p)
unfolding fanout_episode
fanout_episode-Runs request_id event series ep p =
    maybe_case (λ q. Runs p q) (ensure_media_item (episode_row request_id series ep) p.db) done
      λ r h.
        append (ensure_media_item-Writes _ p.db r h)
          (append (apply-Runs _ _ event _ _ (set_db r.1 p)) (apply-Runs _ _ event _ _ _))

fanout_episodes-Runs :
    (request_id event : ℕ) (series : Series) (eps : List Episode) (p : Projector)
    → Runs p (fanout_episodes request_id event series eps p)
unfolding fanout_episodes
fanout_episodes-Runs request_id event series [] p = done
fanout_episodes-Runs request_id event series (ep ∷ eps) p =
    append (fanout_episode-Runs request_id event series ep p) (
      fanout_episodes-Runs request_id event series eps
        (fanout_episode request_id event series ep p))

queue_fanout_retry-Runs :
    (request_id tvdb : ℕ) (seasons : List ℕ) (p : Projector)
    → Runs p (queue_fanout_retry request_id tvdb seasons p)
unfolding queue_fanout_retry
queue_fanout_retry-Runs request_id tvdb seasons p = done

fanout_series-Runs :
    (sonarr : Sonarr) (request_id tvdb : ℕ) (seasons : List ℕ) (event : ℕ) (series : Series)
    (p : Projector)
    → Runs p (fanout_series sonarr request_id tvdb seasons event series p)
unfolding fanout_series
fanout_series-Runs sonarr request_id tvdb seasons event series p =
    maybe_case (λ q. Runs p q) (sonarr.episodes_by_series series.id)
      (queue_fanout_retry-Runs request_id tvdb seasons p)
      λ eps _.
        fanout_episodes-Runs request_id event series (select (is_wanted p.db.now seasons) eps) p

pub fanout_tv-Runs :
    (sonarr : Option Sonarr) (request_id tvdb : ℕ) (seasons : List ℕ) (event : ℕ) (p : Projector)
    → Runs p (fanout_tv sonarr request_id tvdb seasons event p)
unfolding fanout_tv
fanout_tv-Runs none request_id tvdb seasons event p = done
fanout_tv-Runs (some sonarr) request_id tvdb seasons event p =
    if_case (λ q. Runs p q) (tvdb == 0) (λ _. done)
      λ _.
        maybe_case (λ q. Runs p q) (sonarr.series_by_tvdb_id tvdb)
          (queue_fanout_retry-Runs request_id tvdb seasons p)
          λ found _.
            maybe_case (λ q. Runs p q) found (queue_fanout_retry-Runs request_id tvdb seasons p)
              λ series _. fanout_series-Runs sonarr request_id tvdb seasons event series p

ensure_movie_item-Runs :
    (request_id : ℕ) (op : SeerrOp) (p : Projector) → Runs p (ensure_movie_item request_id op p).1
unfolding ensure_movie_item
ensure_movie_item-Runs request_id op p =
    maybe_case (λ (r : ℕ × Projector). Runs p r.1)
      (ensure_media_item (movie_row request_id op) p.db) done
      λ r h. ensure_media_item-Writes _ p.db r h

seerr_pending-Runs :
    (request_id event : ℕ) (op : SeerrOp) (kind : RequestType) (p : Projector)
    → Runs p (seerr_pending request_id event op kind p).1
unfolding seerr_pending
seerr_pending-Runs request_id event op movie p =
    append (ensure_movie_item-Runs request_id op p) (apply-Runs _ _ event _ _ _)
seerr_pending-Runs request_id event op kind p = done

seerr_approved-Runs :
    (sonarr : Option Sonarr) (request_id event : ℕ) (op : SeerrOp) (kind : RequestType)
    (p : Projector)
    → Runs p (seerr_approved sonarr request_id event op kind p).1
unfolding seerr_approved
seerr_approved-Runs sonarr request_id event op movie p =
    append (ensure_movie_item-Runs request_id op p) (
      append (apply-Runs _ _ event _ _ (ensure_movie_item request_id op p).1)
        (apply-Runs _ _ event _ _ _))
seerr_approved-Runs sonarr request_id event op kind p =
    fanout_tv-Runs sonarr request_id op.tvdb_id op.seasons event p

apply_available_all-Runs :
    (request_id event : ℕ) (ms : List MediaItem) (p : Projector)
    → Runs p (apply_available_all request_id event ms p)
unfolding apply_available_all
apply_available_all-Runs request_id event [] p = done
apply_available_all-Runs request_id event (m ∷ ms) p =
    append (apply-Runs _ _ event _ _ p) (apply_available_all-Runs request_id event ms _)

seerr_available-Runs :
    (request_id event : ℕ) (op : SeerrOp) (kind : RequestType) (ms : List MediaItem) (p : Projector)
    → Runs p (seerr_available request_id event op kind ms p)
unfolding seerr_available
seerr_available-Runs request_id event op movie [] p =
    let q = (ensure_movie_item request_id op p).1 in
    append (ensure_movie_item-Runs request_id op p)
      (apply_available_all-Runs request_id event (items_for_request request_id q.db) q)
seerr_available-Runs request_id event op tv [] p =
    of_Elsewhere (set_request_status-Elsewhere request_id completed p.db)
seerr_available-Runs request_id event op kind ms p = apply_available_all-Runs request_id event ms p

mark_failed-Writes : (ms : List MediaItem) (db : Db) → Writes db (mark_failed ms db)
unfolding mark_failed
mark_failed-Writes [] db = done
mark_failed-Writes (m ∷ ms) db =
    append
      (if_case (Writes db) (is_being_worked m.current_stage)
        (λ _. set_item_error-Writes m.id failed_text db) (λ _. done))
      (mark_failed-Writes ms _)

seerr_dispatch-Runs :
    (sonarr : Option Sonarr) (request_id event : ℕ) (op : SeerrOp) (kind : SeerrKind)
    (p : Projector)
    → Runs p (seerr_dispatch sonarr request_id event op kind p).1
unfolding seerr_dispatch
seerr_dispatch-Runs sonarr request_id event op pending_kind p =
    seerr_pending-Runs request_id event op op.media_type p
seerr_dispatch-Runs sonarr request_id event op approved_kind p =
    seerr_approved-Runs sonarr request_id event op op.media_type p
seerr_dispatch-Runs sonarr request_id event op declined_kind p =
    of_Elsewhere (set_request_status-Elsewhere request_id canceled p.db)
seerr_dispatch-Runs sonarr request_id event op available_kind p =
    seerr_available-Runs request_id event op op.media_type (items_for_request request_id p.db) p
seerr_dispatch-Runs sonarr request_id event op failed_kind p =
    mark_failed-Writes (items_for_request request_id p.db) p.db
seerr_dispatch-Runs sonarr request_id event op other_kind p = done

pub apply_seerr-Runs :
    (sonarr : Option Sonarr) (event : ℕ) (op : SeerrOp) (p : Projector)
    → Runs p (apply_seerr sonarr event op p).1
unfolding apply_seerr
apply_seerr-Runs sonarr event op p =
    if_case (λ (r : Outcome × Projector). Runs p r.1)
      (op.seerr_request_id == 0 || is_seerr_request_removed op.seerr_request_id p.db) (λ _. done)
      λ _.
        maybe_case (λ (r : Outcome × Projector). Runs p r.1) (upsert_request (request_row op) p.db)
          done
          λ r h.
            append
              (touch-Runs p r.0 (set_db r.1 p)
                (of_Elsewhere (upsert_request-Elsewhere (request_row op) p.db r h)))
              (seerr_dispatch-Runs sonarr r.0 event op op.kind _)
