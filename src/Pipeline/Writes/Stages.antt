-- ===== src/Pipeline/Writes/Stages.antt =====
-- The statements of `apply` (seerr.go), applyTranscode, applyAvailable and applyNotified.
use journarr.Base.{
  ℕ, ◌≡◌, sym, subst, Bool, not, ◌&&◌, List, [], ◌∷◌, arith, ltb, ◌==◌, maybe_case, if_case, first,
  Text, text, text_eq, is_empty,
}
use journarr.Pipeline.Ops.{AvailableOp, NotifiedOp, TranscodeOp, EpisodeNum, RequestType, movie, tv}
use journarr.Store.Stages.{Stage, stage_eq, imported, stage_key}
use journarr.Store.Rows.{Db, MediaItem}
use journarr.Store.Items.{get_media_item, find_movie_item_by_tmdb, find_item_by_episode_numbers}
use journarr.Store.Requests.{find_request_by_tmdb}
use journarr.Store.Transitions.{apply_stage}
use journarr.Store.Writes.{Writes, done, append}
use journarr.Store.Writes.Statements.{
  of_Elsewhere, enqueue_flow_task-Elsewhere, apply_stage-Writes, set_item_jellyfin_id-Writes,
}
use journarr.Flow.Settings.{
  Settings, on_stage_applied, enqueue_scan, enqueue_notice, is_on, notify_stage,
}
use journarr.Pipeline.Projector.{
  Projector, Outcome, set_db, touch, publish_stage, announce, apply_in, apply,
}
use journarr.Pipeline.Imports.{touch_item}
use journarr.Pipeline.Arrarr.{Reached, start}
use journarr.Pipeline.Tdarr.{apply_transcode, resolve_transcode_item}
use journarr.Pipeline.Notices.{
  apply_available, link_jellyfin, notify_ids, notify_episodes, notify_by_tmdb, notify_dispatch,
  apply_notified,
}

-- The statements that lead from the database of one state to that of another.
abbrev pub Runs : Projector → Projector → Type 0
Runs p q = Writes p.db q.db

enqueue_scan-Writes : (s : Settings) (stage : Stage) (db : Db) → Writes db (enqueue_scan s stage db)
unfolding enqueue_scan
enqueue_scan-Writes s stage db =
    if_case (Writes db) (stage_eq stage imported && is_on s (text "jellyfin_scan_on_import"))
      (λ _. of_Elsewhere (enqueue_flow_task-Elsewhere _ _ _ _ _ db)) (λ _. done)

enqueue_notice-Writes :
    (s : Settings) (request_id : ℕ) (stage : Stage) (db : Db)
    → Writes db (enqueue_notice s request_id stage db)
unfolding enqueue_notice
enqueue_notice-Writes s request_id stage db =
    if_case (Writes db)
      (ltb 0 request_id
        && is_on s (text "notify_on_complete")
        && text_eq (stage_key stage) (notify_stage s))
      (λ _. of_Elsewhere (enqueue_flow_task-Elsewhere _ _ _ _ _ db)) (λ _. done)

pub on_stage_applied-Writes :
    (s : Settings) (request_id : ℕ) (stage : Stage) (db : Db)
    → Writes db (on_stage_applied s request_id stage db)
unfolding on_stage_applied
on_stage_applied-Writes s request_id stage db =
    append (enqueue_scan-Writes s stage db)
      (enqueue_notice-Writes s request_id stage (enqueue_scan s stage db))

pub touch-db : (request_id : ℕ) (p : Projector) → (touch request_id p).db ≡ p.db
unfolding touch
touch-db request_id p = ground arith

-- A touched request changes no table.
pub touch-Runs :
    (p : Projector) (request_id : ℕ) (q : Projector) → Runs p q → Runs p (touch request_id q)
touch-Runs p request_id q w = subst (Writes p.db) (sym (touch-db request_id q)) w

pub touch_item-Runs :
    (p : Projector) (m : MediaItem) (q : Projector) → Runs p q → Runs p (touch_item m q)
touch_item-Runs p m q w = maybe_case (λ q. Runs p q) m.request_id w (λ r _. touch-Runs p r q w)

pub announce-Runs :
    (applied : Bool) (item request_id : ℕ) (stage : Stage) (cycle : ℕ) (p : Projector)
    → Runs p (announce applied item request_id stage cycle p)
unfolding announce publish_stage
announce-Runs applied item request_id stage cycle p =
    if_case (λ q. Runs p q) applied
      (λ _.
        touch-Runs p request_id (publish_stage item request_id stage cycle p)
          (on_stage_applied-Writes p.settings request_id stage p.db))
      (λ _. done)

pub apply_in-Runs :
    (item request_id cycle event : ℕ) (stage : Stage) (note : Text) (p : Projector)
    → Runs p (apply_in item request_id cycle event stage note p)
unfolding apply_in
apply_in-Runs item request_id cycle event stage note p =
    maybe_case (λ q. Runs p q) (apply_stage item cycle stage event note p.db) done
      λ r h.
        append (apply_stage-Writes item cycle stage event note p.db r h)
          (announce-Runs r.0 item request_id stage cycle (set_db r.1 p))

pub apply-Runs :
    (item request_id event : ℕ) (stage : Stage) (note : Text) (p : Projector)
    → Runs p (apply item request_id event stage note p)
unfolding apply
apply-Runs item request_id event stage note p =
    if_case (λ q. Runs p q) (item == 0) (λ _. done)
      λ _.
        maybe_case (λ q. Runs p q) (get_media_item item p.db) done
          λ m _. apply_in-Runs item request_id m.current_cycle event stage note p

pub apply_transcode-Runs :
    (event : ℕ) (op : TranscodeOp) (p : Projector) → Runs p (apply_transcode event op p).1
unfolding apply_transcode
apply_transcode-Runs event op p =
    maybe_case (λ (r : Outcome × Projector). Runs p r.1) (resolve_transcode_item op p.db) done
      λ m _. apply-Runs _ _ event _ _ p

link_jellyfin-Runs :
    (op : AvailableOp) (m : MediaItem) (p : Projector) → Runs p (link_jellyfin op m p)
unfolding link_jellyfin
link_jellyfin-Runs op m p =
    if_case (λ q. Runs p q) (not (is_empty op.jellyfin_item_id) && is_empty m.jellyfin_item_id)
      (λ _. set_item_jellyfin_id-Writes m.id op.jellyfin_item_id p.db) (λ _. done)

pub apply_available-Runs :
    (event : ℕ) (op : AvailableOp) (p : Projector) → Runs p (apply_available event op p).1
unfolding apply_available
apply_available-Runs event op p =
    if_case (λ (r : Outcome × Projector). Runs p r.1) (op.media_item_id == 0) (λ _. done)
      λ _.
        maybe_case (λ (r : Outcome × Projector). Runs p r.1) (get_media_item op.media_item_id p.db)
          done
          λ m _.
            append (link_jellyfin-Runs op m p) (apply-Runs _ _ event _ _ (link_jellyfin op m p))

notify_ids-Runs :
    (event : ℕ) (ids : List ℕ) (s : Reached) → Runs s.projector (notify_ids event ids s).projector
unfolding notify_ids
notify_ids-Runs event [] s = done
notify_ids-Runs event (id ∷ ids) s =
    append
      (maybe_case (λ (r : Reached). Runs s.projector r.projector) (get_media_item id s.projector.db)
        done (λ m _. apply-Runs _ _ event _ _ s.projector))
      (notify_ids-Runs event ids _)

notify_episodes-Runs :
    (event request_id : ℕ) (es : List EpisodeNum) (s : ℕ × Projector)
    → Runs s.1 (notify_episodes event request_id es s).1
unfolding notify_episodes
notify_episodes-Runs event request_id [] s = done
notify_episodes-Runs event request_id (e ∷ es) (first, p) =
    append
      (maybe_case (λ (r : ℕ × Projector). Runs p r.1)
        (find_item_by_episode_numbers request_id e.season e.episode p.db) done
        (λ m _. apply-Runs _ _ event _ _ p))
      (notify_episodes-Runs event request_id es _)

notify_by_tmdb-Runs :
    (event : ℕ) (kind : RequestType) (op : NotifiedOp) (p : Projector)
    → Runs p (notify_by_tmdb event kind op p).1
unfolding notify_by_tmdb
notify_by_tmdb-Runs event movie op p =
    maybe_case (λ (r : Outcome × Projector). Runs p r.1) (find_movie_item_by_tmdb op.tmdb_id p.db)
      done λ m _. apply-Runs _ _ event _ _ p
notify_by_tmdb-Runs event kind op p =
    maybe_case (λ (r : Outcome × Projector). Runs p r.1) (find_request_by_tmdb op.tmdb_id tv p.db)
      done λ r _. notify_episodes-Runs event r.id op.episodes (0, p)

notify_dispatch-Runs :
    (event : ℕ) (ids : List ℕ) (op : NotifiedOp) (p : Projector)
    → Runs p (notify_dispatch event ids op p).1
unfolding notify_dispatch
notify_dispatch-Runs event (id ∷ ids) op p = notify_ids-Runs event (id ∷ ids) (start p)
notify_dispatch-Runs event [] op p =
    if_case (λ (r : Outcome × Projector). Runs p r.1) (op.tmdb_id == 0) (λ _. done)
      λ _. notify_by_tmdb-Runs event op.media_type op p

pub apply_notified-Runs :
    (event : ℕ) (op : NotifiedOp) (p : Projector) → Runs p (apply_notified event op p).1
unfolding apply_notified
apply_notified-Runs event op p = notify_dispatch-Runs event op.media_item_ids op p
