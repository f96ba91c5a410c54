-- ===== src/Pipeline/Writes/Downloads.antt =====
-- The statements of applyGrab, applyImport, applyFailure and applyJobTransition.
use journarr.Base.{
  ℕ, not, ◌&&◌, Option, none, some, List, [], ◌∷◌, ltb, ◌==◌, if◌then◌else◌, maybe_case, if_case,
  first, Text, text_eq, is_empty,
}
use journarr.Pipeline.Ops.{
  Arr, sonarr, radarr, movie, tv, SeriesRef, EpisodeRef, MovieRef, GrabOp, ImportOp,
}
use journarr.Store.Stages.{grabbed, imported, imported_dl}
use journarr.Store.Rows.{Db, MediaItem}
use journarr.Store.Items.{ensure_media_item, get_media_item, find_item_by_sonarr_episode}
use journarr.Store.Requests.{find_request_by_tvdb, find_request_by_tmdb}
use journarr.Store.Normalize.{normalize_download_id}
use journarr.Store.Downloads.{link_download_item, find_download_by_client_id}
use journarr.Store.Correlate.{
  cycle_for_item_download, download_client_id_for_item_cycle, unimported_item_count,
}
use journarr.Store.Transitions.{apply_stage, has_transition}
use journarr.Store.Writes.{Writes, done, append, one, bumps, connects}
use journarr.Store.Writes.Statements.{
  of_Elsewhere, insert_orphan_request-Elsewhere, upsert_download-Elsewhere,
  ensure_media_item-Writes, apply_stage-Writes, set_item_imported_path-Writes,
  set_download_state-Elsewhere,
}
use journarr.Pipeline.Projector.{Projector, Outcome, set_db, announce}
use journarr.Pipeline.Grabs.{
  ItemMap, Resolved, missing_row, series_request, attach_episode, resolve_episode, resolve_episodes,
  resolve_episode_items, radarr_row, movie_request, resolve_movie_item, resolve, is_removed,
  grab_cycle, grab_item, grab_items, grab_download, grab_resolved, grab_found, apply_grab, grab_row,
}
use journarr.Pipeline.Imports.{
  linked_cycle, import_one, import_path, import_all, can_complete, complete_download, import_result,
  apply_import,
}
use journarr.Pipeline.Writes.Stages.{Runs, announce-Runs}

series_request-Writes : (series : SeriesRef) (db : Db) → Writes db (series_request series db).1
unfolding series_request
series_request-Writes series db =
    maybe_case (λ (r : ℕ × Db). Writes db r.1) (find_request_by_tvdb series.tvdb_id db)
      (of_Elsewhere (insert_orphan_request-Elsewhere tv series.title _ _ db)) (λ r _. done)

attach_episode-Writes :
    (series : SeriesRef) (ep : EpisodeRef) (r : Resolved)
    → Writes r.db (attach_episode series ep r).db
unfolding attach_episode
attach_episode-Writes series ep r =
    let found : ℕ × Db =
      if r.request_id == 0 then series_request series r.db else (r.request_id, r.db) in
    append
      (if_case (λ (f : ℕ × Db). Writes r.db f.1) (r.request_id == 0)
        (λ _. series_request-Writes series r.db) (λ _. done))
      (maybe_case (λ (q : Resolved). Writes found.1 q.db)
        (ensure_media_item (missing_row found.0 series ep) found.1) done
        (λ e h. append (ensure_media_item-Writes _ found.1 e h) (
          maybe_case (λ (q : Resolved). Writes e.1 q.db) (get_media_item e.0 e.1) done
            (λ m _. done))))

resolve_episodes-Writes :
    (before : Db) (series : SeriesRef) (eps : List EpisodeRef) (r : Resolved)
    → Writes r.db (resolve_episodes before series eps r).db
unfolding resolve_episodes resolve_episode
resolve_episodes-Writes before series [] r = done
resolve_episodes-Writes before series (ep ∷ eps) r =
    append
      (maybe_case (λ (q : Resolved). Writes r.db q.db)
        (find_item_by_sonarr_episode ep.sonarr_id before) (attach_episode-Writes series ep r)
        (λ m _. done))
      (resolve_episodes-Writes before series eps (resolve_episode before series ep r))

pub resolve_episode_items-Writes :
    (series : Option SeriesRef) (eps : List EpisodeRef) (db : Db)
    → Writes db (resolve_episode_items series eps db).db
unfolding resolve_episode_items
resolve_episode_items-Writes none eps db = done
resolve_episode_items-Writes (some series) eps db = resolve_episodes-Writes db series eps _

pub resolve_movie_item-Writes :
    (m : Option MovieRef) (db : Db) → Writes db (resolve_movie_item m db).db
unfolding resolve_movie_item movie_request
resolve_movie_item-Writes none db = done
resolve_movie_item-Writes (some m) db =
    let found = movie_request m db in
    append
      (maybe_case (λ (r : ℕ × Db). Writes db r.1) (find_request_by_tmdb m.tmdb_id movie db)
        (of_Elsewhere (insert_orphan_request-Elsewhere movie m.title _ _ db)) (λ r _. done))
      (maybe_case (λ (q : Resolved). Writes found.1 q.db)
        (ensure_media_item (radarr_row found.0 m) found.1) done
        (λ e h. append (ensure_media_item-Writes _ found.1 e h) (
          maybe_case (λ (q : Resolved). Writes e.1 q.db) (get_media_item e.0 e.1) done
            (λ item _. done))))

resolve-Writes :
    (arr : Arr) (series : Option SeriesRef) (eps : List EpisodeRef) (m : Option MovieRef) (db : Db)
    → Writes db (resolve arr series eps m db).db
unfolding resolve
resolve-Writes sonarr series eps m db = resolve_episode_items-Writes series eps db
resolve-Writes radarr series eps m db = resolve_movie_item-Writes m db

grab_cycle-Writes : (key : Text) (m : MediaItem) (db : Db) → Writes db (grab_cycle key m db).1
unfolding grab_cycle
grab_cycle-Writes [] m db = done
grab_cycle-Writes (c ∷ s) m db =
    if_case (λ (r : ℕ × Db). Writes db r.1) (ltb 0 (cycle_for_item_download m.id (c ∷ s) db))
      (λ _. done)
      λ _.
        if_case (λ (r : ℕ × Db). Writes db r.1)
          (has_transition m.id m.current_cycle grabbed db
            && not (is_empty (download_client_id_for_item_cycle m.id m.current_cycle db))
            && not (text_eq (download_client_id_for_item_cycle m.id m.current_cycle db) (c ∷ s)))
          (λ _. one (bumps m.id db)) (λ _. done)

grab_item-Runs :
    (event : ℕ) (key title : Text) (request_id download : ℕ) (m : MediaItem) (first : ℕ)
    (p : Projector)
    → Runs p (grab_item event key title request_id download m (first, p)).1
unfolding grab_item
grab_item-Runs event key title request_id download m first p =
    let c = grab_cycle key m p.db in
    let linked = if download == 0 then c.1 else link_download_item download m.id c.0 c.1 in
    append (grab_cycle-Writes key m p.db) (
      append
        (if_case (Writes c.1) (download == 0) (λ _. done)
          (λ _. one (connects download m.id c.0 c.1)))
        (maybe_case (λ (r : ℕ × Projector). Writes linked r.1.db)
          (apply_stage m.id c.0 grabbed event title linked) done
          (λ r h.
            append (apply_stage-Writes m.id c.0 grabbed event title linked r h)
              (announce-Runs r.0 m.id request_id grabbed c.0 (set_db r.1 p)))))

grab_items-Runs :
    (event : ℕ) (key title : Text) (request_id download : ℕ) (ms : ItemMap) (s : ℕ × Projector)
    → Runs s.1 (grab_items event key title request_id download ms s).1
unfolding grab_items
grab_items-Runs event key title request_id download [] s = done
grab_items-Runs event key title request_id download ((k, m) ∷ rest) s =
    append (grab_item-Runs event key title request_id download m s.0 s.1)
      (grab_items-Runs event key title request_id download rest _)

grab_download-Writes : (key : Text) (op : GrabOp) (db : Db) → Writes db (grab_download key op db).1
unfolding grab_download
grab_download-Writes [] op db = done
grab_download-Writes (c ∷ s) op db =
    of_Elsewhere (upsert_download-Elsewhere (grab_row (c ∷ s) op) db)

grab_found-Runs :
    (range : ItemMap → ItemMap) (event : ℕ) (op : GrabOp) (ms : ItemMap) (r : Resolved)
    (p : Projector)
    → Writes r.db (grab_found range event op ms r p).1.db
unfolding grab_found grab_resolved
grab_found-Runs range event op [] r p = done
grab_found-Runs range event op (x ∷ xs) r p =
    append (grab_download-Writes (normalize_download_id op.download_id) op r.db)
      (grab_items-Runs event _ _ _ _ (range r.items) (0, set_db _ p))

pub apply_grab-Runs :
    (range : ItemMap → ItemMap) (event : ℕ) (op : GrabOp) (p : Projector)
    → Runs p (apply_grab range event op p).1
unfolding apply_grab
apply_grab-Runs range event op p =
    let r = resolve op.arr op.series op.episodes op.movie p.db in
    if_case (λ (r : Outcome × Projector). Runs p r.1) (is_removed op.series op.movie p.db)
      (λ _. done)
      λ _.
        append (resolve-Writes op.arr op.series op.episodes op.movie p.db)
          (grab_found-Runs range event op r.items r p)

import_one-Runs :
    (event : ℕ) (key : Text) (request_id : ℕ) (m : MediaItem) (path : Text) (p : Projector)
    → Runs p (import_one event key request_id m path p)
unfolding import_one
import_one-Runs event key request_id m path p =
    let cycle = linked_cycle key m p.db in
    maybe_case (λ q. Runs p q) (apply_stage m.id cycle imported event [] p.db) done
      λ r h.
        let q = announce r.0 m.id request_id imported cycle (set_db r.1 p) in
        append (apply_stage-Writes m.id cycle imported event [] p.db r h) (
          append (announce-Runs r.0 m.id request_id imported cycle (set_db r.1 p)) (
            if_case (λ t. Runs q t) (not (is_empty path) && cycle == m.current_cycle)
              (λ _. set_item_imported_path-Writes m.id path q.db) (λ _. done)))

import_all-Runs :
    (event : ℕ) (key : Text) (op : ImportOp) (request_id : ℕ) (ms : ItemMap) (p : Projector)
    → Runs p (import_all event key op request_id ms p)
unfolding import_all
import_all-Runs event key op request_id [] p = done
import_all-Runs event key op request_id ((k, m) ∷ rest) p =
    append (import_one-Runs event key request_id m (import_path op op.arr k) p)
      (import_all-Runs event key op request_id rest _)

complete_download-Writes : (key : Text) (db : Db) → Writes db (complete_download key db).1
unfolding complete_download
complete_download-Writes [] db = done
complete_download-Writes (c ∷ s) db =
    maybe_case (λ (r : ℕ × Db). Writes db r.1) (find_download_by_client_id (c ∷ s) db) done
      λ d _.
        if_case (Writes db) (unimported_item_count d.id db == 0 && can_complete d.state)
          (λ _. of_Elsewhere (set_download_state-Elsewhere d.id imported_dl [] db)) (λ _. done)

import_result-Runs :
    (key : Text) (ms : ItemMap) (request_id : ℕ) (q : Projector)
    → Runs q (import_result key ms request_id q).1
unfolding import_result
import_result-Runs key [] request_id q = done
import_result-Runs key ((k, m) ∷ rest) request_id q = complete_download-Writes key q.db

pub apply_import-Runs :
    (range : ItemMap → ItemMap) (event : ℕ) (op : ImportOp) (p : Projector)
    → Runs p (apply_import range event op p).1
unfolding apply_import
apply_import-Runs range event op p =
    let key = normalize_download_id op.download_id in
    let r = resolve op.arr op.series op.episodes op.movie p.db in
    let q = import_all event key op r.request_id (range r.items) (set_db r.db p) in
    if_case (λ (r : Outcome × Projector). Runs p r.1) (is_removed op.series op.movie p.db)
      (λ _. done)
      λ _. append (resolve-Writes op.arr op.series op.episodes op.movie p.db) (
        append (import_all-Runs event key op r.request_id (range r.items) (set_db r.db p))
          (import_result-Runs key (range r.items) r.request_id q))
