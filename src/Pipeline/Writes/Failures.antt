-- ===== src/Pipeline/Writes/Failures.antt =====
-- The statements of applyFailure and applyJobTransition.
use journarr.Base.{
  ℕ, not, ◌&&◌, Option, none, some, List, [], ◌∷◌, ltb, ◌==◌, if◌then◌else◌, maybe_case, if_case,
  Text, text, is_empty, nonempty_or,
}
use journarr.Pipeline.Ops.{
  Arr, sonarr, SeriesRef, FailureOp, JobTransitionOp, JobState, failed_job, canceled_job,
}
use journarr.Store.Stages.{Stage, DownloadState, failed_dl, canceled_dl}
use journarr.Store.Rows.{Db, MediaItem, Download}
use journarr.Store.Items.{get_media_item}
use journarr.Store.Normalize.{normalize_download_id}
use journarr.Store.Downloads.{find_download_by_client_id, set_download_state, item_ids_for_download}
use journarr.Store.Correlate.{cycle_for_item_download_by_id}
use journarr.Store.Transitions.{apply_stage}
use journarr.Store.Writes.{Writes, done, append}
use journarr.Store.Writes.Statements.{
  of_Elsewhere, set_item_error-Writes, set_download_state-Elsewhere,
  set_download_arrarr_nzo-Elsewhere, update_download_progress-Elsewhere, apply_stage-Writes,
}
use journarr.Pipeline.Projector.{Projector, Outcome, set_db}
use journarr.Pipeline.Grabs.{ItemMap, is_removed}
use journarr.Pipeline.Imports.{
  can_fail, is_current_failure, mark_item, Marked, mark_linked, mark_resolved, fail_download,
  resolve_failure, fail_by_refs, apply_failure,
}
use journarr.Pipeline.Arrarr.{
  arrarr_stage, download_state_rank, find_arrarr_download, remember_nzo, Reached, start,
  annotate_item, annotate_items, is_imported, job_failed, advance_download, record_progress,
  job_cycle, reach_item, reach_items, job_advanced, job_staged, job_dispatch, apply_job_transition,
}
use journarr.Pipeline.Writes.Stages.{Runs, announce-Runs, touch-Runs, touch_item-Runs}
use journarr.Pipeline.Writes.Downloads.{resolve_episode_items-Writes, resolve_movie_item-Writes}

mark_item-Runs : (key msg : Text) (m : MediaItem) (p : Projector) → Runs p (mark_item key msg m p)
unfolding mark_item
mark_item-Runs key msg m p =
    if_case (λ q. Runs p q) (is_current_failure key m p.db)
      (λ _. set_item_error-Writes m.id msg p.db) (λ _. done)

mark_linked-Runs :
    (key msg : Text) (ids : List ℕ) (s : Marked)
    → Runs s.projector (mark_linked key msg ids s).projector
unfolding mark_linked
mark_linked-Runs key msg [] s = done
mark_linked-Runs key msg (id ∷ ids) s =
    append
      (maybe_case (λ (r : Marked). Runs s.projector r.projector) (get_media_item id s.projector.db)
        done
        (λ m _.
          touch_item-Runs s.projector m (mark_item key msg m s.projector)
            (mark_item-Runs key msg m s.projector)))
      (mark_linked-Runs key msg ids _)

mark_resolved-Runs :
    (key msg : Text) (ms : ItemMap) (s : Marked)
    → Runs s.projector (mark_resolved key msg ms s).projector
unfolding mark_resolved
mark_resolved-Runs key msg [] s = done
mark_resolved-Runs key msg ((k, m) ∷ rest) s =
    append
      (touch-Runs s.projector s.request_id (mark_item key msg m s.projector)
        (mark_item-Runs key msg m s.projector))
      (mark_resolved-Runs key msg rest _)

fail_download-Runs :
    (op : FailureOp) (key msg : Text) (p : Projector)
    → Runs p (fail_download op key msg p).1.projector
unfolding fail_download
fail_download-Runs op key msg p =
    if_case (λ (r : ℕ × Marked). Runs p r.1.projector) (is_empty key) (λ _. done)
      λ _.
        maybe_case (λ (r : ℕ × Marked). Runs p r.1.projector) (find_download_by_client_id key p.db)
          done
          λ d _.
            let db' =
              if not op.soft && can_fail d.state
              then set_download_state d.id failed_dl msg p.db
              else p.db in
            let begin : Marked = record { request_id = 0; first = 0; projector = set_db db' p } in
            append
              (if_case (Writes p.db) (not op.soft && can_fail d.state)
                (λ _. of_Elsewhere (set_download_state-Elsewhere d.id failed_dl msg p.db))
                (λ _. done))
              (mark_linked-Runs key msg (item_ids_for_download d.id db') begin)

resolve_failure-Writes :
    (op : FailureOp) (arr : Arr) (series : Option SeriesRef) (db : Db)
    → Writes db (resolve_failure op arr series db).db
unfolding resolve_failure
resolve_failure-Writes op sonarr (some series) db = resolve_episode_items-Writes _ op.episodes db
resolve_failure-Writes op arr series db = resolve_movie_item-Writes op.movie db

fail_by_refs-Runs :
    (range : ItemMap → ItemMap) (op : FailureOp) (key msg : Text) (s : Marked)
    → Runs s.projector (fail_by_refs range op key msg s).projector
unfolding fail_by_refs
fail_by_refs-Runs range op key msg s =
    let r = resolve_failure op op.arr op.series s.projector.db in
    let begin : Marked = record s {
      request_id = r.request_id;
      projector = set_db r.db s.projector;
    } in
    if_case (λ (r : Marked). Runs s.projector r.projector) (s.first == 0)
      (λ _.
        append (resolve_failure-Writes op op.arr op.series s.projector.db)
          (mark_resolved-Runs key msg (range r.items) begin))
      (λ _. done)

pub apply_failure-Runs :
    (range : ItemMap → ItemMap) (event : ℕ) (op : FailureOp) (p : Projector)
    → Runs p (apply_failure range event op p).1
unfolding apply_failure
apply_failure-Runs range event op p =
    let key = normalize_download_id op.download_id in
    let msg = nonempty_or op.message (text "download failed") in
    let d = fail_download op key msg p in
    let s = fail_by_refs range op key msg d.1 in
    let all : Runs p s.projector =
      append (fail_download-Runs op key msg p) (fail_by_refs-Runs range op key msg d.1) in
    if_case (λ (r : Outcome × Projector). Runs p r.1) (is_removed op.series op.movie p.db)
      (λ _. done)
      λ _. if_case (λ (r : Outcome × Projector). Runs p r.1) (s.first == 0) (λ _. all) (λ _. all)

annotate_items-Runs :
    (download : ℕ) (msg : Text) (ids : List ℕ) (s : Reached)
    → Runs s.projector (annotate_items download msg ids s).projector
unfolding annotate_items annotate_item
annotate_items-Runs download msg [] s = done
annotate_items-Runs download msg (id ∷ ids) s =
    append
      (maybe_case (λ (r : Reached). Runs s.projector r.projector) (get_media_item id s.projector.db)
        done
        (λ m _. touch_item-Runs s.projector m (annotate_item download msg id m s.projector) (
          if_case (λ q. Runs s.projector q)
            (cycle_for_item_download_by_id id download s.projector.db == m.current_cycle)
            (λ _. set_item_error-Writes id msg s.projector.db) (λ _. done))))
      (annotate_items-Runs download msg ids _)

job_failed-Runs :
    (state : DownloadState) (op : JobTransitionOp) (d : Download) (p : Projector)
    → Runs p (job_failed state op d p).1
unfolding job_failed
job_failed-Runs state op d p =
    let db' = if is_imported d.state then p.db else set_download_state d.id state op.error p.db in
    append
      (if_case (Writes p.db) (is_imported d.state) (λ _. done)
        (λ _. of_Elsewhere (set_download_state-Elsewhere d.id state op.error p.db)))
      (annotate_items-Runs d.id (nonempty_or op.error (text "arrarr: job failed"))
        (item_ids_for_download d.id db') (start (set_db db' p)))

reach_item-Runs :
    (event : ℕ) (d : Download) (stage : Stage) (id : ℕ) (m : MediaItem) (s : Reached)
    → Runs s.projector (reach_item event d stage id m s).projector
unfolding reach_item
reach_item-Runs event d stage id m s =
    let cycle = job_cycle d id m s.projector.db in
    maybe_case (λ (r : Reached). Runs s.projector r.projector)
      (apply_stage id cycle stage event [] s.projector.db) done
      λ r h. append (apply_stage-Writes id cycle stage event [] s.projector.db r h) (
        maybe_case (λ q. Runs (set_db r.1 s.projector) q) m.request_id done
          (λ req _. announce-Runs r.0 id req stage cycle (set_db r.1 s.projector)))

reach_items-Runs :
    (event : ℕ) (d : Download) (stage : Stage) (ids : List ℕ) (s : Reached)
    → Runs s.projector (reach_items event d stage ids s).projector
unfolding reach_items
reach_items-Runs event d stage [] s = done
reach_items-Runs event d stage (id ∷ ids) s =
    append
      (maybe_case (λ (r : Reached). Runs s.projector r.projector) (get_media_item id s.projector.db)
        done (λ m _. reach_item-Runs event d stage id m s))
      (reach_items-Runs event d stage ids _)

advance_download-Writes :
    (state : DownloadState) (d : Download) (db : Db) → Writes db (advance_download state d db)
unfolding advance_download
advance_download-Writes state d db =
    if_case (Writes db)
      (ltb 0 (download_state_rank d.state)
        && ltb (download_state_rank d.state) (download_state_rank state))
      (λ _. of_Elsewhere (set_download_state-Elsewhere d.id state [] db)) (λ _. done)

record_progress-Writes :
    (op : JobTransitionOp) (d : Download) (db : Db) → Writes db (record_progress op d db)
unfolding record_progress
record_progress-Writes op d db =
    if_case (Writes db) (ltb 0 op.bytes_total)
      (λ _. of_Elsewhere (update_download_progress-Elsewhere d.id _ _ db)) (λ _. done)

job_advanced-Runs :
    (event : ℕ) (state : DownloadState) (stage : Stage) (op : JobTransitionOp) (d : Download)
    (p : Projector)
    → Runs p (job_advanced event state stage op d p).1
unfolding job_advanced
job_advanced-Runs event state stage op d p =
    let db' = record_progress op d (advance_download state d p.db) in
    let s = reach_items event d stage (item_ids_for_download d.id db') (start (set_db db' p)) in
    let all : Runs p s.projector = append (advance_download-Writes state d p.db) (
      append (record_progress-Writes op d (advance_download state d p.db))
        (reach_items-Runs event d stage (item_ids_for_download d.id db') (start (set_db db' p)))) in
    if_case (λ q. Runs p q) (is_empty op.local_path) (λ _. all) (λ _. all)

job_staged-Runs :
    (event : ℕ) (m : Option (DownloadState × Stage)) (op : JobTransitionOp) (d : Download)
    (p : Projector)
    → Runs p (job_staged event m op d p).1
unfolding job_staged
job_staged-Runs event none op d p = done
job_staged-Runs event (some (state, stage)) op d p = job_advanced-Runs event state stage op d p

job_dispatch-Runs :
    (event : ℕ) (to : JobState) (op : JobTransitionOp) (d : Download) (p : Projector)
    → Runs p (job_dispatch event to op d p).1
unfolding job_dispatch
job_dispatch-Runs event failed_job op d p = job_failed-Runs failed_dl op d p
job_dispatch-Runs event canceled_job op d p = job_failed-Runs canceled_dl op d p
job_dispatch-Runs event to op d p = job_staged-Runs event (arrarr_stage to) op d p

remember_nzo-Writes :
    (op : JobTransitionOp) (d : Download) (db : Db) → Writes db (remember_nzo op d db)
unfolding remember_nzo
remember_nzo-Writes op d db =
    if_case (Writes db) (not (is_empty op.nzo_id) && is_empty d.arrarr_nzo_id)
      (λ _. of_Elsewhere (set_download_arrarr_nzo-Elsewhere d.id op.nzo_id db)) (λ _. done)

pub apply_job_transition-Runs :
    (event : ℕ) (op : JobTransitionOp) (p : Projector) → Runs p (apply_job_transition event op p).1
unfolding apply_job_transition
apply_job_transition-Runs event op p =
    maybe_case (λ (r : Outcome × Projector). Runs p r.1) (find_arrarr_download op p.db) done
      λ d _.
        append (remember_nzo-Writes op d p.db)
          (job_dispatch-Runs event op.to op d (set_db (remember_nzo op d p.db) p))
