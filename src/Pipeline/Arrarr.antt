-- ===== src/Pipeline/Arrarr.antt =====
-- backend/internal/pipeline/arrarr.go: the substages that Arrarr's jobs report.
pub mod Forward
use journarr.Base.{
  ℕ, Bool, true, false, not, ◌&&◌, Option, none, some, List, [], ◌∷◌, ◌==◌, ltb, if◌then◌else◌,
  maybe, or_else, from_option, Text, text, is_empty, nonempty_or,
}
use journarr.Pipeline.Ops.{
  JobTransitionOp, JobState, submitted_job, downloading_job, completed_torbox_job, ready_job,
  failed_job, canceled_job,
}
use journarr.Store.Stages.{
  Stage, submitted, cloud_downloading, pulling, downloaded, DownloadState, grabbed_dl, submitted_dl,
  cloud_downloading_dl, pulling_dl, downloaded_dl, imported_dl, failed_dl, canceled_dl, matched,
  orphan, ignored,
}
use journarr.Store.Rows.{Db, MediaItem, Download}
use journarr.Store.Items.{get_media_item, set_item_error}
use journarr.Store.Downloads.{
  find_download_by_client_id, find_download_by_arrarr_nzo, set_download_arrarr_nzo,
  set_download_state, update_download_progress, item_ids_for_download,
}
use journarr.Store.Correlate.{cycle_for_item_download, cycle_for_item_download_by_id}
use journarr.Store.Transitions.{apply_stage}
use journarr.Pipeline.Projector.{
  Projector, Outcome, outcome, set_db, publish, download_progress, announce,
}
use journarr.Pipeline.Imports.{first_of_two, touch_item}

-- arrarrStageMap.
unfoldable pub arrarr_stage : JobState → Option (DownloadState × Stage)
arrarr_stage submitted_job = some (submitted_dl, submitted)
arrarr_stage downloading_job = some (cloud_downloading_dl, cloud_downloading)
arrarr_stage completed_torbox_job = some (pulling_dl, pulling)
arrarr_stage ready_job = some (downloaded_dl, downloaded)
arrarr_stage _ = none

-- downloadStateRank, one higher: 0 stands for the rank -1 of the states that failed.
unfoldable pub download_state_rank : DownloadState → ℕ
download_state_rank grabbed_dl = 1
download_state_rank submitted_dl = 2
download_state_rank cloud_downloading_dl = 3
download_state_rank pulling_dl = 4
download_state_rank downloaded_dl = 5
download_state_rank imported_dl = 6
download_state_rank failed_dl = 0
download_state_rank canceled_dl = 0

-- findArrarrDownload: by the nzo id, by the infohash, then by the column arrarr_nzo_id.
unfoldable pub find_arrarr_download : JobTransitionOp → Db → Option Download
find_arrarr_download op db =
    or_else (if is_empty op.nzo_id then none else find_download_by_client_id op.nzo_id db) (
      or_else (if is_empty op.nzb_sha256 then none else find_download_by_client_id op.nzb_sha256 db)
        (if is_empty op.nzo_id then none else find_download_by_arrarr_nzo op.nzo_id db))

unfoldable pub remember_nzo : JobTransitionOp → Download → Db → Db
remember_nzo op d db =
    if not (is_empty op.nzo_id) && is_empty d.arrarr_nzo_id
    then set_download_arrarr_nzo d.id op.nzo_id db
    else db

pub record Reached : Type 0 where
  pub request_id : ℕ
  pub first : ℕ
  pub projector : Projector

unfoldable pub annotate_item : ℕ → Text → ℕ → MediaItem → Projector → Projector
annotate_item download msg id m p =
    if cycle_for_item_download_by_id id download p.db == m.current_cycle
    then set_db (set_item_error id msg p.db) p
    else p

-- annotateDownloadItems: the error goes to the items whose current cycle is the download's.
unfoldable pub annotate_items : ℕ → Text → List ℕ → Reached → Reached
unfolding annotate_item
annotate_items download msg [] s = s
annotate_items download msg (id ∷ ids) s = annotate_items download msg ids (
    maybe (get_media_item id s.projector.db) s λ m. record {
      request_id = from_option s.request_id m.request_id;
      first = first_of_two s.first id;
      projector = touch_item m (annotate_item download msg id m s.projector);
    })

abbrev pub start : Projector → Reached
start p = record { request_id = 0; first = 0; projector = p }

abbrev pub is_imported : DownloadState → Bool
is_imported imported_dl = true
is_imported _ = false

unfoldable pub job_failed :
    DownloadState → JobTransitionOp → Download → Projector → Outcome × Projector
unfolding annotate_items
job_failed state op d p =
    let db' = if is_imported d.state then p.db else set_download_state d.id state op.error p.db in
    let msg = nonempty_or op.error (text "arrarr: job failed") in
    let s = annotate_items d.id msg (item_ids_for_download d.id db') (start (set_db db' p)) in
    (outcome matched s.request_id s.first d.id, s.projector)

-- Forward only: `d` is the row as it was read.
unfoldable pub advance_download : DownloadState → Download → Db → Db
unfolding download_state_rank
advance_download state d db =
    if ltb 0 (download_state_rank d.state)
      && ltb (download_state_rank d.state) (download_state_rank state)
    then set_download_state d.id state [] db
    else db

unfoldable pub record_progress : JobTransitionOp → Download → Db → Db
record_progress op d db =
    if ltb 0 op.bytes_total
    then update_download_progress d.id op.bytes_downloaded op.bytes_total db
    else db

-- The cycle of the item that the download is linked to, else the current one.
unfoldable pub job_cycle : Download → ℕ → MediaItem → Db → ℕ
job_cycle d id m db =
    let linked = cycle_for_item_download id d.client_download_id db in
    if ltb 0 linked then linked else m.current_cycle

unfoldable pub reach_item : ℕ → Download → Stage → ℕ → MediaItem → Reached → Reached
unfolding job_cycle
reach_item event d stage id m s =
    let cycle = job_cycle d id m s.projector.db in
    maybe (apply_stage id cycle stage event [] s.projector.db) s λ r. record {
      request_id = if r.0 then from_option s.request_id m.request_id else s.request_id;
      first = first_of_two s.first id;
      projector =
          maybe m.request_id (set_db r.1 s.projector)
            λ req. announce r.0 id req stage cycle (set_db r.1 s.projector);
    }

unfoldable pub reach_items : ℕ → Download → Stage → List ℕ → Reached → Reached
unfolding reach_item
reach_items event d stage [] s = s
reach_items event d stage (id ∷ ids) s =
    reach_items event d stage ids
      (maybe (get_media_item id s.projector.db) s λ m. reach_item event d stage id m s)

unfoldable pub job_advanced :
    ℕ → DownloadState → Stage → JobTransitionOp → Download → Projector → Outcome × Projector
unfolding advance_download record_progress reach_items
job_advanced event state stage op d p =
    let db' = record_progress op d (advance_download state d p.db) in
    let s = reach_items event d stage (item_ids_for_download d.id db') (start (set_db db' p)) in
    let progress = download_progress d.id op.bytes_downloaded op.bytes_total in
    (
      outcome matched s.request_id s.first d.id,
      if is_empty op.local_path then s.projector else publish progress s.projector,
    )

unfoldable pub job_staged :
    ℕ
    → Option (DownloadState × Stage)
    → JobTransitionOp
    → Download
    → Projector
    → Outcome × Projector
unfolding job_advanced
job_staged event none op d p = (outcome ignored 0 0 d.id, p)
job_staged event (some (state, stage)) op d p = job_advanced event state stage op d p

unfoldable pub job_dispatch :
    ℕ → JobState → JobTransitionOp → Download → Projector → Outcome × Projector
unfolding job_failed job_staged arrarr_stage
job_dispatch event failed_job op d p = job_failed failed_dl op d p
job_dispatch event canceled_job op d p = job_failed canceled_dl op d p
job_dispatch event to op d p = job_staged event (arrarr_stage to) op d p

-- applyJobTransition.
unfoldable pub apply_job_transition : ℕ → JobTransitionOp → Projector → Outcome × Projector
unfolding job_dispatch remember_nzo find_arrarr_download
apply_job_transition event op p =
    maybe (find_arrarr_download op p.db) (outcome orphan 0 0 0, p)
      λ d. job_dispatch event op.to op d (set_db (remember_nzo op d p.db) p)
