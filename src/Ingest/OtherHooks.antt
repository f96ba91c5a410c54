-- ===== src/Ingest/OtherHooks.antt =====
-- backend/internal/ingest/arrarr.go and tdarr.go. The fields of a payload that nothing reads are left
-- out of it.
use journarr.Base.{
  ℕ, true, false, not, ◌&&◌, ◌||◌, none, some, [], ◌++◌, if◌then◌else◌, is_empty, Text, text,
  text_eq,
}
use journarr.Pipeline.Ops.{
  JobState, submitted_job, downloading_job, completed_torbox_job, ready_job, failed_job,
  canceled_job, other_job, job_transition_op, transcode_op,
}
use journarr.Poll.Emit.{emit_event}
use journarr.Ingest.{Handler}

pub record ArrarrEvent : Type 0 where
  pub event : Text
  pub event_id : Text
  pub nzo_id : Text
  pub nzb_sha256 : Text
  pub to : Text
  pub bytes_downloaded : ℕ
  pub bytes_total : ℕ
  pub local_path : Text
  pub last_error : Text

-- The state that the projector reads from `to`.
unfoldable pub job_state : Text → JobState
job_state to =
    if text_eq to (text "SUBMITTED")
    then submitted_job
    else if text_eq to (text "DOWNLOADING")
    then downloading_job
    else if text_eq to (text "COMPLETED_TORBOX")
    then completed_torbox_job
    else if text_eq to (text "READY")
    then ready_job
    else if text_eq to (text "FAILED")
    then failed_job
    else if text_eq to (text "CANCELED")
    then canceled_job
    else other_job

-- The emitter's event id, which its retries repeat.
unfoldable pub arrarr_key : Text → Text
arrarr_key id = if is_empty id then [] else text "arrarr:" ++ id

unfoldable pub handle_arrarr : Handler ArrarrEvent
unfolding job_state arrarr_key emit_event
handle_arrarr none s = (false, s)
handle_arrarr (some e) s =
    if not (text_eq e.event (text "job.transition")) || is_empty e.to
    then (false, s)
    else if is_empty e.nzo_id && is_empty e.nzb_sha256
    then (false, s)
    else (
      true,
      emit_event (arrarr_key e.event_id)
          (job_transition_op (record {
            nzo_id = e.nzo_id;
            nzb_sha256 = e.nzb_sha256;
            to = job_state e.to;
            bytes_downloaded = e.bytes_downloaded;
            bytes_total = e.bytes_total;
            local_path = e.local_path;
            error = e.last_error;
          }))
          s,
    )

pub record TdarrEvent : Type 0 where
  pub event : Text
  pub phase : Text
  pub file : Text
  pub tmdb_id : ℕ
  pub tvdb_id : ℕ
  pub season : ℕ
  pub episode : ℕ

unfoldable pub tdarr_phase : TdarrEvent → Text
tdarr_phase t =
    if not (is_empty t.phase)
    then t.phase
    else if text_eq t.event (text "transcode.complete")
        || text_eq t.event (text "complete")
        || text_eq t.event (text "done")
    then text "complete"
    else text "start"

unfoldable pub tdarr_key : Text → Text → Text
tdarr_key phase file = if is_empty file then [] else text "tdarr:" ++ (phase ++ (text ":" ++ file))

unfoldable pub handle_tdarr : Handler TdarrEvent
unfolding tdarr_phase tdarr_key emit_event
handle_tdarr none s = (false, s)
handle_tdarr (some t) s =
    let phase = tdarr_phase t in
    (
      true,
      emit_event (tdarr_key phase t.file)
          (transcode_op (record {
            is_complete = text_eq phase (text "complete");
            file = t.file;
            tmdb_id = t.tmdb_id;
            tvdb_id = t.tvdb_id;
            season = t.season;
            episode = t.episode;
          }))
          s,
    )
