-- ===== src/Tests/Ingest.antt =====
-- The webhooks of backend/internal/ingest on concrete data.
use journarr.Base.{◌≡◌, refl, false, some, [], text}
use journarr.Poll.Emit.{Emitter}
use journarr.Ingest.OtherHooks.{ArrarrEvent, handle_arrarr}
use journarr.Ingest.Guarded.{handle_arrarr_again}
use journarr.Tests.Samples.{grabbed_db}

abbrev emitter : Emitter
emitter = record { db = grabbed_db; woken = false }

abbrev ready : ArrarrEvent
ready = record {
  event = text "job.transition";
  event_id = text "e1";
  nzo_id = text "abc";
  nzb_sha256 = [];
  to = text "READY";
  bytes_downloaded = 4096;
  bytes_total = 4096;
  local_path = text "/downloads/The.Matrix.1999";
  last_error = [];
}

arrarr_retry :
    (handle_arrarr (some ready) (handle_arrarr (some ready) emitter).1).1
    ≡ (handle_arrarr (some ready) emitter).1
unfolding handle_arrarr
arrarr_retry = handle_arrarr_again ready ready emitter refl refl refl
