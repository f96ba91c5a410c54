-- ===== src/Poll/ArrQueue.antt =====
-- backend/internal/poll/arrqueue.go: the progress of running downloads, and imports that are blocked.
-- The queues of the arrs are a parameter; an arr whose queue cannot be read is not in the list.
use journarr.Base.{
  ℕ, ◌-◌, Bool, not, ◌&&◌, ◌||◌, Option, none, List, [], ◌∷◌, ◌++◌, if◌then◌else◌, maybe, last,
  exists, is_empty, Text, text, text_eq,
}
use journarr.Store.Rows.{Db, Download}
use journarr.Store.Items.{set_item_error}
use journarr.Store.Normalize.{normalize_download_id}
use journarr.Store.Downloads.{active_downloads, update_download_progress, item_ids_for_download}
use journarr.Pipeline.Projector.{Message, download_progress}

pub record QueueRecord : Type 0 where
  pub download_id : Text
  pub size : ℕ
  pub size_left : ℕ
  pub tracked_download_status : Text
  pub error_message : Text

-- The database, and what was published.
pub record QueuePass : Type 0 where
  pub db : Db
  pub published : List Message

-- byClientID[key]: the newest download of the client id.
unfoldable pub by_client_id : List Download → Text → Option Download
by_client_id active key = last (λ (d : Download). text_eq d.client_download_id key) active

abbrev pub has_seen : List Text → Text → Bool
has_seen seen key = exists (λ k. text_eq k key) seen

abbrev pub is_blocked : QueueRecord → Bool
is_blocked r =
    (text_eq r.tracked_download_status (text "warning")
      || text_eq r.tracked_download_status (text "error"))
    && not (is_empty r.error_message)

unfoldable pub set_item_errors : List ℕ → Text → Db → Db
unfolding set_item_error
set_item_errors [] msg db = db
set_item_errors (id ∷ ids) msg db = set_item_errors ids msg (set_item_error id msg db)

-- A record of a running download; `downloaded` stops at 0.
unfoldable pub report_progress : QueueRecord → Download → QueuePass → QueuePass
unfolding update_download_progress set_item_errors item_ids_for_download
report_progress r d s =
    let downloaded = r.size - r.size_left in
    let db = update_download_progress d.id downloaded r.size s.db in
    record {
      db =
          if is_blocked r
          then set_item_errors (item_ids_for_download d.id db) r.error_message db
          else db;
      published = s.published ++ download_progress d.id downloaded r.size ∷ [];
    }

-- The records of one arr; of a season pack only the first counts.
unfoldable pub read_queue : List Download → List QueueRecord → List Text → QueuePass → QueuePass
unfolding by_client_id report_progress
read_queue active [] seen s = s
read_queue active (r ∷ rs) seen s =
    let key = normalize_download_id r.download_id in
    let others = read_queue active rs seen s in
    maybe (if has_seen seen key then none else by_client_id active key) others
      λ d. read_queue active rs (key ∷ seen) (report_progress r d s)

unfoldable pub read_queues : List Download → List (List QueueRecord) → QueuePass → QueuePass
unfolding read_queue
read_queues active [] s = s
read_queues active (q ∷ qs) s = read_queues active qs (read_queue active q [] s)

-- pass.
unfoldable pub queue_pass : List (List QueueRecord) → Db → QueuePass
unfolding read_queues active_downloads
queue_pass queues db = read_queues (active_downloads db) queues (record { db = db; published = [] })
