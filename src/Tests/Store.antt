-- ===== src/Tests/Store.antt =====
-- The database of backend/internal/store on concrete data.
use journarr.Base.{
  ◌≡◌, refl, ◌↔◌, ◌⊎◌, true, false, not, ◌&&◌, none, some, [], ◌∷◌, ◌++◌, arith, ◌==◌, length,
  select, exists, All, text,
}
use Prim.Native.Nat.{max}
use journarr.Pipeline.Ops.{unreadable, radarr}
use journarr.Store.Stages.{
  grabbed, imported, active, completed, notify, request_target, done_task, pending_task,
}
use journarr.Store.Rows.{Db, MediaItem, Request}
use journarr.Store.Items.{upsert_item, insert_row, get_media_item}
use journarr.Store.Transitions.{apply_stage, has_transition}
use journarr.Store.Transitions.Pointer.{applied_db, item_position, position}
use journarr.Store.Transitions.Convergence.{apply_stage_lem, apply_stage_idem, apply_stage_comm}
use journarr.Store.Requests.{
  derived_status, get_request, is_done, of_request, recompute_request_status,
}
use journarr.Store.Requests.Rollup.{
  recompute_request_status_lem, derived_status_lem, recompute_request_status_idem,
}
use journarr.Store.Events.{insert_event, is_unprocessed, has_key}
use journarr.Store.Events.Keyed.{
  HasEventKeys, LogStep-HasEventKeys, inserts, insert_event_again, insert_event_lem,
}
use journarr.Store.Rows.{Event, FlowTask}
use journarr.Store.Tasks.{enqueue_flow_task, finish_flow_task, task_status_eq}
use journarr.Store.Tasks.Queue.{
  IsQueue, QueueStep-IsQueue, enqueues, finishes, enqueue_flow_task_lem,
}
use journarr.Store.Normalize.{normalize_download_id}
use journarr.Store.Normalize.Idempotence.{normalize_download_id_idem}
use journarr.Store.Downloads.{NewDownload, upsert_download}
use journarr.Store.Downloads.Replay.{upsert_download_again}
use journarr.Store.Stuck.{mark_stuck}
use journarr.Store.Stuck.Guards.{flagged, MayFlag, mark_stuck_lem}
use journarr.Store.Removal.{Tombstone, in_list, purge_requests}
use journarr.Store.Removal.Purge.{is_request, purge_requests_lem}
use journarr.Store.Removal.References.{purge_requests-HasReferences}
use journarr.Store.Removal.Downloads.{Leaves, purge_requests-downloads}
use journarr.Store.Writes.References.{HasReferences}
use journarr.Tests.Samples.{
  grabbed_db, grabbed_db-IsSound, matrix_item, matrix_request, bare_db, with_item,
}

abbrev row : MediaItem
row = insert_row 1 1000 matrix_item

row-there : get_media_item 1 with_item ≡ some row
unfolding get_media_item with_item upsert_item
row-there = refl

apply_stage_lem_example :
    (db' : Db) × (m' : MediaItem) × (apply_stage 1 1 imported 2 [] with_item
      ≡ some (not (has_transition 1 1 imported with_item), db'))
    × (has_transition 1 1 imported db' ≡ true)
    × (get_media_item 1 db' ≡ some m')
    × (item_position m' ≡ max (item_position row) (position 1 imported))
apply_stage_lem_example = apply_stage_lem 1 1 imported 2 [] with_item row row-there

apply_stage_idem_example :
    apply_stage 1 1 grabbed 9 (text "poll") (applied_db 1 1 grabbed 2 (text "hook") with_item)
    ≡ some (false, applied_db 1 1 grabbed 2 (text "hook") with_item)
unfolding with_item upsert_item
apply_stage_idem_example =
    apply_stage_idem 1 1 grabbed 2 9 (text "hook") (text "poll") with_item refl

apply_stage_comm_example :
    (a b : MediaItem) × (get_media_item 1
        (applied_db 1 1 grabbed 3 [] (applied_db 1 2 imported 2 [] with_item))
      ≡ some a)
    × (get_media_item 1 (applied_db 1 2 imported 2 [] (applied_db 1 1 grabbed 3 [] with_item))
        ≡ some b)
    × (a.current_cycle ≡ b.current_cycle)
    × (a.current_stage ≡ b.current_stage)
apply_stage_comm_example = apply_stage_comm 1 2 1 imported grabbed 2 3 [] [] with_item row row-there

status_recomputed :
    ((recompute_request_status 1 bare_db).0 ≡ some (derived_status 1 active bare_db))
    × (r' : Request) × (get_request 1 (recompute_request_status 1 bare_db).1 ≡ some r')
    × (r'.status ≡ derived_status 1 active bare_db)
unfolding get_request
status_recomputed = recompute_request_status_lem 1 bare_db matrix_request refl

derived_status_lem_example :
    ((derived_status 1 active with_item ≡ completed)
      ↔ All (λ m. of_request 1 m ≡ true → is_done m ≡ true) with_item.items)
    × ((derived_status 1 active with_item ≡ completed)
        ⊎ (derived_status 1 active with_item ≡ active))
unfolding with_item upsert_item
derived_status_lem_example = derived_status_lem 1 active with_item refl refl

status_recomputed_again :
    recompute_request_status 1 (recompute_request_status 1 with_item).1
    ≡ ((recompute_request_status 1 with_item).0, (recompute_request_status 1 with_item).1)
status_recomputed_again = recompute_request_status_idem 1 with_item

bare_db-HasEventKeys : HasEventKeys bare_db
bare_db-HasEventKeys = record { id = λ id. omega arith; key = λ k. omega arith }

LogStep-HasEventKeys_example : HasEventKeys (insert_event (text "a") unreadable bare_db).1
LogStep-HasEventKeys_example =
    LogStep-HasEventKeys bare_db (insert_event (text "a") unreadable bare_db).1
      (inserts (text "a") unreadable bare_db) bare_db-HasEventKeys

insert_event_again_example :
    insert_event (text "a") unreadable (insert_event (text "a") unreadable bare_db).1
    ≡ ((0, false), (insert_event (text "a") unreadable bare_db).1)
insert_event_again_example = insert_event_again b'a' [] unreadable unreadable bare_db

event_appended :
    (e : Event) × (select is_unprocessed (insert_event (text "a") unreadable bare_db).1.events
      ≡ select is_unprocessed bare_db.events ++ e ∷ [])
    × (e.payload ≡ unreadable)
    × ((insert_event (text "a") unreadable bare_db).0 ≡ (e.id, true))
    × (exists (λ (x : Event). x.id == e.id) bare_db.events ≡ false)
event_appended = insert_event_lem (text "a") unreadable bare_db refl

abbrev queued_db : Db
queued_db = (enqueue_flow_task notify request_target 1 (text "notify:req:1") 60 bare_db).1

queued_db-IsQueue : IsQueue queued_db
queued_db-IsQueue =
    QueueStep-IsQueue bare_db queued_db
      (enqueues notify request_target 1 (text "notify:req:1") 60 bare_db)
      (record { id = λ id. omega arith; key = λ k. omega arith; freed = tt })

finished_db-IsQueue : IsQueue (finish_flow_task 1 done_task queued_db)
finished_db-IsQueue =
    QueueStep-IsQueue queued_db (finish_flow_task 1 done_task queued_db)
      (finishes 1 done_task queued_db) queued_db-IsQueue

QueueStep-IsQueue_example : IsQueue (finish_flow_task 1 done_task queued_db)
QueueStep-IsQueue_example =
    QueueStep-IsQueue queued_db (finish_flow_task 1 done_task queued_db)
      (finishes 1 done_task queued_db) queued_db-IsQueue

task_enqueued :
    (enqueue_flow_task notify request_target 1
      (text "notify:req:1")
      90
      (finish_flow_task 1 done_task queued_db)).0
    ≡ not (
        exists
          (λ (t : FlowTask).
            task_status_eq t.status pending_task
            && has_key (some (text "notify:req:1")) t.dedupe_key)
          (finish_flow_task 1 done_task queued_db).tasks)
task_enqueued =
    enqueue_flow_task_lem notify request_target 1 b'n' (text "otify:req:1") 90
      (finish_flow_task 1 done_task queued_db) finished_db-IsQueue

normalized_once :
    normalize_download_id (normalize_download_id (text " SABnzbd_NZO_1 "))
    ≡ normalize_download_id (text " SABnzbd_NZO_1 ")
normalized_once = normalize_download_id_idem (text " SABnzbd_NZO_1 ")

abbrev hook : NewDownload
hook = record {
  client_download_id = text "HASH";
  arr = radarr;
  source = text "torrent";
  release_title = text "The.Matrix";
  indexer = [];
  size_bytes = none;
}

abbrev poll : NewDownload
poll = record hook { client_download_id = text " hash"; size_bytes = some 700 }

same_hash :
    normalize_download_id poll.client_download_id ≡ normalize_download_id hook.client_download_id
unfolding normalize_download_id
same_hash = refl

upsert_download_again_example :
    let (id, db') = upsert_download hook bare_db in
    let (id', db'') = upsert_download poll db' in
    (id' ≡ id) × (length db''.downloads ≡ length db'.downloads)
upsert_download_again_example = upsert_download_again hook poll bare_db same_hash

mark_stuck_lem_example :
    (get_media_item 1 (mark_stuck ((grabbed, 60) ∷ []) with_item).1 ≡ some row)
    ⊎ ((get_media_item 1 (mark_stuck ((grabbed, 60) ∷ []) with_item).1
          ≡ some (flagged with_item row))
        × MayFlag with_item row)
mark_stuck_lem_example = mark_stuck_lem ((grabbed, 60) ∷ []) with_item 1 row row-there

abbrev tombstone : Tombstone
tombstone = record {
  title = text "The Matrix";
  sonarr_series_ids = [];
  radarr_movie_ids = 5 ∷ [];
  seerr_request_ids = 7 ∷ [];
}

purge_requests_lem_example :
    (in_list (0 ∷ 1 ∷ []) 1 ≡ true
      → (exists (is_request 1) (purge_requests (1 ∷ []) tombstone with_item).requests ≡ false)
        × (exists (of_request 1) (purge_requests (1 ∷ []) tombstone with_item).items ≡ false))
    × (in_list (0 ∷ 1 ∷ []) 1 ≡ false
        → (select (is_request 1) (purge_requests (1 ∷ []) tombstone with_item).requests
            ≡ select (is_request 1) with_item.requests)
          × (select (of_request 1) (purge_requests (1 ∷ []) tombstone with_item).items
              ≡ select (of_request 1) with_item.items))
purge_requests_lem_example = purge_requests_lem 1 [] tombstone with_item 1

purge_requests-downloads_example :
    Leaves (0 ∷ 1 ∷ []) grabbed_db (purge_requests (1 ∷ []) tombstone grabbed_db) 1
purge_requests-downloads_example = purge_requests-downloads 1 [] tombstone grabbed_db 1

purged : HasReferences (purge_requests (1 ∷ []) tombstone grabbed_db)
purged = purge_requests-HasReferences 1 [] tombstone grabbed_db grabbed_db-IsSound.references
