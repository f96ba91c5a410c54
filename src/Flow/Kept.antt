-- ===== src/Flow/Kept.antt =====
-- What the tasks of the worker of backend/internal/flow/controller.go do to the queue while they run.
use journarr.Base.{
  ℕ, ◌+◌, ◌≡◌, refl, ap, ◌∙◌, Bool, not, ◌&&◌, Option, none, List, [], ◌∷◌, arith, ◌==◌,
  if◌then◌else◌, is_some, from_option, maybe_case, if_case, exists, Text, is_empty,
}
use mathlib.Core.List.{reverse}
use journarr.Pipeline.Ops.{Arr}
use journarr.Store.Stages.{
  ItemType, movie_item, episode_item, TaskKind, jellyfin_scan, notify, retry, other_task,
  request_target, is_terminal,
}
use journarr.Store.Rows.{Db, MediaItem, Request, FlowTask, Download}
use journarr.Store.Items.{
  get_media_item, set_item_radarr_movie_id, bump_item_cycle, items_for_request,
}
use journarr.Store.Requests.{get_request}
use journarr.Store.Downloads.{set_download_state, downloads_for_item_cycle}
use journarr.Store.Events.{insert_event}
use journarr.Store.Tasks.{release_flow_task_dedupe, enqueue_flow_task, notify_task_key}
use journarr.Pipeline.Ops.{NotifiedOp, notified_op}
use journarr.Pipeline.Grabs.{ItemMap}
use journarr.Actions.Clients.{Clients, Intervention, has_arr, arr_of_type, write}
use journarr.Actions.Retry as Retrying
use journarr.Actions.Writes.{search_again-db}
use journarr.Flow.Settings.{Settings}
use journarr.Flow.Controller.{
  Controller, Notification, catch_stragglers, record_notified, notified_payload, send,
  notify_pending, items_to_send, pending_items, item_ids, notification, exec_notify, exec,
  straggler_delay, is_at,
}

-- What a task reads and writes of the queue.
abbrev pub queue_of : Db → List FlowTask × ℕ
queue_of db = (db.tasks, db.now)

-- A property of the queue that the writes of catchStragglers keep.
pub record IsKept (P : Db → Type 0) : Type 0 where
  pub same : (a b : Db) → queue_of b ≡ queue_of a → P a → P b
  pub freed : (task : ℕ) (db : Db) → P db → P (release_flow_task_dedupe task db)
  pub noticed :
      (id : ℕ) (db : Db)
      → P db
      → P
          (enqueue_flow_task notify request_target id
            (notify_task_key id)
            (db.now + straggler_delay)
            db).1

insert_event-queue :
    (key : Text) (op : NotifiedOp) (db : Db)
    → queue_of (insert_event key (notified_op op) db).1 ≡ queue_of db
unfolding insert_event
insert_event-queue key op db = ground arith

supersede_all-queue :
    (arr : Arr) (ds : List Download) (s : ItemMap × Intervention)
    → queue_of (Retrying.supersede_all arr ds s).1.db ≡ queue_of s.1.db
unfolding Retrying.supersede_all Retrying.supersede set_download_state
supersede_all-queue arr [] s = refl
supersede_all-queue arr (d ∷ ds) (affected, s) =
    supersede_all-queue arr ds
      (if is_terminal d.state then (affected, s) else Retrying.supersede arr d (affected, s))
    ∙ if_case (λ (t : ItemMap × Intervention). queue_of t.1.db ≡ queue_of s.db)
        (is_terminal d.state) (λ _. refl)
        (λ _.
          if_case (λ (a : Intervention). queue_of a.db ≡ queue_of s.db)
            (is_empty d.client_download_id) (λ _. refl) (λ _. refl))

resolve_movie-queue :
    (c : Clients) (m : MediaItem) (db : Db)
    → queue_of (Retrying.resolve_movie c m db).1 ≡ queue_of db
unfolding Retrying.resolve_movie set_item_radarr_movie_id
resolve_movie-queue c m db =
    maybe_case (λ (r : Option ℕ × Db). queue_of r.1 ≡ queue_of db) m.radarr_movie_id
      (maybe_case (λ (r : Option ℕ × Db). queue_of r.1 ≡ queue_of db) m.tmdb_id refl
        λ tmdb _.
          maybe_case (λ (r : Option ℕ × Db). queue_of r.1 ≡ queue_of db)
            (if c.has_radarr then c.movie_by_tmdb_id tmdb else none) refl (λ movie _. refl))
      (λ movie _. refl)

find_arr_id-queue :
    (c : Clients) (t : ItemType) (m : MediaItem) (f : Retrying.Found)
    → queue_of (Retrying.find_arr_id c t m f).db ≡ queue_of f.db
unfolding Retrying.find_arr_id
find_arr_id-queue c movie_item m f = resolve_movie-queue c m f.db
find_arr_id-queue c episode_item m f = refl

bump_all-queue :
    (c : Clients) (ms : ItemMap) (f : Retrying.Found)
    → queue_of (Retrying.bump_all c ms f).db ≡ queue_of f.db
unfolding Retrying.bump_all Retrying.bump_one bump_item_cycle
bump_all-queue c [] f = refl
bump_all-queue c ((id, m) ∷ rest) f =
    bump_all-queue c rest (Retrying.bump_one c m f) ∙ find_arr_id-queue c m.media_type m f

retry_item-queue :
    (range : ItemMap → ItemMap) (c : Clients) (id : ℕ) (m : MediaItem) (s : Intervention)
    → queue_of (Retrying.retry_item range c id m s).1.db ≡ queue_of s.db
unfolding Retrying.retry_item
retry_item-queue range c id m s =
    let arr = arr_of_type m.media_type in
    let ds = reverse (downloads_for_item_cycle id m.current_cycle s.db) in
    let (affected, s') = Retrying.supersede_all arr ds ((id, m) ∷ [], s) in
    let start : Retrying.Found = record { movies = []; episodes = []; db = s'.db } in
    let found = Retrying.bump_all c (range affected) start in
    if_case (λ (r : Bool × Intervention). queue_of r.1.db ≡ queue_of s.db) (has_arr c arr)
      (λ _.
        ap queue_of (search_again-db c arr found.movies found.episodes (write found.db s'))
        ∙ bump_all-queue c (range affected) start
        ∙ supersede_all-queue arr ds ((id, m) ∷ [], s))
      (λ _. refl)

retry-queue :
    (range : ItemMap → ItemMap) (c : Clients) (id : ℕ) (s : Intervention)
    → queue_of (Retrying.retry range c id s).1.db ≡ queue_of s.db
unfolding Retrying.retry
retry-queue range c id s =
    maybe_case (λ (r : Bool × Intervention). queue_of r.1.db ≡ queue_of s.db)
      (get_media_item id s.db) refl (λ m _. retry_item-queue range c id m s)

module _ (range : ItemMap → ItemMap) (c : Clients) (refresh : ℕ → Bool)
    (notifier : Option (List Notification → Notification → Bool)) (window : Db → Db)
    (P : Db → Type 0) (k : IsKept P) (others : (db : Db) → P db → P (window db)) where
  catch_stragglers-Keeps :
      (settings : Settings) (task id : ℕ) (sent : List ℕ) (db : Db)
      → P db
      → P (catch_stragglers settings task id sent db)
  unfolding catch_stragglers
  catch_stragglers-Keeps settings task id sent db inv =
      if_case P
        (exists (λ m. is_at settings m && not (exists (λ i. i == m.id) sent))
          (items_for_request id db))
        (λ _. k.noticed id (release_flow_task_dedupe task db) (k.freed task db inv)) (λ _. inv)

  send-Keeps :
      (r : Request) (ms : List MediaItem) (s : Controller)
      → P s.db
      → P (send range c refresh notifier window r ms s).1.db
  unfolding send
  send-Keeps r [] s inv = inv
  send-Keeps r (m ∷ ms) s inv =
      maybe_case (λ (t : Bool × Controller). P t.1.db) notifier inv
        λ accepts _.
          if_case (λ (t : Bool × Controller). P t.1.db) (accepts s.asked (notification r (m ∷ ms)))
            (λ _. others s.db inv) (λ _. inv)

  record_notified-Keeps :
      (task : ℕ) (r : Request) (ids : List ℕ) (s : Controller)
      → P s.db
      → P (record_notified task r ids s).db
  unfolding record_notified
  record_notified-Keeps task r ids s inv =
      let db' = (insert_event [] (notified_op (notified_payload r ids)) s.db).1 in
      catch_stragglers-Keeps s.settings task r.id ids db'
        (k.same s.db db' (insert_event-queue [] (notified_payload r ids) s.db) inv)

  notify_pending-Keeps :
      (task : ℕ) (r : Request) (ms : List MediaItem) (s : Controller)
      → P s.db
      → P (notify_pending range c refresh notifier window task r ms s).1.db
  unfolding notify_pending
  notify_pending-Keeps task r [] s inv = inv
  notify_pending-Keeps task r (m ∷ ms) s inv =
      let (ok, s') =
        send range c refresh notifier window r (items_to_send s.settings r.id s.db) s in
      let after = send-Keeps r (items_to_send s.settings r.id s.db) s inv in
      if_case (λ (t : Bool × Controller). P t.1.db) ok
        (λ _. record_notified-Keeps task r (item_ids (m ∷ ms)) s' after) (λ _. after)

  exec_notify-Keeps :
      (t : FlowTask) (s : Controller)
      → P s.db
      → P (exec_notify range c refresh notifier window t s).1.db
  unfolding exec_notify
  exec_notify-Keeps t s inv =
      let id = from_option 0 t.target_id in
      if_case (λ (r : Bool × Controller). P r.1.db) (is_some notifier)
        (λ _.
          maybe_case (λ (r : Bool × Controller). P r.1.db) (get_request id s.db) inv
            (λ r _. notify_pending-Keeps t.id r (pending_items s.settings id s.db) s inv))
        (λ _. inv)

  pub exec-Keeps :
      (k : TaskKind) (t : FlowTask) (s : Controller)
      → P s.db
      → P (exec range c refresh notifier window k t s).1.db
  unfolding exec
  exec-Keeps jellyfin_scan t s inv = inv
  exec-Keeps retry t s inv =
      k.same s.db _
        (retry-queue range c (from_option 0 t.target_id) (record { db = s.db; calls = s.calls }))
        inv
  exec-Keeps notify t s inv = exec_notify-Keeps t s inv
  exec-Keeps other_task t s inv = inv
