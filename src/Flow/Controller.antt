-- ===== src/Flow/Controller.antt =====
-- The worker of backend/internal/flow/controller.go: it drains the due tasks, sends completion notices
-- and applies the rules that depend on time. The notifier, Jellyfin and the clients of the actions are
-- parameters, and so is what other goroutines write while a notice is sent (`window`).
use journarr.Base.{
  ℕ, ◌+◌, ◌*◌, Bool, true, false, not, ◌&&◌, Option, List, [], ◌∷◌, ◌++◌, map, leb, ◌==◌,
  if◌then◌else◌, is_some, from_option, maybe, select, exists, Text, text_eq,
}
use journarr.Pipeline.Ops.{RequestType, NotifiedOp, notified_op}
use journarr.Store.Stages.{
  stage_key, ItemType, episode_item, movie_item, TaskKind, jellyfin_scan, notify, retry, other_task,
  request_target, TaskStatus, done_task, failed_task, dead_task,
}
use journarr.Store.Rows.{Db, MediaItem, Request, FlowTask}
use journarr.Store.Items.{items_for_request}
use journarr.Store.Requests.{get_request}
use journarr.Store.Transitions.{is_notified_item}
use journarr.Store.Events.{insert_event}
use journarr.Store.Tasks.{
  claim_flow_tasks, finish_flow_task, reschedule_flow_task, release_flow_task_dedupe,
  enqueue_flow_task, notify_task_key,
}
use journarr.Pipeline.Grabs.{ItemMap}
use journarr.Actions.Clients.{Clients, Call}
use journarr.Actions.Retry as Actions
use journarr.Flow.Settings.{Settings, notify_stage}

pub record NotifyEpisode : Type 0 where
  pub season : ℕ
  pub episode : ℕ
  pub title : Text

-- clients.Notification; its IdempotencyKey is a hash of the request and the announced items, which
-- stand here instead.
pub record Notification : Type 0 where
  pub media_type : RequestType
  pub title : Text
  pub poster_url : Text
  pub tmdb_id : ℕ
  pub year : ℕ
  pub episodes : List NotifyEpisode
  pub request_id : ℕ
  pub announced : List ℕ

-- A row of service_health, its `detail` decoded to the state of the WhatsApp session.
pub record ServiceHealth : Type 0 where
  pub service : Text
  pub status : Text
  pub waha : Text

-- `asked` are the notices that were handed to the notifier, delivered or not.
pub record Controller : Type 0 where
  pub db : Db
  pub settings : Settings
  pub health : List ServiceHealth
  pub health_id : Text
  pub next_revive : ℕ
  pub asked : List Notification
  pub calls : List Call

abbrev pub with_db : Db → Controller → Controller
with_db db s = record s { db = db }

-- it.CurrentStage == notifyStage.
unfoldable pub is_at : Settings → MediaItem → Bool
unfolding notify_stage
is_at settings m = text_eq (stage_key m.current_stage) (notify_stage settings)

unfoldable pub pending_items : Settings → ℕ → Db → List MediaItem
unfolding is_at
pending_items settings id db = select (is_at settings) (items_for_request id db)

-- The pending items that no message was sent about, in any cycle.
unfoldable pub items_to_send : Settings → ℕ → Db → List MediaItem
unfolding pending_items
items_to_send settings id db =
    select (λ m. not (is_notified_item id m.id db)) (pending_items settings id db)

abbrev pub item_ids : List MediaItem → List ℕ
item_ids ms = map (λ m. m.id) ms

abbrev pub is_episode : ItemType → Bool
is_episode episode_item = true
is_episode movie_item = false

unfoldable pub episodes_of : List MediaItem → List NotifyEpisode
episodes_of [] = []
episodes_of (m ∷ ms) =
    let rest = episodes_of ms in
    maybe m.season_number rest λ season. maybe m.episode_number rest λ episode.
      if is_episode m.media_type
      then record { season = season; episode = episode; title = m.title } ∷ rest
      else rest

unfoldable pub notification : Request → List MediaItem → Notification
unfolding episodes_of
notification r ms = record {
  media_type = r.media_type;
  title = r.title;
  poster_url = r.poster_url;
  tmdb_id = from_option 0 r.tmdb_id;
  year = from_option 0 r.year;
  episodes = episodes_of ms;
  request_id = r.id;
  announced = item_ids ms;
}

abbrev pub notified_payload : Request → List ℕ → NotifiedOp
notified_payload r ids = record {
  media_type = r.media_type;
  tmdb_id = 0;
  title = r.title;
  episodes = [];
  media_item_ids = ids;
}

abbrev pub straggler_delay : ℕ
straggler_delay = 20

-- Items that reached the stage while the notice was sent get a task of their own.
unfoldable pub catch_stragglers : Settings → ℕ → ℕ → List ℕ → Db → Db
unfolding is_at
catch_stragglers settings task id sent db =
    let freed = release_flow_task_dedupe task db in
    if exists (λ m. is_at settings m && not (exists (λ i. i == m.id) sent))
      (items_for_request id db)
    then (enqueue_flow_task notify request_target id (notify_task_key id)
        (freed.now + straggler_delay) freed).1
    else db

unfoldable pub record_notified : ℕ → Request → List ℕ → Controller → Controller
unfolding catch_stragglers
record_notified task r ids s =
    let db' = (insert_event [] (notified_op (notified_payload r ids)) s.db).1 in
    with_db (catch_stragglers s.settings task r.id ids db') s

abbrev pub max_task_attempts : ℕ
max_task_attempts = 4

abbrev pub retry_backoff : ℕ
retry_backoff = 120

abbrev pub exhausted : TaskKind → TaskStatus
exhausted notify = dead_task
exhausted _ = failed_task

module _ (range : ItemMap → ItemMap) (c : Clients) (refresh : ℕ → Bool)
    (notifier : Option (List Notification → Notification → Bool)) (window : Db → Db) where
  -- The message, unless every pending item was announced before; false is an error of the notifier.
  unfoldable pub send : Request → List MediaItem → Controller → Bool × Controller
  unfolding notification
  send r [] s = (true, s)
  send r (m ∷ ms) s =
      let n = notification r (m ∷ ms) in
      let asked = record s { asked = s.asked ++ n ∷ [] } in
      maybe notifier (false, s)
        λ accepts.
          if accepts s.asked n then (true, with_db (window asked.db) asked) else (false, asked)

  unfoldable pub notify_pending : ℕ → Request → List MediaItem → Controller → Bool × Controller
  unfolding send record_notified items_to_send
  notify_pending task r [] s = (true, s)
  notify_pending task r (m ∷ ms) s =
      let (ok, s') = send r (items_to_send s.settings r.id s.db) s in
      if ok then (true, record_notified task r (item_ids (m ∷ ms)) s') else (false, s')

  -- execNotify.
  unfoldable pub exec_notify : FlowTask → Controller → Bool × Controller
  unfolding notify_pending
  exec_notify t s =
      let id = from_option 0 t.target_id in
      if is_some notifier
      then maybe (get_request id s.db) (true, s)
          (λ r. notify_pending t.id r (pending_items s.settings id s.db) s)
      else (false, s)

  abbrev pub exec_retry : ℕ → Controller → Bool × Controller
  exec_retry item s =
      let (ok, done) = Actions.retry range c item (record { db = s.db; calls = s.calls }) in
      (ok, record s { db = done.db; calls = done.calls })

  -- exec; false is an error.
  unfoldable pub exec : TaskKind → FlowTask → Controller → Bool × Controller
  unfolding exec_notify
  exec jellyfin_scan t s = (refresh s.db.now, s)
  exec retry t s = exec_retry (from_option 0 t.target_id) s
  exec notify t s = exec_notify t s
  exec other_task t s = (false, s)

  -- One task of drain: finished, given up, or put off.
  unfoldable pub run_task : FlowTask → Controller → Controller
  unfolding exec
  run_task t s =
      let (ok, s') = exec t.kind t s in
      if ok
      then with_db (finish_flow_task t.id done_task s'.db) s'
      else if leb max_task_attempts (t.attempts + 1)
      then with_db (finish_flow_task t.id (exhausted t.kind) s'.db) s'
      else with_db (reschedule_flow_task t.id (s'.db.now + (t.attempts + 1) * retry_backoff) s'.db)
          s'

  unfoldable pub run_tasks : List FlowTask → Controller → Controller
  unfolding run_task
  run_tasks [] s = s
  run_tasks (t ∷ ts) s = run_tasks ts (run_task t s)

  -- drain.
  unfoldable pub drain_tasks : Controller → Controller
  unfolding run_tasks
  drain_tasks s = run_tasks (claim_flow_tasks 20 s.db) s
