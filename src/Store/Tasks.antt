-- ===== src/Store/Tasks.antt =====
-- backend/internal/store/flow.go: the settings and the durable tasks of the control plane.
pub mod Queue
use journarr.Base.{
  ℕ, ◌+◌, ◌*◌, Bool, true, false, not, ◌&&◌, ◌||◌, Option, none, some, List, [], ◌∷◌, ◌++◌, ◌==◌,
  leb, ltb, if◌then◌else◌, is_some, nz, Text, text, text_eq, exists, select, take, update, next_id,
}
use journarr.Store.Stages.{
  TaskKind, jellyfin_scan, notify, retry, other_task, TargetType, TaskStatus, pending_task,
  done_task, failed_task, dead_task, revived_task, active, partial, failed, completed, canceled,
  RequestStatus,
}
use journarr.Store.Rows.{Db, FlowTask, MediaItem, Request}
use journarr.Store.Items.{update_item}
use journarr.Store.Events.{key_of, has_key, seconds_per_day}
use journarr.Store.Decimal.{itoa}

-- settings[key], with `none` for a missing key.
unfoldable pub lookup : Text → List (Text × Text) → Option Text
lookup k [] = none
lookup k ((j, v) ∷ m) = if text_eq j k then some v else lookup k m

-- INSERT … ON CONFLICT (key) DO UPDATE SET value.
unfoldable pub set_flow_setting : Text → Text → List (Text × Text) → List (Text × Text)
set_flow_setting k v [] = (k, v) ∷ []
set_flow_setting k v ((j, w) ∷ m) =
    if text_eq j k then (j, v) ∷ m else (j, w) ∷ set_flow_setting k v m

unfoldable pub notify_task_key : ℕ → Text
notify_task_key request_id = text "notify:req:" ++ itoa request_id

abbrev pub task_kind_eq : TaskKind → TaskKind → Bool
task_kind_eq jellyfin_scan jellyfin_scan = true
task_kind_eq notify notify = true
task_kind_eq retry retry = true
task_kind_eq other_task other_task = true
task_kind_eq _ _ = false

abbrev pub task_status_eq : TaskStatus → TaskStatus → Bool
task_status_eq pending_task pending_task = true
task_status_eq done_task done_task = true
task_status_eq failed_task failed_task = true
task_status_eq dead_task dead_task = true
task_status_eq revived_task revived_task = true
task_status_eq _ _ = false

-- ListFlowTasks.
unfoldable pub list_flow_tasks : TaskKind → TaskStatus → ℕ → Db → List FlowTask
list_flow_tasks kind status limit db =
    take limit (select (λ t. task_kind_eq t.kind kind && task_status_eq t.status status) db.tasks)

unfoldable pub task_row : ℕ → TaskKind → TargetType → ℕ → Text → ℕ → FlowTask
task_row id kind target target_id key run_after = record {
  id = id;
  kind = kind;
  target_type = target;
  target_id = nz target_id;
  status = pending_task;
  attempts = 0;
  run_after = some run_after;
  dedupe_key = key_of key;
  finished_at = none;
}

-- EnqueueFlowTask: INSERT OR IGNORE under UNIQUE (dedupe_key).
unfoldable pub enqueue_flow_task : TaskKind → TargetType → ℕ → Text → ℕ → Db → Bool × Db
unfolding task_row
enqueue_flow_task kind target target_id key run_after db =
    let id = next_id (λ (t : FlowTask). t.id) db.tasks in
    if exists (λ (t : FlowTask). has_key (key_of key) t.dedupe_key) db.tasks then (false, db) else (
      true,
      record db { tasks = db.tasks ++ task_row id kind target target_id key run_after ∷ [] },
    )

-- status = 'pending' AND (run_after IS NULL OR run_after <= CURRENT_TIMESTAMP).
abbrev pub is_due : ℕ → FlowTask → Bool
is_due now t =
    task_status_eq t.status pending_task && elim t.run_after [ none ↦ true | some at ↦ leb at now ]

unfoldable pub claim_flow_tasks : ℕ → Db → List FlowTask
claim_flow_tasks limit db = take limit (select (is_due db.now) db.tasks)

abbrev pub update_task : ℕ → (FlowTask → FlowTask) → Db → Db
update_task id f db = record db { tasks = update (λ t. t.id == id) f db.tasks }

unfoldable pub finish_flow_task : ℕ → TaskStatus → Db → Db
finish_flow_task id status db =
    update_task id (λ t. record t { status = status; dedupe_key = none; finished_at = some db.now })
      db

unfoldable pub release_flow_task_dedupe : ℕ → Db → Db
release_flow_task_dedupe id db = update_task id (λ t. record t { dedupe_key = none }) db

unfoldable pub reschedule_flow_task : ℕ → ℕ → Db → Db
reschedule_flow_task id run_after db =
    update_task id (λ t. record t { attempts = t.attempts + 1; run_after = some run_after }) db

-- ClearStuckItem.
unfoldable pub clear_stuck_item : ℕ → Db → Db
clear_stuck_item id db = update_item id (λ m. record m { stuck_since = none }) db

-- status IN ('done', 'failed', 'revived').
abbrev pub is_reapable : TaskStatus → Bool
is_reapable done_task = true
is_reapable failed_task = true
is_reapable revived_task = true
is_reapable _ = false

abbrev pub finished_before : ℕ → ℕ → Option ℕ → Bool
finished_before days now none = false
finished_before days now (some at) = ltb (at + days * seconds_per_day) now

unfoldable pub reap_flow_tasks : ℕ → Db → Db
reap_flow_tasks days db = record db {
  tasks =
      select (λ t. not (is_reapable t.status && finished_before days db.now t.finished_at))
        db.tasks;
}

-- status IN ('active', 'partial', 'failed').
abbrev pub is_open : RequestStatus → Bool
is_open active = true
is_open partial = true
is_open failed = true
is_open _ = false

abbrev pub is_request_open : Db → Option ℕ → Bool
is_request_open db none = false
is_request_open db (some id) = exists (λ (r : Request). r.id == id && is_open r.status) db.requests

-- StuckItemsForRetry: stuck since at least `age` seconds.
unfoldable pub stuck_items_for_retry : ℕ → Db → List MediaItem
stuck_items_for_retry age db =
    select
      (λ m.
        elim m.stuck_since [ none ↦ false | some since ↦ leb (since + age) db.now ]
        && is_request_open db m.request_id)
      db.items
