-- ===== src/Flow/Sweep.antt =====
-- The rules of backend/internal/flow/controller.go that depend on time: dead notices are revived while
-- the notifier is up, and stuck items are retried.
use journarr.Base.{
  ℕ, ◌+◌, ◌-◌, ◌*◌, Bool, true, false, not, ◌&&◌, ◌||◌, Option, none, some, List, [], ◌∷◌, ◌++◌,
  ltb, ◌==◌, if◌then◌else◌, from_option, maybe, first, Text, text, text_eq,
}
use journarr.Store.Stages.{
  notify, retry, request_target, media_item_target, dead_task, revived_task,
}
use journarr.Store.Rows.{Db, MediaItem, FlowTask}
use journarr.Store.Decimal.{itoa}
use journarr.Store.Tasks.{
  finish_flow_task, enqueue_flow_task, notify_task_key, list_flow_tasks, stuck_items_for_retry,
  clear_stuck_item,
}
use journarr.Pipeline.Seasons.{is_digit}
use journarr.Flow.Settings.{Settings, get}
use journarr.Flow.Controller.{Controller, ServiceHealth, with_db}

-- The probe of one service: up, or degraded with a working session.
unfoldable pub is_working : ServiceHealth → Bool
is_working h =
    text_eq h.status (text "up")
    || (text_eq h.status (text "degraded") && text_eq h.waha (text "WORKING"))

-- notifierUp: the first row of the service decides; without a configured probe the answer is yes.
unfoldable pub notifier_up : Text → List ServiceHealth → Bool
unfolding is_working
notifier_up [] health = true
notifier_up (c ∷ id) health =
    maybe (first (λ (h : ServiceHealth). text_eq h.service (c ∷ id)) health) false is_working

-- One dead notice: a fresh task for its request, and the old one is marked.
unfoldable pub revive_one : FlowTask → Db → Db
revive_one t db =
    let request_id = from_option 0 t.target_id in
    finish_flow_task t.id revived_task
      (enqueue_flow_task notify request_target request_id (notify_task_key request_id) db.now db).1

unfoldable pub revive_all : List FlowTask → Db → Db
unfolding revive_one
revive_all [] db = db
revive_all (t ∷ ts) db = revive_all ts (revive_one t db)

abbrev pub revive_every : ℕ
revive_every = 1800

-- reviveDeadNotifies; `has_notifier` is whether a notifier is configured.
unfoldable pub revive_dead_notifies : Bool → Controller → Controller
unfolding notifier_up revive_all
revive_dead_notifies has_notifier s =
    if not has_notifier || ltb s.db.now s.next_revive
    then s
    else let looked = record s { next_revive = s.db.now + revive_every } in
      if notifier_up s.health_id s.health
      then with_db (revive_all (list_flow_tasks notify dead_task 50 s.db) s.db) looked
      else looked

-- Digits, read onto a number; none where something else stands among them.
unfoldable pub read_number : ℕ → Text → Option ℕ
unfolding is_digit
read_number n [] = some n
read_number n (c ∷ s) =
    let rest = read_number (n * 10 + (c - b'0')) s in if is_digit c then rest else none

abbrev pub as_zero : Option ℕ → Option ℕ
as_zero none = none
as_zero (some n) = some 0

-- strconv.Atoi, with 0 in place of a negative number, which the caller treats like 0. A number beyond
-- int64 does not occur.
unfoldable pub atoi : Text → Option ℕ
unfolding read_number
atoi [] = none
atoi (c ∷ []) = read_number 0 (c ∷ [])
atoi (c ∷ d ∷ s) =
    if c == b'-'
    then as_zero (read_number 0 (d ∷ s))
    else if c == b'+'
    then read_number 0 (d ∷ s)
    else read_number 0 (c ∷ d ∷ s)

unfoldable pub int_val : Settings → Text → ℕ → ℕ
unfolding get atoi
int_val settings key default = from_option default (atoi (get settings key []))

unfoldable pub retry_task_key : MediaItem → Text
retry_task_key m = text "retry:" ++ (itoa m.id ++ (text ":" ++ itoa m.current_cycle))

-- One stuck item: its flag is cleared where its retry was enqueued.
unfoldable pub sweep_item : MediaItem → Db → Db
unfolding retry_task_key
sweep_item m db =
    let (inserted, db') =
      enqueue_flow_task retry media_item_target m.id (retry_task_key m) db.now db in
    if inserted then clear_stuck_item m.id db' else db'

unfoldable pub sweep_items : List MediaItem → Db → Db
unfolding sweep_item
sweep_items [] db = db
sweep_items (m ∷ ms) db = sweep_items ms (sweep_item m db)

-- sweep.
unfoldable pub sweep : Bool → Controller → Controller
unfolding revive_dead_notifies int_val sweep_items
sweep has_notifier s =
    let revived = revive_dead_notifies has_notifier s in
    let secs = int_val revived.settings (text "auto_retry_stuck_after_secs") 0 in
    if secs == 0
    then revived
    else with_db (sweep_items (stuck_items_for_retry secs revived.db) revived.db) revived
