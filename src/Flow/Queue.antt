-- ===== src/Flow/Queue.antt =====
-- The task queue behind the worker of backend/internal/flow/controller.go.
use journarr.Base.{
  ℕ, ◌+◌, ◌*◌, ◌≡◌, refl, ap, Bool, not, ◌||◌, Option, List, [], ◌∷◌, ltb, leb, ◌==◌, from_option,
  if_case, text,
}
use journarr.Store.Stages.{
  notify, retry, TaskStatus, done_task, revived_task, request_target, media_item_target, dead_task,
}
use journarr.Store.Rows.{Db, MediaItem, FlowTask}
use journarr.Store.Tasks.{
  claim_flow_tasks, finish_flow_task, enqueue_flow_task, notify_task_key, clear_stuck_item,
  list_flow_tasks, stuck_items_for_retry,
}
use journarr.Store.Tasks.Queue.{
  IsQueue, QueueStep-IsQueue, enqueues, finishes, releases, reschedules,
}
use journarr.Pipeline.Grabs.{ItemMap}
use journarr.Actions.Clients.{Clients}
use journarr.Flow.Controller.{
  Controller, Notification, exec, exhausted, max_task_attempts, retry_backoff, run_task, run_tasks,
  drain_tasks, straggler_delay,
}
use journarr.Flow.Kept.{IsKept, exec-Keeps}
use journarr.Flow.Sweep.{
  revive_one, revive_all, revive_dead_notifies, notifier_up, sweep_item, sweep_items, sweep,
  retry_task_key, int_val,
}

-- The queue is read from the table of tasks alone.
of_tasks : (a b : Db) → b.tasks ≡ a.tasks → IsQueue a → IsQueue b
of_tasks a b e inv = record {
  id = λ k. rw e (inv.id k);
  key = λ k. rw e (inv.key k);
  freed = rw e inv.freed;
}

-- A task that is finished, given up or put off.
finish :
    (id : ℕ) (status : TaskStatus) (db : Db) → IsQueue db → IsQueue (finish_flow_task id status db)
finish id status db = QueueStep-IsQueue db (finish_flow_task id status db) (finishes id status db)

IsQueue-IsKept : IsKept IsQueue
IsQueue-IsKept = record {
  same = λ a b e inv. of_tasks a b (ap (λ (q : List FlowTask × ℕ). q.0) e) inv;
  freed = λ task db inv. QueueStep-IsQueue db _ (releases task db) inv;
  noticed = λ id db inv.
      QueueStep-IsQueue db _
        (enqueues notify request_target id (notify_task_key id) (db.now + straggler_delay) db) inv;
}

module _ (range : ItemMap → ItemMap) (c : Clients) (refresh : ℕ → Bool)
    (notifier : Option (List Notification → Notification → Bool)) (window : Db → Db)
    (others : (db : Db) → IsQueue db → IsQueue (window db)) where
  run_task-IsQueue :
      (t : FlowTask) (s : Controller)
      → IsQueue s.db
      → IsQueue (run_task range c refresh notifier window t s).db
  unfolding run_task
  run_task-IsQueue t s inv =
      let (ok, s') = exec range c refresh notifier window t.kind t s in
      let after =
        exec-Keeps range c refresh notifier window IsQueue IsQueue-IsKept others t.kind t s inv in
      if_case (λ (r : Controller). IsQueue r.db) ok (λ _. finish t.id done_task s'.db after)
        (λ _.
          if_case (λ (r : Controller). IsQueue r.db) (leb max_task_attempts (t.attempts + 1))
            (λ _. finish t.id (exhausted t.kind) s'.db after)
            (λ _.
              QueueStep-IsQueue s'.db _
                (reschedules t.id (s'.db.now + (t.attempts + 1) * retry_backoff) s'.db) after))

  run_tasks-IsQueue :
      (ts : List FlowTask) (s : Controller)
      → IsQueue s.db
      → IsQueue (run_tasks range c refresh notifier window ts s).db
  unfolding run_tasks
  run_tasks-IsQueue [] s inv = inv
  run_tasks-IsQueue (t ∷ ts) s inv =
      run_tasks-IsQueue ts (run_task range c refresh notifier window t s) (run_task-IsQueue t s inv)

  -- A drain of the due tasks keeps the queue, whatever the notifier, Jellyfin and the arrs answer, where
  -- the goroutines that run while a notice is sent keep it.
  pub drain_tasks-IsQueue :
      (s : Controller) → IsQueue s.db → IsQueue (drain_tasks range c refresh notifier window s).db
  unfolding drain_tasks
  drain_tasks-IsQueue s inv = run_tasks-IsQueue (claim_flow_tasks 20 s.db) s inv

sweep_item-IsQueue : (m : MediaItem) (db : Db) → IsQueue db → IsQueue (sweep_item m db)
unfolding sweep_item clear_stuck_item
sweep_item-IsQueue m db inv =
    let r = enqueue_flow_task retry media_item_target m.id (retry_task_key m) db.now db in
    let after =
      QueueStep-IsQueue db r.1 (enqueues retry media_item_target m.id (retry_task_key m) db.now db)
        inv in
    if_case IsQueue r.0 (λ _. of_tasks r.1 _ refl after) (λ _. after)

sweep_items-IsQueue : (ms : List MediaItem) (db : Db) → IsQueue db → IsQueue (sweep_items ms db)
unfolding sweep_items
sweep_items-IsQueue [] db inv = inv
sweep_items-IsQueue (m ∷ ms) db inv =
    sweep_items-IsQueue ms (sweep_item m db) (sweep_item-IsQueue m db inv)

revive_all-IsQueue : (ts : List FlowTask) (db : Db) → IsQueue db → IsQueue (revive_all ts db)
unfolding revive_all revive_one
revive_all-IsQueue [] db inv = inv
revive_all-IsQueue (t ∷ ts) db inv =
    let id = from_option 0 t.target_id in
    let r = enqueue_flow_task notify request_target id (notify_task_key id) db.now db in
    let after =
      QueueStep-IsQueue db r.1 (enqueues notify request_target id (notify_task_key id) db.now db)
        inv in
    revive_all-IsQueue ts (revive_one t db) (finish t.id revived_task r.1 after)

revive_dead_notifies-IsQueue :
    (has : Bool) (s : Controller) → IsQueue s.db → IsQueue (revive_dead_notifies has s).db
unfolding revive_dead_notifies
revive_dead_notifies-IsQueue has s inv =
    if_case (λ (r : Controller). IsQueue r.db) (not has || ltb s.db.now s.next_revive) (λ _. inv)
      (λ _.
        if_case (λ (r : Controller). IsQueue r.db) (notifier_up s.health_id s.health)
          (λ _. revive_all-IsQueue (list_flow_tasks notify dead_task 50 s.db) s.db inv) (λ _. inv))

-- A sweep keeps the queue, whatever it revives and retries.
pub sweep-IsQueue : (has : Bool) (s : Controller) → IsQueue s.db → IsQueue (sweep has s).db
unfolding sweep
sweep-IsQueue has s inv =
    let revived = revive_dead_notifies has s in
    let after = revive_dead_notifies-IsQueue has s inv in
    let secs = int_val revived.settings (text "auto_retry_stuck_after_secs") 0 in
    if_case (λ (r : Controller). IsQueue r.db) (secs == 0) (λ _. after)
      (λ _. sweep_items-IsQueue (stuck_items_for_retry secs revived.db) revived.db after)
