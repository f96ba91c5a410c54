-- ===== src/Tests/Flow.antt =====
-- The worker of backend/internal/flow on concrete data.
use journarr.Base.{
  ◌≡◌, refl, Bool, true, false, not, some, List, [], ◌∷◌, arith, ◌==◌, length, text, All,
}
use journarr.Store.Stages.{notify, request_target}
use journarr.Store.Rows.{Db, FlowTask}
use journarr.Store.Tasks.{enqueue_flow_task, task_row, claim_flow_tasks}
use journarr.Store.Tasks.Queue.{IsQueue, QueueStep-IsQueue, enqueues}
use journarr.Flow.Controller.{Controller, Notification, drain_tasks}
use journarr.Flow.Sweep.{sweep}
use journarr.Flow.Queue.{drain_tasks-IsQueue, sweep-IsQueue}
use journarr.Flow.Due.{awaits}
use journarr.Flow.Drained.{drain_tasks_lem}
use journarr.Store.Items.{upsert_item}
use journarr.Store.Tasks.{lookup}
use journarr.Flow.Controller.{items_to_send}
use journarr.Actions.Resend.{has_unannounced}
use journarr.Actions.Resend.Offered.{is_filled, has_unannounced-items_to_send}
use journarr.Tests.Samples.{bare_db, with_item, radarr_only, in_order}

abbrev waiting_db : Db
waiting_db = (enqueue_flow_task notify request_target 1 (text "notify:req:1") 60 bare_db).1

waiting_db-IsQueue : IsQueue waiting_db
waiting_db-IsQueue =
    QueueStep-IsQueue bare_db waiting_db
      (enqueues notify request_target 1 (text "notify:req:1") 60 bare_db)
      (record { id = λ id. omega arith; key = λ k. omega arith; freed = tt })

abbrev worker : Db → Controller
worker db = record {
  db = db;
  settings =
      (text "notify_stage", text "requested")
      ∷ (text "auto_retry_stuck_after_secs", text "3600")
      ∷ [];
  health = [];
  health_id = [];
  next_revive = 0;
  asked = [];
  calls = [];
}

-- A notifier that fails once and then delivers.
abbrev second_time : List Notification → Notification → Bool
second_time asked n = not (length asked == 0)

abbrev nobody : Db → Db
nobody db = db

drained :
    IsQueue
      (drain_tasks in_order radarr_only
        (λ now. true)
        (some second_time)
        nobody
        (worker waiting_db)).db
drained =
    drain_tasks-IsQueue in_order radarr_only (λ now. true) (some second_time) nobody (λ db h. h)
      (worker waiting_db) waiting_db-IsQueue

abbrev due_db : Db
due_db = (enqueue_flow_task notify request_target 1 (text "notify:req:1") 0 with_item).1

drain_tasks_lem_example :
    All
      (λ (t : FlowTask).
        awaits due_db.now t.id
          (drain_tasks in_order radarr_only
            (λ now. true)
            (some second_time)
            nobody
            (worker due_db)).db
        ≡ false)
      (claim_flow_tasks 20 due_db)
drain_tasks_lem_example =
    drain_tasks_lem in_order radarr_only (λ now. true) (some second_time) nobody (λ db. omega arith)
      (λ n id db since h. h) (worker due_db)

claimed : length (claim_flow_tasks 20 due_db) ≡ 1
unfolding claim_flow_tasks enqueue_flow_task with_item upsert_item
claimed = refl

swept : IsQueue (sweep true (worker waiting_db)).db
swept = sweep-IsQueue true (worker waiting_db) waiting_db-IsQueue

abbrev notice_task : FlowTask
notice_task = task_row 1 notify request_target 1 (text "notify:req:1") 60

abbrev requested_db : Db
requested_db = record with_item { settings = (text "notify_stage", text "requested") ∷ [] }

has_unannounced-items_to_send_example :
    has_unannounced 1 requested_db ≡ is_filled (items_to_send requested_db.settings 1 requested_db)
unfolding lookup
has_unannounced-items_to_send_example = has_unannounced-items_to_send 1 requested_db refl

resend_offered : has_unannounced 1 requested_db ≡ true
unfolding has_unannounced with_item upsert_item
resend_offered = refl
