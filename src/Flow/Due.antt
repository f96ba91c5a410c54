-- ===== src/Flow/Due.antt =====
-- Which tasks are due behind the writes of backend/internal/store/flow.go.
use journarr.Base.{
  ℕ, ◌+◌, ◌≤◌, ◌<◌, ◌≡◌, refl, ◌∙◌, Bool, true, false, ◌&&◌, List, [], ◌∷◌, arith, ◌==◌, if_case,
  exists, exists-append, update,
}
use journarr.Store.Stages.{TaskStatus, notify, request_target, pending_task}
use journarr.Store.Rows.{Db, FlowTask}
use journarr.Store.Events.{has_key, key_of}
use journarr.Store.Tasks.{
  is_due, task_status_eq, finish_flow_task, reschedule_flow_task, task_row,
  release_flow_task_dedupe, enqueue_flow_task, notify_task_key,
}
use journarr.Flow.Controller.{straggler_delay}

-- Is a task with this id due?
abbrev pub awaits : ℕ → ℕ → Db → Bool
awaits n id db = exists (λ (t : FlowTask). t.id == id && is_due n t) db.tasks

-- A write that makes no task due.
settles :
    (q p : FlowTask → Bool) (f : FlowTask → FlowTask) (ts : List FlowTask)
    → ((t : FlowTask) → q (f t) ≡ true → q t ≡ true)
    → exists q ts ≡ false
    → exists q (update p f ts) ≡ false
settles q p f [] calm h = refl
settles q p f (t ∷ ts) calm h = ground (arith, calm t, settles q p f ts calm)

calms :
    (n id : ℕ) (p : FlowTask → Bool) (f : FlowTask → FlowTask) (ts : List FlowTask)
    → ((t : FlowTask) → is_due n (f t) ≡ false)
    → exists (λ (t : FlowTask). t.id == id && is_due n t) ts ≡ false
    → exists (λ (t : FlowTask). t.id == id && is_due n t) (update p f ts) ≡ false
calms n id p f ts never =
    settles (λ (t : FlowTask). t.id == id && is_due n t) p f ts
      (λ t e. absurd (ground (arith, never t)))

-- A write that leaves none of the tasks with the id due.
ends :
    (n id : ℕ) (f : FlowTask → FlowTask) (ts : List FlowTask)
    → ((t : FlowTask) → is_due n (f t) ≡ false)
    → exists (λ (t : FlowTask). t.id == id && is_due n t) (update (λ t. t.id == id) f ts) ≡ false
ends n id f [] h = refl
ends n id f (t ∷ ts) h = ground (arith, h t, ends n id f ts h)

pub finish_flow_task-ends :
    (n id : ℕ) (status : TaskStatus) (db : Db)
    → task_status_eq status pending_task ≡ false
    → awaits n id (finish_flow_task id status db) ≡ false
unfolding finish_flow_task
finish_flow_task-ends n id status db h = ends n id _ db.tasks (λ t. rw h refl)

pub finish_flow_task-settles :
    (n id task : ℕ) (status : TaskStatus) (db : Db)
    → task_status_eq status pending_task ≡ false
    → awaits n id db ≡ false
    → awaits n id (finish_flow_task task status db) ≡ false
unfolding finish_flow_task
finish_flow_task-settles n id task status db h =
    calms n id (λ t. t.id == task) _ db.tasks (λ t. rw h refl)

pub reschedule_flow_task-ends :
    (n id later : ℕ) (db : Db) → n < later → awaits n id (reschedule_flow_task id later db) ≡ false
unfolding reschedule_flow_task
reschedule_flow_task-ends n id later db h = ends n id _ db.tasks (λ t. ground arith)

pub reschedule_flow_task-settles :
    (n id task later : ℕ) (db : Db)
    → n < later
    → awaits n id db ≡ false
    → awaits n id (reschedule_flow_task task later db) ≡ false
unfolding reschedule_flow_task
reschedule_flow_task-settles n id task later db h =
    calms n id (λ t. t.id == task) _ db.tasks (λ t. ground arith)

pub release_flow_task_dedupe-settles :
    (n id task : ℕ) (db : Db)
    → awaits n id db ≡ false
    → awaits n id (release_flow_task_dedupe task db) ≡ false
unfolding release_flow_task_dedupe
release_flow_task_dedupe-settles n id task db =
    settles (λ t. t.id == id && is_due n t) _ _ db.tasks (λ t e. e)

-- A straggler's task is due later than now.
pub enqueue_flow_task-settles :
    (n id request : ℕ) (db : Db)
    → n ≤ db.now
    → awaits n id db ≡ false
    → awaits n id
        (enqueue_flow_task notify request_target request
          (notify_task_key request)
          (db.now + straggler_delay)
          db).1
      ≡ false
unfolding enqueue_flow_task task_row
enqueue_flow_task-settles n id request db since h =
    if_case (λ (r : Bool × Db). awaits n id r.1 ≡ false)
      (exists (λ (t : FlowTask). has_key (key_of (notify_task_key request)) t.dedupe_key) db.tasks)
      (λ _. h) (λ _. exists-append (λ t. t.id == id && is_due n t) db.tasks _ ∙ rw h (ground arith))
