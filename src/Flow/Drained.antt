-- ===== src/Flow/Drained.antt =====
-- The tasks that a drain of the worker of backend/internal/flow/controller.go claims, behind it.
use journarr.Base.{
  ℕ, ◌+◌, ◌≤◌, ◌≡◌, refl, sym, subst, Bool, false, ◌&&◌, Option, List, [], ◌∷◌, arith, leb, ◌==◌,
  if_case, exists, All,
}
use journarr.Store.Stages.{
  TaskKind, jellyfin_scan, retry, other_task, notify, done_task, pending_task,
}
use journarr.Store.Rows.{Db, FlowTask}
use journarr.Store.Tasks.{
  claim_flow_tasks, is_due, task_status_eq, finish_flow_task, reschedule_flow_task,
  release_flow_task_dedupe, enqueue_flow_task,
}
use journarr.Pipeline.Grabs.{ItemMap}
use journarr.Actions.Clients.{Clients}
use journarr.Flow.Controller.{
  Controller, Notification, exec, exhausted, max_task_attempts, run_task, run_tasks, drain_tasks,
}
use journarr.Flow.Kept.{IsKept, exec-Keeps}
use journarr.Flow.Due.{
  awaits, finish_flow_task-ends, finish_flow_task-settles, reschedule_flow_task-ends,
  reschedule_flow_task-settles, release_flow_task_dedupe-settles, enqueue_flow_task-settles,
}

-- It is n or later, and no task with the id was due at n.
abbrev IsHandled : ℕ → ℕ → Db → Type 0
IsHandled n id db = (n ≤ db.now) × (awaits n id db ≡ false)

abbrev IsSince : ℕ → Db → Type 0
IsSince n db = n ≤ db.now

exhausted_lem : (k : TaskKind) → task_status_eq (exhausted k) pending_task ≡ false
exhausted_lem jellyfin_scan = refl
exhausted_lem notify = refl
exhausted_lem retry = refl
exhausted_lem other_task = refl

IsHandled-IsKept : (n id : ℕ) → IsKept (IsHandled n id)
IsHandled-IsKept n id = record {
  same = λ a b e h.
      subst
        (λ (q : List FlowTask × ℕ).
          (n ≤ q.1) × (exists (λ (t : FlowTask). t.id == id && is_due n t) q.0 ≡ false))
        (sym e) h;
  freed = λ task db h.
      (unfold release_flow_task_dedupe in h.0, release_flow_task_dedupe-settles n id task db h.1);
  noticed = λ request db h.
      (unfold enqueue_flow_task in ground arith, enqueue_flow_task-settles n id request db h.0 h.1);
}

IsSince-IsKept : (n : ℕ) → IsKept (IsSince n)
IsSince-IsKept n = record {
  same = λ a b e h. subst (λ (q : List FlowTask × ℕ). n ≤ q.1) (sym e) h;
  freed = λ task db h. unfold release_flow_task_dedupe in h;
  noticed = λ request db h. unfold enqueue_flow_task in ground arith;
}

module _ (range : ItemMap → ItemMap) (c : Clients) (refresh : ℕ → Bool)
    (notifier : Option (List Notification → Notification → Bool)) (window : Db → Db)
    (later : (db : Db) → db.now ≤ (window db).now)
    (calm : (n id : ℕ) (db : Db)
      → n ≤ db.now
      → awaits n id db ≡ false
      → awaits n id (window db) ≡ false) where
  abbrev ran : FlowTask → Controller → Bool × Controller
  ran t s = exec range c refresh notifier window t.kind t s

  abbrev done_one : FlowTask → Controller → Controller
  done_one t s = run_task range c refresh notifier window t s

  abbrev done_all : List FlowTask → Controller → Controller
  done_all ts s = run_tasks range c refresh notifier window ts s

  ran-IsSince : (n : ℕ) (t : FlowTask) (s : Controller) → n ≤ s.db.now → n ≤ (ran t s).1.db.now
  ran-IsSince n t s h =
      exec-Keeps range c refresh notifier window (IsSince n) (IsSince-IsKept n)
        (λ db e. omega (arith, e, later db)) t.kind t s h

  ran-IsHandled :
      (n id : ℕ) (t : FlowTask) (s : Controller)
      → IsHandled n id s.db
      → IsHandled n id (ran t s).1.db
  ran-IsHandled n id t s h =
      exec-Keeps range c refresh notifier window (IsHandled n id) (IsHandled-IsKept n id)
        (λ db e. (omega (arith, e.0, later db), calm n id db e.0 e.1)) t.kind t s h

  run_task-IsSince :
      (n : ℕ) (t : FlowTask) (s : Controller) → n ≤ s.db.now → n ≤ (done_one t s).db.now
  unfolding run_task finish_flow_task reschedule_flow_task
  run_task-IsSince n t s h =
      let since = ran-IsSince n t s h in
      if_case (λ (r : Controller). n ≤ r.db.now) (ran t s).0 (λ _. since)
        (λ _.
          if_case (λ (r : Controller). n ≤ r.db.now) (leb max_task_attempts (t.attempts + 1))
            (λ _. since) (λ _. since))

  -- The task itself.
  run_task-ends :
      (n : ℕ) (t : FlowTask) (s : Controller)
      → n ≤ s.db.now
      → awaits n t.id (done_one t s).db ≡ false
  unfolding run_task
  run_task-ends n t s h =
      let s' = (ran t s).1 in
      let since = ran-IsSince n t s h in
      if_case (λ (r : Controller). awaits n t.id r.db ≡ false) (ran t s).0
        (λ _. finish_flow_task-ends n t.id done_task s'.db refl)
        (λ _.
          if_case (λ (r : Controller). awaits n t.id r.db ≡ false)
            (leb max_task_attempts (t.attempts + 1))
            (λ _. finish_flow_task-ends n t.id (exhausted t.kind) s'.db (exhausted_lem t.kind))
            (λ _. reschedule_flow_task-ends n t.id _ s'.db (omega (arith, since))))

  -- Another one.
  run_task-settles :
      (n id : ℕ) (t : FlowTask) (s : Controller)
      → n ≤ s.db.now
      → awaits n id s.db ≡ false
      → awaits n id (done_one t s).db ≡ false
  unfolding run_task
  run_task-settles n id t s h e =
      let s' = (ran t s).1 in
      let (since, calmed) = ran-IsHandled n id t s (h, e) in
      if_case (λ (r : Controller). awaits n id r.db ≡ false) (ran t s).0
        (λ _. finish_flow_task-settles n id t.id done_task s'.db refl calmed)
        (λ _.
          if_case (λ (r : Controller). awaits n id r.db ≡ false)
            (leb max_task_attempts (t.attempts + 1))
            (λ _.
              finish_flow_task-settles n id t.id (exhausted t.kind) s'.db (exhausted_lem t.kind)
                calmed)
            (λ _. reschedule_flow_task-settles n id t.id _ s'.db (omega (arith, since)) calmed))

  run_tasks-settles :
      (n id : ℕ) (ts : List FlowTask) (s : Controller)
      → n ≤ s.db.now
      → awaits n id s.db ≡ false
      → awaits n id (done_all ts s).db ≡ false
  unfolding run_tasks
  run_tasks-settles n id [] s h e = e
  run_tasks-settles n id (t ∷ ts) s h e =
      run_tasks-settles n id ts (done_one t s) (run_task-IsSince n t s h)
        (run_task-settles n id t s h e)

  run_tasks_lem :
      (n : ℕ) (ts : List FlowTask) (s : Controller)
      → n ≤ s.db.now
      → All (λ (t : FlowTask). awaits n t.id (done_all ts s).db ≡ false) ts
  unfolding run_tasks
  run_tasks_lem n [] s h = tt
  run_tasks_lem n (t ∷ ts) s h =
      let since = run_task-IsSince n t s h in
      (
        run_tasks-settles n t.id ts (done_one t s) since (run_task-ends n t s h),
        run_tasks_lem n ts (done_one t s) since,
      )

  -- Behind a drain none of the tasks that it claimed is due at the time at which it claimed them:
  -- each is finished, given up or put off, whatever the notifier, Jellyfin and the arrs answer. The
  -- goroutines that run while a notice is sent are assumed not to turn the clock back and not to
  -- make a task due.
  pub drain_tasks_lem :
      (s : Controller)
      → All
          (λ (t : FlowTask).
            awaits s.db.now t.id (drain_tasks range c refresh notifier window s).db ≡ false)
          (claim_flow_tasks 20 s.db)
  unfolding drain_tasks
  drain_tasks_lem s = run_tasks_lem s.db.now (claim_flow_tasks 20 s.db) s (omega arith)
