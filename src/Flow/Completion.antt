-- ===== src/Flow/Completion.antt =====
-- The completion notice that OnStageApplied (backend/internal/flow/controller.go) enqueues for a request:
-- the rows of its task.
use journarr.Base.{
  ℕ, ◌+◌, ◌<◌, ◌≡◌, refl, sym, ap, subst, ◌∙◌, Bool, true, false, ◌&&◌, none, some, [], ◌∷◌, ◌++◌,
  arith, if_case, exists, next_id, text, text_eq_iff, select, select-append, select-none, nz, List,
  append-nil,
}
use journarr.Store.Stages.{
  Stage, stage_key, jellyfin_scan, notify, request_target, no_target, pending_task,
}
use journarr.Store.Rows.{Db, FlowTask}
use journarr.Store.Events.{has_key}
use journarr.Store.Events.Keyed.{has_key-text}
use journarr.Store.Tasks.{enqueue_flow_task, notify_task_key, task_row, task_status_eq}
use journarr.Store.Tasks.Queue.{IsQueue, QueueStep-IsQueue, enqueues, not_keyed}
use journarr.Store.Decimal.{itoa}
use journarr.Flow.Settings.{
  Settings, is_on, notify_stage, scan_delay, notify_delay, enqueue_scan, enqueue_notice,
  on_stage_applied,
}
use journarr.Flow.Notices.{holds, scan_key, scans, notifies, enqueue_notice-holds}

enqueue_scan-IsQueue :
    (settings : Settings) (stage : Stage) (db : Db)
    → IsQueue db
    → IsQueue (enqueue_scan settings stage db)
unfolding enqueue_scan
enqueue_scan-IsQueue settings stage db inv =
    if_case IsQueue (scans settings stage)
      (λ _.
        QueueStep-IsQueue _ _ (enqueues jellyfin_scan no_target 0 scan_key (db.now + scan_delay) db)
          inv)
      (λ _. inv)

enqueue_notice-IsQueue :
    (settings : Settings) (request_id : ℕ) (stage : Stage) (db : Db)
    → IsQueue db
    → IsQueue (enqueue_notice settings request_id stage db)
unfolding enqueue_notice
enqueue_notice-IsQueue settings request_id stage db inv =
    if_case IsQueue (notifies settings request_id stage)
      (λ _.
        QueueStep-IsQueue _ _
          (enqueues notify request_target request_id (notify_task_key request_id)
            (db.now + notify_delay) db)
          inv)
      (λ _. inv)

-- The task that carries the notice of a request.
abbrev pub notice : ℕ → ℕ → ℕ → FlowTask
notice id request_id run_after = record {
  id = id;
  kind = notify;
  target_type = request_target;
  target_id = some request_id;
  status = pending_task;
  attempts = 0;
  run_after = some run_after;
  dedupe_key = some (notify_task_key request_id);
  finished_at = none;
}

abbrev pub has_notice_key : ℕ → FlowTask → Bool
has_notice_key request_id t = has_key (some (notify_task_key request_id)) t.dedupe_key

-- The task of the scan has another key.
enqueue_scan-notices :
    (settings : Settings) (request_id : ℕ) (stage : Stage) (db : Db)
    → select (has_notice_key request_id) (enqueue_scan settings stage db).tasks
      ≡ select (has_notice_key request_id) db.tasks
unfolding enqueue_scan enqueue_flow_task task_row notify_task_key
enqueue_scan-notices settings request_id stage db =
    let q = has_notice_key request_id in
    if_case (λ (d : Db). select q d.tasks ≡ select q db.tasks) (scans settings stage)
      (λ _.
        if_case (λ (r : Bool × Db). select q r.1.tasks ≡ select q db.tasks)
          (exists (holds scan_key) db.tasks) (λ _. refl)
          (λ _. select-append q db.tasks _ ∙ append-nil (select q db.tasks)))
      (λ _. refl)

exists-select {ℓ} : {A : Type ℓ} (q : A → Bool) (xs : List A) → exists q xs ≡ exists q (select q xs)
exists-select q [] = refl
exists-select q (x ∷ xs) = ground (arith, exists-select q xs)

-- What the tasks of one notice are behind the enqueueing of it.
pub record IsNoticed (request_id : ℕ) (db db' : Db) : Type 0 where
  -- A pending task holds the key.
  pub waits :
      exists
        (λ (t : FlowTask). task_status_eq t.status pending_task && has_notice_key request_id t)
        db'.tasks
      ≡ true
  -- A key that was held is held by the same rows.
  pub kept :
      exists (has_notice_key request_id) db.tasks ≡ true
      → select (has_notice_key request_id) db'.tasks ≡ select (has_notice_key request_id) db.tasks
  -- A key that was free is held by the notice of the request, a minute ahead.
  pub fresh :
      exists (has_notice_key request_id) db.tasks ≡ false
      → (id : ℕ) × (select (has_notice_key request_id) db'.tasks
          ≡ notice id request_id (db.now + 60) ∷ [])

nz_of : (n : ℕ) → 0 < n → nz n ≡ some n
nz_of n h = ground arith

enqueue_scan-now :
    (settings : Settings) (stage : Stage) (db : Db) → (enqueue_scan settings stage db).now ≡ db.now
unfolding enqueue_scan enqueue_flow_task
enqueue_scan-now settings stage db = ground arith

taken_notice :
    (request_id at : ℕ) (db : Db)
    → exists (has_notice_key request_id) db.tasks ≡ true
    → (enqueue_flow_task notify request_target request_id (notify_task_key request_id) at db).1 ≡ db
unfolding enqueue_flow_task notify_task_key
taken_notice request_id at db h = rw h refl

new_notice :
    (request_id at : ℕ) (db : Db)
    → 0 < request_id
    → exists (has_notice_key request_id) db.tasks ≡ false
    → (id : ℕ) × (select
          (has_notice_key request_id)
          (enqueue_flow_task notify request_target request_id
            (notify_task_key request_id)
            at
            db).1.tasks
        ≡ notice id request_id at ∷ [])
unfolding enqueue_flow_task task_row notify_task_key
new_notice request_id at db pos free = rw free (
  next_id (λ (t : FlowTask). t.id) db.tasks,
  rw (nz_of request_id pos) (
      select-append (has_notice_key request_id) db.tasks
        (notice (next_id (λ (t : FlowTask). t.id) db.tasks) request_id at ∷ [])
      ∙ rw
          (
            select-none (has_notice_key request_id) db.tasks free,
            has_key-text b'n' (text "otify:req:" ++ itoa request_id),
          )
          refl),
)

-- In a queue, where the notices are on and the stage is the one they wait for, a pending task holds
-- the key of the request's notice after OnStageApplied. The rows of a key that was held before are as
-- they were; a key that was free is that of one new task, which sends the notice of this request a
-- minute later. The id of the request is not 0.
pub on_stage_applied_lem :
    (settings : Settings) (request_id : ℕ) (stage : Stage) (db : Db)
    → IsQueue db
    → 0 < request_id
    → is_on settings (text "notify_on_complete") ≡ true
    → stage_key stage ≡ notify_stage settings
    → IsNoticed request_id db (on_stage_applied settings request_id stage db)
unfolding on_stage_applied enqueue_notice notify_task_key
on_stage_applied_lem settings request_id stage db inv pos on is =
    let q = has_notice_key request_id in
    let scanned = enqueue_scan settings stage db in
    let after =
      enqueue_notice-IsQueue settings request_id stage scanned
        (enqueue_scan-IsQueue settings stage db inv) in
    let named = (text_eq_iff (stage_key stage) (notify_stage settings)).1 is in
    let due : notifies settings request_id stage ≡ true = rw (on, named) (ground arith) in
    let same = enqueue_scan-notices settings request_id stage db in
    let there : exists q scanned.tasks ≡ exists q db.tasks =
      exists-select q scanned.tasks ∙ ap (exists q) same ∙ sym (exists-select q db.tasks) in
    let at = scanned.now + notify_delay in
    record {
      waits =
          sym (not_keyed b'n' (text "otify:req:" ++ itoa request_id) _ after.freed)
          ∙ enqueue_notice-holds settings request_id stage scanned due;
      kept = λ h. rw due (
          ap (λ (d : Db). select q d.tasks) (taken_notice request_id at scanned (there ∙ h))
          ∙ same);
      fresh = λ h.
          subst
            (λ n.
              (id : ℕ) × (select q (on_stage_applied settings request_id stage db).tasks
                ≡ notice id request_id (n + 60) ∷ []))
            (enqueue_scan-now settings stage db)
            (rw due (new_notice request_id at scanned pos (there ∙ h)));
    }
