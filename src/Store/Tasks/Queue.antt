-- ===== src/Store/Tasks/Queue.antt =====
-- The durable queue of the control plane (backend/internal/store/flow.go).
use journarr.Base.{
  ℕ, ◌≤◌, ◌≡◌, refl, sym, ap, ◌∙◌, subst, inl, inr, Bool, true, false, not, ◌&&◌, none, some, List,
  [], ◌∷◌, arith, ◌==◌, ==_iff, Bool-cases, if_case, select, exists, update, count, next_id, All,
  All-append, All-update, Text, next_id_fresh, count-insert, exists-ext, count-select-le,
  count-update-le,
}
use journarr.Store.Stages.{TaskKind, TargetType, TaskStatus, pending_task}
use journarr.Store.Rows.{Db, FlowTask}
use journarr.Store.Events.{key_of, has_key}
use journarr.Store.Events.Keyed.{has_key_of}
use journarr.Store.Tasks.{
  task_status_eq, task_row, enqueue_flow_task, finish_flow_task, release_flow_task_dedupe,
  reschedule_flow_task, reap_flow_tasks,
}

abbrev is_pending : FlowTask → Bool
is_pending t = task_status_eq t.status pending_task

abbrev keyed : Text → FlowTask → Bool
keyed k t = has_key (some k) t.dedupe_key

-- PRIMARY KEY (id), UNIQUE (dedupe_key), and a finished task gives its key back.
pub record IsQueue (db : Db) : Type 0 where
  pub id : (id : ℕ) → count (λ (t : FlowTask). t.id == id) db.tasks ≤ 1
  pub key : (k : Text) → count (keyed k) db.tasks ≤ 1
  pub freed : All (λ (t : FlowTask). is_pending t ≡ false → t.dedupe_key ≡ none) db.tasks

-- The operations on the queue.
pub data QueueStep : Db → Db → Type 0 where
  enqueues :
      (kind : TaskKind) (target : TargetType) (id : ℕ) (key : Text) (at : ℕ) (db : Db)
      → QueueStep db (enqueue_flow_task kind target id key at db).1
  finishes : (id : ℕ) (status : TaskStatus) (db : Db) → QueueStep db (finish_flow_task id status db)
  releases : (id : ℕ) (db : Db) → QueueStep db (release_flow_task_dedupe id db)
  reschedules : (id at : ℕ) (db : Db) → QueueStep db (reschedule_flow_task id at db)
  reaps : (days : ℕ) (db : Db) → QueueStep db (reap_flow_tasks days db)

enqueue_flow_task-IsQueue :
    (kind : TaskKind) (target : TargetType) (id : ℕ) (key : Text) (at : ℕ) (db : Db)
    → IsQueue db
    → IsQueue (enqueue_flow_task kind target id key at db).1
unfolding enqueue_flow_task
enqueue_flow_task-IsQueue kind target id key at db inv =
    elim (Bool-cases (exists (λ (t : FlowTask). has_key (key_of key) t.dedupe_key) db.tasks)) [
      | inl e ↦ rw e inv
      | inr e ↦
          let fresh = next_id (λ (t : FlowTask). t.id) db.tasks in
          let row = task_row fresh kind target id key at in
          rw e (record {
            id = λ k.
                count-insert (λ (t : FlowTask). t.id == k) db.tasks row (inv.id k)
                  λ h.
                    subst (λ j. exists (λ (t : FlowTask). t.id == j) db.tasks ≡ false)
                      ((==_iff fresh k).0 (unfold task_row in h))
                      (next_id_fresh (λ (t : FlowTask). t.id) db.tasks);
            key = λ k. count-insert (keyed k) db.tasks row (inv.key k) λ h.
                exists-ext (keyed k) (λ (t : FlowTask). has_key (key_of key) t.dedupe_key) db.tasks
                  (λ x. has_key_of key k (unfold task_row in h) x.dedupe_key)
                ∙ e;
            freed = All-append _ db.tasks (row ∷ []) inv.freed (unfold task_row in λ h. cc, tt);
          })
    ]

-- An UPDATE that leaves the id alone, takes no key and frees it with the task.
updated-IsQueue :
    (p : FlowTask → Bool) (f : FlowTask → FlowTask) (db : Db)
    → ((t : FlowTask) → (f t).id ≡ t.id)
    → ((t : FlowTask) (k : Text) → keyed k (f t) ≡ true → keyed k t ≡ true)
    → ((t : FlowTask)
        → (is_pending t ≡ false → t.dedupe_key ≡ none)
        → is_pending (f t) ≡ false
        → (f t).dedupe_key ≡ none)
    → IsQueue db
    → IsQueue (record db { tasks = update p f db.tasks })
updated-IsQueue p f db ids keys frees inv = record {
  id = λ k.
      let le =
        count-update-le p (λ (t : FlowTask). t.id == k) f db.tasks
          (λ t h. ap (λ i. i == k) (sym (ids t)) ∙ h) in
      let old = inv.id k in omega arith;
  key = λ k.
      let le = count-update-le p (keyed k) f db.tasks (λ t. keys t k) in
      let old = inv.key k in omega arith;
  freed = All-update _ p f (λ t _. frees t) db.tasks inv.freed;
}

select-All {ℓ κ} :
    {A : Type ℓ} (P : A → Type κ) (p : A → Bool) (xs : List A) → All P xs → All P (select p xs)
select-All P p [] h = tt
select-All P p (x ∷ xs) h =
    if_case (All P) (p x) (λ _. (h.0, select-All P p xs h.1)) (λ _. select-All P p xs h.1)

reaped-le :
    (q : FlowTask → Bool) (days : ℕ) (db : Db)
    → count q (reap_flow_tasks days db).tasks ≤ count q db.tasks
unfolding reap_flow_tasks
reaped-le q days db = count-select-le q _ db.tasks

reap_flow_tasks-IsQueue : (days : ℕ) (db : Db) → IsQueue db → IsQueue (reap_flow_tasks days db)
reap_flow_tasks-IsQueue days db inv = record {
  id = λ k. let old = inv.id k in omega (arith, reaped-le (λ (t : FlowTask). t.id == k) days db);
  key = λ k. let old = inv.key k in omega (arith, reaped-le (keyed k) days db);
  freed = unfold reap_flow_tasks in select-All _ _ db.tasks inv.freed;
}

-- Every operation keeps the ids and the keys unique and frees the keys of the tasks it finishes.
pub QueueStep-IsQueue : (a b : Db) → QueueStep a b → IsQueue a → IsQueue b
unfolding finish_flow_task release_flow_task_dedupe reschedule_flow_task
QueueStep-IsQueue _ _ (enqueues kind target id key at db) inv =
    enqueue_flow_task-IsQueue kind target id key at db inv
QueueStep-IsQueue _ _ (finishes id status db) inv =
    updated-IsQueue _ _ db (λ t. refl) (λ t k h. cc) (λ t _ _. refl) inv
QueueStep-IsQueue _ _ (releases id db) inv =
    updated-IsQueue _ _ db (λ t. refl) (λ t k h. cc) (λ t _ _. refl) inv
QueueStep-IsQueue _ _ (reschedules id at db) inv =
    updated-IsQueue _ _ db (λ t. refl) (λ t k h. h) (λ t h. h) inv
QueueStep-IsQueue _ _ (reaps days db) inv = reap_flow_tasks-IsQueue days db inv

pub not_keyed :
    (c : ℕ) (s : Text) (ts : List FlowTask)
    → All (λ (t : FlowTask). is_pending t ≡ false → t.dedupe_key ≡ none) ts
    → exists (λ (t : FlowTask). has_key (key_of (c ∷ s)) t.dedupe_key) ts
      ≡ exists (λ (t : FlowTask). is_pending t && has_key (key_of (c ∷ s)) t.dedupe_key) ts
not_keyed c s [] h = refl
not_keyed c s (t ∷ ts) h = elim (Bool-cases (is_pending t)) [
  | inl e ↦ rw (e, not_keyed c s ts h.1) refl
  | inr e ↦ rw (h.0 e, not_keyed c s ts h.1) (ground arith)
]

-- In a queue a task is enqueued under a key exactly when no pending task holds the key: a task that is
-- done, failed or dead does not stand in the way of the next one.
pub enqueue_flow_task_lem :
    (kind : TaskKind) (kind_of : TargetType) (id c : ℕ) (s : Text) (at : ℕ) (db : Db)
    → IsQueue db
    → (enqueue_flow_task kind kind_of id (c ∷ s) at db).0
      ≡ not
          (exists (λ (t : FlowTask). is_pending t && has_key (some (c ∷ s)) t.dedupe_key) db.tasks)
unfolding enqueue_flow_task
enqueue_flow_task_lem kind kind_of id c s at db inv =
    rw (sym (not_keyed c s db.tasks inv.freed)) (ground arith)
