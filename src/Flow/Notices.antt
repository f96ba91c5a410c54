-- ===== src/Flow/Notices.antt =====
-- The tasks that OnStageApplied (backend/internal/flow/controller.go) enqueues: one of each kind, and
-- one notice per request.
use journarr.Base.{
  ℕ, ◌+◌, ◌^◌, ◌<◌, ◌≡◌, refl, sym, ap, ◌∙◌, inl, inr, Bool, true, false, ◌&&◌, none, [], ◌∷◌, ◌++◌,
  arith, ltb, Bool-cases, if_case, exists, next_id, Text, text, text_eq, exists-append, append-nil,
}
use journarr.Store.Stages.{
  Stage, imported, stage_key, stage_eq, jellyfin_scan, notify, request_target, no_target, TaskKind,
  TargetType,
}
use journarr.Store.Rows.{Db, FlowTask}
use journarr.Store.Events.{key_of, has_key}
use journarr.Store.Events.Keyed.{has_key-text}
use journarr.Store.Tasks.{enqueue_flow_task, notify_task_key, task_row}
use journarr.Store.Decimal.{itoa}
use journarr.Pipeline.Seasons.{parse_seasons, parse_loop, itoa64, is_digit}
use journarr.Pipeline.Seasons.RoundTrip.{parse_itoa64}
use journarr.Flow.Settings.{
  Settings, is_on, notify_stage, scan_delay, notify_delay, enqueue_scan, enqueue_notice,
  on_stage_applied,
}
use mathlib.Core.List.{head-eq_of_cons-eq}

-- The digits of a key are those of the request.
parse_notify_task_key : (n : ℕ) → n < 2 ^ 63 → parse_seasons (notify_task_key n) ≡ n ∷ []
unfolding parse_seasons notify_task_key parse_loop is_digit itoa64
parse_notify_task_key n h = ap (parse_loop none) (sym (append-nil (itoa n))) ∙ parse_itoa64 n [] h

-- Two requests never share the key of their notices.
pub notify_task_key-injective :
    (m n : ℕ) → m < 2 ^ 63 → n < 2 ^ 63 → notify_task_key m ≡ notify_task_key n → m ≡ n
notify_task_key-injective m n hm hn e =
    head-eq_of_cons-eq
      (sym (parse_notify_task_key m hm) ∙ ap parse_seasons e ∙ parse_notify_task_key n hn)

abbrev pub holds : Text → FlowTask → Bool
holds key t = has_key (key_of key) t.dedupe_key

-- A key that is taken stays taken.
enqueue_flow_task-keeps :
    (key : Text) (kind : TaskKind) (goal : TargetType) (id : ℕ) (k : Text) (at : ℕ) (db : Db)
    → exists (holds key) db.tasks ≡ true
    → exists (holds key) (enqueue_flow_task kind goal id k at db).1.tasks ≡ true
unfolding enqueue_flow_task
enqueue_flow_task-keeps key kind goal id k at db h =
    if_case (λ (r : Bool × Db). exists (holds key) r.1.tasks ≡ true)
      (exists (λ (t : FlowTask). has_key (key_of k) t.dedupe_key) db.tasks) (λ _. h)
      (λ _. rw (
        exists-append (holds key) db.tasks
            (task_row (next_id (λ (t : FlowTask). t.id) db.tasks) kind goal id k at ∷ []),
        h,
      ))

enqueue_flow_task-holds :
    (c : ℕ) (s : Text) (kind : TaskKind) (goal : TargetType) (id at : ℕ) (db : Db)
    → exists (holds (c ∷ s)) (enqueue_flow_task kind goal id (c ∷ s) at db).1.tasks ≡ true
unfolding enqueue_flow_task task_row
enqueue_flow_task-holds c s kind goal id at db =
    elim (Bool-cases (exists (holds (c ∷ s)) db.tasks)) [
      | inl e ↦ rw e e
      | inr e ↦
          rw
            (
              e,
              exists-append (holds (c ∷ s)) db.tasks (
                  task_row (next_id (λ (t : FlowTask). t.id) db.tasks) kind goal id (c ∷ s) at
                  ∷ []),
            )
            (ground (arith, has_key-text c s))
    ]

enqueue_flow_task-taken :
    (key : Text) (kind : TaskKind) (goal : TargetType) (id at : ℕ) (db : Db)
    → exists (holds key) db.tasks ≡ true
    → enqueue_flow_task kind goal id key at db ≡ (false, db)
unfolding enqueue_flow_task
enqueue_flow_task-taken key kind goal id at db h = rw h refl

abbrev pub scan_key : Text
scan_key = text "jellyfin_scan"

abbrev pub scans : Settings → Stage → Bool
scans settings stage = stage_eq stage imported && is_on settings (text "jellyfin_scan_on_import")

abbrev pub notifies : Settings → ℕ → Stage → Bool
notifies settings request_id stage =
    ltb 0 request_id
    && is_on settings (text "notify_on_complete")
    && text_eq (stage_key stage) (notify_stage settings)

enqueue_scan-holds :
    (settings : Settings) (stage : Stage) (db : Db)
    → scans settings stage ≡ true
    → exists (holds scan_key) (enqueue_scan settings stage db).tasks ≡ true
unfolding enqueue_scan
enqueue_scan-holds settings stage db e = rw e (
    enqueue_flow_task-holds b'j' (text "ellyfin_scan") jellyfin_scan no_target 0
      (db.now + scan_delay) db)

enqueue_scan_again :
    (settings : Settings) (stage : Stage) (db : Db)
    → (scans settings stage ≡ true → exists (holds scan_key) db.tasks ≡ true)
    → enqueue_scan settings stage db ≡ db
unfolding enqueue_scan
enqueue_scan_again settings stage db h =
    if_case (λ (d : Db). d ≡ db) (scans settings stage)
      (λ e.
        ap (λ (r : Bool × Db). r.1)
          (enqueue_flow_task-taken scan_key jellyfin_scan no_target 0 (db.now + scan_delay) db
            (h e)))
      (λ _. refl)

pub enqueue_notice-holds :
    (settings : Settings) (request_id : ℕ) (stage : Stage) (db : Db)
    → notifies settings request_id stage ≡ true
    → exists
        (holds (notify_task_key request_id))
        (enqueue_notice settings request_id stage db).tasks
      ≡ true
unfolding enqueue_notice notify_task_key
enqueue_notice-holds settings request_id stage db e = rw e (
    enqueue_flow_task-holds b'n' (text "otify:req:" ++ itoa request_id) notify request_target
      request_id (db.now + notify_delay) db)

enqueue_notice-keeps :
    (key : Text) (settings : Settings) (request_id : ℕ) (stage : Stage) (db : Db)
    → exists (holds key) db.tasks ≡ true
    → exists (holds key) (enqueue_notice settings request_id stage db).tasks ≡ true
unfolding enqueue_notice
enqueue_notice-keeps key settings request_id stage db h =
    if_case (λ (d : Db). exists (holds key) d.tasks ≡ true) (notifies settings request_id stage)
      (λ _.
        enqueue_flow_task-keeps key notify request_target request_id (notify_task_key request_id)
          (db.now + notify_delay) db h)
      (λ _. h)

enqueue_notice_again :
    (settings : Settings) (request_id : ℕ) (stage : Stage) (db : Db)
    → (notifies settings request_id stage ≡ true
        → exists (holds (notify_task_key request_id)) db.tasks ≡ true)
    → enqueue_notice settings request_id stage db ≡ db
unfolding enqueue_notice
enqueue_notice_again settings request_id stage db h =
    if_case (λ (d : Db). d ≡ db) (notifies settings request_id stage)
      (λ e.
        ap (λ (r : Bool × Db). r.1)
          (enqueue_flow_task-taken (notify_task_key request_id) notify request_target request_id
            (db.now + notify_delay) db (h e)))
      (λ _. refl)

-- A stage that is applied to a request's items again while its tasks hold their keys enqueues nothing
-- more: the
-- imports of a season make one scan and the episodes of a request one notice.
pub on_stage_applied_idem :
    (settings : Settings) (request_id : ℕ) (stage : Stage) (db : Db)
    → let db' = on_stage_applied settings request_id stage db in
      on_stage_applied settings request_id stage db' ≡ db'
unfolding on_stage_applied
on_stage_applied_idem settings request_id stage db =
    let scanned = enqueue_scan settings stage db in
    let db' = enqueue_notice settings request_id stage scanned in
    ap (enqueue_notice settings request_id stage) (
      enqueue_scan_again settings stage db' (λ e.
        enqueue_notice-keeps scan_key settings request_id stage scanned
          (enqueue_scan-holds settings stage db e)))
    ∙ enqueue_notice_again settings request_id stage db'
        (enqueue_notice-holds settings request_id stage scanned)
