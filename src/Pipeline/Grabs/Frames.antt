-- ===== src/Pipeline/Grabs/Frames.antt =====
-- What the writes of a round of applyGrab (backend/internal/pipeline/grabs.go) leave alone.
use journarr.Base.{
  ℕ, ◌≡◌, refl, ap, ◌∙◌, Bool, true, false, List, ◌∷◌, arith, ◌==◌, exists, Text, Bool-cases, inl,
  inr, [], ==_refl, map_option, exists-append,
}
use journarr.Store.Stages.{Stage}
use journarr.Store.Rows.{Db, Download, FlowTask}
use journarr.Store.Downloads.{is_link, link_download_item, link_row}
use journarr.Store.Transitions.{
  has_item, is_transition, insert_transition, advance_pointer, apply_stage,
}
use journarr.Store.Transitions.Pointer.{applied_db}
use journarr.Flow.Settings.{Settings, enqueue_scan, enqueue_notice, on_stage_applied}
use journarr.Store.Tasks.{enqueue_flow_task}
use journarr.Pipeline.Projector.{Projector, announce, touch, publish_stage}

-- OnStageApplied writes tasks only.
abbrev pub with_tasks : List FlowTask → Db → Db
with_tasks ts db = record db { tasks = ts }

enqueue_scan-with_tasks :
    (settings : Settings) (stage : Stage) (db : Db)
    → enqueue_scan settings stage db ≡ with_tasks (enqueue_scan settings stage db).tasks db
unfolding enqueue_scan enqueue_flow_task
enqueue_scan-with_tasks settings stage db = ground arith

enqueue_notice-with_tasks :
    (settings : Settings) (id : ℕ) (stage : Stage) (db : Db)
    → enqueue_notice settings id stage db
      ≡ with_tasks (enqueue_notice settings id stage db).tasks db
unfolding enqueue_notice enqueue_flow_task
enqueue_notice-with_tasks settings id stage db = ground arith

touch-db : (id : ℕ) (p : Projector) → (touch id p).db ≡ p.db
unfolding touch
touch-db id p = ground arith

pub announce-with_tasks :
    (applied : Bool) (item id : ℕ) (stage : Stage) (cycle : ℕ) (p : Projector)
    → (ts : List FlowTask) × ((announce applied item id stage cycle p).db ≡ with_tasks ts p.db)
unfolding announce publish_stage on_stage_applied
announce-with_tasks false item id stage cycle p = (p.db.tasks, refl)
announce-with_tasks true item id stage cycle p =
    let scanned = enqueue_scan p.settings stage p.db in
    let tasks = (enqueue_notice p.settings id stage scanned).tasks in
    (
      tasks,
      touch-db id (publish_stage item id stage cycle p)
          ∙ enqueue_notice-with_tasks p.settings id stage scanned
          ∙ ap (with_tasks tasks) (enqueue_scan-with_tasks p.settings stage p.db),
    )

-- Behind the link the item and the download are linked.
pub link_download_item-linked :
    (download item cycle : ℕ) (db : Db)
    → exists (λ (d : Download). d.id == download) db.downloads ≡ true
    → has_item item db ≡ true
    → exists (is_link download item) (link_download_item download item cycle db).links ≡ true
unfolding link_download_item
link_download_item-linked download item cycle db own there =
    elim (Bool-cases (exists (is_link download item) db.links)) [
      | inl e ↦ rw e e
      | inr e ↦
          rw (e, own, there)
            (exists-append (is_link download item) db.links (link_row download item cycle ∷ [])
              ∙ rw (e, ==_refl download, ==_refl item) refl)
    ]

pub link_download_item-items :
    (download item cycle : ℕ) (db : Db)
    → let db' = link_download_item download item cycle db in
      (db'.items ≡ db.items) × (db'.downloads ≡ db.downloads)
unfolding link_download_item
link_download_item-items download item cycle db = ground arith

pub applied_db-links :
    (item cycle : ℕ) (stage : Stage) (event : ℕ) (note : Text) (db : Db)
    → let db' = applied_db item cycle stage event note db in
      (db'.links ≡ db.links) × (db'.downloads ≡ db.downloads)
unfolding applied_db advance_pointer insert_transition
applied_db-links item cycle stage event note db = ground arith

-- ApplyStage does not read the tasks.
abbrev pub put_tasks : List FlowTask → Bool × Db → Bool × Db
put_tasks ts r = (r.0, with_tasks ts r.1)

pub apply_stage-with_tasks :
    (item cycle : ℕ) (stage : Stage) (event : ℕ) (note : Text) (ts : List FlowTask) (db : Db)
    → apply_stage item cycle stage event note (with_tasks ts db)
      ≡ map_option (put_tasks ts) (apply_stage item cycle stage event note db)
unfolding apply_stage insert_transition advance_pointer
apply_stage-with_tasks item cycle stage event note ts db =
    elim (Bool-cases (exists (is_transition item cycle stage) db.transitions)) [
      | inl e ↦ elim (Bool-cases (has_item item db)) [
        | inl h ↦ rw (e, h) refl
        | inr h ↦ rw (e, h) refl
      ]
      | inr e ↦ elim (Bool-cases (has_item item db)) [
        | inl h ↦ rw (e, h) refl
        | inr h ↦ rw (e, h) refl
      ]
    ]
