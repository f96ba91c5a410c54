-- ===== src/Store/Transitions.antt =====
-- backend/internal/store/transitions.go: the table `stage_transitions` and the stage pointer.
pub mod Pointer
pub mod Convergence
use journarr.Base.{
  ℕ, Bool, true, false, not, ◌&&◌, ◌||◌, Option, none, some, List, [], ◌∷◌, ◌++◌, ◌==◌, ltb,
  if◌then◌else◌, opt_is, nz, Text, exists, select, update, next_id, map,
}
use journarr.Store.Stages.{Stage, notified, ordinal, stage_eq}
use journarr.Store.Rows.{Db, MediaItem, StageTransition}

-- UNIQUE (media_item_id, cycle, stage).
abbrev pub is_transition : ℕ → ℕ → Stage → StageTransition → Bool
is_transition item cycle stage t =
    t.media_item_id == item && t.cycle == cycle && stage_eq t.stage stage

unfoldable pub transition_row : ℕ → ℕ → ℕ → ℕ → Stage → ℕ → Text → StageTransition
transition_row id now item cycle stage event note = record {
  id = id;
  media_item_id = item;
  cycle = cycle;
  stage = stage;
  entered_at = now;
  source_event_id = nz event;
  note = note;
}

-- INSERT OR IGNORE INTO stage_transitions, with RowsAffected() > 0.
unfoldable pub insert_transition : ℕ → ℕ → Stage → ℕ → Text → Db → Bool × Db
unfolding transition_row
insert_transition item cycle stage event note db =
    let id = next_id (λ (t : StageTransition). t.id) db.transitions in
    if exists (is_transition item cycle stage) db.transitions then (false, db) else (
      true,
      record db {
        transitions = db.transitions ++ transition_row id db.now item cycle stage event note ∷ [];
      },
    )

-- Is (cycle, ordinal) ahead of the item's pointer?
abbrev pub is_ahead : ℕ → Stage → MediaItem → Bool
is_ahead cycle stage m =
    ltb m.current_cycle cycle
    || (m.current_cycle == cycle && ltb (ordinal m.current_stage) (ordinal stage))

unfoldable pub advance_row : ℕ → ℕ → Stage → MediaItem → MediaItem
advance_row now cycle stage m = record m {
  current_stage = stage;
  current_cycle = cycle;
  stuck_since = none;
  updated_at = now;
}

-- UPDATE media_items SET current_stage, current_cycle … WHERE id = ? AND (…).
unfoldable pub advance_pointer : ℕ → ℕ → Stage → Db → Db
unfolding advance_row
advance_pointer item cycle stage db = record db {
  items =
      update (λ m. m.id == item && is_ahead cycle stage m) (advance_row db.now cycle stage)
        db.items;
}

abbrev pub has_item : ℕ → Db → Bool
has_item item db = exists (λ (m : MediaItem). m.id == item) db.items

-- ApplyStage. The INSERT fails where the item is not there (a foreign key, which OR IGNORE does not
-- cover); a row that is there already is no failure.
unfoldable pub apply_stage : ℕ → ℕ → Stage → ℕ → Text → Db → Option (Bool × Db)
unfolding insert_transition advance_pointer
apply_stage item cycle stage event note db =
    let (applied, db') = insert_transition item cycle stage event note db in
    if has_item item db then some (applied, advance_pointer item cycle stage db') else none

-- TransitionsForItem, in the order of their ids; the source sorts them by cycle and ordinal.
unfoldable pub transitions_for_item : ℕ → Db → List StageTransition
transitions_for_item item db = select (λ t. t.media_item_id == item) db.transitions

unfoldable pub has_transition : ℕ → ℕ → Stage → Db → Bool
has_transition item cycle stage db = exists (is_transition item cycle stage) db.transitions

abbrev pub is_item_of : ℕ → ℕ → MediaItem → Bool
is_item_of request_id item m = m.id == item && opt_is request_id m.request_id

-- NotifiedItemIDs, as a test: has the request's item a 'notified' transition in any cycle?
unfoldable pub is_notified_item : ℕ → ℕ → Db → Bool
is_notified_item request_id item db =
    exists (λ t. t.media_item_id == item && stage_eq t.stage notified) db.transitions
    && exists (is_item_of request_id item) db.items
