-- ===== src/Store/Transitions/Pointer.antt =====
-- The stage pointer of an item as ApplyStage moves it (backend/internal/store/transitions.go).
use journarr.Base.{
  ℕ, ◌+◌, ◌*◌, ◌<◌, ◌≡◌, refl, true, not, ◌&&◌, some, ◌==◌, ltb, update, arith, Text, row_update,
  map_option, first-update, exists-update,
}
use Prim.Native.Nat.{max}
use journarr.Store.Stages.{Stage, ordinal, ordinal-injective}
use journarr.Store.Rows.{Db, MediaItem}
use journarr.Store.Items.{get_media_item}
use journarr.Store.Transitions.{
  is_ahead, advance_row, advance_pointer, insert_transition, apply_stage, has_item, has_transition,
}

-- A cycle and a stage as one number, which orders them lexicographically: ordinals stay below 1000.
abbrev pub position : ℕ → Stage → ℕ
position cycle stage = 1000 * cycle + ordinal stage

abbrev pub item_position : MediaItem → ℕ
item_position m = position m.current_cycle m.current_stage

pub ordinal-lt : (s : Stage) → ordinal s < 1000
ordinal-lt s = ground arith

pub is_ahead-position :
    (cycle : ℕ) (stage : Stage) (m : MediaItem)
    → is_ahead cycle stage m ≡ ltb (item_position m) (position cycle stage)
is_ahead-position cycle stage m = ground (arith, ordinal-lt stage, ordinal-lt m.current_stage)

-- What ApplyStage makes of one item.
unfoldable pub advanced : ℕ → ℕ → ℕ → Stage → MediaItem → MediaItem
advanced item now cycle stage =
    row_update (λ m. m.id == item && is_ahead cycle stage m) (advance_row now cycle stage)

pub advanced-position :
    (now cycle : ℕ) (stage : Stage) (m : MediaItem)
    → item_position (advanced m.id now cycle stage m) ≡ max (item_position m) (position cycle stage)
unfolding advanced advance_row
advanced-position now cycle stage m = ground (arith, ordinal-lt stage, ordinal-lt m.current_stage)

pub position-injective : (c d : ℕ) (s t : Stage) → position c s ≡ position d t → (c ≡ d) × (s ≡ t)
position-injective c d s t h = (
  omega (arith, ordinal-lt s, ordinal-lt t),
  ordinal-injective s t (omega (arith, ordinal-lt s, ordinal-lt t)),
)

-- The database after ApplyStage, where the item is there.
unfoldable pub applied_db : ℕ → ℕ → Stage → ℕ → Text → Db → Db
applied_db item cycle stage event note db =
    advance_pointer item cycle stage (insert_transition item cycle stage event note db).1

insert_transition-items :
    (item cycle : ℕ) (stage : Stage) (event : ℕ) (note : Text) (db : Db)
    → let db' = (insert_transition item cycle stage event note db).1 in
      (db'.items ≡ db.items) × (db'.now ≡ db.now)
unfolding insert_transition
insert_transition-items item cycle stage event note db = ground arith

pub apply_stage_total :
    (item cycle : ℕ) (stage : Stage) (event : ℕ) (note : Text) (db : Db)
    → has_item item db ≡ true
    → apply_stage item cycle stage event note db
      ≡ some (not (has_transition item cycle stage db), applied_db item cycle stage event note db)
unfolding apply_stage has_transition applied_db
apply_stage_total item cycle stage event note db h = ground arith

-- The items after ApplyStage.
pub applied_db-items :
    (item cycle : ℕ) (stage : Stage) (event : ℕ) (note : Text) (db : Db)
    → (applied_db item cycle stage event note db).items
      ≡ update
          (λ m. m.id == item && is_ahead cycle stage m)
          (advance_row db.now cycle stage)
          db.items
unfolding applied_db advance_pointer
applied_db-items item cycle stage event note db = cc (
  (insert_transition-items item cycle stage event note db).0,
  (insert_transition-items item cycle stage event note db).1,
)

pub get-applied_db :
    (id item cycle : ℕ) (stage : Stage) (event : ℕ) (note : Text) (db : Db)
    → get_media_item id (applied_db item cycle stage event note db)
      ≡ map_option (advanced item db.now cycle stage) (get_media_item id db)
unfolding get_media_item advanced advance_row
get-applied_db id item cycle stage event note db =
    rw (applied_db-items item cycle stage event note db) (
      first-update (λ m. m.id == item && is_ahead cycle stage m) (λ m. m.id == id)
        (advance_row db.now cycle stage) (λ m. refl) db.items)

pub applied_db-now :
    (item cycle : ℕ) (stage : Stage) (event : ℕ) (note : Text) (db : Db)
    → (applied_db item cycle stage event note db).now ≡ db.now
unfolding applied_db advance_pointer
applied_db-now item cycle stage event note db =
    (insert_transition-items item cycle stage event note db).1

pub applied_db-has_item :
    (id item cycle : ℕ) (stage : Stage) (event : ℕ) (note : Text) (db : Db)
    → has_item id (applied_db item cycle stage event note db) ≡ has_item id db
unfolding advance_row
applied_db-has_item id item cycle stage event note db =
    rw (applied_db-items item cycle stage event note db) (
      exists-update (λ m. m.id == item && is_ahead cycle stage m) (λ m. m.id == id)
        (advance_row db.now cycle stage) (λ m. refl) db.items)
