-- ===== src/Store/Transitions/Convergence.antt =====
-- ApplyStage (backend/internal/store/transitions.go) makes a webhook and the poller that report the
-- same fact converge.
use journarr.Base.{
  ℕ, ◌≡◌, ap, ◌∙◌, subst, inl, inr, true, false, not, ◌&&◌, some, [], ◌∷◌, arith, ◌==◌, ==_iff,
  Bool-cases, exists, next_id, first_sound, Text, map_option, exists-append, exists_of_first,
  update_idem,
}
use Prim.Native.Nat.{max}
use journarr.Store.Stages.{Stage}
use journarr.Store.Rows.{Db, MediaItem, StageTransition}
use journarr.Store.Items.{get_media_item}
use journarr.Store.Transitions.{
  is_ahead, is_transition, advance_row, advance_pointer, insert_transition, transition_row,
  apply_stage, has_item, has_transition,
}
use journarr.Store.Transitions.Pointer.{
  position, item_position, advanced, advanced-position, position-injective, applied_db,
  apply_stage_total, applied_db-items, get-applied_db, applied_db-now, applied_db-has_item,
}

insert_transition-has :
    (item cycle : ℕ) (stage : Stage) (event : ℕ) (note : Text) (db : Db)
    → has_transition item cycle stage (insert_transition item cycle stage event note db).1 ≡ true
unfolding insert_transition has_transition
insert_transition-has item cycle stage event note db =
    elim (Bool-cases (exists (is_transition item cycle stage) db.transitions)) [
      | inl e ↦ rw e e
      | inr e ↦
          rw
            (
              e,
              exists-append (is_transition item cycle stage) db.transitions (
                  transition_row (next_id (λ (t : StageTransition). t.id) db.transitions) db.now
                    item cycle stage event note
                  ∷ []),
            )
            (ground (arith, e))
    ]

get-id : (id : ℕ) (db : Db) (m : MediaItem) → get_media_item id db ≡ some m → m.id ≡ id
unfolding get_media_item
get-id id db m h = (==_iff m.id id).0 (first_sound (λ (m : MediaItem). m.id == id) db.items h)

pub has_item_of_get :
    (id : ℕ) (db : Db) (m : MediaItem) → get_media_item id db ≡ some m → has_item id db ≡ true
unfolding get_media_item
has_item_of_get id db m h = exists_of_first (λ (m : MediaItem). m.id == id) db.items h

applied_db-has :
    (item cycle : ℕ) (stage : Stage) (event : ℕ) (note : Text) (db : Db)
    → has_transition item cycle stage (applied_db item cycle stage event note db) ≡ true
unfolding applied_db advance_pointer has_transition
applied_db-has item cycle stage event note db =
    unfold has_transition in insert_transition-has item cycle stage event note db

-- The item after ApplyStage.
pub applied_item :
    (item cycle : ℕ) (stage : Stage) (event : ℕ) (note : Text) (db : Db) (m : MediaItem)
    → get_media_item item db ≡ some m
    → (m' : MediaItem) × (get_media_item item (applied_db item cycle stage event note db) ≡ some m')
      × (item_position m' ≡ max (item_position m) (position cycle stage))
applied_item item cycle stage event note db m h = (
  advanced item db.now cycle stage m,
  get-applied_db item item cycle stage event note db ∙ ap (map_option _) h,
  subst
      (λ k.
        item_position (advanced k db.now cycle stage m)
        ≡ max (item_position m) (position cycle stage))
      (get-id item db m h) (advanced-position db.now cycle stage m),
)

-- ApplyStage on an item that is there reports a new transition exactly when the item had none for
-- this cycle and stage, leaves it recorded, and moves the item's pointer to the later of its own
-- position and the new one.
pub apply_stage_lem :
    (item cycle : ℕ) (stage : Stage) (event : ℕ) (note : Text) (db : Db) (m : MediaItem)
    → get_media_item item db ≡ some m
    → (db' : Db) × (m' : MediaItem) × (apply_stage item cycle stage event note db
        ≡ some (not (has_transition item cycle stage db), db'))
      × (has_transition item cycle stage db' ≡ true)
      × (get_media_item item db' ≡ some m')
      × (item_position m' ≡ max (item_position m) (position cycle stage))
apply_stage_lem item cycle stage event note db m h =
    let (m', at, moved) = applied_item item cycle stage event note db m h in
    (
      applied_db item cycle stage event note db,
      m',
      apply_stage_total item cycle stage event note db (has_item_of_get item db m h),
      applied_db-has item cycle stage event note db,
      at,
      moved,
    )

insert_transition_again :
    (item cycle : ℕ) (stage : Stage) (event : ℕ) (note : Text) (db : Db)
    → has_transition item cycle stage db ≡ true
    → insert_transition item cycle stage event note db ≡ (false, db)
unfolding insert_transition has_transition
insert_transition_again item cycle stage event note db h = rw h

-- An item whose pointer was just moved is not behind any more.
advance_again :
    (item cycle : ℕ) (stage : Stage) (event : ℕ) (note : Text) (db : Db)
    → let db' = applied_db item cycle stage event note db in
      advance_pointer item cycle stage db' ≡ db'
unfolding advance_pointer advance_row
advance_again item cycle stage event note db =
    let db' : Db = applied_db item cycle stage event note db in
    ap (λ xs. record db' { items = xs })
      (rw
        (
          applied_db-items item cycle stage event note db,
          applied_db-now item cycle stage event note db,
        )
        (update_idem (λ m. m.id == item && is_ahead cycle stage m) (advance_row db.now cycle stage)
          db.items (λ m h. ground arith)))

-- A second report of a fact, by another event and with another note, is not applied and changes
-- nothing at all.
pub apply_stage_idem :
    (item cycle : ℕ) (stage : Stage) (event later : ℕ) (note other : Text) (db : Db)
    → has_item item db ≡ true
    → let db' = applied_db item cycle stage event note db in
      apply_stage item cycle stage later other db' ≡ some (false, db')
unfolding apply_stage applied_db
apply_stage_idem item cycle stage event later note other db h =
    let db' : Db = applied_db item cycle stage event note db in
    let stays =
      insert_transition_again item cycle stage later other db'
        (applied_db-has item cycle stage event note db) in
    rw (
      stays,
      advance_again item cycle stage event note db,
      applied_db-has_item item item cycle stage event note db,
      h,
    )

-- Two facts about an item leave its pointer at the same cycle and stage in either order.
pub apply_stage_comm :
    (item c d : ℕ) (s t : Stage) (event later : ℕ) (note other : Text) (db : Db) (m : MediaItem)
    → get_media_item item db ≡ some m
    → (a b : MediaItem) × (get_media_item item
          (applied_db item d t later other (applied_db item c s event note db))
        ≡ some a)
      × (get_media_item item (applied_db item c s event note (applied_db item d t later other db))
          ≡ some b)
      × (a.current_cycle ≡ b.current_cycle)
      × (a.current_stage ≡ b.current_stage)
apply_stage_comm item c d s t event later note other db m h =
    let (a, at_a, pos_a) = applied_item item c s event note db m h in
    let (b, at_b, pos_b) = applied_item item d t later other db m h in
    let (x, at_x, pos_x) = applied_item item d t later other _ a at_a in
    let (y, at_y, pos_y) = applied_item item c s event note _ b at_b in
    let (cycles, stages) =
      position-injective x.current_cycle y.current_cycle x.current_stage y.current_stage
        (omega arith) in
    (x, y, at_x, at_y, cycles, stages)
