-- ===== src/Poll/Emit/Kept.antt =====
-- What deliveries of events leave as it was.
use journarr.Base.{ℕ, ◌≡◌, refl, ◌∙◌, Bool, true, [], ◌∷◌, exists-append, if_case, next_id, Text}
use journarr.Pipeline.Ops.{Op}
use journarr.Store.Rows.{Db, Event}
use journarr.Store.Events.{insert_event, is_duplicate, has_key, key_of, event_row}
use journarr.Poll.Emit.{Deliveries, arrived, then_event}

pub insert_event-keeps :
    (key k : Text) (op : Op) (db : Db)
    → is_duplicate k db ≡ true
    → is_duplicate k (insert_event key op db).1 ≡ true
unfolding insert_event event_row
insert_event-keeps key k op db h =
    if_case (λ (r : (ℕ × Bool) × Db). is_duplicate k r.1 ≡ true) (is_duplicate key db) (λ _. h)
      (λ _. rw (
        exists-append (λ (e : Event). has_key (key_of k) e.dedupe_key) db.events
            (event_row (next_id (λ (e : Event). e.id) db.events) db.now key op ∷ []),
        h,
      ))

insert_event-items : (key : Text) (op : Op) (db : Db) → (insert_event key op db).1.items ≡ db.items
unfolding insert_event
insert_event-items key op db =
    if_case (λ (r : (ℕ × Bool) × Db). r.1.items ≡ db.items) (is_duplicate key db) (λ _. refl)
      (λ _. refl)

pub Deliveries-items : {a b : Db} → Deliveries a b → b.items ≡ a.items
Deliveries-items arrived = refl
Deliveries-items (then_event {b} d key op) = insert_event-items key op b ∙ Deliveries-items d

pub Deliveries-is_duplicate :
    {a b : Db} → Deliveries a b → (k : Text) → is_duplicate k a ≡ true → is_duplicate k b ≡ true
Deliveries-is_duplicate arrived k h = h
Deliveries-is_duplicate (then_event {b} d key op) k h =
    insert_event-keeps key k op b (Deliveries-is_duplicate d k h)
