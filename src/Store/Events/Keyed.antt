-- ===== src/Store/Events/Keyed.antt =====
-- The dedupe keys of the event log (backend/internal/store/events.go).
use journarr.Base.{
  ℕ, ◌≤◌, ◌≡◌, refl, ◌∙◌, subst, inl, inr, Bool, true, false, Option, some, [], ◌∷◌, ◌++◌, arith,
  ◌==◌, ==_iff, Bool-cases, select, exists, count, next_id, Text, text_eq_iff, exists-append,
  count-update, next_id_fresh, select-append, count-insert, exists-ext, count-select-le,
}
use journarr.Pipeline.Ops.{Op}
use journarr.Store.Stages.{Match}
use journarr.Store.Rows.{Db, Event}
use journarr.Store.Events.{
  key_of, has_key, event_row, is_duplicate, insert_event, is_unprocessed, processed_row,
  mark_processed, reap_events,
}

-- PRIMARY KEY (id) and UNIQUE (dedupe_key), where NULLs are distinct.
pub record HasEventKeys (db : Db) : Type 0 where
  pub id : (id : ℕ) → count (λ (e : Event). e.id == id) db.events ≤ 1
  pub key : (k : Text) → count (λ (e : Event). has_key (some k) e.dedupe_key) db.events ≤ 1

pub has_key_of :
    (key k : Text)
    → has_key (some k) (key_of key) ≡ true
    → (o : Option Text) → has_key (some k) o ≡ has_key (key_of key) o
has_key_of [] k h o = cc
has_key_of (c ∷ s) k h o =
    subst (λ j. has_key (some j) o ≡ has_key (some (c ∷ s)) o) ((text_eq_iff (c ∷ s) k).0 h) refl

pub has_key-text : (c : ℕ) (s : Text) → has_key (some (c ∷ s)) (key_of (c ∷ s)) ≡ true
has_key-text c s = (text_eq_iff (c ∷ s) (c ∷ s)).1 refl

-- A delivery under a new key has a new id.
insert_event-HasEventKeys :
    (key : Text) (payload : Op) (db : Db)
    → HasEventKeys db
    → HasEventKeys (insert_event key payload db).1
unfolding insert_event
insert_event-HasEventKeys key payload db inv = elim (Bool-cases (is_duplicate key db)) [
  | inl e ↦ rw e inv
  | inr e ↦
      let id = next_id (λ (e : Event). e.id) db.events in
      let row = event_row id db.now key payload in
      rw e (record {
        id = λ k.
            count-insert (λ (e : Event). e.id == k) db.events row (inv.id k)
              λ h.
                subst (λ j. exists (λ (e : Event). e.id == j) db.events ≡ false)
                  ((==_iff id k).0 (unfold event_row in h))
                  (next_id_fresh (λ (e : Event). e.id) db.events);
        key = λ k.
            count-insert (λ (e : Event). has_key (some k) e.dedupe_key) db.events row (inv.key k)
              λ h.
                exists-ext (λ (e : Event). has_key (some k) e.dedupe_key)
                  (λ (e : Event). has_key (key_of key) e.dedupe_key) db.events
                  (λ x. has_key_of key k (unfold event_row in h) x.dedupe_key)
                ∙ e;
      })
]

mark_processed-HasEventKeys :
    (id : ℕ) (m : Match) (r i d : ℕ) (db : Db)
    → HasEventKeys db
    → HasEventKeys (mark_processed id m r i d db)
unfolding mark_processed processed_row
mark_processed-HasEventKeys id m r i d db inv = record {
  id = λ k.
      rw
        (count-update (λ (e : Event). e.id == id) (λ (e : Event). e.id == k)
          (processed_row db.now m r i d) (λ e. refl) db.events)
        (inv.id k);
  key = λ k.
      rw
        (count-update (λ (e : Event). e.id == id) (λ (e : Event). has_key (some k) e.dedupe_key)
          (processed_row db.now m r i d) (λ e. refl) db.events)
        (inv.key k);
}

reaped-le :
    (q : Event → Bool) (days : ℕ) (db : Db)
    → count q (reap_events days db).events ≤ count q db.events
unfolding reap_events
reaped-le q days db = count-select-le q _ db.events

reap_events-HasEventKeys :
    (days : ℕ) (db : Db) → HasEventKeys db → HasEventKeys (reap_events days db)
reap_events-HasEventKeys days db inv = record {
  id = λ k. let old = inv.id k in omega (arith, reaped-le (λ (e : Event). e.id == k) days db);
  key = λ k.
      let old = inv.key k in
      omega (arith, reaped-le (λ (e : Event). has_key (some k) e.dedupe_key) days db);
}

-- The log after a delivery has the key.
pub insert_event-is_duplicate :
    (c : ℕ) (s : Text) (payload : Op) (db : Db)
    → is_duplicate (c ∷ s) (insert_event (c ∷ s) payload db).1 ≡ true
unfolding insert_event event_row
insert_event-is_duplicate c s payload db = elim (Bool-cases (is_duplicate (c ∷ s) db)) [
  | inl e ↦ rw e e
  | inr e ↦
      let id = next_id (λ (e : Event). e.id) db.events in
      rw
        (
          e,
          exists-append (λ (e : Event). has_key (key_of (c ∷ s)) e.dedupe_key) db.events
              (event_row id db.now (c ∷ s) payload ∷ []),
        )
        (ground (arith, has_key-text c s))
]

-- A second delivery under a key, with any payload, is a duplicate and changes nothing.
pub insert_event_again :
    (c : ℕ) (s : Text) (payload later : Op) (db : Db)
    → let db' = (insert_event (c ∷ s) payload db).1 in
      insert_event (c ∷ s) later db' ≡ ((0, false), db')
unfolding insert_event
insert_event_again c s payload later db = rw (insert_event-is_duplicate c s payload db) refl

-- A delivery under a new key is unprocessed, behind all that were there.
pub insert_event_lem :
    (key : Text) (payload : Op) (db : Db)
    → is_duplicate key db ≡ false
    → (e : Event) × (select is_unprocessed (insert_event key payload db).1.events
        ≡ select is_unprocessed db.events ++ e ∷ [])
      × (e.payload ≡ payload)
      × ((insert_event key payload db).0 ≡ (e.id, true))
      × (exists (λ (x : Event). x.id == e.id) db.events ≡ false)
unfolding insert_event event_row
insert_event_lem key payload db h =
    let row = event_row (next_id (λ (e : Event). e.id) db.events) db.now key payload in
    rw h (
      row,
      select-append is_unprocessed db.events (row ∷ []),
      refl,
      refl,
      next_id_fresh (λ (e : Event). e.id) db.events,
    )

-- The operations on the log.
pub data LogStep : Db → Db → Type 0 where
  inserts : (key : Text) (payload : Op) (db : Db) → LogStep db (insert_event key payload db).1
  marks : (id : ℕ) (m : Match) (r i d : ℕ) (db : Db) → LogStep db (mark_processed id m r i d db)
  reaps : (days : ℕ) (db : Db) → LogStep db (reap_events days db)

-- Every operation keeps the ids and the dedupe keys of the log unique.
pub LogStep-HasEventKeys : (a b : Db) → LogStep a b → HasEventKeys a → HasEventKeys b
LogStep-HasEventKeys _ _ (inserts key payload db) inv = insert_event-HasEventKeys key payload db inv
LogStep-HasEventKeys _ _ (marks id m r i d db) inv = mark_processed-HasEventKeys id m r i d db inv
LogStep-HasEventKeys _ _ (reaps days db) inv = reap_events-HasEventKeys days db inv
