-- ===== src/Poll/Emit.antt =====
-- Events that a poller or a webhook appends to the log, and the wake-up of the projector.
pub mod Kept
use journarr.Base.{Bool, ◌||◌, Text}
use journarr.Pipeline.Ops.{Op}
use journarr.Store.Rows.{Db}
use journarr.Store.Events.{insert_event}

-- The database, and whether Wake was called.
pub record Emitter : Type 0 where
  pub db : Db
  pub woken : Bool

-- InsertEvent, and Wake where the event is new.
unfoldable pub emit_event : Text → Op → Emitter → Emitter
unfolding insert_event
emit_event key op s =
    let (r, db) = insert_event key op s.db in record { db = db; woken = s.woken || r.1 }

-- A database that deliveries of events lead to.
pub data Deliveries (a : Db) : Db → Type 0 where
  arrived : Deliveries a a
  then_event :
      {b : Db} → Deliveries a b → (key : Text) (op : Op) → Deliveries a (insert_event key op b).1

pub emit_event-Deliveries :
    {a : Db} (key : Text) (op : Op) (s : Emitter)
    → Deliveries a s.db
    → Deliveries a (emit_event key op s).db
unfolding emit_event
emit_event-Deliveries key op s d = then_event d key op
