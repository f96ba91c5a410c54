-- ===== src/Store/Events.antt =====
-- backend/internal/store/events.go: the append-only log that the projector drains.
pub mod Keyed
use journarr.Base.{
  ℕ, ◌+◌, ◌*◌, Bool, true, false, not, ◌&&◌, Option, none, some, List, [], ◌∷◌, ◌++◌, ◌==◌, ltb,
  if◌then◌else◌, is_some, nz, Text, text_eq, is_empty, exists, select, take, update, next_id,
}
use journarr.Pipeline.Ops.{Op}
use journarr.Store.Stages.{Match, pending}
use journarr.Store.Rows.{Db, Event}

-- `var key any`: an empty key is stored as NULL.
abbrev pub key_of : Text → Option Text
key_of [] = none
key_of (c ∷ s) = some (c ∷ s)

-- A NULL key equals no key.
abbrev pub has_key : Option Text → Option Text → Bool
has_key none k = false
has_key (some a) none = false
has_key (some a) (some b) = text_eq b a

unfoldable pub event_row : ℕ → ℕ → Text → Op → Event
event_row id now key payload = record {
  id = id;
  dedupe_key = key_of key;
  payload = payload;
  received_at = now;
  processed_at = none;
  match_status = pending;
  request_id = none;
  media_item_id = none;
  download_id = none;
}

abbrev pub is_duplicate : Text → Db → Bool
is_duplicate key db = exists (λ (e : Event). has_key (key_of key) e.dedupe_key) db.events

-- InsertEvent: the id with `inserted`, (0, false) for a duplicate key.
unfoldable pub insert_event : Text → Op → Db → (ℕ × Bool) × Db
unfolding event_row
insert_event key payload db =
    let id = next_id (λ (e : Event). e.id) db.events in
    if is_duplicate key db
    then ((0, false), db)
    else ((id, true), record db { events = db.events ++ event_row id db.now key payload ∷ [] })

abbrev pub is_unprocessed : Event → Bool
is_unprocessed e = not (is_some e.processed_at)

unfoldable pub fetch_unprocessed : ℕ → Db → List Event
fetch_unprocessed limit db = take limit (select is_unprocessed db.events)

unfoldable pub processed_row : ℕ → Match → ℕ → ℕ → ℕ → Event → Event
processed_row now m request item download e = record e {
  processed_at = some now;
  match_status = m;
  request_id = nz request;
  media_item_id = nz item;
  download_id = nz download;
}

unfoldable pub mark_processed : ℕ → Match → ℕ → ℕ → ℕ → Db → Db
unfolding processed_row
mark_processed id m request item download db = record db {
  events = update (λ e. e.id == id) (processed_row db.now m request item download) db.events;
}

abbrev pub seconds_per_day : ℕ
seconds_per_day = 86400

-- received_at < datetime('now', '-days days'), without a negative time.
unfoldable pub reap_events : ℕ → Db → Db
reap_events days db = record db {
  events =
      select
        (λ e. not (is_some e.processed_at && ltb (e.received_at + days * seconds_per_day) db.now))
        db.events;
}
