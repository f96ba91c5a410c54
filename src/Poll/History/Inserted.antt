-- ===== src/Poll/History/Inserted.antt =====
-- What one record of the loop of backend/internal/poll/arrhistory.go does to the event log.
use journarr.Base.{
  ℕ, ◌≡◌, refl, inl, inr, Bool, true, false, not, ◌&&◌, Option, none, some, ◌∷◌, ◌++◌, arith, ◌==◌,
  Option-cases, is_some, if_case, Text, text,
}
use journarr.Pipeline.Ops.{Arr, sonarr, radarr, Op}
use journarr.Pipeline.Seasons.{itoa64}
use journarr.Store.Rows.{Db}
use journarr.Store.Events.{is_duplicate, insert_event}
use journarr.Store.Events.Keyed.{insert_event-is_duplicate}
use journarr.Poll.HistoryPages.{HistoryRecord}
use journarr.Poll.Emit.Kept.{insert_event-keeps}
use journarr.Poll.History.{normalize, history_key, insert_record}

-- Is the event of the record with this id in the log?
abbrev pub is_logged : Arr → ℕ → Db → Bool
is_logged arr id db = is_duplicate (history_key arr id) db

abbrev pub has_kind : Arr → HistoryRecord → Bool
has_kind arr r = is_some (normalize arr r)

abbrev pub is_record : ℕ → HistoryRecord → Bool
is_record id r = r.id == id

-- A record of this id whose event type the poller does not read.
abbrev pub is_foreign : Arr → ℕ → HistoryRecord → Bool
is_foreign arr id r = r.id == id && not (has_kind arr r)

history_key-cons : (arr : Arr) (id : ℕ) → (c : ℕ) × (s : Text) × (history_key arr id ≡ c ∷ s)
unfolding history_key
history_key-cons sonarr id = (b's', text "onarr:history:" ++ itoa64 id, refl)
history_key-cons radarr id = (b'r', text "adarr:history:" ++ itoa64 id, refl)

insert_event-logs :
    (arr : Arr) (id : ℕ) (op : Op) (db : Db)
    → is_logged arr id (insert_event (history_key arr id) op db).1 ≡ true
insert_event-logs arr id op db =
    let (c, s, e) = history_key-cons arr id in rw e (insert_event-is_duplicate c s op db)

-- What one record does to the log, where it does not abort the pass.
pub record IsInserted (arr : Arr) (r : HistoryRecord) (db db' : Db) : Type 0 where
  pub keeps : (id : ℕ) → is_logged arr id db ≡ true → is_logged arr id db' ≡ true
  pub logs : has_kind arr r ≡ true → is_logged arr r.id db' ≡ true

abbrev pub Inserted : Arr → HistoryRecord → Db → Option (Bool × Db) → Type 0
Inserted arr r db none = Unit
Inserted arr r db (some done) = IsInserted arr r db done.1

pub insert_record-Inserted :
    (arr : Arr) (fails : ℕ → Bool) (r : HistoryRecord) (db : Db)
    → Inserted arr r db (insert_record arr fails false r db)
unfolding insert_record
insert_record-Inserted arr fails r db = elim (Option-cases (normalize arr r)) [
  | inl e ↦ rw e (record { keeps = λ id h. h; logs = λ h. absurd (ground arith) })
  | inr (op, e) ↦ rw e (
      if_case (Inserted arr r db) (fails r.id) (λ _. tt)
        (λ _. record {
          keeps = λ id h. insert_event-keeps (history_key arr r.id) (history_key arr id) op db h;
          logs = λ _. insert_event-logs arr r.id op db;
        }))
]
