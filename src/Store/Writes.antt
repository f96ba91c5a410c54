-- ===== src/Store/Writes.antt =====
-- The statements that the projector makes against the database, as a relation: one statement, and a
-- sequence of them. What all of them keep is proved here once, in the modules below.
pub mod Statements
pub mod Progress
pub mod Invariant
pub mod Keys
pub mod References
pub mod Sound
use journarr.Base.{
  ℕ, zero, suc, ◌+◌, ◌-◌, ◌*◌, ◌/◌, ◌%◌, ◌^◌, ◌≤◌, ◌<◌, ◌≡◌, refl, sym, ap, ◌∙◌, subst, ◌≢◌, ◌↔◌,
  ◌⊎◌, inl, inr, Bool, true, false, not, ◌&&◌, ◌||◌, Option, none, some, List, [], ◌∷◌, ◌++◌, map,
  arith, ltb, leb, ◌==◌, if◌then◌else◌, ==_iff, ==_refl, Bool-cases, Option-cases, is_some, or_else,
  from_option, opt_is, opt_eq, nz, maybe, maybe_case, if_case, length, take, select, first, last,
  exists, update, count, next_id, All, All-append, All-map, All-update, first_sound, Text, text,
  text_eq, text_eq_iff, is_empty, nonempty_or, row_update, map_option, exists-append, count-append,
  first-append_some, first-append_none, count_of_not_exists, count-pos_of_exists, exists_of_first,
  first_of_exists, not_exists_of_first, All_of_first, exists-update, count-update, first-update,
  update_idem, update_none, exists_below_next_id, next_id_fresh, next_id-pos, length-append,
  length-take-le, append_assoc, append-nil,
}
use journarr.Store.Stages.{Stage}
use journarr.Store.Rows.{Db, MediaItem, Request, Download}
use journarr.Store.Items.{NewItem, upsert_item, bump_item_cycle}
use journarr.Store.Transitions.{has_item}
use journarr.Store.Transitions.Pointer.{applied_db}
use journarr.Store.Downloads.{link_download_item, has_download}

abbrev pub has_request : ℕ → Db → Bool
has_request id db = exists (λ (r : Request). r.id == id) db.requests

-- A statement on another table than items, transitions, links and events, that deletes no row.
pub record Elsewhere (a b : Db) : Type 0 where
  pub items : b.items ≡ a.items
  pub transitions : b.transitions ≡ a.transitions
  pub links : b.links ≡ a.links
  pub events : b.events ≡ a.events
  pub requests : (id : ℕ) → has_request id a ≡ true → has_request id b ≡ true
  pub downloads : (id : ℕ) → has_download id a ≡ true → has_download id b ≡ true

-- An UPDATE of an item that leaves its keys and its pointer alone.
pub record IsEdit (f : MediaItem → MediaItem) : Type 0 where
  pub id : (m : MediaItem) → (f m).id ≡ m.id
  pub request_id : (m : MediaItem) → (f m).request_id ≡ m.request_id
  pub media_type : (m : MediaItem) → (f m).media_type ≡ m.media_type
  pub season : (m : MediaItem) → (f m).season_number ≡ m.season_number
  pub episode : (m : MediaItem) → (f m).episode_number ≡ m.episode_number
  pub stage : (m : MediaItem) → (f m).current_stage ≡ m.current_stage
  pub cycle : (m : MediaItem) → (f m).current_cycle ≡ m.current_cycle

pub data Write : Db → Db → Type 0 where
  upserts :
      (n : NewItem) (db : Db) → has_request n.request_id db ≡ true → Write db (upsert_item n db)
  applies :
      (item cycle : ℕ) (stage : Stage) (event : ℕ) (note : Text) (db : Db)
      → has_item item db ≡ true
      → Write db (applied_db item cycle stage event note db)
  bumps : (id : ℕ) (db : Db) → Write db (bump_item_cycle id db).1
  edits :
      (p : MediaItem → Bool) (f : MediaItem → MediaItem) (db : Db)
      → IsEdit f
      → Write db (record db { items = update p f db.items })
  connects :
      (download item cycle : ℕ) (db : Db) → Write db (link_download_item download item cycle db)
  elsewhere : {a b : Db} → Elsewhere a b → Write a b

pub data Writes (a : Db) : Db → Type 0 where
  done : Writes a a
  next : {b c : Db} → Writes a b → Write b c → Writes a c

pub one : {a b : Db} → Write a b → Writes a b
one w = next done w

pub append : {a b c : Db} → Writes a b → Writes b c → Writes a c
append v done = v
append v (next u w) = next (append v u) w
