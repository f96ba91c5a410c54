-- ===== src/Store/Writes/Sound.antt =====
-- What the database satisfies between the projector's passes, and what the passes never take back.
use journarr.Base.{ℕ, ◌+◌, ◌≡◌, refl, Bool, true, some, List, [], if_case, exists, Text}
use journarr.Store.Stages.{Stage, Match}
use journarr.Store.Rows.{Db, MediaItem, Event}
use journarr.Store.Items.{get_media_item}
use journarr.Store.Transitions.{has_transition}
use journarr.Store.Downloads.{is_link, has_download}
use journarr.Store.Events.{mark_processed, insert_event, is_duplicate}
use journarr.Pipeline.Ops.{Op}
use journarr.Store.Writes.{Writes, has_request}
use journarr.Store.Writes.Progress.{Advances, Later, Advances-refl, Advances-trans, Writes-Advances}
use journarr.Store.Writes.Invariant.{IsDominated, Writes-IsDominated}
use journarr.Store.Writes.Keys.{HasKeys, Writes-HasKeys}
use journarr.Store.Writes.References.{HasReferences, Writes-HasReferences}

pub record IsSound (db : Db) : Type 0 where
  pub dominated : IsDominated db
  pub keys : HasKeys db
  pub references : HasReferences db

pub Writes-IsSound : {a b : Db} → Writes a b → IsSound a → IsSound b
Writes-IsSound w inv = record {
  dominated = Writes-IsDominated w inv.dominated;
  keys = Writes-HasKeys w inv.keys;
  references = Writes-HasReferences w inv.references;
}

-- No row of `a` but an event is lost in `b`, and no item of it has fallen back.
pub record Persists (a b : Db) : Type 0 where
  pub items :
      (id : ℕ) (m : MediaItem)
      → get_media_item id a ≡ some m
      → (m' : MediaItem) × (get_media_item id b ≡ some m') × Later m m'
  pub transitions :
      (item cycle : ℕ) (stage : Stage)
      → has_transition item cycle stage a ≡ true
      → has_transition item cycle stage b ≡ true
  pub links : (d i : ℕ) → exists (is_link d i) a.links ≡ true → exists (is_link d i) b.links ≡ true
  pub requests : (id : ℕ) → has_request id a ≡ true → has_request id b ≡ true
  pub downloads : (id : ℕ) → has_download id a ≡ true → has_download id b ≡ true

pub Writes-Persists : {a b : Db} → Writes a b → Persists a b
Writes-Persists w =
    let adv = Writes-Advances w in
    record {
      items = adv.items;
      transitions = adv.transitions;
      links = adv.links;
      requests = adv.requests;
      downloads = adv.downloads;
    }

-- The events that are left aside: both statements hold of the other tables.
with_events : List Event → Db → Db
with_events es db = record db { events = es }

forget_events : (a b : Db) → Persists a b → Advances (with_events [] a) (with_events [] b)
unfolding get_media_item has_transition with_events
forget_events a b p = record {
  items = p.items;
  transitions = p.transitions;
  links = p.links;
  events = refl;
  requests = p.requests;
  downloads = p.downloads;
}

recall_events : (a b : Db) → Advances (with_events [] a) (with_events [] b) → Persists a b
unfolding get_media_item has_transition with_events
recall_events a b p = record {
  items = p.items;
  transitions = p.transitions;
  links = p.links;
  requests = p.requests;
  downloads = p.downloads;
}

pub Persists-refl : (a : Db) → Persists a a
Persists-refl a = recall_events a a (Advances-refl _)

pub Persists-trans : {a b c : Db} → Persists a b → Persists b c → Persists a c
Persists-trans {a} {b} {c} p q =
    recall_events a c (Advances-trans _ _ _ (forget_events a b p) (forget_events b c q))

-- A statement on other tables and columns than those that both read.
elsewhere-Persists :
    (es : List Event) (n : ℕ) (a : Db) → Persists a (record a { events = es; now = n })
unfolding get_media_item has_transition
elsewhere-Persists es n a =
    let p = Persists-refl a in
    record {
      items = p.items;
      transitions = p.transitions;
      links = p.links;
      requests = p.requests;
      downloads = p.downloads;
    }

elsewhere-IsSound :
    (es : List Event) (n : ℕ) (a : Db) → IsSound a → IsSound (record a { events = es; now = n })
unfolding get_media_item has_transition
elsewhere-IsSound es n a inv = record {
  dominated = record { attached = inv.dominated.attached; dominated = inv.dominated.dominated };
  keys = record {
    item_id = inv.keys.item_id;
    item_key = inv.keys.item_key;
    transition_key = inv.keys.transition_key;
    link_key = inv.keys.link_key;
  };
  references = record { parents = inv.references.parents; linked = inv.references.linked };
}

module _ (id : ℕ) (m : Match) (request item download : ℕ) (db : Db) where
  pub mark_processed-Persists : Persists db (mark_processed id m request item download db)
  unfolding mark_processed
  mark_processed-Persists = elsewhere-Persists _ db.now db

  pub mark_processed-IsSound : IsSound db → IsSound (mark_processed id m request item download db)
  unfolding mark_processed
  mark_processed-IsSound = elsewhere-IsSound _ db.now db

module _ (key : Text) (payload : Op) (db : Db) where
  pub insert_event-Persists : Persists db (insert_event key payload db).1
  unfolding insert_event
  insert_event-Persists =
      if_case (λ (r : (ℕ × Bool) × Db). Persists db r.1) (is_duplicate key db)
        (λ _. Persists-refl db) (λ _. elsewhere-Persists _ db.now db)

  pub insert_event-IsSound : IsSound db → IsSound (insert_event key payload db).1
  unfolding insert_event
  insert_event-IsSound inv =
      if_case (λ (r : (ℕ × Bool) × Db). IsSound r.1) (is_duplicate key db) (λ _. inv)
        (λ _. elsewhere-IsSound _ db.now db inv)

-- Time passes.
module _ (n : ℕ) (db : Db) where
  pub waited-Persists : Persists db (record db { now = db.now + n })
  waited-Persists = elsewhere-Persists db.events _ db

  pub waited-IsSound : IsSound db → IsSound (record db { now = db.now + n })
  waited-IsSound = elsewhere-IsSound db.events _ db
