-- ===== src/Store/Writes/Progress.antt =====
-- What no statement of the projector takes back.
use journarr.Base.{
  ℕ, ◌≤◌, ◌≡◌, refl, ap, ◌∙◌, Bool, true, ◌&&◌, some, List, [], ◌∷◌, arith, ◌==◌, if_case, exists,
  update, next_id, Text, row_update, map_option, exists-append, first-append_some, first-update,
}
use journarr.Store.Stages.{Stage}
use journarr.Store.Rows.{Db, MediaItem, StageTransition}
use journarr.Store.Items.{
  NewItem, upsert_item, same_key, refresh_row, get_media_item, bump_item_cycle, next_attempt,
}
use journarr.Store.Transitions.{
  is_transition, insert_transition, transition_row, advance_row, advance_pointer, has_item,
  has_transition,
}
use journarr.Store.Transitions.Pointer.{
  item_position, ordinal-lt, applied_db, advanced, get-applied_db,
}
use journarr.Store.Downloads.{is_link, link_row, link_download_item, has_download}
use journarr.Store.Writes.{
  Elsewhere, IsEdit, Write, Writes, upserts, applies, bumps, edits, connects, elsewhere, done, next,
  has_request,
}

-- An item, later: the same one, at the same place or further on.
pub record Later (m m' : MediaItem) : Type 0 where
  pub id : m'.id ≡ m.id
  pub request_id : m'.request_id ≡ m.request_id
  pub media_type : m'.media_type ≡ m.media_type
  pub season : m'.season_number ≡ m.season_number
  pub episode : m'.episode_number ≡ m.episode_number
  pub moved : item_position m ≤ item_position m'

pub record Advances (a b : Db) : Type 0 where
  pub items :
      (id : ℕ) (m : MediaItem)
      → get_media_item id a ≡ some m
      → (m' : MediaItem) × (get_media_item id b ≡ some m') × Later m m'
  pub transitions :
      (item cycle : ℕ) (stage : Stage)
      → has_transition item cycle stage a ≡ true
      → has_transition item cycle stage b ≡ true
  pub links : (d i : ℕ) → exists (is_link d i) a.links ≡ true → exists (is_link d i) b.links ≡ true
  pub events : b.events ≡ a.events
  pub requests : (id : ℕ) → has_request id a ≡ true → has_request id b ≡ true
  pub downloads : (id : ℕ) → has_download id a ≡ true → has_download id b ≡ true

Later-refl : (m : MediaItem) → Later m m
Later-refl m = record {
  id = refl;
  request_id = refl;
  media_type = refl;
  season = refl;
  episode = refl;
  moved = omega arith;
}

Later-trans : (a b c : MediaItem) → Later a b → Later b c → Later a c
Later-trans a b c x y = record {
  id = y.id ∙ x.id;
  request_id = y.request_id ∙ x.request_id;
  media_type = y.media_type ∙ x.media_type;
  season = y.season ∙ x.season;
  episode = y.episode ∙ x.episode;
  moved = let p = x.moved in let q = y.moved in omega arith;
}

kept_item :
    (a b : Db)
    → b.items ≡ a.items
    → (id : ℕ) (m : MediaItem) → get_media_item id a ≡ some m
    → (m' : MediaItem) × (get_media_item id b ≡ some m') × Later m m'
unfolding get_media_item
kept_item a b e id m h = (m, rw e h, Later-refl m)

pub Advances-refl : (a : Db) → Advances a a
Advances-refl a = record {
  items = kept_item a a refl;
  transitions = λ i c s h. h;
  links = λ d i h. h;
  events = refl;
  requests = λ id h. h;
  downloads = λ id h. h;
}

pub Advances-trans : (a b c : Db) → Advances a b → Advances b c → Advances a c
Advances-trans a b c x y = record {
  items = λ id m h.
      let (m', at, l) = x.items id m h in
      let (n, at', l') = y.items id m' at in (n, at', Later-trans m m' n l l');
  transitions = λ i k s h. y.transitions i k s (x.transitions i k s h);
  links = λ d i h. y.links d i (x.links d i h);
  events = y.events ∙ x.events;
  requests = λ id h. y.requests id (x.requests id h);
  downloads = λ id h. y.downloads id (x.downloads id h);
}

-- A statement that changes the table of items alone.
on_items :
    (xs : List MediaItem) (db : Db)
    → ((id : ℕ) (m : MediaItem)
        → get_media_item id db ≡ some m
        → (m' : MediaItem) × (get_media_item id (record db { items = xs }) ≡ some m') × Later m m')
    → Advances db (record db { items = xs })
unfolding has_transition
on_items xs db keep = record {
  items = keep;
  transitions = λ i c s h. h;
  links = λ d i h. h;
  events = refl;
  requests = λ id h. h;
  downloads = λ id h. h;
}

-- An UPDATE whose every row comes later.
updated_item :
    (p : MediaItem → Bool) (f : MediaItem → MediaItem) (db : Db)
    → ((m : MediaItem) → Later m (f m))
    → (id : ℕ) (m : MediaItem) → get_media_item id db ≡ some m
    → (m' : MediaItem) × (get_media_item id (record db { items = update p f db.items }) ≡ some m')
      × Later m m'
unfolding get_media_item
updated_item p f db keep id m h = (
  row_update p f m,
  first-update p (λ m. m.id == id) f (λ m. ap (λ k. k == id) (keep m).id) db.items
      ∙ ap (map_option (row_update p f)) h,
  if_case (Later m) (p m) (λ _. keep m) (λ _. Later-refl m),
)

pub refresh_row-Later : (now : ℕ) (n : NewItem) (m : MediaItem) → Later m (refresh_row now n m)
unfolding refresh_row
refresh_row-Later now n m = record {
  id = refl;
  request_id = refl;
  media_type = refl;
  season = refl;
  episode = refl;
  moved = omega arith;
}

pub next_attempt-Later : (now : ℕ) (m : MediaItem) → Later m (next_attempt now m)
unfolding next_attempt
next_attempt-Later now m = record {
  id = refl;
  request_id = refl;
  media_type = refl;
  season = refl;
  episode = refl;
  moved = ground (arith, ordinal-lt m.current_stage);
}

pub IsEdit-Later : (f : MediaItem → MediaItem) (m : MediaItem) → IsEdit f → Later m (f m)
IsEdit-Later f m e = record {
  id = e.id m;
  request_id = e.request_id m;
  media_type = e.media_type m;
  season = e.season m;
  episode = e.episode m;
  moved = rw (e.cycle m, e.stage m) (omega arith);
}

upsert_item-Advances : (n : NewItem) (db : Db) → Advances db (upsert_item n db)
unfolding upsert_item get_media_item
upsert_item-Advances n db =
    if_case (Advances db) (exists (same_key n) db.items)
      (λ _.
        on_items _ db
          (updated_item (same_key n) (refresh_row db.now n) db (refresh_row-Later db.now n)))
      (λ _.
        on_items _ db λ id m h. (m, first-append_some (λ m. m.id == id) db.items _ h, Later-refl m))

advanced-Later :
    (item now cycle : ℕ) (stage : Stage) (m : MediaItem) → Later m (advanced item now cycle stage m)
unfolding advanced advance_row
advanced-Later item now cycle stage m = record {
  id = ground arith;
  request_id = ground arith;
  media_type = ground arith;
  season = ground arith;
  episode = ground arith;
  moved = ground (arith, ordinal-lt stage, ordinal-lt m.current_stage);
}

pub applied_db-rest :
    (item cycle : ℕ) (stage : Stage) (event : ℕ) (note : Text) (db : Db)
    → let db' = applied_db item cycle stage event note db in
      (db'.links ≡ db.links)
      × (db'.events ≡ db.events)
      × (db'.requests ≡ db.requests)
      × (db'.downloads ≡ db.downloads)
unfolding applied_db advance_pointer insert_transition
applied_db-rest item cycle stage event note db = ground arith

applied_db-keeps :
    (item cycle : ℕ) (stage : Stage) (event : ℕ) (note : Text) (db : Db) (i c : ℕ) (s : Stage)
    → has_transition i c s db ≡ true
    → has_transition i c s (applied_db item cycle stage event note db) ≡ true
unfolding applied_db advance_pointer insert_transition has_transition transition_row
applied_db-keeps item cycle stage event note db i c s h =
    if_case (λ (d : Bool × Db). exists (is_transition i c s) d.1.transitions ≡ true)
      (exists (is_transition item cycle stage) db.transitions) (λ _. h)
      (λ _. rw (
        exists-append (is_transition i c s) db.transitions (
            transition_row (next_id (λ (t : StageTransition). t.id) db.transitions) db.now item
              cycle stage event note
            ∷ []),
        h,
      ))

applied_db-Advances :
    (item cycle : ℕ) (stage : Stage) (event : ℕ) (note : Text) (db : Db)
    → Advances db (applied_db item cycle stage event note db)
applied_db-Advances item cycle stage event note db =
    let (l, e, r, d) = applied_db-rest item cycle stage event note db in
    record {
      items = λ id m h. (
        advanced item db.now cycle stage m,
        get-applied_db id item cycle stage event note db ∙ ap (map_option _) h,
        advanced-Later item db.now cycle stage m,
      );
      transitions = applied_db-keeps item cycle stage event note db;
      links = λ d i h. rw l h;
      events = e;
      requests = λ id h. rw r h;
      downloads = λ id h. rw d h;
    }

link_download_item-Advances :
    (download item cycle : ℕ) (db : Db) → Advances db (link_download_item download item cycle db)
unfolding link_download_item get_media_item has_transition
link_download_item-Advances download item cycle db =
    if_case (Advances db) (exists (is_link download item) db.links) (λ _. Advances-refl db)
      (λ _.
        if_case (Advances db) (has_download download db && has_item item db)
          (λ _. record {
            items = λ id m h. (m, h, Later-refl m);
            transitions = λ i c s h. h;
            links = λ d i h.
                rw (exists-append (is_link d i) db.links (link_row download item cycle ∷ []), h);
            events = refl;
            requests = λ id h. h;
            downloads = λ id h. h;
          })
          (λ _. Advances-refl db))

Elsewhere-Advances : (a b : Db) → Elsewhere a b → Advances a b
unfolding has_transition
Elsewhere-Advances a b e = record {
  items = kept_item a b e.items;
  transitions = λ i c s h. rw e.transitions h;
  links = λ d i h. rw e.links h;
  events = e.events;
  requests = e.requests;
  downloads = e.downloads;
}

pub Write-Advances : (a b : Db) → Write a b → Advances a b
unfolding bump_item_cycle
Write-Advances _ _ (upserts n db h) = upsert_item-Advances n db
Write-Advances _ _ (applies item cycle stage event note db h) =
    applied_db-Advances item cycle stage event note db
Write-Advances _ _ (bumps id db) =
    on_items _ db
      (updated_item (λ m. m.id == id) (next_attempt db.now) db (next_attempt-Later db.now))
Write-Advances _ _ (edits p f db e) = on_items _ db (updated_item p f db (λ m. IsEdit-Later f m e))
Write-Advances _ _ (connects download item cycle db) =
    link_download_item-Advances download item cycle db
Write-Advances a b (elsewhere e) = Elsewhere-Advances a b e

-- However many statements: no item is lost, changes its key or falls back, no transition and no link
-- is deleted, and no event is touched.
pub Writes-Advances : {a b : Db} → Writes a b → Advances a b
Writes-Advances {a} done = Advances-refl a
Writes-Advances {a} {b = c} (next {b = b} v w) =
    Advances-trans a b c (Writes-Advances v) (Write-Advances b c w)
