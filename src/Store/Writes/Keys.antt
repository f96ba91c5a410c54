-- ===== src/Store/Writes/Keys.antt =====
-- The keys and the references of the tables, after any statements of the projector.
use journarr.Base.{
  ℕ, ◌≤◌, ◌≡◌, refl, ap, ◌∙◌, subst, inl, inr, Bool, true, false, ◌&&◌, Option, none, some, List,
  [], ◌∷◌, ◌++◌, arith, ◌==◌, ==_iff, Bool-cases, opt_eq, if_case, exists, update, count, next_id,
  Text, count-update, next_id_fresh, count-insert, exists-ext,
}
use journarr.Store.Stages.{Stage, stage_eq, ItemType, item_type_eq}
use journarr.Store.Rows.{Db, MediaItem, StageTransition, Link}
use journarr.Store.Items.{
  NewItem, upsert_item, same_key, insert_row, refresh_row, bump_item_cycle, next_attempt,
}
use journarr.Store.Transitions.{
  is_transition, insert_transition, transition_row, advance_pointer, advance_row, has_item,
  is_ahead,
}
use journarr.Store.Transitions.Pointer.{applied_db, applied_db-items}
use journarr.Store.Downloads.{is_link, link_row, link_download_item, has_download}
use journarr.Store.Writes.{
  Write, Writes, upserts, applies, bumps, edits, connects, elsewhere, done, next,
}
use journarr.Store.Writes.Progress.{
  Later, applied_db-rest, refresh_row-Later, next_attempt-Later, IsEdit-Later,
}

-- No two rows share a key: UNIQUE and PRIMARY KEY of media_items, stage_transitions, download_items.
pub record HasKeys (db : Db) : Type 0 where
  pub item_id : (id : ℕ) → count (λ (m : MediaItem). m.id == id) db.items ≤ 1
  pub item_key : (n : NewItem) → count (same_key n) db.items ≤ 1
  pub transition_key : (i c : ℕ) (s : Stage) → count (is_transition i c s) db.transitions ≤ 1
  pub link_key : (d i : ℕ) → count (is_link d i) db.links ≤ 1

-- The key of a row: no UPDATE of the projector writes it.
record SameKey (m m' : MediaItem) : Type 0 where
  id : m'.id ≡ m.id
  key : (n : NewItem) → same_key n m' ≡ same_key n m

Later-SameKey : (m m' : MediaItem) → Later m m' → SameKey m m'
Later-SameKey m m' l = record {
  id = l.id;
  key = λ n. rw (l.request_id, l.media_type, l.season, l.episode) refl;
}

-- A statement that changes items alone.
with_items :
    (xs : List MediaItem) (db : Db)
    → HasKeys db
    → ((id : ℕ) → count (λ (m : MediaItem). m.id == id) xs ≤ 1)
    → ((n : NewItem) → count (same_key n) xs ≤ 1)
    → HasKeys (record db { items = xs })
with_items xs db inv ids keys = record {
  item_id = ids;
  item_key = keys;
  transition_key = inv.transition_key;
  link_key = inv.link_key;
}

module _ (p : MediaItem → Bool) (f : MediaItem → MediaItem)
    (keep : (m : MediaItem) → SameKey m (f m)) where
  updated_id :
      (xs : List MediaItem) (id : ℕ)
      → count (λ (m : MediaItem). m.id == id) (update p f xs)
        ≡ count (λ (m : MediaItem). m.id == id) xs
  updated_id xs id =
      count-update p (λ (m : MediaItem). m.id == id) f (λ m. ap (λ k. k == id) (keep m).id) xs

  updated_key :
      (xs : List MediaItem) (n : NewItem)
      → count (same_key n) (update p f xs) ≡ count (same_key n) xs
  updated_key xs n = count-update p (same_key n) f (λ m. (keep m).key n) xs

  updated-HasKeys : (db : Db) → HasKeys db → HasKeys (record db { items = update p f db.items })
  updated-HasKeys db inv =
      with_items _ db inv (λ id. rw (updated_id db.items id) (inv.item_id id))
        (λ n. rw (updated_key db.items n) (inv.item_key n))

opt_eq_eq : (a b : Option ℕ) → opt_eq a b ≡ true → a ≡ b
opt_eq_eq none none h = refl
opt_eq_eq none (some b) h = cc
opt_eq_eq (some a) none h = cc
opt_eq_eq (some a) (some b) h = ap some ((==_iff a b).0 h)

item_type_eq_eq : (a b : ItemType) → item_type_eq a b ≡ true → a ≡ b
item_type_eq_eq a b h = ground arith

and_true : (a b : Bool) → (a && b) ≡ true → (a ≡ true) × (b ≡ true)
and_true a b h = (ground arith, ground arith)

same_key-ext :
    (n k : NewItem) (id now : ℕ)
    → same_key k (insert_row id now n) ≡ true
    → (m : MediaItem) → same_key k m ≡ same_key n m
unfolding insert_row
same_key-ext n k id now h m =
    let (h1, d) = and_true _ _ h in
    let (h2, c) = and_true _ _ h1 in
    let (a, b) = and_true _ _ h2 in
    let request : n.request_id ≡ k.request_id = (==_iff n.request_id k.request_id).0 a in
    let kind = item_type_eq_eq k.media_type n.media_type b in
    let season = opt_eq_eq k.season_number n.season_number c in
    let episode = opt_eq_eq k.episode_number n.episode_number d in
    rw (request, kind, season, episode) refl

refresh_row-SameKey : (now : ℕ) (n : NewItem) (m : MediaItem) → SameKey m (refresh_row now n m)
refresh_row-SameKey now n m = Later-SameKey m (refresh_row now n m) (refresh_row-Later now n m)

upsert_item-HasKeys : (n : NewItem) (db : Db) → HasKeys db → HasKeys (upsert_item n db)
unfolding upsert_item
upsert_item-HasKeys n db inv = elim (Bool-cases (exists (same_key n) db.items)) [
  | inl e ↦
      rw e
        (updated-HasKeys (same_key n) (refresh_row db.now n) (refresh_row-SameKey db.now n) db inv)
  | inr e ↦
      let id = next_id (λ (m : MediaItem). m.id) db.items in
      rw e (
        with_items (db.items ++ insert_row id db.now n ∷ []) db inv
          (λ k.
            count-insert (λ (m : MediaItem). m.id == k) db.items (insert_row id db.now n)
              (inv.item_id k)
              λ h.
                subst (λ j. exists (λ (m : MediaItem). m.id == j) db.items ≡ false)
                  ((==_iff id k).0 (unfold insert_row in h))
                  (next_id_fresh (λ (m : MediaItem). m.id) db.items))
          (λ k.
            count-insert (same_key k) db.items (insert_row id db.now n) (inv.item_key k) λ h.
              exists-ext (same_key k) (same_key n) db.items (same_key-ext n k id db.now h) ∙ e))
]

advance_row-SameKey : (now c : ℕ) (s : Stage) (m : MediaItem) → SameKey m (advance_row now c s m)
unfolding advance_row
advance_row-SameKey now c s m = record { id = refl; key = λ n. refl }

is_transition-ext :
    (i c : ℕ) (s : Stage) (item cycle : ℕ) (stage : Stage) (t : StageTransition)
    → ((item == i && cycle == c && stage_eq stage s) ≡ true)
    → is_transition i c s t ≡ is_transition item cycle stage t
is_transition-ext i c s item cycle stage t h = ground arith

applied_db-transition_key :
    (item cycle : ℕ) (stage : Stage) (event : ℕ) (note : Text) (db : Db)
    → HasKeys db
    → (i c : ℕ) (s : Stage)
    → count (is_transition i c s) (applied_db item cycle stage event note db).transitions ≤ 1
unfolding applied_db advance_pointer insert_transition transition_row
applied_db-transition_key item cycle stage event note db inv i c s =
    elim (Bool-cases (exists (is_transition item cycle stage) db.transitions)) [
      | inl e ↦ rw e (inv.transition_key i c s)
      | inr e ↦ rw e (
          count-insert (is_transition i c s) db.transitions _ (inv.transition_key i c s) λ h.
            exists-ext (is_transition i c s) (is_transition item cycle stage) db.transitions
              (λ t. is_transition-ext i c s item cycle stage t h)
            ∙ e)
    ]

applied_db-HasKeys :
    (item cycle : ℕ) (stage : Stage) (event : ℕ) (note : Text) (db : Db)
    → HasKeys db
    → HasKeys (applied_db item cycle stage event note db)
applied_db-HasKeys item cycle stage event note db inv =
    let p : MediaItem → Bool = λ m. m.id == item && is_ahead cycle stage m in
    let moved =
      updated-HasKeys p (advance_row db.now cycle stage) (advance_row-SameKey db.now cycle stage) db
        inv in
    record {
      item_id = λ id. rw (applied_db-items item cycle stage event note db) (moved.item_id id);
      item_key = λ n. rw (applied_db-items item cycle stage event note db) (moved.item_key n);
      transition_key = applied_db-transition_key item cycle stage event note db inv;
      link_key = λ d i. rw (applied_db-rest item cycle stage event note db).0 (inv.link_key d i);
    }

is_link-ext :
    (d i download item : ℕ) (l : Link)
    → ((download == d && item == i) ≡ true)
    → is_link d i l ≡ is_link download item l
is_link-ext d i download item l h = ground arith

link_download_item-HasKeys :
    (download item cycle : ℕ) (db : Db)
    → HasKeys db
    → HasKeys (link_download_item download item cycle db)
unfolding link_download_item
link_download_item-HasKeys download item cycle db inv =
    if_case HasKeys (exists (is_link download item) db.links) (λ _. inv)
      (λ e.
        if_case HasKeys (has_download download db && has_item item db)
          (λ _. record {
            item_id = inv.item_id;
            item_key = inv.item_key;
            transition_key = inv.transition_key;
            link_key = λ d i.
                count-insert (is_link d i) db.links (link_row download item cycle)
                  (inv.link_key d i)
                  λ h.
                    exists-ext (is_link d i) (is_link download item) db.links
                      (λ l. is_link-ext d i download item l h)
                    ∙ e;
          })
          (λ _. inv))

next_attempt-SameKey : (now : ℕ) (m : MediaItem) → SameKey m (next_attempt now m)
next_attempt-SameKey now m = Later-SameKey m (next_attempt now m) (next_attempt-Later now m)

Write-HasKeys : (a b : Db) → Write a b → HasKeys a → HasKeys b
unfolding bump_item_cycle
Write-HasKeys _ _ (upserts n db h) inv = upsert_item-HasKeys n db inv
Write-HasKeys _ _ (applies item cycle stage event note db h) inv =
    applied_db-HasKeys item cycle stage event note db inv
Write-HasKeys _ _ (bumps id db) inv =
    updated-HasKeys (λ m. m.id == id) (next_attempt db.now) (next_attempt-SameKey db.now) db inv
Write-HasKeys _ _ (edits p f db e) inv =
    updated-HasKeys p f (λ m. Later-SameKey m (f m) (IsEdit-Later f m e)) db inv
Write-HasKeys _ _ (connects d i c db) inv = link_download_item-HasKeys d i c db inv
Write-HasKeys a b (elsewhere e) inv = record {
  item_id = λ id. rw e.items (inv.item_id id);
  item_key = λ n. rw e.items (inv.item_key n);
  transition_key = λ i c s. rw e.transitions (inv.transition_key i c s);
  link_key = λ d i. rw e.links (inv.link_key d i);
}

pub Writes-HasKeys : {a b : Db} → Writes a b → HasKeys a → HasKeys b
Writes-HasKeys done inv = inv
Writes-HasKeys {a} {b = c} (next {b = b} v w) inv = Write-HasKeys b c w (Writes-HasKeys v inv)
