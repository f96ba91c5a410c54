-- ===== src/Store/Writes/References.antt =====
-- The foreign keys of the tables, after any statements of the projector.
use journarr.Base.{
  ℕ, ◌≡◌, refl, sym, ◌∙◌, subst, inl, inr, Bool, true, ◌&&◌, some, List, [], ◌∷◌, arith, ◌==◌,
  Bool-cases, if_case, exists, update, next_id, All, All-append, All-map, All-update, Text,
  exists-append,
}
use mathlib.Core.Option.{some_inj}
use journarr.Store.Stages.{Stage}
use journarr.Store.Rows.{Db, MediaItem}
use journarr.Store.Items.{
  NewItem, upsert_item, same_key, insert_row, refresh_row, bump_item_cycle, next_attempt,
}
use journarr.Store.Transitions.{has_item, advance_row, is_ahead}
use journarr.Store.Transitions.Pointer.{applied_db, applied_db-items}
use journarr.Store.Downloads.{is_link, link_row, link_download_item, has_download}
use journarr.Store.Writes.{
  Write, Writes, upserts, applies, bumps, edits, connects, elsewhere, done, next, has_request,
}
use journarr.Store.Writes.Progress.{
  Advances, Write-Advances, applied_db-rest, refresh_row-Later, next_attempt-Later,
}
use journarr.Store.Writes.Invariant.{Advances-has_item}

-- request_id REFERENCES requests(id).
abbrev pub HasParent : Db → MediaItem → Type 0
HasParent db m = (r : ℕ) → m.request_id ≡ some r → has_request r db ≡ true

pub record HasReferences (db : Db) : Type 0 where
  pub parents : All (HasParent db) db.items
  pub linked :
      (d i : ℕ)
      → exists (is_link d i) db.links ≡ true
      → (has_download d db ≡ true) × (has_item i db ≡ true)

-- What deletes no request keeps the parents of items that are not written.
kept_parents :
    (a b : Db) → Advances a b → (xs : List MediaItem) → All (HasParent a) xs → All (HasParent b) xs
kept_parents a b adv xs h =
    All-map (HasParent a) (HasParent b) (λ m parent r e. adv.requests r (parent r e)) xs h

updated_parents :
    (p : MediaItem → Bool) (f : MediaItem → MediaItem) (db : Db)
    → ((m : MediaItem) → (f m).request_id ≡ m.request_id)
    → (xs : List MediaItem) → All (HasParent db) xs
    → All (HasParent db) (update p f xs)
updated_parents p f db keep xs h =
    All-update (HasParent db) p f (λ m _ parent r e. parent r (sym (keep m) ∙ e)) xs h

-- A statement that links no download.
still_linked :
    (a b : Db)
    → Advances a b
    → b.links ≡ a.links
    → HasReferences a
    → (d i : ℕ) → exists (is_link d i) b.links ≡ true
    → (has_download d b ≡ true) × (has_item i b ≡ true)
still_linked a b adv e inv d i h =
    let (there, item) = inv.linked d i (rw e at h) in
    (adv.downloads d there, Advances-has_item a b adv i item)

upsert_item-links : (n : NewItem) (db : Db) → (upsert_item n db).links ≡ db.links
unfolding upsert_item
upsert_item-links n db = ground arith

upsert_item-parents :
    (n : NewItem) (db : Db)
    → has_request n.request_id db ≡ true
    → All (HasParent db) db.items
    → All (HasParent db) (upsert_item n db).items
unfolding upsert_item
upsert_item-parents n db there h =
    if_case (λ (d : Db). All (HasParent db) d.items) (exists (same_key n) db.items)
      (λ _.
        updated_parents (same_key n) (refresh_row db.now n) db
          (λ m. (refresh_row-Later db.now n m).request_id) db.items h)
      (λ _.
        All-append (HasParent db) db.items
          (insert_row (next_id (λ (m : MediaItem). m.id) db.items) db.now n ∷ []) h
          (
            unfold insert_row in λ r e. subst (λ r. has_request r db ≡ true) (some_inj.0 e) there,
            tt,
          ))

link_download_item-linked :
    (download item cycle : ℕ) (db : Db)
    → HasReferences db
    → HasReferences (link_download_item download item cycle db)
unfolding link_download_item
link_download_item-linked download item cycle db inv =
    if_case HasReferences (exists (is_link download item) db.links) (λ _. inv)
      (λ _.
        if_case HasReferences (has_download download db && has_item item db)
          (λ both. record {
            parents = inv.parents;
            linked = λ d i h.
                let split =
                  sym (exists-append (is_link d i) db.links (link_row download item cycle ∷ []))
                  ∙ h in
                elim (Bool-cases (exists (is_link d i) db.links)) [
                  | inl old ↦ inv.linked d i old
                  | inr fresh ↦
                      let download_is : download ≡ d = ground arith in
                      let item_is : item ≡ i = ground arith in
                      (
                        subst (λ k. has_download k db ≡ true) download_is (ground arith),
                        subst (λ k. has_item k db ≡ true) item_is (ground arith),
                      )
                ];
          })
          (λ _. inv))

applied_db-HasReferences :
    (item cycle : ℕ) (stage : Stage) (event : ℕ) (note : Text) (db : Db)
    → has_item item db ≡ true
    → HasReferences db
    → HasReferences (applied_db item cycle stage event note db)
applied_db-HasReferences item cycle stage event note db h inv =
    let adv = Write-Advances _ _ (applies item cycle stage event note db h) in
    let b = applied_db item cycle stage event note db in
    let written : All (HasParent db) b.items =
      rw (applied_db-items item cycle stage event note db) (
        updated_parents (λ m. m.id == item && is_ahead cycle stage m)
          (advance_row db.now cycle stage) db (λ m. unfold advance_row in refl) db.items
          inv.parents) in
    record {
      parents = kept_parents db b adv b.items written;
      linked = still_linked db b adv (applied_db-rest item cycle stage event note db).0 inv;
    }

Write-HasReferences : (a b : Db) → Write a b → HasReferences a → HasReferences b
unfolding bump_item_cycle
Write-HasReferences _ _ (upserts n db h) inv =
    let adv = Write-Advances _ _ (upserts n db h) in
    record {
      parents = kept_parents _ _ adv _ (upsert_item-parents n db h inv.parents);
      linked = still_linked _ _ adv (upsert_item-links n db) inv;
    }
Write-HasReferences _ _ (applies item cycle stage event note db h) inv =
    applied_db-HasReferences item cycle stage event note db h inv
Write-HasReferences _ _ (bumps id db) inv = record {
  parents =
      updated_parents (λ m. m.id == id) (next_attempt db.now) db
        (λ m. (next_attempt-Later db.now m).request_id) db.items inv.parents;
  linked = still_linked db _ (Write-Advances _ _ (bumps id db)) refl inv;
}
Write-HasReferences _ _ (edits p f db e) inv = record {
  parents = updated_parents p f db e.request_id db.items inv.parents;
  linked = still_linked db _ (Write-Advances _ _ (edits p f db e)) refl inv;
}
Write-HasReferences _ _ (connects d i c db) inv = link_download_item-linked d i c db inv
Write-HasReferences a b (elsewhere e) inv =
    let adv = Write-Advances a b (elsewhere e) in
    record {
      parents = rw e.items (kept_parents a b adv a.items inv.parents);
      linked = still_linked a b adv e.links inv;
    }

pub Writes-HasReferences : {a b : Db} → Writes a b → HasReferences a → HasReferences b
Writes-HasReferences done inv = inv
Writes-HasReferences {a} {b = c} (next {b = b} v w) inv =
    Write-HasReferences b c w (Writes-HasReferences v inv)
