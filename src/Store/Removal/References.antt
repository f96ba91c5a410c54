-- ===== src/Store/Removal/References.antt =====
-- The references between the rows behind a purge (backend/internal/store/removal.go).
use journarr.Base.{
  ℕ, ◌≡◌, refl, sym, ◌∙◌, subst, Bool, true, false, not, ◌&&◌, ◌||◌, Option, none, some, List, [],
  ◌∷◌, arith, ◌==◌, ==_iff, if_case, select, exists, All,
}
use mathlib.Core.Option.{some_inj}
use journarr.Store.Rows.{Db, MediaItem, Download, Link, Request}
use journarr.Store.Downloads.{is_link}
use journarr.Store.Writes.References.{HasParent, HasReferences}
use journarr.Store.Removal.{
  Tombstone, in_list, opt_in, is_doomed_item, is_doomed_download, delete_requests, purge_requests,
}
use journarr.Store.Removal.Purge.{unburied, purge_requests-unburied, none_of_select, kept_of_select}

exists_of_select {ℓ} :
    {A : Type ℓ} (q p : A → Bool) (xs : List A) → exists q (select p xs) ≡ true → exists q xs ≡ true
exists_of_select q p [] h = h
exists_of_select q p (x ∷ xs) h = ground (arith, exists_of_select q p xs)

select-All {ℓ κ} :
    {A : Type ℓ} (P Q : A → Type κ) (p : A → Bool) (xs : List A)
    → ((a : A) → p a ≡ true → P a → Q a)
    → All P xs
    → All Q (select p xs)
select-All P Q p [] f h = tt
select-All P Q p (x ∷ xs) f h =
    if_case (All Q) (p x) (λ e. (f x e h.0, select-All P Q p xs f h.1))
      (λ _. select-All P Q p xs f h.1)

-- Of an item that is not doomed every row is kept.
kept_item :
    (ids : List ℕ) (item : ℕ) (xs : List MediaItem)
    → exists (λ (m : MediaItem). m.id == item && opt_in ids m.request_id) xs ≡ false
    → exists (λ (m : MediaItem). m.id == item) (select (λ m. not (opt_in ids m.request_id)) xs)
      ≡ exists (λ (m : MediaItem). m.id == item) xs
kept_item ids item [] h = refl
kept_item ids item (x ∷ xs) h = ground (arith, kept_item ids item xs)

-- A row that is still there meets the condition under which it was kept.
condition_of {ℓ} :
    {A : Type ℓ} (q p : A → Bool) (c : Bool) (xs : List A)
    → exists q (select p xs) ≡ true
    → ((a : A) → q a ≡ true → p a ≡ c)
    → c ≡ true
condition_of q p true xs h f = refl
condition_of q p false xs h f = sym (none_of_select q p xs f) ∙ h

parent_kept :
    (ids : List ℕ) (r : ℕ) (o : Option ℕ)
    → o ≡ some r
    → not (opt_in ids o) ≡ true
    → in_list ids r ≡ false
parent_kept ids r none is h = cc
parent_kept ids r (some n) is h = subst (λ k. in_list ids k ≡ false) (some_inj.0 is) (ground arith)

is_link-download : (d i : ℕ) (l : Link) → is_link d i l ≡ true → l.download_id ≡ d
is_link-download d i l h = ground arith

is_link-item : (d i : ℕ) (l : Link) → is_link d i l ≡ true → l.media_item_id ≡ i
is_link-item d i l h = ground arith

request_kept :
    (ids : List ℕ) (r : ℕ) (qs : List Request)
    → in_list ids r ≡ false
    → exists (λ (q : Request). q.id == r) (select (λ q. not (in_list ids q.id)) qs)
      ≡ exists (λ (q : Request). q.id == r) qs
request_kept ids r qs h = kept_of_select _ _ qs (λ q e. rw ((==_iff q.id r).0 e, h) refl)

delete_requests-HasReferences :
    (ids : List ℕ) (db : Db) → HasReferences db → HasReferences (delete_requests ids db)
unfolding delete_requests
delete_requests-HasReferences ids db inv = record {
  parents =
      select-All (HasParent db) (HasParent (delete_requests ids db)) _ db.items
        (λ m e parent r is.
          let kept : in_list ids r ≡ false = parent_kept ids r m.request_id is e in
          request_kept ids r db.requests kept ∙ parent r is)
        inv.parents;
  linked = λ d i h.
      let keeps =
        condition_of (is_link d i)
          (λ l.
            not (is_doomed_download ids db l.download_id || is_doomed_item ids db l.media_item_id))
          (not (is_doomed_download ids db d || is_doomed_item ids db i)) db.links h
          (λ l e. rw (is_link-download d i l e, is_link-item d i l e) refl) in
      let (there, item) = inv.linked d i (exists_of_select _ _ db.links h) in
      (
        kept_of_select (λ (x : Download). x.id == d)
              (λ (x : Download). not (is_doomed_download ids db x.id)) db.downloads
              (λ x e. rw ((==_iff x.id d).0 e) (ground arith))
            ∙ there,
        kept_item ids i db.items (ground arith) ∙ item,
      );
}

unburied-HasReferences : (db : Db) → HasReferences (unburied db) → HasReferences db
unburied-HasReferences db h = record { parents = h.parents; linked = h.linked }

-- A purge leaves no item without its request and no link without its download and its item.
pub purge_requests-HasReferences :
    (i : ℕ) (ids : List ℕ) (t : Tombstone) (db : Db)
    → HasReferences db
    → HasReferences (purge_requests (i ∷ ids) t db)
purge_requests-HasReferences i ids t db inv =
    let kept = delete_requests-HasReferences (0 ∷ i ∷ ids) db inv in
    unburied-HasReferences (purge_requests (i ∷ ids) t db) (
      subst HasReferences (sym (purge_requests-unburied i ids t db))
        (record { parents = kept.parents; linked = kept.linked }))
