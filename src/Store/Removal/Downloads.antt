-- ===== src/Store/Removal/Downloads.antt =====
-- The downloads and their links behind a purge (backend/internal/store/removal.go).
use journarr.Base.{
  ℕ, ◌≡◌, refl, sym, ap, ◌∙◌, Bool, true, false, not, ◌&&◌, ◌||◌, inl, inr, Bool-cases, List, [],
  ◌∷◌, arith, ◌==◌, ==_iff, select, select-none, exists, All,
}
use journarr.Store.Rows.{Db, MediaItem, Download, Link}
use journarr.Store.Removal.{Tombstone, opt_in, is_doomed_download, delete_requests, purge_requests}
use journarr.Store.Removal.Purge.{purge_requests-unburied, none_of_select, same_rows}

-- The item of the link has a request of the list.
abbrev pub goes : List ℕ → Db → Link → Bool
goes ids db l =
    exists (λ (m : MediaItem). m.id == l.media_item_id && opt_in ids m.request_id) db.items

abbrev pub of_download : ℕ → Link → Bool
of_download d l = l.download_id == d

none_stays :
    (d : ℕ) (q : Link → Bool) (ls : List Link)
    → All (λ l. l.download_id ≡ d → q l ≡ true) ls
    → exists (λ l. l.download_id == d && not (q l)) ls ≡ false
none_stays d q [] h = refl
none_stays d q (l ∷ ls) h = rw (none_stays d q ls h.1) (elim (Bool-cases (l.download_id == d)) [
  | inl e ↦ rw (e, h.0 ((==_iff l.download_id d).0 e)) refl
  | inr e ↦ rw e refl
])

some_goes :
    (d : ℕ) (q : Link → Bool) (ls : List Link)
    → All (λ l. l.download_id ≡ d → q l ≡ true) ls
    → exists (of_download d) ls ≡ true
    → exists (λ l. l.download_id == d && q l) ls ≡ true
some_goes d q [] h there = there
some_goes d q (l ∷ ls) h there = elim (Bool-cases (l.download_id == d)) [
  | inl e ↦ rw (e, h.0 ((==_iff l.download_id d).0 e)) refl
  | inr e ↦
      let rest : exists (of_download d) ls ≡ true = sym (rw e refl) ∙ there in
      rw (e, some_goes d q ls h.1 rest) refl
]

-- What a purge leaves of a download and of its links.
pub record Leaves (ids : List ℕ) (db db' : Db) (d : ℕ) : Type 0 where
  -- It has an item that stays: its row stays.
  pub shared :
      exists (λ l. of_download d l && not (goes ids db l)) db.links ≡ true
      → select (λ (x : Download). x.id == d) db'.downloads
        ≡ select (λ (x : Download). x.id == d) db.downloads
  -- It has no item that goes: its row stays.
  pub apart :
      exists (λ l. of_download d l && goes ids db l) db.links ≡ false
      → select (λ (x : Download). x.id == d) db'.downloads
        ≡ select (λ (x : Download). x.id == d) db.downloads
  -- It has items and all of them go: it goes.
  pub alone :
      exists (of_download d) db.links ≡ true
      → All (λ l. l.download_id ≡ d → goes ids db l ≡ true) db.links
      → exists (λ (x : Download). x.id == d) db'.downloads ≡ false
  -- Of its links those to the items that stay stay.
  pub linked :
      select (of_download d) db'.links
      ≡ select (λ l. of_download d l && not (goes ids db l)) db.links

-- Two selections as one.
select-both {ℓ} :
    {A : Type ℓ} (q p r : A → Bool) (xs : List A)
    → ((a : A) → (q a && p a) ≡ r a)
    → select q (select p xs) ≡ select r xs
select-both q p r [] h = refl
select-both q p r (x ∷ xs) h = ground (arith, h x, select-both q p r xs h)

-- One of the rows that two selections keep has both properties.
select-both_none {ℓ} :
    {A : Type ℓ} (q p r : A → Bool) (xs : List A)
    → ((a : A) → (q a && p a) ≡ true → r a ≡ true)
    → exists r xs ≡ false
    → select q (select p xs) ≡ []
select-both_none q p r [] h none_there = refl
select-both_none q p r (x ∷ xs) h none_there = ground (arith, h x, select-both_none q p r xs h)

kept_links :
    (d : ℕ) (g : Link → Bool) (doomed : ℕ → Bool) (ls : List Link)
    → (exists (λ l. of_download d l && not (g l)) ls ≡ true → doomed d ≡ false)
    → select (of_download d) (select (λ l. not (doomed l.download_id || g l)) ls)
      ≡ select (λ l. of_download d l && not (g l)) ls
kept_links d g doomed ls kept = elim (Bool-cases (exists (λ l. of_download d l && not (g l)) ls)) [
  | inl e ↦
      select-both (of_download d) (λ l. not (doomed l.download_id || g l))
        (λ l. of_download d l && not (g l)) ls
        (λ l. elim (Bool-cases (l.download_id == d)) [
          | inl is ↦ rw ((==_iff l.download_id d).0 is, kept e) refl
          | inr is ↦ rw is refl
        ])
  | inr e ↦
      select-both_none (of_download d) (λ l. not (doomed l.download_id || g l))
        (λ l. of_download d l && not (g l)) ls (λ l h. ground arith) e
      ∙ sym (select-none (λ l. of_download d l && not (g l)) ls e)
]

delete_requests-Leaves : (ids : List ℕ) (db : Db) (d : ℕ) → Leaves ids db (delete_requests ids db) d
unfolding delete_requests
delete_requests-Leaves ids db d = record {
  shared = λ h. same_rows _ _ db.downloads (λ x e. rw ((==_iff x.id d).0 e, h) (ground arith));
  apart = λ h. same_rows _ _ db.downloads (λ x e. rw ((==_iff x.id d).0 e, h) refl);
  alone = λ there h. none_of_select _ _ db.downloads (λ x e.
      rw
        (
          (==_iff x.id d).0 e,
          some_goes d (goes ids db) db.links h there,
          none_stays d (goes ids db) db.links h,
        )
        refl);
  linked =
      kept_links d (goes ids db) (is_doomed_download ids db) db.links (λ h. rw h (ground arith));
}

-- What a purge of a list that is not empty leaves of a download, where 0 counts as one of the list. A
-- download with an item that belongs to no request of the list keeps its row, as does one without an
-- item that does; one with items that all do is gone. Of its links exactly those to the items that do
-- not are left.
pub purge_requests-downloads :
    (i : ℕ) (ids : List ℕ) (t : Tombstone) (db : Db) (d : ℕ)
    → Leaves (0 ∷ i ∷ ids) db (purge_requests (i ∷ ids) t db) d
purge_requests-downloads i ids t db d =
    let same = purge_requests-unburied i ids t db in
    let h = delete_requests-Leaves (0 ∷ i ∷ ids) db d in
    let downloads_at = ap (λ (x : Db). x.downloads) same in
    record {
      shared = λ e. ap (select (λ (x : Download). x.id == d)) downloads_at ∙ h.shared e;
      apart = λ e. ap (select (λ (x : Download). x.id == d)) downloads_at ∙ h.apart e;
      alone = λ e f. ap (exists (λ (x : Download). x.id == d)) downloads_at ∙ h.alone e f;
      linked = ap (λ (x : Db). select (of_download d) x.links) same ∙ h.linked;
    }
