-- ===== src/Pipeline/Grabs/Replay.antt =====
-- The cycle that a grab belongs to (backend/internal/pipeline/grabs.go), and that of its download behind
-- the link.
use journarr.Base.{
  ℕ, zero, suc, ◌<◌, ◌≡◌, refl, sym, ap, ◌∙◌, inl, inr, true, not, ◌&&◌, ◌∷◌, arith, ltb, ◌==◌,
  Bool-cases, if_case, exists, All, Text, text_eq, is_empty,
}
use Prim.Native.Nat.{max}
use journarr.Store.Stages.{grabbed}
use journarr.Store.Rows.{Db, Download, Link, MediaItem}
use journarr.Store.Items.{bump_item_cycle}
use journarr.Store.Normalize.{normalize_download_id}
use journarr.Store.Downloads.{is_link, link_download_item}
use journarr.Store.Transitions.{has_item, has_transition}
use journarr.Store.Correlate.{cycle_for_item_download, download_client_id_for_item_cycle}
use journarr.Store.Correlate.Cycles.{
  is_download_of, cycle_for_item_download-ext, bumped-pos, bump_item_cycle-has_item, exists-weaken,
  link_download_item-same, link_download_item-new, linked-pos, added-cycle,
}
use journarr.Pipeline.Grabs.{grab_cycle}

-- A grab whose download is linked to the item belongs to the linked cycle.
pub grab_cycle-linked :
    (c : ℕ) (s : Text) (m : MediaItem) (db : Db)
    → 0 < cycle_for_item_download m.id (c ∷ s) db
    → grab_cycle (c ∷ s) m db ≡ (cycle_for_item_download m.id (c ∷ s) db, db)
unfolding grab_cycle
grab_cycle-linked c s m db h =
    let found : ltb 0 (cycle_for_item_download m.id (c ∷ s) db) ≡ true = ground arith in
    rw found refl

-- A cycle that a grab may belong to.
pub record GrabOf (key : Text) (m : MediaItem) (db : Db) (cycle : ℕ) (after : Db) : Type 0 where
  pub links : after.links ≡ db.links
  pub downloads : after.downloads ≡ db.downloads
  pub there : has_item m.id db ≡ true → has_item m.id after ≡ true
  linked : 0 < cycle_for_item_download m.id key db → cycle ≡ cycle_for_item_download m.id key db
  pub pos : 0 < cycle

pub grab_cycle-GrabOf :
    (c : ℕ) (s : Text) (m : MediaItem) (db : Db)
    → 0 < m.current_cycle
    → GrabOf (c ∷ s) m db (grab_cycle (c ∷ s) m db).0 (grab_cycle (c ∷ s) m db).1
unfolding grab_cycle
grab_cycle-GrabOf c s m db pos =
    let prev = download_client_id_for_item_cycle m.id m.current_cycle db in
    if_case (λ (r : ℕ × Db). GrabOf (c ∷ s) m db r.0 r.1)
      (ltb 0 (cycle_for_item_download m.id (c ∷ s) db))
      (λ e. record {
        links = refl;
        downloads = refl;
        there = λ h. h;
        linked = λ _. refl;
        pos = ground arith;
      })
      λ e.
        if_case (λ (r : ℕ × Db). GrabOf (c ∷ s) m db r.0 r.1)
          (has_transition m.id m.current_cycle grabbed db
            && not (is_empty prev)
            && not (text_eq prev (c ∷ s)))
          (λ _. record {
            links = unfold bump_item_cycle in refl;
            downloads = unfold bump_item_cycle in refl;
            there = λ h. bump_item_cycle-has_item m.id m.id db ∙ h;
            linked = λ h. absurd (ground arith);
            pos = bumped-pos m.id db m.current_cycle pos;
          })
          (λ _. record {
            links = refl;
            downloads = refl;
            there = λ h. h;
            linked = λ h. absurd (ground arith);
            pos = pos;
          })

most : (n cycle : ℕ) → (0 < n → cycle ≡ n) → max n cycle ≡ cycle
most zero cycle h = omega arith
most (suc n) cycle h = let same = h (omega arith) in omega arith

-- After the link the download's cycle is the one that was linked.
pub linked-cycle :
    (c : ℕ) (s : Text) (m : MediaItem) (download cycle : ℕ) (db after : Db)
    → is_download_of download (c ∷ s) db ≡ true
    → has_item m.id db ≡ true
    → All (λ (l : Link). 0 < l.cycle) db.links
    → GrabOf (c ∷ s) m db cycle after
    → cycle_for_item_download m.id (c ∷ s) (link_download_item download m.id cycle after) ≡ cycle
linked-cycle c s m download cycle db after own item pos g =
    let same = cycle_for_item_download-ext m.id (c ∷ s) db after g.links g.downloads in
    let mine : is_download_of download (c ∷ s) after ≡ true = rw g.downloads own in
    elim (Bool-cases (exists (is_link download m.id) after.links)) [
      | inl e ↦
          let there = linked-pos c s m.id download db own pos (rw g.links at e) in
          ap (cycle_for_item_download m.id (c ∷ s))
            (link_download_item-same download m.id cycle after e)
          ∙ same
          ∙ sym (g.linked there)
      | inr e ↦
          let has =
            exists-weaken
              (λ (d : Download).
                d.id == download && text_eq d.client_download_id (normalize_download_id (c ∷ s)))
              (λ (d : Download). d.id == download) after.downloads (λ d h. ground arith) mine in
          let linked = g.linked in
          let positive = g.pos in
          ap (cycle_for_item_download m.id (c ∷ s))
            (link_download_item-new download m.id cycle after e has (g.there item))
          ∙ added-cycle c s m.id download cycle after mine
          ∙ ap (λ n. max n cycle) same
          ∙ most (cycle_for_item_download m.id (c ∷ s) db) cycle linked
    ]
