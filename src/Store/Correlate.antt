-- ===== src/Store/Correlate.antt =====
-- backend/internal/store/correlate.go: which cycle of an item a download belongs to.
pub mod Cycles
use journarr.Base.{
  ℕ, Bool, not, ◌&&◌, Option, none, some, List, [], ◌∷◌, ◌==◌, leb, if◌then◌else◌, Text, text_eq,
  exists, first, count,
}
use journarr.Store.Stages.{imported}
use journarr.Store.Rows.{Db, Download, Link}
use journarr.Store.Downloads.{is_link}
use journarr.Store.Normalize.{normalize_download_id}
use journarr.Store.Transitions.{is_transition}

-- JOIN downloads d ON d.id = di.download_id, of the links that meet `p`, ORDER BY di.download_id DESC
-- LIMIT 1: the link with the largest download id.
unfoldable pub newest_link : (Link → Bool) → List Link → Option Link
newest_link p [] = none
newest_link p (l ∷ ls) =
    let rest = newest_link p ls in
    if p l
    then elim rest [
      | none ↦ some l
      | some k ↦ if leb l.download_id k.download_id then some k else some l
    ]
    else rest

-- DownloadClientIDForItemCycle; '' when there is none.
unfoldable pub download_client_id_for_item_cycle : ℕ → ℕ → Db → Text
unfolding newest_link
download_client_id_for_item_cycle item cycle db =
    elim (newest_link (λ l. l.media_item_id == item && l.cycle == cycle) db.links) [
      | none ↦ []
      | some l ↦ elim (first (λ (d : Download). d.id == l.download_id) db.downloads) [
        | none ↦ []
        | some d ↦ d.client_download_id
      ]
    ]

-- CycleForItemDownloadByID; 0 when they are not linked.
unfoldable pub cycle_for_item_download_by_id : ℕ → ℕ → Db → ℕ
cycle_for_item_download_by_id item download db = elim (first (is_link download item) db.links) [
  | none ↦ 0
  | some l ↦ l.cycle
]

-- The largest cycle of the links that meet `p`; 0 when there is none.
unfoldable pub max_cycle : (Link → Bool) → List Link → ℕ
max_cycle p [] = 0
max_cycle p (l ∷ ls) =
    let rest = max_cycle p ls in if p l then (if leb l.cycle rest then rest else l.cycle) else rest

abbrev pub is_client_link : ℕ → Text → Db → Link → Bool
is_client_link item client db l =
    l.media_item_id == item
    && exists (λ (d : Download). d.id == l.download_id && text_eq d.client_download_id client)
        db.downloads

-- CycleForItemDownload; 0 when they are not linked.
unfoldable pub cycle_for_item_download : ℕ → Text → Db → ℕ
unfolding max_cycle
cycle_for_item_download item client db =
    max_cycle (is_client_link item (normalize_download_id client) db) db.links

-- UnimportedItemCount.
unfoldable pub unimported_item_count : ℕ → Db → ℕ
unimported_item_count download db =
    count
      (λ l.
        l.download_id == download
        && not (exists (is_transition l.media_item_id l.cycle imported) db.transitions))
      db.links
