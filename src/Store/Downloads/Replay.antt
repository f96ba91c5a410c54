-- ===== src/Store/Downloads/Replay.antt =====
-- UpsertDownload (backend/internal/store/downloads.go) keeps one active row per client id.
use journarr.Base.{
  ◌≡◌, refl, ap, ◌∙◌, inl, inr, Bool, true, not, ◌&&◌, some, arith, ◌==◌, Option-cases, length,
  last, next_id, Text, text_eq, text_eq_iff, row_update, map_option, last-update, last-snoc,
  length-update,
}
use journarr.Store.Stages.{is_terminal}
use journarr.Store.Rows.{Db, Download}
use journarr.Store.Normalize.{normalize_download_id}
use journarr.Store.Normalize.Idempotence.{normalize_download_id_idem}
use journarr.Store.Downloads.{
  NewDownload, find_active_download_by_client_id, refresh_download, download_row, upsert_download,
}

abbrev is_active_for : Text → Download → Bool
is_active_for client d =
    text_eq d.client_download_id (normalize_download_id client) && not (is_terminal d.state)

-- The active download of the client id after an upsert is the row that was written.
upsert_download-find :
    (n : NewDownload) (db : Db)
    → let (id, db') = upsert_download n db in
      (d : Download) × (find_active_download_by_client_id
          (normalize_download_id n.client_download_id)
          db'
        ≡ some d)
      × (d.id ≡ id)
unfolding upsert_download find_active_download_by_client_id refresh_download download_row
upsert_download-find n db =
    let client = normalize_download_id n.client_download_id in
    elim (Option-cases (last (is_active_for client) db.downloads)) [
      | inl e ↦
          let row = download_row (next_id (λ (d : Download). d.id) db.downloads) db.now n in
          let own : is_active_for client row ≡ true =
            rw (normalize_download_id_idem n.client_download_id, (text_eq_iff client client).1 refl)
              refl in
          rw e (row, last-snoc (is_active_for client) db.downloads row own, refl)
      | inr (old, e) ↦
          let p : Download → Bool = λ d. d.id == old.id in
          let f : Download → Download = refresh_download db.now n in
          rw e (
            row_update p f old,
            last-update p (is_active_for client) f (λ d. refl) db.downloads ∙ ap (map_option _) e,
            ground arith,
          )
    ]

upsert_download-found :
    (n : NewDownload) (db : Db) (d : Download)
    → find_active_download_by_client_id (normalize_download_id n.client_download_id) db ≡ some d
    → let (id, db') = upsert_download n db in
      (id ≡ d.id) × (length db'.downloads ≡ length db.downloads)
unfolding upsert_download
upsert_download-found n db d h =
    rw h (refl, length-update (λ e. e.id == d.id) (refresh_download db.now n) db.downloads)

-- A download that is upserted again, with whatever a later report says of a client id that normalizes
-- to the same text, is the same row, and no row is added.
pub upsert_download_again :
    (n later : NewDownload) (db : Db)
    → normalize_download_id later.client_download_id ≡ normalize_download_id n.client_download_id
    → let (id, db') = upsert_download n db in
      let (id', db'') = upsert_download later db' in
      (id' ≡ id) × (length db''.downloads ≡ length db'.downloads)
upsert_download_again n later db h =
    let (d, at, is) = upsert_download-find n db in
    let db' = (upsert_download n db).1 in
    let found =
      upsert_download-found later db' d
        (ap (λ k. find_active_download_by_client_id k db') h ∙ at) in
    (found.0 ∙ is, found.1)
