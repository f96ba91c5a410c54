-- ===== src/Pipeline/Arrarr/Forward.antt =====
-- The update of the download's state in applyJobTransition (backend/internal/pipeline/arrarr.go) by the
-- states of an Arrarr job that do not end it in a failure.
use journarr.Base.{
  ℕ, ◌≡◌, refl, ap, ◌∙◌, ◌≢◌, inl, inr, ◌&&◌, Option, some, [], arith, ltb, ◌==◌, ==_refl,
  Bool-cases, first, Text, map_option, first-update,
}
use Prim.Native.Nat.{max}
use journarr.Store.Stages.{DownloadState}
use journarr.Store.Rows.{Db, Download}
use journarr.Store.Downloads.{set_download_state, set_state_row}
use journarr.Pipeline.Arrarr.{advance_download, download_state_rank}

abbrev pub download_at : ℕ → Db → Option Download
download_at id db = first (λ (d : Download). d.id == id) db.downloads

set_download_state-get :
    (d : Download) (state : DownloadState) (error : Text) (db : Db)
    → download_at d.id db ≡ some d
    → download_at d.id (set_download_state d.id state error db)
      ≡ some (set_state_row db.now state error d)
unfolding set_download_state set_state_row
set_download_state-get d state error db h =
    first-update (λ (e : Download). e.id == d.id) (λ (e : Download). e.id == d.id)
      (set_state_row db.now state error) (λ e. refl) db.downloads
    ∙ ap (map_option _) h
    ∙ rw (==_refl d.id) refl

-- The forward update with a state leaves the row of a download that has not failed at the further of
-- the rank of the state and its own, and leaves the row of a failed or canceled one as it was. The row
-- is as it was read.
pub advance_download_lem :
    (state : DownloadState) (d : Download) (db : Db)
    → download_at d.id db ≡ some d
    → (d' : Download) × (download_at d.id (advance_download state d db) ≡ some d')
      × (d'.id ≡ d.id)
      × ((download_state_rank d.state ≢ 0)
          → download_state_rank d'.state
            ≡ max (download_state_rank d.state) (download_state_rank state))
      × ((download_state_rank d.state ≡ 0) → d' ≡ d)
unfolding advance_download
advance_download_lem state d db h =
    elim (Bool-cases (
      ltb 0 (download_state_rank d.state)
      && ltb (download_state_rank d.state) (download_state_rank state))) [
        | inl e ↦ rw e (
          set_state_row db.now state [] d,
          set_download_state-get d state [] db h,
          unfold set_state_row in refl,
          unfold set_state_row in λ _. ground arith,
          λ z. absurd (ground arith),
        )
        | inr e ↦ rw e (d, h, refl, λ nz. ground arith, λ _. refl)
      ]
