-- ===== src/Actions/Canceled.antt =====
-- What holds after Cancel (backend/internal/actions/actions.go).
use journarr.Base.{
  ℕ, ◌≡◌, refl, ap, ◌∙◌, inl, inr, Bool, true, false, not, ◌&&◌, some, List, [], ◌∷◌, arith, ◌==◌,
  Bool-cases, is_some, if_case, exists, update, All, All-map, text, is_empty,
}
use mathlib.Core.List.{reverse}
use journarr.Store.Stages.{canceled_dl, is_terminal, canceled}
use journarr.Store.Rows.{Db, MediaItem, Download, Request}
use journarr.Store.Tasks.{is_open}
use journarr.Store.Requests.{get_request, set_request_status, of_request}
use journarr.Store.Requests.Rollup.{set_request_status-get}
use journarr.Store.Stuck.{clear_stuck_for_request}
use journarr.Store.Downloads.{downloads_for_request, set_download_state, set_state_row}
use journarr.Actions.Clients.{Clients, Intervention, has_arr}
use journarr.Actions.Cancel.{cancel_download, cancel_downloads, cancel}
use journarr.Actions.Writes.{cancel_request-db}

-- A download that still runs.
abbrev pub is_running : ℕ → Download → Bool
is_running id d = d.id == id && not (is_terminal d.state)

none_of_update {ℓ} :
    {A : Type ℓ} (q : A → Bool) (f : A → A) (xs : List A)
    → ((a : A) → q a ≡ true → q (f a) ≡ false)
    → exists q (update q f xs) ≡ false
none_of_update q f [] h = refl
none_of_update q f (x ∷ xs) h = ground (arith, h x, none_of_update q f xs h)

-- An update that brings nothing into a scan.
still_none {ℓ} :
    {A : Type ℓ} (q p : A → Bool) (f : A → A) (xs : List A)
    → ((a : A) → q (f a) ≡ true → q a ≡ true)
    → exists q xs ≡ false
    → exists q (update p f xs) ≡ false
still_none q p f [] h e = refl
still_none q p f (x ∷ xs) h e = ground (arith, h x, still_none q p f xs h)

stopped_one {ℓ} :
    {A : Type ℓ} (q p : A → Bool) (f : A → A) (xs : List A)
    → ((a : A) → q a ≡ true → p a ≡ true)
    → ((a : A) → q (f a) ≡ false)
    → exists q (update p f xs) ≡ false
stopped_one q p f [] h e = refl
stopped_one q p f (x ∷ xs) h e = ground (arith, h x, e x, stopped_one q p f xs h e)

cancel_download-requests :
    (c : Clients) (d : Download) (s : Intervention)
    → (cancel_download c d s).db.requests ≡ s.db.requests
unfolding cancel_download set_download_state
cancel_download-requests c d s = ground arith

cancel_downloads-requests :
    (c : Clients) (ds : List Download) (s : Intervention)
    → (cancel_downloads c ds s).db.requests ≡ s.db.requests
unfolding cancel_downloads
cancel_downloads-requests c [] s = refl
cancel_downloads-requests c (d ∷ ds) s =
    cancel_downloads-requests c ds (cancel_download c d s) ∙ cancel_download-requests c d s

abbrev stop : ℕ → Download → Download
stop now = set_state_row now canceled_dl (text "canceled by user")

cancel_download-downloads :
    (c : Clients) (d : Download) (s : Intervention)
    → is_terminal d.state ≡ false
    → (cancel_download c d s).db.downloads
      ≡ update (λ (e : Download). e.id == d.id) (stop s.db.now) s.db.downloads
unfolding cancel_download set_download_state
cancel_download-downloads c d s h = rw h (
    if_case
      (λ (a : Intervention).
        update (λ (e : Download). e.id == d.id) (stop a.db.now) a.db.downloads
        ≡ update (λ (e : Download). e.id == d.id) (stop s.db.now) s.db.downloads)
      (has_arr c d.arr && not (is_empty d.client_download_id)) (λ _. refl) (λ _. refl))

cancel_download-done :
    (c : Clients) (d : Download) (s : Intervention)
    → is_terminal d.state ≡ true
    → cancel_download c d s ≡ s
unfolding cancel_download
cancel_download-done c d s h = rw h refl

stop-running : (now id : ℕ) (d : Download) → is_running id (stop now d) ≡ false
unfolding set_state_row
stop-running now id d = ground arith

-- What has stopped does not run again, and a download that ran is stopped.
cancel_download-keeps :
    (c : Clients) (d : Download) (s : Intervention) (id : ℕ)
    → exists (is_running id) s.db.downloads ≡ false
    → exists (is_running id) (cancel_download c d s).db.downloads ≡ false
cancel_download-keeps c d s id h = elim (Bool-cases (is_terminal d.state)) [
  | inl e ↦
      ap (λ (t : Intervention). exists (is_running id) t.db.downloads)
        (cancel_download-done c d s e)
      ∙ h
  | inr e ↦
      ap (exists (is_running id)) (cancel_download-downloads c d s e)
      ∙ still_none (is_running id) (λ (e : Download). e.id == d.id) (stop s.db.now) s.db.downloads
          (λ a r. let no = stop-running s.db.now id a in cc) h
]

cancel_download-stops :
    (c : Clients) (d : Download) (s : Intervention)
    → is_terminal d.state ≡ false
    → exists (is_running d.id) (cancel_download c d s).db.downloads ≡ false
cancel_download-stops c d s e =
    ap (exists (is_running d.id)) (cancel_download-downloads c d s e)
    ∙ stopped_one (is_running d.id) (λ (e : Download). e.id == d.id) (stop s.db.now) s.db.downloads
        (λ a r. ground arith) (λ a. stop-running s.db.now d.id a)

cancel_downloads-keeps :
    (c : Clients) (ds : List Download) (s : Intervention) (id : ℕ)
    → exists (is_running id) s.db.downloads ≡ false
    → exists (is_running id) (cancel_downloads c ds s).db.downloads ≡ false
unfolding cancel_downloads
cancel_downloads-keeps c [] s id h = h
cancel_downloads-keeps c (d ∷ ds) s id h =
    cancel_downloads-keeps c ds (cancel_download c d s) id (cancel_download-keeps c d s id h)

cancel_downloads-stops :
    (c : Clients) (ds : List Download) (s : Intervention)
    → All
        (λ (d : Download).
          is_terminal d.state ≡ false
          → exists (is_running d.id) (cancel_downloads c ds s).db.downloads ≡ false)
        ds
unfolding cancel_downloads
cancel_downloads-stops c [] s = tt
cancel_downloads-stops c (d ∷ ds) s = (
  λ e. cancel_downloads-keeps c ds (cancel_download c d s) d.id (cancel_download-stops c d s e),
  cancel_downloads-stops c ds (cancel_download c d s),
)

canceled_db-items :
    (id : ℕ) (db : Db)
    → exists
        (λ (m : MediaItem). of_request id m && is_some m.stuck_since)
        (clear_stuck_for_request id (set_request_status id canceled db)).items
      ≡ false
unfolding clear_stuck_for_request set_request_status
canceled_db-items id db =
    none_of_update (λ (m : MediaItem). of_request id m && is_some m.stuck_since) _ db.items
      (λ m e. ground arith)

canceled_db-rest :
    (id : ℕ) (db : Db)
    → let db' = clear_stuck_for_request id (set_request_status id canceled db) in
      (db'.downloads ≡ db.downloads) × (db'.requests ≡ (set_request_status id canceled db).requests)
unfolding clear_stuck_for_request set_request_status
canceled_db-rest id db = (refl, refl)

get_request-ext :
    (id : ℕ) (a b : Db) → b.requests ≡ a.requests → get_request id b ≡ get_request id a
unfolding get_request
get_request-ext id a b h = rw h refl

-- Cancel of an open request succeeds; afterwards the request is canceled, no item of it is flagged as
-- stuck, and none of its downloads that ran runs.
pub cancel_lem :
    (c : Clients) (id : ℕ) (s : Intervention) (r : Request)
    → get_request id s.db ≡ some r
    → is_open r.status ≡ true
    → let (ok, s') = cancel c id s in
      (ok ≡ true)
      × (r' : Request) × (get_request id s'.db ≡ some r')
      × (r'.status ≡ canceled)
      × (exists (λ (m : MediaItem). of_request id m && is_some m.stuck_since) s'.db.items ≡ false)
      × All
          (λ (d : Download).
            is_terminal d.state ≡ false → exists (is_running d.id) s'.db.downloads ≡ false)
          (reverse (downloads_for_request id s.db))
unfolding cancel
cancel_lem c id s r h may =
    let ds = reverse (downloads_for_request id s.db) in
    let stopped = (cancel_downloads c ds s).db in
    let at = cancel_request-db c id r s in
    let (same_downloads, same_requests) = canceled_db-rest id stopped in
    let there = get_request-ext id s.db stopped (cancel_downloads-requests c ds s) ∙ h in
    let (r', got, is) = set_request_status-get id canceled stopped r there in
    let here = get_request-ext id (set_request_status id canceled stopped) _ same_requests ∙ got in
    rw (h, may)
      (
        refl,
        r',
        ap (get_request id) at ∙ here,
        is,
        ap
              (λ (db : Db).
                exists (λ (m : MediaItem). of_request id m && is_some m.stuck_since) db.items)
              at
            ∙ canceled_db-items id stopped,
        All-map _ _
            (λ d stops e.
              ap (λ (db : Db). exists (is_running d.id) db.downloads) at
              ∙ ap (exists (is_running d.id)) same_downloads
              ∙ stops e)
            ds (cancel_downloads-stops c ds s),
      )
