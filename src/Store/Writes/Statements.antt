-- ===== src/Store/Writes/Statements.antt =====
-- The statements on requests, downloads and tasks, and the edits of items.
use journarr.Base.{
  ℕ, ◌≡◌, refl, ap, ◌∙◌, subst, inl, inr, Bool, true, Option, some, List, ◌++◌, arith, ◌==◌,
  Bool-cases, maybe_case, if_case, first, exists, update, Text, exists-append, exists-update,
}
use journarr.Store.Stages.{Stage, RequestStatus, DownloadState, TaskKind, TargetType}
use journarr.Pipeline.Ops.{RequestType}
use journarr.Store.Rows.{Db, MediaItem, Request, Download}
use journarr.Store.Items.{
  set_item_error, set_item_jellyfin_id, set_item_imported_path, NewItem, ensure_media_item,
  upsert_item,
}
use journarr.Store.Requests.{
  NewRequest, upsert_request, upsert_request_row, has_seerr_id, refresh_request,
  insert_orphan_request, set_request_status, recompute_request_status, status_eq, derived_status,
  get_request,
}
use journarr.Store.Downloads.{
  NewDownload, upsert_download, set_download_arrarr_nzo, set_download_state,
  update_download_progress, has_download, find_active_download_by_client_id, refresh_download,
}
use journarr.Store.Normalize.{normalize_download_id}
use journarr.Store.Tasks.{enqueue_flow_task}
use journarr.Store.Writes.{
  Elsewhere, IsEdit, Writes, elsewhere, edits, upserts, applies, one, has_request,
}
use journarr.Store.Transitions.{apply_stage, has_item}
use journarr.Store.Transitions.Pointer.{applied_db}

pub Elsewhere-refl : (db : Db) → Elsewhere db db
Elsewhere-refl db = record {
  items = refl;
  transitions = refl;
  links = refl;
  events = refl;
  requests = λ id h. h;
  downloads = λ id h. h;
}

-- A statement on requests that deletes none.
pub on_requests :
    (rs : List Request) (db : Db)
    → ((id : ℕ) → has_request id db ≡ true → exists (λ (r : Request). r.id == id) rs ≡ true)
    → Elsewhere db (record db { requests = rs })
on_requests rs db keep = record {
  items = refl;
  transitions = refl;
  links = refl;
  events = refl;
  requests = keep;
  downloads = λ id h. h;
}

pub on_downloads :
    (ds : List Download) (db : Db)
    → ((id : ℕ) → has_download id db ≡ true → exists (λ (d : Download). d.id == id) ds ≡ true)
    → Elsewhere db (record db { downloads = ds })
on_downloads ds db keep = record {
  items = refl;
  transitions = refl;
  links = refl;
  events = refl;
  requests = λ id h. h;
  downloads = keep;
}

exists-append_left {ℓ} :
    {A : Type ℓ} (q : A → Bool) (xs ys : List A) → exists q xs ≡ true → exists q (xs ++ ys) ≡ true
exists-append_left q xs ys h = rw (exists-append q xs ys, h)

pub updated_requests :
    (p : Request → Bool) (f : Request → Request) (db : Db)
    → ((r : Request) → (f r).id ≡ r.id)
    → Elsewhere db (record db { requests = update p f db.requests })
updated_requests p f db keep = on_requests (update p f db.requests) db λ id h.
    exists-update p (λ (r : Request). r.id == id) f (λ r. ap (λ n. n == id) (keep r)) db.requests
    ∙ h

updated_downloads :
    (p : Download → Bool) (f : Download → Download) (db : Db)
    → ((r : Download) → (f r).id ≡ r.id)
    → Elsewhere db (record db { downloads = update p f db.downloads })
updated_downloads p f db keep = on_downloads (update p f db.downloads) db λ id h.
    exists-update p (λ (r : Download). r.id == id) f (λ r. ap (λ n. n == id) (keep r)) db.downloads
    ∙ h

pub insert_orphan_request-Elsewhere :
    (kind : RequestType) (title : Text) (tmdb tvdb : Option ℕ) (db : Db)
    → Elsewhere db (insert_orphan_request kind title tmdb tvdb db).1
unfolding insert_orphan_request
insert_orphan_request-Elsewhere kind title tmdb tvdb db =
    on_requests _ db (λ id. exists-append_left (λ (r : Request). r.id == id) db.requests _)

pub set_request_status-Elsewhere :
    (id : ℕ) (status : RequestStatus) (db : Db) → Elsewhere db (set_request_status id status db)
unfolding set_request_status
set_request_status-Elsewhere id status db = updated_requests _ _ db (λ r. refl)

upsert_request_row-Elsewhere : (n : NewRequest) (db : Db) → Elsewhere db (upsert_request_row n db).1
unfolding upsert_request_row
upsert_request_row-Elsewhere n db =
    maybe_case (λ (r : ℕ × Db). Elsewhere db r.1)
      (first (has_seerr_id n.seerr_request_id) db.requests)
      (on_requests _ db (λ id. exists-append_left (λ (r : Request). r.id == id) db.requests _))
      (λ old _.
        updated_requests _ (refresh_request db.now n) db (λ r. unfold refresh_request in refl))

pub upsert_request-Elsewhere :
    (n : NewRequest) (db : Db) (r : ℕ × Db) → upsert_request n db ≡ some r → Elsewhere db r.1
unfolding upsert_request
upsert_request-Elsewhere n db r h =
    let at : upsert_request_row n db ≡ r = ground arith in
    subst (λ (r : ℕ × Db). Elsewhere db r.1) at (upsert_request_row-Elsewhere n db)

pub recompute_request_status-Elsewhere :
    (id : ℕ) (db : Db) → Elsewhere db (recompute_request_status id db).1
unfolding recompute_request_status
recompute_request_status-Elsewhere id db =
    maybe_case (λ (r : Option RequestStatus × Db). Elsewhere db r.1) (get_request id db)
      (Elsewhere-refl db)
      λ r _.
        if_case (Elsewhere db) (status_eq (derived_status id r.status db) r.status)
          (λ _. Elsewhere-refl db)
          (λ _. set_request_status-Elsewhere id (derived_status id r.status db) db)

pub upsert_download-Elsewhere : (n : NewDownload) (db : Db) → Elsewhere db (upsert_download n db).1
unfolding upsert_download
upsert_download-Elsewhere n db =
    maybe_case (λ (r : ℕ × Db). Elsewhere db r.1)
      (find_active_download_by_client_id (normalize_download_id n.client_download_id) db)
      (on_downloads _ db (λ id. exists-append_left (λ (d : Download). d.id == id) db.downloads _))
      (λ old _.
        updated_downloads _ (refresh_download db.now n) db (λ r. unfold refresh_download in refl))

pub set_download_arrarr_nzo-Elsewhere :
    (id : ℕ) (nzo : Text) (db : Db) → Elsewhere db (set_download_arrarr_nzo id nzo db)
unfolding set_download_arrarr_nzo
set_download_arrarr_nzo-Elsewhere id nzo db = updated_downloads _ _ db (λ r. refl)

pub set_download_state-Elsewhere :
    (id : ℕ) (state : DownloadState) (error : Text) (db : Db)
    → Elsewhere db (set_download_state id state error db)
unfolding set_download_state
set_download_state-Elsewhere id state error db = updated_downloads _ _ db (λ r. refl)

pub update_download_progress-Elsewhere :
    (id got total : ℕ) (db : Db) → Elsewhere db (update_download_progress id got total db)
unfolding update_download_progress
update_download_progress-Elsewhere id got total db = updated_downloads _ _ db (λ r. refl)

pub enqueue_flow_task-Elsewhere :
    (kind : TaskKind) (kind_of : TargetType) (id : ℕ) (key : Text) (at : ℕ) (db : Db)
    → Elsewhere db (enqueue_flow_task kind kind_of id key at db).1
unfolding enqueue_flow_task
enqueue_flow_task-Elsewhere kind kind_of id key at db = record {
  items = ground arith;
  transitions = ground arith;
  links = ground arith;
  events = ground arith;
  requests = λ id h. ground arith;
  downloads = λ id h. ground arith;
}

pub of_Elsewhere : {a b : Db} → Elsewhere a b → Writes a b
of_Elsewhere e = one (elsewhere e)

edit :
    (f : MediaItem → MediaItem)
    → IsEdit f
    → (id : ℕ) (db : Db) → Writes db (record db { items = update (λ m. m.id == id) f db.items })
edit f e id db = one (edits _ f db e)

pub set_item_error-Writes : (id : ℕ) (msg : Text) (db : Db) → Writes db (set_item_error id msg db)
unfolding set_item_error
set_item_error-Writes id msg db =
    edit _
      (record {
        id = λ m. refl;
        request_id = λ m. refl;
        media_type = λ m. refl;
        season = λ m. refl;
        episode = λ m. refl;
        stage = λ m. refl;
        cycle = λ m. refl;
      })
      id db

pub set_item_jellyfin_id-Writes :
    (id : ℕ) (jelly : Text) (db : Db) → Writes db (set_item_jellyfin_id id jelly db)
unfolding set_item_jellyfin_id
set_item_jellyfin_id-Writes id jelly db =
    edit _
      (record {
        id = λ m. refl;
        request_id = λ m. refl;
        media_type = λ m. refl;
        season = λ m. refl;
        episode = λ m. refl;
        stage = λ m. refl;
        cycle = λ m. refl;
      })
      id db

pub set_item_imported_path-Writes :
    (id : ℕ) (path : Text) (db : Db) → Writes db (set_item_imported_path id path db)
unfolding set_item_imported_path
set_item_imported_path-Writes id path db =
    edit _
      (record {
        id = λ m. refl;
        request_id = λ m. refl;
        media_type = λ m. refl;
        season = λ m. refl;
        episode = λ m. refl;
        stage = λ m. refl;
        cycle = λ m. refl;
      })
      id db

pub ensure_media_item-Writes :
    (n : NewItem) (db : Db) (r : ℕ × Db) → ensure_media_item n db ≡ some r → Writes db r.1
unfolding ensure_media_item
ensure_media_item-Writes n db r h = elim (Bool-cases (has_request n.request_id db)) [
  | inl e ↦
      let at : upsert_item n db ≡ r.1 = ground arith in subst (Writes db) at (one (upserts n db e))
  | inr e ↦ absurd (ground arith)
]

pub apply_stage-Writes :
    (item cycle : ℕ) (stage : Stage) (event : ℕ) (note : Text) (db : Db) (r : Bool × Db)
    → apply_stage item cycle stage event note db ≡ some r
    → Writes db r.1
unfolding apply_stage applied_db
apply_stage-Writes item cycle stage event note db r h = elim (Bool-cases (has_item item db)) [
  | inl e ↦
      let at : applied_db item cycle stage event note db ≡ r.1 = ground arith in
      subst (Writes db) at (one (applies item cycle stage event note db e))
  | inr e ↦ absurd (ground arith)
]
