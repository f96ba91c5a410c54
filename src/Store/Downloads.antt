-- ===== src/Store/Downloads.antt =====
-- backend/internal/store/downloads.go: the table `downloads`.
pub mod Replay
use journarr.Base.{
  ℕ, Bool, true, false, not, ◌&&◌, ◌||◌, Option, none, some, List, [], ◌∷◌, ◌++◌, ◌==◌,
  if◌then◌else◌, opt_is, or_else, Text, text_eq, nonempty_or, is_empty, maybe, select, last, exists,
  update, next_id, map,
}
use journarr.Pipeline.Ops.{Arr}
use journarr.Store.Stages.{
  DownloadState, grabbed_dl, imported_dl, failed_dl, canceled_dl, is_terminal, Source, no_source,
}
use journarr.Store.Rows.{Db, Download, Link, MediaItem}
use journarr.Store.Normalize.{normalize_download_id, normalize_source}

pub record NewDownload : Type 0 where
  pub client_download_id : Text
  pub arr : Arr
  pub source : Text
  pub release_title : Text
  pub indexer : Text
  pub size_bytes : Option ℕ

abbrev pub update_download : ℕ → (Download → Download) → Db → Db
update_download id f db = record db { downloads = update (λ d. d.id == id) f db.downloads }

-- FindActiveDownloadByClientID: the newest that is not terminal.
unfoldable pub find_active_download_by_client_id : Text → Db → Option Download
find_active_download_by_client_id client db =
    last
      (λ d.
        text_eq d.client_download_id (normalize_download_id client) && not (is_terminal d.state))
      db.downloads

unfoldable pub find_download_by_client_id : Text → Db → Option Download
find_download_by_client_id client db =
    last (λ d. text_eq d.client_download_id (normalize_download_id client)) db.downloads

unfoldable pub find_download_by_arrarr_nzo : Text → Db → Option Download
find_download_by_arrarr_nzo nzo db = last (λ d. text_eq d.arrarr_nzo_id nzo) db.downloads

-- The first known source stands.
abbrev pub keep_source : Source → Source → Source
keep_source new no_source = new
keep_source new old = old

unfoldable pub refresh_download : ℕ → NewDownload → Download → Download
refresh_download now n d = record d {
  release_title = nonempty_or n.release_title d.release_title;
  indexer = nonempty_or n.indexer d.indexer;
  size_bytes = or_else n.size_bytes d.size_bytes;
  source = keep_source (normalize_source n.source) d.source;
  updated_at = now;
}

unfoldable pub download_row : ℕ → ℕ → NewDownload → Download
download_row id now n = record {
  id = id;
  client_download_id = normalize_download_id n.client_download_id;
  arrarr_nzo_id = [];
  arr = n.arr;
  source = normalize_source n.source;
  release_title = n.release_title;
  indexer = n.indexer;
  size_bytes = n.size_bytes;
  state = grabbed_dl;
  bytes_downloaded = none;
  bytes_total = none;
  last_error = [];
  grabbed_at = some now;
  completed_at = none;
  updated_at = now;
}

-- UpsertDownload.
unfoldable pub upsert_download : NewDownload → Db → ℕ × Db
unfolding refresh_download download_row find_active_download_by_client_id
upsert_download n db =
    let id = next_id (λ (d : Download). d.id) db.downloads in
    maybe (find_active_download_by_client_id (normalize_download_id n.client_download_id) db)
      (id, record db { downloads = db.downloads ++ download_row id db.now n ∷ [] })
      λ old. (old.id, update_download old.id (refresh_download db.now n) db)

abbrev pub has_download : ℕ → Db → Bool
has_download id db = exists (λ (d : Download). d.id == id) db.downloads

abbrev pub is_link : ℕ → ℕ → Link → Bool
is_link download item l = l.download_id == download && l.media_item_id == item

abbrev pub link_row : ℕ → ℕ → ℕ → Link
link_row download item cycle = record {
  download_id = download;
  media_item_id = item;
  cycle = cycle;
}

-- LinkDownloadItem: INSERT OR IGNORE under PRIMARY KEY (download_id, media_item_id). Where one of the
-- two is not there the statement fails, and its callers drop the error.
unfoldable pub link_download_item : ℕ → ℕ → ℕ → Db → Db
link_download_item download item cycle db =
    if exists (is_link download item) db.links
    then db
    else if has_download download db && exists (λ (m : MediaItem). m.id == item) db.items
    then record db { links = db.links ++ link_row download item cycle ∷ [] }
    else db

unfoldable pub set_download_arrarr_nzo : ℕ → Text → Db → Db
set_download_arrarr_nzo id nzo db =
    update_download id (λ d. record d { arrarr_nzo_id = nzo; updated_at = db.now }) db

unfoldable pub set_state_row : ℕ → DownloadState → Text → Download → Download
set_state_row now state error d = record d {
  state = state;
  last_error = nonempty_or error d.last_error;
  completed_at = if is_terminal state then some now else d.completed_at;
  updated_at = now;
}

unfoldable pub set_download_state : ℕ → DownloadState → Text → Db → Db
unfolding set_state_row
set_download_state id state error db = update_download id (set_state_row db.now state error) db

unfoldable pub update_download_progress : ℕ → ℕ → ℕ → Db → Db
update_download_progress id downloaded total db =
    update_download id
      (λ d. record d {
        bytes_downloaded = some downloaded;
        bytes_total = some total;
        updated_at = db.now;
      })
      db

-- Is the download linked to an item of the request?
abbrev pub is_linked_to_request : ℕ → Db → Download → Bool
is_linked_to_request request_id db d =
    exists
      (λ l.
        l.download_id == d.id
        && exists (λ m. m.id == l.media_item_id && opt_is request_id m.request_id) db.items)
      db.links

-- DownloadsForRequest, oldest first; the source lists the newest first.
unfoldable pub downloads_for_request : ℕ → Db → List Download
downloads_for_request request_id db = select (is_linked_to_request request_id db) db.downloads

-- DownloadsForItemCycle, oldest first; the source lists the newest first.
unfoldable pub downloads_for_item_cycle : ℕ → ℕ → Db → List Download
downloads_for_item_cycle item cycle db =
    select (λ d. exists (λ l. is_link d.id item l && l.cycle == cycle) db.links) db.downloads

unfoldable pub item_ids_for_download : ℕ → Db → List ℕ
item_ids_for_download download db =
    map (λ l. l.media_item_id) (select (λ l. l.download_id == download) db.links)

unfoldable pub active_downloads : Db → List Download
active_downloads db = select (λ d. not (is_terminal d.state)) db.downloads
