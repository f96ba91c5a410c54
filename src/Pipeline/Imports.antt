-- ===== src/Pipeline/Imports.antt =====
-- backend/internal/pipeline/grabs.go: what an import and a failed download do.
use journarr.Base.{
  ℕ, Bool, true, false, not, ◌&&◌, ◌||◌, Option, some, List, [], ◌∷◌, ◌==◌, ltb, if◌then◌else◌,
  maybe, from_option, Text, text, text_eq, is_empty, nonempty_or,
}
use journarr.Pipeline.Ops.{Arr, sonarr, radarr, SeriesRef, ImportOp, FailureOp}
use journarr.Store.Stages.{
  DownloadState, imported, imported_dl, failed_dl, canceled_dl, matched, orphan, ignored,
}
use journarr.Store.Rows.{Db, MediaItem}
use journarr.Store.Items.{get_media_item, set_item_error, set_item_imported_path}
use journarr.Store.Normalize.{normalize_download_id}
use journarr.Store.Downloads.{find_download_by_client_id, set_download_state, item_ids_for_download}
use journarr.Store.Correlate.{
  cycle_for_item_download, download_client_id_for_item_cycle, unimported_item_count,
}
use journarr.Store.Transitions.{apply_stage}
use journarr.Pipeline.Projector.{Projector, Outcome, outcome, set_db, touch, announce}
use journarr.Pipeline.Grabs.{
  ItemMap, Resolved, is_removed, resolve, resolve_episode_items, resolve_movie_item,
}

-- The cycle of the item that the download `key` is linked to, else the current one.
unfoldable pub linked_cycle : Text → MediaItem → Db → ℕ
linked_cycle [] m db = m.current_cycle
linked_cycle (c ∷ s) m db =
    let linked = cycle_for_item_download m.id (c ∷ s) db in
    if ltb 0 linked then linked else m.current_cycle

abbrev pub record_path : ℕ → MediaItem → Text → Projector → Projector
record_path cycle m path p =
    if not (is_empty path) && cycle == m.current_cycle
    then set_db (set_item_imported_path m.id path p.db) p
    else p

-- importOne.
unfoldable pub import_one : ℕ → Text → ℕ → MediaItem → Text → Projector → Projector
unfolding linked_cycle
import_one event key request_id m path p =
    let cycle = linked_cycle key m p.db in
    maybe (apply_stage m.id cycle imported event [] p.db) p
      λ r. record_path cycle m path (announce r.0 m.id request_id imported cycle (set_db r.1 p))

-- op.EpisodePaths[epID], '' for a missing key.
unfoldable pub path_of : ℕ → List (ℕ × Text) → Text
path_of k [] = []
path_of k ((j, path) ∷ rest) = if j == k then path else path_of k rest

-- The path that the op carries for an item.
unfoldable pub import_path : ImportOp → Arr → ℕ → Text
unfolding path_of
import_path op sonarr k = path_of k op.episode_paths
import_path op radarr k = op.movie_path

unfoldable pub import_all : ℕ → Text → ImportOp → ℕ → ItemMap → Projector → Projector
unfolding import_one import_path
import_all event key op request_id [] p = p
import_all event key op request_id ((k, m) ∷ rest) p =
    import_all event key op request_id rest
      (import_one event key request_id m (import_path op op.arr k) p)

-- dl.State != "failed" && dl.State != "canceled".
abbrev pub can_complete : DownloadState → Bool
can_complete failed_dl = false
can_complete canceled_dl = false
can_complete _ = true

-- The download of an import is done when all its items are.
unfoldable pub complete_download : Text → Db → ℕ × Db
complete_download [] db = (0, db)
complete_download (c ∷ s) db =
    maybe (find_download_by_client_id (c ∷ s) db) (0, db)
      λ d. (
        d.id,
        if unimported_item_count d.id db == 0 && can_complete d.state
            then set_download_state d.id imported_dl [] db
            else db,
      )

-- dl.State != "imported" && dl.State != "canceled".
abbrev pub can_fail : DownloadState → Bool
can_fail imported_dl = false
can_fail canceled_dl = false
can_fail _ = true

-- Does a failure of the download `key` belong to the current attempt of the item?
unfoldable pub is_current_failure : Text → MediaItem → Db → Bool
is_current_failure [] m db = true
is_current_failure (c ∷ s) m db =
    let linked = cycle_for_item_download m.id (c ∷ s) db in
    let prev = download_client_id_for_item_cycle m.id m.current_cycle db in
    if ltb 0 linked then linked == m.current_cycle else is_empty prev || text_eq prev (c ∷ s)

-- markItem.
unfoldable pub mark_item : Text → Text → MediaItem → Projector → Projector
unfolding is_current_failure
mark_item key msg m p =
    if is_current_failure key m p.db then set_db (set_item_error m.id msg p.db) p else p

pub record Marked : Type 0 where
  pub request_id : ℕ
  pub first : ℕ
  pub projector : Projector

abbrev pub first_of_two : ℕ → ℕ → ℕ
first_of_two first id = if first == 0 then id else first

abbrev pub touch_item : MediaItem → Projector → Projector
touch_item m p = maybe m.request_id p λ r. touch r p

-- The loop over the items that are linked to the failed download.
unfoldable pub mark_linked : Text → Text → List ℕ → Marked → Marked
unfolding mark_item
mark_linked key msg [] s = s
mark_linked key msg (id ∷ ids) s = mark_linked key msg ids (
    maybe (get_media_item id s.projector.db) s λ m. record {
      request_id = from_option s.request_id m.request_id;
      first = first_of_two s.first id;
      projector = touch_item m (mark_item key msg m s.projector);
    })

-- The loop over items that were resolved by their references.
unfoldable pub mark_resolved : Text → Text → ItemMap → Marked → Marked
unfolding mark_item
mark_resolved key msg [] s = s
mark_resolved key msg ((k, m) ∷ rest) s = mark_resolved key msg rest (record s {
  first = first_of_two s.first m.id;
  projector = touch s.request_id (mark_item key msg m s.projector);
})

unfoldable pub fail_download : FailureOp → Text → Text → Projector → ℕ × Marked
unfolding mark_linked
fail_download op key msg p =
    let start : Marked = record { request_id = 0; first = 0; projector = p } in
    if is_empty key
    then (0, start)
    else maybe (find_download_by_client_id key p.db) (0, start)
        λ d.
          let db' =
            if not op.soft && can_fail d.state
            then set_download_state d.id failed_dl msg p.db
            else p.db in
          (
            d.id,
            mark_linked key msg (item_ids_for_download d.id db')
                (record start { projector = set_db db' p }),
          )

-- The references of a failure: the series of a sonarr op, else the movie.
unfoldable pub resolve_failure : FailureOp → Arr → Option SeriesRef → Db → Resolved
resolve_failure op sonarr (some series) db = resolve_episode_items (some series) op.episodes db
resolve_failure op arr series db = resolve_movie_item op.movie db

-- What applyImport does behind its loop: an import that found no item is an orphan.
unfoldable pub import_result : Text → ItemMap → ℕ → Projector → Outcome × Projector
unfolding complete_download
import_result key [] request_id q = (outcome orphan request_id 0 0, q)
import_result key ((k, m) ∷ rest) request_id q =
    let d = complete_download key q.db in (outcome matched request_id m.id d.0, set_db d.1 q)

module _ (range : ItemMap → ItemMap) where
  -- applyImport.
  unfoldable pub apply_import : ℕ → ImportOp → Projector → Outcome × Projector
  unfolding import_all import_result
  apply_import event op p =
      let key = normalize_download_id op.download_id in
      let r = resolve op.arr op.series op.episodes op.movie p.db in
      let q = import_all event key op r.request_id (range r.items) (set_db r.db p) in
      if is_removed op.series op.movie p.db
      then (outcome ignored 0 0 0, p)
      else import_result key (range r.items) r.request_id q

  -- The fallback, when no item was reached by the download.
  unfoldable pub fail_by_refs : FailureOp → Text → Text → Marked → Marked
  unfolding resolve_failure mark_resolved
  fail_by_refs op key msg s =
      let r = resolve_failure op op.arr op.series s.projector.db in
      if s.first == 0
      then mark_resolved key msg (range r.items)
          (record s { request_id = r.request_id; projector = set_db r.db s.projector })
      else s

  -- applyFailure.
  unfoldable pub apply_failure : ℕ → FailureOp → Projector → Outcome × Projector
  unfolding fail_download fail_by_refs
  apply_failure event op p =
      let key = normalize_download_id op.download_id in
      let msg = nonempty_or op.message (text "download failed") in
      let d = fail_download op key msg p in
      let s = fail_by_refs op key msg d.1 in
      if is_removed op.series op.movie p.db
      then (outcome ignored 0 0 0, p)
      else if s.first == 0
      then (outcome orphan 0 0 d.0, s.projector)
      else (outcome matched s.request_id s.first d.0, s.projector)
