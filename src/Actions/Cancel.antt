-- ===== src/Actions/Cancel.antt =====
-- Cancel of backend/internal/actions/actions.go: the downloads of a request are canceled, its media are
-- unmonitored, and the request is canceled here and in Seerr.
use journarr.Base.{
  ℕ, Bool, true, false, not, ◌&&◌, List, [], ◌∷◌, ◌==◌, if◌then◌else◌, maybe, length, text,
  is_empty,
}
use mathlib.Core.List.{reverse}
use journarr.Store.Stages.{ItemType, movie_item, episode_item, canceled_dl, is_terminal, canceled}
use journarr.Store.Rows.{MediaItem, Download, Request}
use journarr.Store.Items.{items_for_request}
use journarr.Store.Tasks.{is_open}
use journarr.Store.Requests.{get_request, set_request_status}
use journarr.Store.Stuck.{clear_stuck_for_request}
use journarr.Store.Downloads.{downloads_for_request, set_download_state}
use journarr.Actions.Clients.{
  Clients, Intervention, call, write, has_arr, clear_queue, unmonitor_movie, unmonitor_episodes,
  delete_request,
}
use journarr.Actions.Retry.{add_id}

-- One download of the request.
unfoldable pub cancel_download : Clients → Download → Intervention → Intervention
cancel_download c d s =
    let asked =
      if has_arr c d.arr && not (is_empty d.client_download_id)
      then call (clear_queue d.arr d.client_download_id false) s
      else s in
    if is_terminal d.state
    then s
    else write (set_download_state d.id canceled_dl (text "canceled by user") asked.db) asked

unfoldable pub cancel_downloads : Clients → List Download → Intervention → Intervention
unfolding cancel_download
cancel_downloads c [] s = s
cancel_downloads c (d ∷ ds) s = cancel_downloads c ds (cancel_download c d s)

abbrev pub is_movie : ItemType → Bool
is_movie movie_item = true
is_movie episode_item = false

-- The movies are unmonitored one by one, the episodes' ids are collected.
unfoldable pub unmonitor : Clients → List MediaItem → List ℕ → Intervention → List ℕ × Intervention
unmonitor c [] ids s = (ids, s)
unmonitor c (m ∷ ms) ids s =
    let episode = unmonitor c ms (add_id m.sonarr_episode_id ids) s in
    maybe m.radarr_movie_id episode λ movie.
      let asked = unmonitor c ms ids (call (unmonitor_movie movie) s) in
      if is_movie m.media_type && c.has_radarr then asked else episode

unfoldable pub unmonitor_all : Clients → List MediaItem → Intervention → Intervention
unfolding unmonitor
unmonitor_all c items s =
    let (ids, s') = unmonitor c items [] s in
    if not (length ids == 0) && c.has_sonarr then call (unmonitor_episodes ids) s' else s'

abbrev pub withdraw : Clients → Request → Intervention → Intervention
withdraw c r s =
    maybe r.seerr_request_id s λ seerr. if c.has_seerr then call (delete_request seerr) s else s

unfoldable pub cancel_request : Clients → ℕ → Request → Intervention → Intervention
unfolding cancel_downloads unmonitor_all
cancel_request c id r s =
    let stopped = cancel_downloads c (reverse (downloads_for_request id s.db)) s in
    let told = withdraw c r (unmonitor_all c (items_for_request id stopped.db) stopped) in
    write (clear_stuck_for_request id (set_request_status id canceled told.db)) told

-- Cancel; false is an error.
unfoldable pub cancel : Clients → ℕ → Intervention → Bool × Intervention
unfolding cancel_request
cancel c id s =
    maybe (get_request id s.db) (false, s)
      λ r. if is_open r.status then (true, cancel_request c id r s) else (false, s)
