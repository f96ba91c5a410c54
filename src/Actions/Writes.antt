-- ===== src/Actions/Writes.antt =====
-- The statements of Retry and Cancel (backend/internal/actions/actions.go).
use journarr.Base.{
  ℕ, ◌≡◌, refl, sym, ap, ◌∙◌, subst, Bool, true, not, ◌&&◌, Option, none, List, [], ◌∷◌, ◌==◌,
  if◌then◌else◌, maybe_case, if_case, length, text, is_empty,
}
use mathlib.Core.List.{reverse}
use journarr.Pipeline.Ops.{Arr}
use journarr.Store.Stages.{ItemType, movie_item, episode_item, canceled_dl, is_terminal, canceled}
use journarr.Store.Rows.{Db, MediaItem, Download, Request}
use journarr.Store.Items.{get_media_item, set_item_radarr_movie_id, items_for_request}
use journarr.Store.Tasks.{is_open}
use journarr.Store.Requests.{get_request, set_request_status}
use journarr.Store.Stuck.{clear_stuck_for_request}
use journarr.Store.Downloads.{downloads_for_item_cycle, downloads_for_request, set_download_state}
use journarr.Store.Writes.{Writes, edits, bumps, done, one, append}
use journarr.Store.Writes.Statements.{
  of_Elsewhere, set_download_state-Elsewhere, set_request_status-Elsewhere,
}
use journarr.Pipeline.Grabs.{ItemMap}
use journarr.Actions.Clients.{
  Clients, Intervention, call, write, arr_of_type, has_arr, clear_queue, unmonitor_movie,
}
use journarr.Actions.Retry.{
  supersede, supersede_all, Found, resolve_movie, find_arr_id, bump_one, bump_all, search_again,
  retry_item, retry, add_id,
}
use journarr.Actions.Cancel.{
  cancel_download, cancel_downloads, unmonitor, unmonitor_all, withdraw, cancel_request, cancel,
  is_movie,
}

set_item_radarr_movie_id-Writes :
    (id movie : ℕ) (db : Db) → Writes db (set_item_radarr_movie_id id movie db)
unfolding set_item_radarr_movie_id
set_item_radarr_movie_id-Writes id movie db = one (
    edits (λ m. m.id == id) _ db
      (record {
        id = λ m. refl;
        request_id = λ m. refl;
        media_type = λ m. refl;
        season = λ m. refl;
        episode = λ m. refl;
        stage = λ m. refl;
        cycle = λ m. refl;
      }))

supersede_all-Writes :
    (arr : Arr) (ds : List Download) (s : ItemMap × Intervention)
    → Writes s.1.db (supersede_all arr ds s).1.db
unfolding supersede_all supersede
supersede_all-Writes arr [] s = done
supersede_all-Writes arr (d ∷ ds) (affected, s) =
    let asked =
      if is_empty d.client_download_id
      then s
      else call (clear_queue arr d.client_download_id true) s in
    append
      (if_case (λ (t : ItemMap × Intervention). Writes s.db t.1.db) (is_terminal d.state)
        (λ _. done)
        (λ _.
          if_case
            (λ (a : Intervention).
              Writes s.db (set_download_state d.id canceled_dl (text "superseded by retry") a.db))
            (is_empty d.client_download_id)
            (λ _.
              of_Elsewhere
                (set_download_state-Elsewhere d.id canceled_dl (text "superseded by retry") s.db))
            (λ _.
              of_Elsewhere
                (set_download_state-Elsewhere d.id canceled_dl (text "superseded by retry") s.db))))
      (supersede_all-Writes arr ds
        (if is_terminal d.state then (affected, s) else supersede arr d (affected, s)))

resolve_movie-Writes : (c : Clients) (m : MediaItem) (db : Db) → Writes db (resolve_movie c m db).1
unfolding resolve_movie
resolve_movie-Writes c m db =
    maybe_case (λ (r : Option ℕ × Db). Writes db r.1) m.radarr_movie_id
      (maybe_case (λ (r : Option ℕ × Db). Writes db r.1) m.tmdb_id done
        λ tmdb _.
          maybe_case (λ (r : Option ℕ × Db). Writes db r.1)
            (if c.has_radarr then c.movie_by_tmdb_id tmdb else none) done
            (λ movie _. set_item_radarr_movie_id-Writes m.id movie db))
      (λ movie _. done)

find_arr_id-Writes :
    (c : Clients) (t : ItemType) (m : MediaItem) (f : Found) → Writes f.db (find_arr_id c t m f).db
unfolding find_arr_id
find_arr_id-Writes c movie_item m f = resolve_movie-Writes c m f.db
find_arr_id-Writes c episode_item m f = done

bump_all-Writes : (c : Clients) (ms : ItemMap) (f : Found) → Writes f.db (bump_all c ms f).db
unfolding bump_all bump_one
bump_all-Writes c [] f = done
bump_all-Writes c ((id, m) ∷ rest) f =
    append
      (append (find_arr_id-Writes c m.media_type m f)
        (one (bumps m.id (find_arr_id c m.media_type m f).db)))
      (bump_all-Writes c rest (bump_one c m f))

pub search_again-db :
    (c : Clients) (arr : Arr) (movies episodes : List ℕ) (s : Intervention)
    → (search_again c arr movies episodes s).1.db ≡ s.db
unfolding search_again
search_again-db c arr [] [] s = refl
search_again-db c arr [] (e ∷ es) s = refl
search_again-db c arr (m ∷ ms) episodes s = refl

retry_item-Writes :
    (range : ItemMap → ItemMap) (c : Clients) (id : ℕ) (m : MediaItem) (s : Intervention)
    → Writes s.db (retry_item range c id m s).1.db
unfolding retry_item
retry_item-Writes range c id m s =
    let arr = arr_of_type m.media_type in
    let ds = reverse (downloads_for_item_cycle id m.current_cycle s.db) in
    let (affected, s') = supersede_all arr ds ((id, m) ∷ [], s) in
    let start : Found = record { movies = []; episodes = []; db = s'.db } in
    let found = bump_all c (range affected) start in
    if_case (λ (r : Bool × Intervention). Writes s.db r.1.db) (has_arr c arr)
      (λ _.
        subst (Writes s.db)
          (sym (search_again-db c arr found.movies found.episodes (write found.db s')))
          (append (supersede_all-Writes arr ds ((id, m) ∷ [], s))
            (bump_all-Writes c (range affected) start)))
      (λ _. done)

pub retry-Writes :
    (range : ItemMap → ItemMap) (c : Clients) (id : ℕ) (s : Intervention)
    → Writes s.db (retry range c id s).1.db
unfolding retry
retry-Writes range c id s =
    maybe_case (λ (r : Bool × Intervention). Writes s.db r.1.db) (get_media_item id s.db) done
      (λ m _. retry_item-Writes range c id m s)

clear_stuck_for_request-Writes : (id : ℕ) (db : Db) → Writes db (clear_stuck_for_request id db)
unfolding clear_stuck_for_request
clear_stuck_for_request-Writes id db = one (
    edits _ _ db (record {
      id = λ m. refl;
      request_id = λ m. refl;
      media_type = λ m. refl;
      season = λ m. refl;
      episode = λ m. refl;
      stage = λ m. refl;
      cycle = λ m. refl;
    }))

-- What is told to the clients changes no table.
unmonitor-db :
    (c : Clients) (ms : List MediaItem) (ids : List ℕ) (s : Intervention)
    → (unmonitor c ms ids s).1.db ≡ s.db
unfolding unmonitor
unmonitor-db c [] ids s = refl
unmonitor-db c (m ∷ ms) ids s =
    maybe_case (λ (r : List ℕ × Intervention). r.1.db ≡ s.db) m.radarr_movie_id
      (unmonitor-db c ms (add_id m.sonarr_episode_id ids) s)
      λ movie _.
        if_case (λ (r : List ℕ × Intervention). r.1.db ≡ s.db)
          (is_movie m.media_type && c.has_radarr)
          (λ _. unmonitor-db c ms ids (call (unmonitor_movie movie) s))
          (λ _. unmonitor-db c ms (add_id m.sonarr_episode_id ids) s)

unmonitor_all-db :
    (c : Clients) (ms : List MediaItem) (s : Intervention) → (unmonitor_all c ms s).db ≡ s.db
unfolding unmonitor_all
unmonitor_all-db c ms s =
    let (ids, s') = unmonitor c ms [] s in
    if_case (λ (r : Intervention). r.db ≡ s.db) (not (length ids == 0) && c.has_sonarr)
      (λ _. unmonitor-db c ms [] s) (λ _. unmonitor-db c ms [] s)

withdraw-db : (c : Clients) (r : Request) (s : Intervention) → (withdraw c r s).db ≡ s.db
withdraw-db c r s =
    maybe_case (λ (t : Intervention). t.db ≡ s.db) r.seerr_request_id refl
      λ seerr _. if_case (λ (t : Intervention). t.db ≡ s.db) c.has_seerr (λ _. refl) (λ _. refl)

cancel_downloads-Writes :
    (c : Clients) (ds : List Download) (s : Intervention) → Writes s.db (cancel_downloads c ds s).db
unfolding cancel_downloads cancel_download
cancel_downloads-Writes c [] s = done
cancel_downloads-Writes c (d ∷ ds) s =
    append
      (if_case (λ (t : Intervention). Writes s.db t.db) (is_terminal d.state) (λ _. done)
        (λ _.
          if_case
            (λ (a : Intervention).
              Writes s.db (set_download_state d.id canceled_dl (text "canceled by user") a.db))
            (has_arr c d.arr && not (is_empty d.client_download_id))
            (λ _.
              of_Elsewhere
                (set_download_state-Elsewhere d.id canceled_dl (text "canceled by user") s.db))
            (λ _.
              of_Elsewhere
                (set_download_state-Elsewhere d.id canceled_dl (text "canceled by user") s.db))))
      (cancel_downloads-Writes c ds (cancel_download c d s))

-- The database after Cancel, with what is told to the clients left out.
pub cancel_request-db :
    (c : Clients) (id : ℕ) (r : Request) (s : Intervention)
    → (cancel_request c id r s).db
      ≡ clear_stuck_for_request id (
          set_request_status id canceled
            (cancel_downloads c (reverse (downloads_for_request id s.db)) s).db)
unfolding cancel_request
cancel_request-db c id r s =
    let stopped = cancel_downloads c (reverse (downloads_for_request id s.db)) s in
    let items = items_for_request id stopped.db in
    ap (λ db. clear_stuck_for_request id (set_request_status id canceled db))
      (withdraw-db c r (unmonitor_all c items stopped) ∙ unmonitor_all-db c items stopped)

pub cancel-Writes : (c : Clients) (id : ℕ) (s : Intervention) → Writes s.db (cancel c id s).1.db
unfolding cancel
cancel-Writes c id s =
    maybe_case (λ (r : Bool × Intervention). Writes s.db r.1.db) (get_request id s.db) done
      λ r _.
        if_case (λ (r : Bool × Intervention). Writes s.db r.1.db) (is_open r.status)
          (λ _.
            let ds = reverse (downloads_for_request id s.db) in
            let stopped = (cancel_downloads c ds s).db in
            subst (Writes s.db) (sym (cancel_request-db c id r s)) (
              append (cancel_downloads-Writes c ds s) (
                append (of_Elsewhere (set_request_status-Elsewhere id canceled stopped))
                  (clear_stuck_for_request-Writes id (set_request_status id canceled stopped)))))
          (λ _. done)
