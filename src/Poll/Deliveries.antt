-- ===== src/Poll/Deliveries.antt =====
-- The passes of backend/internal/poll that only append events.
use journarr.Base.{
  ℕ, subst, Bool, not, ◌&&◌, Option, none, some, List, [], ◌∷◌, ◌==◌, opt_is, maybe_case, if_case,
  select, is_empty,
}
use journarr.Pipeline.Ops.{Arr, seerr_op}
use journarr.Store.Rows.{Db, MediaItem}
use journarr.Store.Items.{list_unavailable_active_items}
use journarr.Poll.Cursors.{PollState, get_poll_cursor}
use journarr.Poll.Emit.{Emitter, Deliveries, arrived, then_event, emit_event-Deliveries}
use journarr.Poll.History.{
  normalize, history_key, Poller, Round, insert_record, insert_records, later, process_records,
  since_id, max_pages, pass,
}
use journarr.Poll.HistoryPages.{HistoryRecord, history_since}
use journarr.Poll.Presence.{
  Library, emit_present, presence_key, emit_all, emit_series, emit_movies, presence_pass,
  is_present, is_tracked_episode, is_tracked_movie, series_ids,
}
use journarr.Poll.SeerrRequests.{
  SeerrRequest, TitleLookup, observe_request, observe_requests, seerr_status_kind, seerr_key,
  seerr_payload, seerr_pass, is_available_kind, requests_cursor,
}

abbrev Inserts : Db → Option (Bool × Db) → Type 0
Inserts a none = Unit
Inserts a (some r) = Deliveries a r.1

insert_record-Inserts :
    (arr : Arr) (fails : ℕ → Bool) (early : Bool) (r : HistoryRecord) {a : Db} (db : Db)
    → Deliveries a db
    → Inserts a (insert_record arr fails early r db)
unfolding insert_record
insert_record-Inserts arr fails early r {a} db d =
    if_case (Inserts a) early (λ _. d)
      (λ _. maybe_case (Inserts a) (normalize arr r) d λ op _.
        if_case (Inserts a) (fails r.id) (λ _. tt) (λ _. then_event d (history_key arr r.id) op))

insert_records-Deliveries :
    (arr : Arr) (fails : ℕ → Bool) (early : Bool) (rs : List HistoryRecord) (cursor : ℕ) {a : Db}
    (db : Db)
    → Deliveries a db
    → Deliveries a (insert_records arr fails early rs cursor db).2
unfolding insert_records
insert_records-Deliveries arr fails early [] cursor db d = d
insert_records-Deliveries arr fails early (r ∷ rs) cursor {a} db d =
    let Delivered = λ (x : ℕ × ℕ × Db). Deliveries a x.2 in
    maybe_case Delivered (insert_record arr fails early r db) d λ x e.
      insert_records-Deliveries arr fails early rs (later cursor r.id) x.1
        (subst (Inserts a) e (insert_record-Inserts arr fails early r db d))

emit_all-Deliveries :
    {a : Db} (ms : List MediaItem) (s : Emitter)
    → Deliveries a s.db
    → Deliveries a (emit_all ms s).db
unfolding emit_all emit_present
emit_all-Deliveries [] s d = d
emit_all-Deliveries (m ∷ ms) s d =
    emit_all-Deliveries ms (emit_present m s) (emit_event-Deliveries (presence_key m) _ s d)

emit_series-Deliveries :
    {a : Db} (lib : Library) (items : List MediaItem) (ids : List ℕ) (s : Emitter)
    → Deliveries a s.db
    → Deliveries a (emit_series lib items ids s).db
unfolding emit_series
emit_series-Deliveries lib items [] s d = d
emit_series-Deliveries {a} lib items (id ∷ ids) s d = emit_series-Deliveries lib items ids _ (
    maybe_case (λ (x : Emitter). Deliveries a x.db) (lib.episodes id) d
      λ eps _.
        emit_all-Deliveries
          (select (λ (m : MediaItem). opt_is id m.sonarr_series_id && is_present eps m) items) s d)

emit_movies-Deliveries :
    {a : Db} (lib : Library) (ms : List MediaItem) (s : Emitter)
    → Deliveries a s.db
    → Deliveries a (emit_movies lib ms s).db
unfolding emit_movies emit_present
emit_movies-Deliveries lib [] s d = d
emit_movies-Deliveries {a} lib (m ∷ ms) s d =
    let Delivered = λ (x : Emitter). Deliveries a x.db in
    emit_movies-Deliveries lib ms _ (
      maybe_case Delivered m.radarr_movie_id d λ id _.
        maybe_case Delivered (lib.movie_has_file id) d λ present _.
          if_case Delivered present (λ _. emit_event-Deliveries (presence_key m) _ s d) (λ _. d))

pub presence_pass-Deliveries :
    (order : List ℕ → List ℕ) (lib : Library) (s : Emitter)
    → Deliveries s.db (presence_pass order lib s).db
unfolding presence_pass
presence_pass-Deliveries order lib s =
    let items = list_unavailable_active_items s.db in
    let episodes = select (is_tracked_episode lib) items in
    let ids = order (series_ids episodes []) in
    emit_movies-Deliveries lib (select (is_tracked_movie lib) items)
      (emit_series lib episodes ids s) (emit_series-Deliveries lib episodes ids s arrived)

pub history_pass-Deliveries :
    (arr : Arr) (round : Round) (p : Poller) → Deliveries p.db (pass arr round p).db
unfolding pass process_records
history_pass-Deliveries arr round p =
    let Delivered = λ (q : Poller). Deliveries p.db q.db in
    if_case Delivered (not round.loads) (λ _. arrived)
      (λ _.
        maybe_case Delivered (history_since round.pages (since_id arr p) max_pages) arrived λ w _.
          insert_records-Deliveries arr round.fails (since_id arr p == 0) w.0 (since_id arr p) p.db
            arrived)

observe_requests-Deliveries :
    {a : Db} (titles : TitleLookup) (early : Bool) (rs : List SeerrRequest) (s : Emitter)
    → Deliveries a s.db
    → Deliveries a (observe_requests titles early rs s).db
unfolding observe_requests observe_request
observe_requests-Deliveries titles early [] s d = d
observe_requests-Deliveries {a} titles early (r ∷ rs) s d =
    let Delivered = λ (x : Emitter). Deliveries a x.db in
    observe_requests-Deliveries titles early rs (observe_request titles early r s) (
      maybe_case Delivered (seerr_status_kind r) d λ kind _.
        if_case Delivered (early && not (is_available_kind kind)) (λ _. d)
          (λ _.
            emit_event-Deliveries (seerr_key r) (seerr_op (seerr_payload titles r kind s.db)) s d))

pub seerr_pass-Deliveries :
    (titles : TitleLookup) (answer : Option (List SeerrRequest)) (s : PollState × Emitter)
    → Deliveries s.1.db (seerr_pass titles answer s).1.db
unfolding seerr_pass
seerr_pass-Deliveries titles answer s =
    maybe_case (λ (x : PollState × Emitter). Deliveries s.1.db x.1.db) answer arrived
      λ rs _.
        observe_requests-Deliveries titles (is_empty (get_poll_cursor requests_cursor s.0)) rs s.1
          arrived
