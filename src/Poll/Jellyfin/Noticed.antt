-- ===== src/Poll/Jellyfin/Noticed.antt =====
-- A movie that Jellyfin lists (backend/internal/poll/jellyfin.go) reaches the event log.
use journarr.Base.{
  ℕ, ◌≤◌, arith, suc, ◌-◌, ◌≡◌, refl, Bool, true, false, ◌||◌, Option, none, some, List, [], ◌∷◌,
  ◌++◌, ◌==◌, if◌then◌else◌, is_some, from_option, map_option, if_case, length, ltb, All, Text,
  text, text_eq_iff,
}
use journarr.Pipeline.Seasons.{itoa64}
use journarr.Store.Rows.{Db, MediaItem}
use journarr.Store.Items.{get_media_item, find_movie_item_by_tmdb}
use journarr.Store.Events.{is_duplicate}
use journarr.Store.Events.Keyed.{insert_event-is_duplicate}
use journarr.Poll.Cursors.{PollState}
use journarr.Poll.Emit.{Emitter, Deliveries, arrived, emit_event}
use journarr.Poll.Emit.Kept.{Deliveries-items, Deliveries-is_duplicate}
use journarr.Poll.Jellyfin.{
  JellyItem, Jellyfin, Clock, JellyPass, jellyfin_key, is_available_item, emit_available,
  emit_movie, provider_id, observe_item, newer, is_past, parse_jellyfin_time, scan_items,
  scan_pages, jellyfin_page_size, jellyfin_max_pages, jellyfin_overlap, start_pass, jellyfin_since,
  jellyfin_pass,
}
use journarr.Poll.Jellyfin.Delivered.{
  observe_item-Deliveries, scan_items-Deliveries, scan_pages-Deliveries, finish_pass-db,
}

-- The event that says that the item is available.
abbrev pub is_noticed : MediaItem → Db → Bool
is_noticed m db = is_duplicate (jellyfin_key m) db

-- The item of a tmdb id, as the poller finds it and reads it again.
abbrev pub Finds : ℕ → MediaItem → Db → Type 0
Finds tmdb m db = (find_movie_item_by_tmdb tmdb db ≡ some m) × (get_media_item m.id db ≡ some m)

Finds-kept :
    (tmdb : ℕ) (m : MediaItem) {a b : Db} → Deliveries a b → Finds tmdb m a → Finds tmdb m b
unfolding find_movie_item_by_tmdb get_media_item
Finds-kept tmdb m d h = rw (Deliveries-items d) h

emit_available-is_noticed :
    (m : MediaItem) (jelly_id : Text) (s : Emitter)
    → get_media_item m.id s.db ≡ some m
    → is_available_item m ≡ false
    → is_noticed m (emit_available m.id jelly_id s).db ≡ true
unfolding emit_available emit_event jellyfin_key
emit_available-is_noticed m jelly_id s there waits =
    rw (there, waits)
      (insert_event-is_duplicate b'j'
        (text "ellyfin:avail:" ++ (itoa64 m.id ++ (text ":" ++ itoa64 m.current_cycle))) _ s.db)

-- A movie of the library whose tmdb id is that of an item which is not available.
record Shows (it : JellyItem) (m : MediaItem) (db : Db) : Type 0 where
  pub film : it.type ≡ text "Movie"
  pub known : (provider_id it.provider_ids (text "Tmdb") == 0) ≡ false
  pub finds : Finds (provider_id it.provider_ids (text "Tmdb")) m db
  pub waits : is_available_item m ≡ false

Shows-kept :
    (it : JellyItem) (m : MediaItem) {a b : Db} → Deliveries a b → Shows it m a → Shows it m b
Shows-kept it m d h = record {
  film = h.film;
  known = h.known;
  finds = Finds-kept (provider_id it.provider_ids (text "Tmdb")) m d h.finds;
  waits = h.waits;
}

observe_item-is_noticed :
    (jelly : Jellyfin) (it : JellyItem) (m : MediaItem) (p : JellyPass)
    → Shows it m p.log.db
    → is_noticed m (observe_item jelly it p).log.db ≡ true
unfolding observe_item emit_movie
observe_item-is_noticed jelly it m p h =
    rw ((text_eq_iff it.type (text "Movie")).1 h.film, h.known, h.finds.0)
      (emit_available-is_noticed m it.id p.log h.finds.1 h.waits)

-- Not created before the floor, where both times are known.
abbrev pub IsRecent : Clock → Option ℕ → JellyItem → Type 0
IsRecent clock floor it =
    (f t : ℕ) → floor ≡ some f → parse_jellyfin_time clock it.date_created ≡ some t → f ≤ t

not_past :
    (floor created : Option ℕ)
    → ((f t : ℕ) → floor ≡ some f → created ≡ some t → f ≤ t)
    → is_past floor created ≡ false
not_past none created h = refl
not_past (some f) none h = refl
not_past (some f) (some t) h = let le = h f t refl refl in ground arith

module _ (clock : Clock) (jelly : Jellyfin) (floor : Option ℕ) (m : MediaItem) where
  -- A page on which the movie stands, with nothing behind the floor up to it.
  scan_items-is_noticed :
      (before : List JellyItem) (it : JellyItem) (after : List JellyItem) (p : JellyPass)
      → All (IsRecent clock floor) before
      → IsRecent clock floor it
      → Shows it m p.log.db
      → is_noticed m (scan_items clock jelly floor (before ++ it ∷ after) p).1.log.db ≡ true
  unfolding scan_items
  scan_items-is_noticed [] it after p recent here h =
      let q : JellyPass = record p {
        newest = newer (parse_jellyfin_time clock it.date_created) p.newest;
      } in
      rw (not_past floor (parse_jellyfin_time clock it.date_created) here) (
        Deliveries-is_duplicate
          (scan_items-Deliveries clock jelly floor after (observe_item jelly it q) arrived)
          (jellyfin_key m) (observe_item-is_noticed jelly it m q h))
  scan_items-is_noticed (x ∷ xs) it after p recent here h =
      let q : JellyPass = record p {
        newest = newer (parse_jellyfin_time clock x.date_created) p.newest;
      } in
      rw (not_past floor (parse_jellyfin_time clock x.date_created) recent.0) (
        scan_items-is_noticed xs it after (observe_item jelly x q) recent.1 here
          (Shows-kept it m (observe_item-Deliveries jelly x q arrived) h))

  scan_pages-is_noticed :
      (budget : ℕ) (before : List JellyItem) (it : JellyItem) (after : List JellyItem)
      (p : JellyPass)
      → jelly.items_by_date_created 0 jellyfin_page_size ≡ some (before ++ it ∷ after)
      → All (IsRecent clock floor) before
      → IsRecent clock floor it
      → Shows it m p.log.db
      → is_noticed m (scan_pages clock jelly floor 0 (suc budget) p).1.log.db ≡ true
  unfolding scan_pages
  scan_pages-is_noticed budget before it after p page recent here h =
      let Noticed = λ (r : Bool × JellyPass). is_noticed m r.1.log.db ≡ true in
      let items = before ++ it ∷ after in
      let (stopped, q) = scan_items clock jelly floor items p in
      let found = scan_items-is_noticed before it after p recent here h in
      rw page (
        if_case Noticed (stopped || ltb (length items) jellyfin_page_size) (λ _. found)
          (λ _.
            Deliveries-is_duplicate (scan_pages-Deliveries clock jelly floor 1 budget q arrived)
              (jellyfin_key m) found))

-- From where a pass looks, by the cursor.
abbrev pub floor_of : Clock → PollState → Option ℕ
floor_of clock cursors = map_option (λ t. t - jellyfin_overlap) (jellyfin_since clock cursors)

-- A movie on the newest page of the library, with nothing behind the overlap up to it, that has a tmdb
-- id, where the item that FindMovieItemByTmdb finds for that id, the newest one, is the row that its own id
-- reads and is not available: the pass leaves the event of this item in the log, whatever the later
-- pages and the lookups of series answer.
pub jellyfin_pass-is_noticed :
    (clock : Clock) (jelly : Jellyfin) (s : PollState × Emitter) (before : List JellyItem)
    (it : JellyItem) (after : List JellyItem) (m : MediaItem)
    → jelly.items_by_date_created 0 jellyfin_page_size ≡ some (before ++ it ∷ after)
    → All (IsRecent clock (floor_of clock s.0)) before
    → IsRecent clock (floor_of clock s.0) it
    → it.type ≡ text "Movie"
    → (provider_id it.provider_ids (text "Tmdb") == 0) ≡ false
    → Finds (provider_id it.provider_ids (text "Tmdb")) m s.1.db
    → is_available_item m ≡ false
    → is_noticed m (jellyfin_pass clock jelly s).1.db ≡ true
unfolding jellyfin_pass
jellyfin_pass-is_noticed clock jelly s before it after m page recent here movie known finds waits =
    let cursor = jellyfin_since clock s.0 in
    let since = from_option 0 cursor in
    let shows : Shows it m s.1.db = record {
      film = movie;
      known = known;
      finds = finds;
      waits = waits;
    } in
    let scan = λ (n : ℕ). scan_pages clock jelly (floor_of clock s.0) 0 n (start_pass since s.1) in
    rw (finish_pass-db clock since (scan (if is_some cursor then jellyfin_max_pages else 1)) s) (
      if_case (λ (n : ℕ). is_noticed m (scan n).1.log.db ≡ true) (is_some cursor)
        (λ _.
          scan_pages-is_noticed clock jelly (floor_of clock s.0) m 9 before it after
            (start_pass since s.1) page recent here shows)
        (λ _.
          scan_pages-is_noticed clock jelly (floor_of clock s.0) m 0 before it after
            (start_pass since s.1) page recent here shows))
