-- ===== src/Poll/Jellyfin.antt =====
-- backend/internal/poll/jellyfin.go: the library items that are newly available in Jellyfin. What
-- Jellyfin answers is a parameter, and so are time.Parse and Format; times are nanoseconds since Go's
-- zero time. Statements do not fail.
pub mod Delivered
pub mod Noticed
use journarr.Base.{
  ℕ, zero, suc, ◌+◌, ◌-◌, ◌*◌, Bool, true, false, not, ◌&&◌, ◌||◌, Option, none, some, List, [],
  ◌∷◌, ◌++◌, ◌==◌, leb, ltb, if◌then◌else◌, maybe, from_option, is_some, map_option, first, length,
  is_empty, Text, text, text_eq,
}
use journarr.Pipeline.Ops.{Op, available_op}
use journarr.Pipeline.Seasons.{itoa64}
use journarr.Store.Stages.{available, notified, stage_eq}
use journarr.Store.Rows.{MediaItem}
use journarr.Store.Items.{get_media_item, find_movie_item_by_tmdb, find_episode_item_by_tvdb}
use journarr.Store.Normalize.{trim_space}
use journarr.Poll.Cursors.{PollState, get_poll_cursor, set_poll_cursor, digits_value}
use journarr.Poll.Emit.{Emitter, emit_event}
use journarr.Ingest.ArrHooks.{equal_fold}

pub record JellyItem : Type 0 where
  pub id : Text
  pub type : Text
  pub date_created : Text
  pub provider_ids : List (Text × Text)
  pub parent_index : Option ℕ
  pub index : Option ℕ
  pub index_end : Option ℕ
  pub series_id : Text

-- ItemsByDateCreated, and SeriesTvdbID by the number of lookups so far; `none` is an error.
pub record Jellyfin : Type 0 where
  pub items_by_date_created : ℕ → ℕ → Option (List JellyItem)
  pub series_tvdb_id : ℕ → Text → Option ℕ

-- time.Parse and Format with RFC3339Nano.
pub record Clock : Type 0 where
  pub parse : Text → Option ℕ
  pub format : ℕ → Text

abbrev pub jellyfin_cursor : Text
jellyfin_cursor = text "jellyfin:since"

abbrev pub jellyfin_page_size : ℕ
jellyfin_page_size = 100

abbrev pub jellyfin_max_pages : ℕ
jellyfin_max_pages = 10

abbrev pub jellyfin_overlap : ℕ
jellyfin_overlap = 86400000000000

unfoldable pub parse_jellyfin_time : Clock → Text → Option ℕ
unfolding trim_space
parse_jellyfin_time clock s = if is_empty (trim_space s) then none else clock.parse (trim_space s)

-- providerID, over the map in the order of its iteration; a value with a letter counts as 0.
unfoldable pub provider_id : List (Text × Text) → Text → ℕ
unfolding equal_fold digits_value
provider_id ids key =
    maybe (first (λ (e : Text × Text). equal_fold e.0 key) ids) 0
      λ e. from_option 0 (digits_value 0 e.1)

-- What a pass gathers: `series` is seriesTvdb.
pub record JellyPass : Type 0 where
  pub log : Emitter
  pub newest : ℕ
  pub series : List (Text × ℕ)
  pub lookups : ℕ

unfoldable pub jellyfin_key : MediaItem → Text
jellyfin_key m = text "jellyfin:avail:" ++ (itoa64 m.id ++ (text ":" ++ itoa64 m.current_cycle))

abbrev pub is_available_item : MediaItem → Bool
is_available_item m = stage_eq m.current_stage available || stage_eq m.current_stage notified

-- emit.
unfoldable pub emit_available : ℕ → Text → Emitter → Emitter
unfolding emit_event get_media_item jellyfin_key
emit_available id jelly_id s = maybe (get_media_item id s.db) s λ m.
    if is_available_item m
    then s
    else emit_event (jellyfin_key m)
        (available_op (record { media_item_id = id; jellyfin_item_id = jelly_id; note = [] })) s

unfoldable pub emit_movie : JellyItem → Emitter → Emitter
unfolding provider_id find_movie_item_by_tmdb emit_available
emit_movie it s =
    let tmdb = provider_id it.provider_ids (text "Tmdb") in
    if tmdb == 0
    then s
    else maybe (find_movie_item_by_tmdb tmdb s.db) s λ m. emit_available m.id it.id s

-- The series' tvdb id, from the cache or by a lookup, whose failure is not kept.
unfoldable pub series_tvdb : Jellyfin → Text → JellyPass → Option ℕ × JellyPass
series_tvdb jelly id p =
    maybe (first (λ (e : Text × ℕ). text_eq e.0 id) p.series)
      (maybe (jelly.series_tvdb_id p.lookups id) (none, record p { lookups = p.lookups + 1 })
        λ v. (some v, record p { series = (id, v) ∷ p.series; lookups = p.lookups + 1 }))
      λ e. (some e.1, p)

-- The episodes that a file covers, `n` of them from `ep` on.
unfoldable pub emit_episodes : ℕ → ℕ → ℕ → ℕ → Text → Emitter → Emitter
unfolding find_episode_item_by_tvdb emit_available
emit_episodes tvdb season ep zero jelly_id s = s
emit_episodes tvdb season ep (suc n) jelly_id s =
    emit_episodes tvdb season (ep + 1) n jelly_id
      (maybe (find_episode_item_by_tvdb tvdb season ep s.db) s λ m. emit_available m.id jelly_id s)

abbrev pub episode_count : ℕ → Option ℕ → ℕ
episode_count ep end = maybe end 1 λ e. if ltb ep e then e - ep + 1 else 1

unfoldable pub emit_file : Jellyfin → JellyItem → ℕ → ℕ → JellyPass → JellyPass
unfolding series_tvdb emit_episodes
emit_file jelly it season ep p =
    let (answer, q) = series_tvdb jelly it.series_id p in
    maybe answer q λ tvdb. if tvdb == 0 then q else record q {
      log = emit_episodes tvdb season ep (episode_count ep it.index_end) it.id q.log;
    }

unfoldable pub observe_episode : Jellyfin → JellyItem → JellyPass → JellyPass
unfolding emit_file
observe_episode jelly it p = maybe it.parent_index p λ season.
    maybe it.index p λ ep. if is_empty it.series_id then p else emit_file jelly it season ep p

-- The switch on the item's type.
unfoldable pub observe_item : Jellyfin → JellyItem → JellyPass → JellyPass
unfolding emit_movie observe_episode
observe_item jelly it p =
    if text_eq it.type (text "Movie")
    then record p { log = emit_movie it p.log }
    else if text_eq it.type (text "Episode")
    then observe_episode jelly it p
    else p

abbrev pub newer : Option ℕ → ℕ → ℕ
newer created newest = maybe created newest λ t. if ltb newest t then t else newest

-- Created before the floor, where there is one?
abbrev pub is_past : Option ℕ → Option ℕ → Bool
is_past floor created = maybe floor false λ f. maybe created false λ t. ltb t f

-- The loop over a page, and whether it ended the loop over the pages.
unfoldable pub scan_items :
    Clock → Jellyfin → Option ℕ → List JellyItem → JellyPass → Bool × JellyPass
unfolding parse_jellyfin_time observe_item
scan_items clock jelly floor [] p = (false, p)
scan_items clock jelly floor (it ∷ its) p =
    let created = parse_jellyfin_time clock it.date_created in
    let q = record p { newest = newer created p.newest } in
    let rest = scan_items clock jelly floor its (observe_item jelly it q) in
    if is_past floor created then (true, q) else rest

-- The loop over the pages from `page` on, with `budget` left; `false` is a page that cannot be fetched.
unfoldable pub scan_pages : Clock → Jellyfin → Option ℕ → ℕ → ℕ → JellyPass → Bool × JellyPass
unfolding scan_items
scan_pages clock jelly floor page zero p = (true, p)
scan_pages clock jelly floor page (suc budget) p =
    maybe (jelly.items_by_date_created (page * jellyfin_page_size) jellyfin_page_size) (false, p)
      λ items.
        let (stopped, q) = scan_items clock jelly floor items p in
        let rest = scan_pages clock jelly floor (page + 1) budget q in
        if stopped || ltb (length items) jellyfin_page_size then (true, q) else rest

-- Behind the loops: the cursor and the wake-up, which a pass that was broken off leaves alone.
abbrev pub finish_pass : Clock → ℕ → Bool × JellyPass → PollState × Emitter → PollState × Emitter
finish_pass clock since (complete, p) s =
    if not complete then (s.0, record { db = p.log.db; woken = s.1.woken }) else (
      if ltb since p.newest
          then set_poll_cursor jellyfin_cursor (clock.format p.newest) s.0
          else s.0,
      record { db = p.log.db; woken = s.1.woken || p.log.woken },
    )

abbrev pub start_pass : ℕ → Emitter → JellyPass
start_pass since s = record {
  log = record { db = s.db; woken = false };
  newest = since;
  series = [];
  lookups = 0;
}

unfoldable pub jellyfin_since : Clock → PollState → Option ℕ
unfolding parse_jellyfin_time get_poll_cursor
jellyfin_since clock cursors = parse_jellyfin_time clock (get_poll_cursor jellyfin_cursor cursors)

-- pass.
unfoldable pub jellyfin_pass : Clock → Jellyfin → PollState × Emitter → PollState × Emitter
unfolding jellyfin_since scan_pages set_poll_cursor
jellyfin_pass clock jelly s =
    let cursor = jellyfin_since clock s.0 in
    let since = from_option 0 cursor in
    finish_pass clock since
      (scan_pages clock jelly (map_option (λ t. t - jellyfin_overlap) cursor) 0
        (if is_some cursor then jellyfin_max_pages else 1) (start_pass since s.1))
      s
