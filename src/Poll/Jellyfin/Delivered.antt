-- ===== src/Poll/Jellyfin/Delivered.antt =====
-- The pass of backend/internal/poll/jellyfin.go only appends events.
use journarr.Base.{
  ℕ, zero, suc, ◌+◌, ◌-◌, ◌*◌, ◌==◌, ◌≡◌, refl, sym, subst, Bool, true, false, ◌||◌, if◌then◌else◌,
  Option, List, [], ◌∷◌, maybe_case, if_case, ltb, length, is_some, is_empty, map_option,
  from_option, first, Text, text, text_eq,
}
use journarr.Store.Rows.{Db}
use journarr.Store.Items.{get_media_item, find_movie_item_by_tmdb, find_episode_item_by_tvdb}
use journarr.Poll.Cursors.{PollState}
use journarr.Poll.Emit.{Emitter, Deliveries, arrived, emit_event-Deliveries}
use journarr.Poll.Jellyfin.{
  JellyItem, Jellyfin, Clock, JellyPass, jellyfin_key, is_available_item, emit_available,
  emit_movie, provider_id, series_tvdb, emit_episodes, episode_count, emit_file, observe_episode,
  observe_item, newer, is_past, parse_jellyfin_time, scan_items, scan_pages, jellyfin_page_size,
  jellyfin_max_pages, jellyfin_overlap, finish_pass, start_pass, jellyfin_since, jellyfin_pass,
}

abbrev Logged : Db → Bool × JellyPass → Type 0
Logged a r = Deliveries a r.1.log.db

pub emit_available-Deliveries :
    {a : Db} (id : ℕ) (jelly_id : Text) (s : Emitter)
    → Deliveries a s.db
    → Deliveries a (emit_available id jelly_id s).db
unfolding emit_available
emit_available-Deliveries {a} id jelly_id s d =
    let Delivered = λ (x : Emitter). Deliveries a x.db in
    maybe_case Delivered (get_media_item id s.db) d λ m _.
      if_case Delivered (is_available_item m) (λ _. d)
        (λ _. emit_event-Deliveries (jellyfin_key m) _ s d)

emit_movie-Deliveries :
    {a : Db} (it : JellyItem) (s : Emitter) → Deliveries a s.db → Deliveries a (emit_movie it s).db
unfolding emit_movie
emit_movie-Deliveries {a} it s d =
    let Delivered = λ (x : Emitter). Deliveries a x.db in
    let tmdb = provider_id it.provider_ids (text "Tmdb") in
    if_case Delivered (tmdb == 0) (λ _. d)
      (λ _.
        maybe_case Delivered (find_movie_item_by_tmdb tmdb s.db) d
          λ m _. emit_available-Deliveries m.id it.id s d)

emit_episodes-Deliveries :
    {a : Db} (tvdb season ep n : ℕ) (jelly_id : Text) (s : Emitter)
    → Deliveries a s.db
    → Deliveries a (emit_episodes tvdb season ep n jelly_id s).db
unfolding emit_episodes
emit_episodes-Deliveries tvdb season ep zero jelly_id s d = d
emit_episodes-Deliveries {a} tvdb season ep (suc n) jelly_id s d =
    emit_episodes-Deliveries tvdb season (ep + 1) n jelly_id _ (
      maybe_case (λ (x : Emitter). Deliveries a x.db)
        (find_episode_item_by_tvdb tvdb season ep s.db) d
        λ m _. emit_available-Deliveries m.id jelly_id s d)

-- A lookup of a series leaves the log alone.
pub series_tvdb-log :
    (jelly : Jellyfin) (id : Text) (p : JellyPass) → (series_tvdb jelly id p).1.log ≡ p.log
unfolding series_tvdb
series_tvdb-log jelly id p =
    let Same = λ (r : Option ℕ × JellyPass). r.1.log ≡ p.log in
    maybe_case Same (first (λ (e : Text × ℕ). text_eq e.0 id) p.series)
      (maybe_case Same (jelly.series_tvdb_id p.lookups id) refl λ v _. refl) λ e _. refl

emit_file-Deliveries :
    {a : Db} (jelly : Jellyfin) (it : JellyItem) (season ep : ℕ) (p : JellyPass)
    → Deliveries a p.log.db
    → Deliveries a (emit_file jelly it season ep p).log.db
unfolding emit_file
emit_file-Deliveries {a} jelly it season ep p d =
    let Delivered = λ (x : JellyPass). Deliveries a x.log.db in
    let q = (series_tvdb jelly it.series_id p).1 in
    let dq : Deliveries a q.log.db =
      subst (λ (s : Emitter). Deliveries a s.db) (sym (series_tvdb-log jelly it.series_id p)) d in
    maybe_case Delivered (series_tvdb jelly it.series_id p).0 dq λ tvdb _.
      if_case Delivered (tvdb == 0) (λ _. dq)
        (λ _.
          emit_episodes-Deliveries tvdb season ep (episode_count ep it.index_end) it.id q.log dq)

pub observe_item-Deliveries :
    {a : Db} (jelly : Jellyfin) (it : JellyItem) (p : JellyPass)
    → Deliveries a p.log.db
    → Deliveries a (observe_item jelly it p).log.db
unfolding observe_item observe_episode
observe_item-Deliveries {a} jelly it p d =
    let Delivered = λ (x : JellyPass). Deliveries a x.log.db in
    if_case Delivered (text_eq it.type (text "Movie")) (λ _. emit_movie-Deliveries it p.log d)
      (λ _.
        if_case Delivered (text_eq it.type (text "Episode"))
          (λ _. maybe_case Delivered it.parent_index d λ season _.
            maybe_case Delivered it.index d λ ep _.
              if_case Delivered (is_empty it.series_id) (λ _. d)
                (λ _. emit_file-Deliveries jelly it season ep p d))
          (λ _. d))

pub scan_items-Deliveries :
    {a : Db} (clock : Clock) (jelly : Jellyfin) (floor : Option ℕ) (its : List JellyItem)
    (p : JellyPass)
    → Deliveries a p.log.db
    → Deliveries a (scan_items clock jelly floor its p).1.log.db
unfolding scan_items
scan_items-Deliveries clock jelly floor [] p d = d
scan_items-Deliveries {a} clock jelly floor (it ∷ its) p d =
    let created = parse_jellyfin_time clock it.date_created in
    let q : JellyPass = record p { newest = newer created p.newest } in
    if_case (Logged a) (is_past floor created) (λ _. d)
      (λ _.
        scan_items-Deliveries clock jelly floor its (observe_item jelly it q)
          (observe_item-Deliveries jelly it q d))

pub scan_pages-Deliveries :
    {a : Db} (clock : Clock) (jelly : Jellyfin) (floor : Option ℕ) (page budget : ℕ) (p : JellyPass)
    → Deliveries a p.log.db
    → Deliveries a (scan_pages clock jelly floor page budget p).1.log.db
unfolding scan_pages
scan_pages-Deliveries clock jelly floor page zero p d = d
scan_pages-Deliveries {a} clock jelly floor page (suc budget) p d =
    maybe_case (Logged a)
      (jelly.items_by_date_created (page * jellyfin_page_size) jellyfin_page_size) d
      λ items _.
        let (stopped, q) = scan_items clock jelly floor items p in
        let dq = scan_items-Deliveries clock jelly floor items p d in
        if_case (Logged a) (stopped || ltb (length items) jellyfin_page_size) (λ _. dq)
          (λ _. scan_pages-Deliveries clock jelly floor (page + 1) budget q dq)

pub finish_pass-db :
    (clock : Clock) (since : ℕ) (r : Bool × JellyPass) (s : PollState × Emitter)
    → (finish_pass clock since r s).1.db ≡ r.1.log.db
finish_pass-db clock since (true, p) s = refl
finish_pass-db clock since (false, p) s = refl

pub jellyfin_pass-Deliveries :
    (clock : Clock) (jelly : Jellyfin) (s : PollState × Emitter)
    → Deliveries s.1.db (jellyfin_pass clock jelly s).1.db
unfolding jellyfin_pass
jellyfin_pass-Deliveries clock jelly s =
    let cursor = jellyfin_since clock s.0 in
    let since = from_option 0 cursor in
    let r =
      scan_pages clock jelly (map_option (λ t. t - jellyfin_overlap) cursor) 0
        (if is_some cursor then jellyfin_max_pages else 1) (start_pass since s.1) in
    subst (Deliveries s.1.db) (sym (finish_pass-db clock since r s)) (
      scan_pages-Deliveries clock jelly (map_option (λ t. t - jellyfin_overlap) cursor) 0
        (if is_some cursor then jellyfin_max_pages else 1) (start_pass since s.1) arrived)
