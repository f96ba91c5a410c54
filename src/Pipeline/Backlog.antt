-- ===== src/Pipeline/Backlog.antt =====
-- The passes of the projector (backend/internal/pipeline/projector.go): a drain leaves no event
-- behind.
use journarr.Base.{
  ℕ, zero, suc, ◌<◌, ◌≡◌, refl, ap, ◌∙◌, ◌≢◌, Bool, true, not, ◌&&◌, Option, List, [], ◌∷◌, arith,
  ltb, ◌==◌, if_case, length, take, select, exists, All, All-map, select-update, select-ext,
  select-and, length-select-le, take-all,
}
use journarr.Store.Rows.{Db, Event}
use journarr.Store.Stages.{Match}
use journarr.Store.Events.{is_unprocessed, fetch_unprocessed, mark_processed, processed_row}
use journarr.Store.Writes.Progress.{Writes-Advances}
use journarr.Pipeline.Projector.{Projector}
use journarr.Pipeline.Fanout.{Sonarr}
use journarr.Pipeline.Grabs.{ItemMap}
use journarr.Pipeline.Drain.{handle, process_event, process_events, drain_loop, drain, batch_size}
use journarr.Pipeline.Writes.Passes.{flush_touched-Runs, handle-Runs}

-- The unprocessed events outside of a batch.
abbrev is_in : List Event → Event → Bool
is_in batch e = exists (λ (b : Event). b.id == e.id) batch

abbrev unprocessed_outside : List Event → List Event → List Event
unprocessed_outside batch es = select (λ e. is_unprocessed e && not (is_in batch e)) es

mark_processed-select :
    (id : ℕ) (m : Match) (r i d : ℕ) (batch : List Event) (db : Db)
    → unprocessed_outside batch (mark_processed id m r i d db).events
      ≡ select (λ e. (is_unprocessed e && not (is_in batch e)) && not (e.id == id)) db.events
unfolding mark_processed processed_row
mark_processed-select id m r i d batch db =
    select-update (λ e. is_unprocessed e && not (is_in batch e)) (λ e. e.id == id)
      (processed_row db.now m r i d) db.events (λ e. refl)

is_in-next :
    (b : Event) (batch : List Event) (e : Event)
    → ((is_unprocessed e && not (is_in batch e)) && not (e.id == b.id))
      ≡ (is_unprocessed e && not (is_in (b ∷ batch) e))
is_in-next b batch e = ground arith

outside_itself :
    (batch xs : List Event)
    → All (λ e. is_in batch e ≡ true) xs
    → select (λ e. not (is_in batch e)) xs ≡ []
outside_itself batch [] h = refl
outside_itself batch (x ∷ xs) h = rw h.0 (outside_itself batch xs h.1)

itself_in : (xs : List Event) → All (λ e. is_in xs e ≡ true) xs
itself_in [] = tt
itself_in (x ∷ xs) = (
  ground arith,
  All-map (λ e. is_in xs e ≡ true) (λ e. is_in (x ∷ xs) e ≡ true) (λ e h. ground arith) xs
      (itself_in xs),
)

outside_batch :
    (n : ℕ) (us : List Event)
    → length (take (suc n) us) ≢ 0
    → length (select (λ e. not (is_in (take (suc n) us) e)) us) < length us
outside_batch n [] h = absurd (h refl)
outside_batch n (x ∷ us) h =
    let few = length-select-le (λ e. not (is_in (x ∷ take n us) e)) us in
    let in_batch : is_in (x ∷ take n us) x ≡ true = ground arith in rw in_batch (omega arith)

module _ (range : ItemMap → ItemMap) (order : List ℕ → List ℕ) (sonarr : Option Sonarr) where
  process_event-rest :
      (batch : List Event) (e : Event) (p : Projector)
      → unprocessed_outside batch (process_event range order sonarr e p).db.events
        ≡ unprocessed_outside (e ∷ batch) p.db.events
  unfolding process_event
  process_event-rest batch e p =
      let (o, q) = handle range order sonarr e.id e.payload p in
      let stays = (Writes-Advances (handle-Runs range order sonarr e.id e.payload p)).events in
      mark_processed-select e.id o.match o.request_id o.item_id o.download_id batch q.db
      ∙ ap (select _) stays
      ∙ select-ext _ (λ x. is_unprocessed x && not (is_in (e ∷ batch) x)) p.db.events
          (λ x. is_in-next e batch x)

  process_events-rest :
      (es : List Event) (p : Projector)
      → select is_unprocessed (process_events range order sonarr es p).db.events
        ≡ unprocessed_outside es p.db.events
  unfolding process_events
  process_events-rest [] p = select-ext _ _ p.db.events (λ e. ground arith)
  process_events-rest (e ∷ es) p =
      process_events-rest es (process_event range order sonarr e p) ∙ process_event-rest es e p

  -- A batch that is not full holds every unprocessed event.
  last_batch :
      (p : Projector)
      → length (fetch_unprocessed batch_size p.db) < batch_size
      → select is_unprocessed
          (process_events range order sonarr (fetch_unprocessed batch_size p.db) p).db.events
        ≡ []
  unfolding fetch_unprocessed
  last_batch p h =
      let us = select is_unprocessed p.db.events in
      process_events-rest (take batch_size us) p
      ∙ select-and is_unprocessed (λ e. not (is_in (take batch_size us) e)) p.db.events
      ∙ rw (take-all batch_size us h) (outside_itself us us (itself_in us))

  -- A batch that is full leaves fewer.
  full_batch :
      (p : Projector)
      → length (fetch_unprocessed batch_size p.db) ≢ 0
      → length (
          select is_unprocessed
            (process_events range order sonarr (fetch_unprocessed batch_size p.db) p).db.events)
        < length (select is_unprocessed p.db.events)
  unfolding fetch_unprocessed
  full_batch p h =
      let us = select is_unprocessed p.db.events in
      rw
        (process_events-rest (take batch_size us) p
          ∙ select-and is_unprocessed (λ e. not (is_in (take batch_size us) e)) p.db.events)
        (outside_batch 99 us h)

  -- Fuel that exceeds the number of unprocessed events is enough.
  drain_loop-rest :
      (fuel : ℕ) (p : Projector)
      → length (select is_unprocessed p.db.events) < fuel
      → select is_unprocessed (drain_loop range order sonarr fuel p).db.events ≡ []
  unfolding drain_loop
  drain_loop-rest zero p h = absurd (omega arith)
  drain_loop-rest (suc fuel) p h =
      let batch = fetch_unprocessed batch_size p.db in
      let q = process_events range order sonarr batch p in
      if_case (λ (q : Projector). select is_unprocessed q.db.events ≡ [])
        (ltb (length batch) batch_size) (λ e. last_batch p (ground arith))
        (λ e. let fewer = full_batch p (λ z. ground arith) in drain_loop-rest fuel q (omega arith))

  -- After a drain no event is unprocessed, whatever the events, the handlers' outcomes and the orders of
  -- the maps.
  pub drain-rest :
      (p : Projector) → select is_unprocessed (drain range order sonarr p).db.events ≡ []
  unfolding drain
  drain-rest p =
      let fuel = suc (length p.db.events) in
      let q = drain_loop range order sonarr fuel (record p { touched = [] }) in
      let few = length-select-le is_unprocessed p.db.events in
      let stays = (Writes-Advances (flush_touched-Runs range order sonarr q)).events in
      ap (select is_unprocessed) stays
      ∙ drain_loop-rest fuel (record p { touched = [] }) (omega arith)
