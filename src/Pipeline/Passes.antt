-- ===== src/Pipeline/Passes.antt =====
-- The passes of the projector (backend/internal/pipeline/projector.go): what each of them keeps.
use journarr.Base.{ℕ, zero, suc, Option, List, [], ◌∷◌, ltb, if_case, length}
use journarr.Store.Rows.{Event}
use journarr.Store.Events.{fetch_unprocessed}
use journarr.Store.Writes.Sound.{
  IsSound, Persists, Writes-IsSound, Writes-Persists, Persists-refl, Persists-trans,
  mark_processed-Persists, mark_processed-IsSound,
}
use journarr.Pipeline.Projector.{Projector, FanoutRetry}
use journarr.Pipeline.Fanout.{Sonarr}
use journarr.Pipeline.Grabs.{ItemMap}
use journarr.Pipeline.Drain.{
  flush_touched, process_event, process_events, drain_loop, drain, retry_fanouts, batch_size,
}
use journarr.Pipeline.Writes.Passes.{flush_touched-Runs, handle-Runs, retry_fanouts-Runs}

-- A pass keeps the database sound and takes nothing back.
pub record Keeps (p q : Projector) : Type 0 where
  pub sound : IsSound p.db → IsSound q.db
  pub persists : Persists p.db q.db

pub Keeps-trans : {p q r : Projector} → Keeps p q → Keeps q r → Keeps p r
Keeps-trans k l = record {
  sound = λ h. l.sound (k.sound h);
  persists = Persists-trans k.persists l.persists;
}

module _ (range : ItemMap → ItemMap) (order : List ℕ → List ℕ) (sonarr : Option Sonarr) where
  flush_touched-Keeps : (p : Projector) → Keeps p (flush_touched range order sonarr p)
  flush_touched-Keeps p = record {
    sound = Writes-IsSound (flush_touched-Runs range order sonarr p);
    persists = Writes-Persists (flush_touched-Runs range order sonarr p);
  }

  process_event-Keeps : (e : Event) (p : Projector) → Keeps p (process_event range order sonarr e p)
  unfolding process_event
  process_event-Keeps e p =
      let w = handle-Runs range order sonarr e.id e.payload p in
      record {
        sound = λ h. mark_processed-IsSound _ _ _ _ _ _ (Writes-IsSound w h);
        persists = Persists-trans (Writes-Persists w) (mark_processed-Persists _ _ _ _ _ _);
      }

  process_events-Keeps :
      (es : List Event) (p : Projector) → Keeps p (process_events range order sonarr es p)
  unfolding process_events
  process_events-Keeps [] p = record { sound = λ h. h; persists = Persists-refl p.db }
  process_events-Keeps (e ∷ es) p =
      Keeps-trans (process_event-Keeps e p)
        (process_events-Keeps es (process_event range order sonarr e p))

  drain_loop-Keeps : (fuel : ℕ) (p : Projector) → Keeps p (drain_loop range order sonarr fuel p)
  unfolding drain_loop
  drain_loop-Keeps zero p = record { sound = λ h. h; persists = Persists-refl p.db }
  drain_loop-Keeps (suc fuel) p =
      let batch = fetch_unprocessed batch_size p.db in
      let q = process_events range order sonarr batch p in
      if_case (Keeps p) (ltb (length batch) batch_size) (λ _. process_events-Keeps batch p)
        (λ _. Keeps-trans (process_events-Keeps batch p) (drain_loop-Keeps fuel q))

  pub drain-Keeps : (p : Projector) → Keeps p (drain range order sonarr p)
  unfolding drain
  drain-Keeps p =
      let start = record p { touched = [] } in
      let k = drain_loop-Keeps (suc (length p.db.events)) start in
      let l =
        flush_touched-Keeps (drain_loop range order sonarr (suc (length p.db.events)) start) in
      record { sound = λ h. l.sound (k.sound h); persists = Persists-trans k.persists l.persists }

  pub retry_fanouts-Keeps :
      (shuffle : List FanoutRetry → List FanoutRetry) (p : Projector)
      → Keeps p (retry_fanouts range order sonarr shuffle p)
  retry_fanouts-Keeps shuffle p = record {
    sound = Writes-IsSound (retry_fanouts-Runs range order sonarr shuffle p);
    persists = Writes-Persists (retry_fanouts-Runs range order sonarr shuffle p);
  }
