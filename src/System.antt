-- ===== src/System.antt =====
-- The projector (backend/internal/pipeline/projector.go) together with what else writes to the
-- database: deliveries of events (backend/internal/store/events.go), the passes of the pollers
-- (backend/internal/poll), and the interventions Retry, Cancel and ResendNotify
-- (backend/internal/actions/actions.go), which other goroutines run between its passes.
use journarr.Base.{ℕ, ◌+◌, false, Option, List, Text}
use journarr.Pipeline.Ops.{Arr, Op}
use journarr.Store.Rows.{Db}
use journarr.Store.Events.{insert_event}
use journarr.Store.Writes.{Writes}
use journarr.Store.Writes.Sound.{
  IsSound, Persists, Writes-IsSound, Writes-Persists, Persists-refl, Persists-trans,
  insert_event-IsSound, insert_event-Persists, waited-IsSound, waited-Persists,
}
use journarr.Pipeline.Projector.{Projector, FanoutRetry, set_db}
use journarr.Pipeline.Fanout.{Sonarr}
use journarr.Pipeline.Grabs.{ItemMap}
use journarr.Pipeline.Drain.{drain, retry_fanouts}
use journarr.Pipeline.Passes.{Keeps, Keeps-trans, drain-Keeps, retry_fanouts-Keeps}
use journarr.Actions.Clients.{Clients, Call}
use journarr.Actions.Retry.{retry}
use journarr.Actions.Cancel.{cancel}
use journarr.Actions.Resend.{resend_notify}
use journarr.Actions.Resend.Written.{resend_notify-Writes}
use journarr.Actions.Writes.{retry-Writes, cancel-Writes}
use journarr.Poll.Cursors.{PollState}
use journarr.Poll.Emit.{Deliveries, arrived, then_event}
use journarr.Poll.History.{Round, pass}
use journarr.Poll.SeerrRequests.{TitleLookup, SeerrRequest, seerr_pass}
use journarr.Poll.Presence.{Library, presence_pass}
use journarr.Poll.Jellyfin.{Clock, Jellyfin, jellyfin_pass}
use journarr.Poll.Jellyfin.Delivered.{jellyfin_pass-Deliveries}
use journarr.Poll.Release
use journarr.Poll.Release.{Lookup}
use journarr.Poll.TvWaiting.{AiringLookup, tv_waiting_pass}
use journarr.Poll.ArrQueue.{QueueRecord, queue_pass}
use journarr.Poll.Deliveries.{
  history_pass-Deliveries, seerr_pass-Deliveries, presence_pass-Deliveries,
}
use journarr.Poll.Writes.{release_pass-Writes, tv_waiting_pass-Writes, queue_pass-Writes}

of_Writes : {p : Projector} {db : Db} → Writes p.db db → Keeps p (set_db db p)
of_Writes w = record { sound = Writes-IsSound w; persists = Writes-Persists w }

Delivered-IsSound : {a b : Db} → Deliveries a b → IsSound a → IsSound b
Delivered-IsSound arrived s = s
Delivered-IsSound (then_event {b} d key op) s =
    insert_event-IsSound key op b (Delivered-IsSound d s)

Delivered-Persists : {a b : Db} → Deliveries a b → Persists a b
Delivered-Persists {a} arrived = Persists-refl a
Delivered-Persists (then_event {b} d key op) =
    Persists-trans (Delivered-Persists d) (insert_event-Persists key op b)

of_Deliveries : {p : Projector} {db : Db} → Deliveries p.db db → Keeps p (set_db db p)
of_Deliveries d = record { sound = Delivered-IsSound d; persists = Delivered-Persists d }

module _ (range : ItemMap → ItemMap) (order : List ℕ → List ℕ) (sonarr : Option Sonarr) where
  -- What happens between two looks at the projector: one of its passes, a delivery, time,
  -- or an intervention.
  pub data Step : Projector → Projector → Type 0 where
    drains : (p : Projector) → Step p (drain range order sonarr p)
    retries :
        (shuffle : List FanoutRetry → List FanoutRetry) (p : Projector)
        → Step p (retry_fanouts range order sonarr shuffle p)
    delivers :
        (key : Text) (payload : Op) (p : Projector)
        → Step p (set_db (insert_event key payload p.db).1 p)
    waits : (n : ℕ) (p : Projector) → Step p (set_db (record p.db { now = p.db.now + n }) p)
    repeats :
        (c : Clients) (item : ℕ) (calls : List Call) (p : Projector)
        → Step p (set_db (retry range c item (record { db = p.db; calls = calls })).1.db p)
    cancels :
        (c : Clients) (request : ℕ) (calls : List Call) (p : Projector)
        → Step p (set_db (cancel c request (record { db = p.db; calls = calls })).1.db p)
    resends : (request : ℕ) (p : Projector) → Step p (set_db (resend_notify request p.db).1 p)
    polls_history :
        (arr : Arr) (round : Round) (cursors : PollState) (p : Projector)
        → Step p
            (set_db (pass arr round (record { db = p.db; cursors = cursors; woken = false })).db p)
    polls_requests :
        (titles : TitleLookup) (answer : Option (List SeerrRequest)) (cursors : PollState)
        (p : Projector)
        → Step p (
            set_db (seerr_pass titles answer (cursors, record { db = p.db; woken = false })).1.db p)
    polls_presence :
        (lib : Library) (p : Projector)
        → Step p (set_db (presence_pass order lib (record { db = p.db; woken = false })).db p)
    polls_releases :
        (lookup : Lookup) (p : Projector) → Step p (set_db (Release.pass lookup p.db).db p)
    polls_airings :
        (lookup : AiringLookup) (p : Projector) → Step p (set_db (tv_waiting_pass lookup p.db).db p)
    polls_jellyfin :
        (clock : Clock) (jelly : Jellyfin) (cursors : PollState) (p : Projector)
        → Step p (
            set_db
              (jellyfin_pass clock jelly (cursors, record { db = p.db; woken = false })).1.db
              p)
    polls_queues :
        (queues : List (List QueueRecord)) (p : Projector)
        → Step p (set_db (queue_pass queues p.db).db p)

  pub data Reaches (p : Projector) : Projector → Type 0 where
    here : Reaches p p
    then_step : {q r : Projector} → Reaches p q → Step q r → Reaches p r

  Step-Keeps : (p q : Projector) → Step p q → Keeps p q
  Step-Keeps _ _ (drains p) = drain-Keeps range order sonarr p
  Step-Keeps _ _ (retries shuffle p) = retry_fanouts-Keeps range order sonarr shuffle p
  Step-Keeps _ _ (delivers key payload p) = record {
    sound = insert_event-IsSound key payload p.db;
    persists = insert_event-Persists key payload p.db;
  }
  Step-Keeps _ _ (waits n p) = record {
    sound = waited-IsSound n p.db;
    persists = waited-Persists n p.db;
  }
  Step-Keeps _ _ (repeats c item calls p) =
      of_Writes (retry-Writes range c item (record { db = p.db; calls = calls }))
  Step-Keeps _ _ (cancels c request calls p) =
      of_Writes (cancel-Writes c request (record { db = p.db; calls = calls }))
  Step-Keeps _ _ (resends request p) = of_Writes (resend_notify-Writes request p.db)
  Step-Keeps _ _ (polls_history arr round cursors p) =
      of_Deliveries
        (history_pass-Deliveries arr round (record { db = p.db; cursors = cursors; woken = false }))
  Step-Keeps _ _ (polls_requests titles answer cursors p) =
      of_Deliveries
        (seerr_pass-Deliveries titles answer (cursors, record { db = p.db; woken = false }))
  Step-Keeps _ _ (polls_presence lib p) =
      of_Deliveries (presence_pass-Deliveries order lib (record { db = p.db; woken = false }))
  Step-Keeps _ _ (polls_releases lookup p) = of_Writes (release_pass-Writes lookup p.db)
  Step-Keeps _ _ (polls_airings lookup p) = of_Writes (tv_waiting_pass-Writes lookup p.db)
  Step-Keeps _ _ (polls_jellyfin clock jelly cursors p) =
      of_Deliveries
        (jellyfin_pass-Deliveries clock jelly (cursors, record { db = p.db; woken = false }))
  Step-Keeps _ _ (polls_queues queues p) = of_Writes (queue_pass-Writes queues p.db)

  Reaches-Keeps : {p q : Projector} → Reaches p q → Keeps p q
  Reaches-Keeps {p} here = record { sound = λ h. h; persists = Persists-refl p.db }
  Reaches-Keeps {p} {q = r} (then_step {q = q} run step) =
      Keeps-trans (Reaches-Keeps run) (Step-Keeps q r step)

  -- Whatever is delivered and in whichever order the passes, the pollers and the interventions run, a
  -- sound database stays sound: no transition is ahead of its item's pointer, and the keys and
  -- references of items, transitions and links hold.
  pub Reaches-IsSound : (p q : Projector) → Reaches p q → IsSound p.db → IsSound q.db
  Reaches-IsSound p q run = (Reaches-Keeps run).sound

  -- Whatever is delivered and in whichever order the passes, the pollers and the interventions run,
  -- every item that was there is there, of the same request, season and episode, at the same place of
  -- its pipeline or further on, and no transition, link, request or download is lost.
  pub Reaches-Persists : (p q : Projector) → Reaches p q → Persists p.db q.db
  Reaches-Persists p q run = (Reaches-Keeps run).persists
