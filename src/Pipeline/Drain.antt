-- ===== src/Pipeline/Drain.antt =====
-- backend/internal/pipeline/projector.go and fanout.go: the passes of the projector's one goroutine.
-- `range` and `order` are the orders in which Go iterates maps. A panic of a handler does not occur.
use journarr.Base.{
  ℕ, zero, suc, ◌+◌, Option, List, [], ◌∷◌, ◌++◌, ◌==◌, ltb, if◌then◌else◌, maybe, exists, length,
}
use journarr.Pipeline.Ops.{
  Op, seerr_op, grab_op, import_op, failure_op, job_transition_op, transcode_op, available_op,
  notified_op, unreadable, unhandled,
}
use journarr.Store.Stages.{ignored}
use journarr.Store.Rows.{Event, Request}
use journarr.Store.Events.{fetch_unprocessed, mark_processed}
use journarr.Store.Requests.{recompute_request_status, active_tv_requests_without_items}
use journarr.Pipeline.Projector.{
  Projector, FanoutRetry, Outcome, outcome, set_db, publish, request_updated,
}
use journarr.Pipeline.Seasons.{parse_seasons}
use journarr.Pipeline.Fanout.{Sonarr, fanout_tv, retry_delay, sweep_interval, max_attempts}
use journarr.Pipeline.Seerr.{apply_seerr}
use journarr.Pipeline.Grabs.{ItemMap, apply_grab}
use journarr.Pipeline.Imports.{apply_import, apply_failure}
use journarr.Pipeline.Arrarr.{apply_job_transition}
use journarr.Pipeline.Tdarr.{apply_transcode}
use journarr.Pipeline.Notices.{apply_available, apply_notified}

abbrev pub batch_size : ℕ
batch_size = 100

-- One touched request: its status is derived anew and published.
unfoldable pub flush_request : ℕ → Projector → Projector
flush_request id p =
    let r = recompute_request_status id p.db in
    maybe r.0 p λ status. publish (request_updated id status) (set_db r.1 p)

unfoldable pub flush_requests : List ℕ → Projector → Projector
unfolding flush_request
flush_requests [] p = p
flush_requests (id ∷ ids) p = flush_requests ids (flush_request id p)

-- The due retries and those that stay queued, in one pass over the queue.
unfoldable pub take_due : ℕ → List FanoutRetry → List FanoutRetry × List FanoutRetry
take_due now [] = ([], [])
take_due now (r ∷ rs) =
    let rest = take_due now rs in
    let again = record r { attempts = r.attempts + 1; next_at = now + retry_delay } in
    if ltb max_attempts r.attempts
    then rest
    else if ltb r.next_at now
    then (again ∷ rest.0, again ∷ rest.1)
    else (rest.0, r ∷ rest.1)

-- The requests of the sweep that are not due already.
unfoldable pub add_swept : List Request → List FanoutRetry → List FanoutRetry
add_swept [] due = due
add_swept (r ∷ rs) due = add_swept rs (
    if exists (λ (q : FanoutRetry). q.request_id == r.id) due
    then due
    else maybe r.tvdb_id due λ tvdb.
      due
      ++ record {
        request_id = r.id;
        tvdb_id = tvdb;
        seasons = parse_seasons r.seasons;
        attempts = 0;
        next_at = 0;
      }
        ∷ [])

module _ (range : ItemMap → ItemMap) (order : List ℕ → List ℕ) (sonarr : Option Sonarr) where
  -- flushTouched.
  unfoldable pub flush_touched : Projector → Projector
  unfolding flush_requests
  flush_touched p = record (flush_requests (order p.touched) p) { touched = [] }

  -- handle.
  unfoldable pub handle : ℕ → Op → Projector → Outcome × Projector
  handle event (seerr_op op) p = apply_seerr sonarr event op p
  handle event (grab_op op) p = apply_grab range event op p
  handle event (import_op op) p = apply_import range event op p
  handle event (failure_op op) p = apply_failure range event op p
  handle event (job_transition_op op) p = apply_job_transition event op p
  handle event (transcode_op op) p = apply_transcode event op p
  handle event (available_op op) p = apply_available event op p
  handle event (notified_op op) p = apply_notified event op p
  handle event unreadable p = (outcome ignored 0 0 0, p)
  handle event unhandled p = (outcome ignored 0 0 0, p)

  -- One event of a batch, handled and marked.
  unfoldable pub process_event : Event → Projector → Projector
  process_event e p =
      let (o, q) = handle e.id e.payload p in
      set_db (mark_processed e.id o.match o.request_id o.item_id o.download_id q.db) q

  unfoldable pub process_events : List Event → Projector → Projector
  process_events [] p = p
  process_events (e ∷ es) p = process_events es (process_event e p)

  -- The loop of drain: batches of 100 until one is not full.
  unfoldable pub drain_loop : ℕ → Projector → Projector
  drain_loop zero p = p
  drain_loop (suc fuel) p =
      let batch = fetch_unprocessed batch_size p.db in
      let q = process_events batch p in
      let rest = drain_loop fuel q in if ltb (length batch) batch_size then q else rest

  -- drain; a batch marks at least one event, so the number of events is fuel enough.
  unfoldable pub drain : Projector → Projector
  drain p = flush_touched (drain_loop (suc (length p.db.events)) (record p { touched = [] }))

  unfoldable pub drive_fanouts : List FanoutRetry → Projector → Projector
  drive_fanouts [] p = p
  drive_fanouts (r ∷ rs) p = drive_fanouts rs (
      flush_touched
        (fanout_tv sonarr r.request_id r.tvdb_id r.seasons 0 (record p { touched = [] })))

  -- retryFanouts; `shuffle` is the order in which the map of the due fan-outs is iterated.
  unfoldable pub retry_fanouts : (List FanoutRetry → List FanoutRetry) → Projector → Projector
  unfolding take_due add_swept drive_fanouts
  retry_fanouts shuffle p =
      let now = p.db.now in
      let (due, kept) = take_due now p.retries in
      if ltb p.next_sweep now
      then drive_fanouts (shuffle (add_swept (active_tv_requests_without_items p.db) due))
          (record p { retries = kept; next_sweep = now + sweep_interval })
      else drive_fanouts (shuffle due) (record p { retries = kept })
