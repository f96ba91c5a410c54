-- ===== src/Pipeline/Writes/Passes.antt =====
-- The statements of a handled event, of the derivation of statuses, and of the retries.
use journarr.Base.{ℕ, ◌+◌, Option, List, [], ◌∷◌, ltb, maybe_case, if_case}
use journarr.Pipeline.Ops.{
  Op, seerr_op, grab_op, import_op, failure_op, job_transition_op, transcode_op, available_op,
  notified_op, unreadable, unhandled,
}
use journarr.Store.Requests.{recompute_request_status, active_tv_requests_without_items}
use journarr.Store.Writes.{done, append}
use journarr.Store.Writes.Statements.{of_Elsewhere, recompute_request_status-Elsewhere}
use journarr.Pipeline.Projector.{Projector, FanoutRetry}
use journarr.Pipeline.Fanout.{Sonarr, fanout_tv, sweep_interval}
use journarr.Pipeline.Grabs.{ItemMap}
use journarr.Pipeline.Drain.{
  flush_request, flush_requests, flush_touched, handle, take_due, add_swept, drive_fanouts,
  retry_fanouts,
}
use journarr.Pipeline.Writes.Stages.{
  Runs, apply_transcode-Runs, apply_available-Runs, apply_notified-Runs,
}
use journarr.Pipeline.Writes.Requests.{apply_seerr-Runs, fanout_tv-Runs}
use journarr.Pipeline.Writes.Downloads.{apply_grab-Runs, apply_import-Runs}
use journarr.Pipeline.Writes.Failures.{apply_failure-Runs, apply_job_transition-Runs}

flush_requests-Runs : (ids : List ℕ) (p : Projector) → Runs p (flush_requests ids p)
unfolding flush_requests flush_request
flush_requests-Runs [] p = done
flush_requests-Runs (id ∷ ids) p =
    append
      (maybe_case (λ q. Runs p q) (recompute_request_status id p.db).0 done
        (λ status _. of_Elsewhere (recompute_request_status-Elsewhere id p.db)))
      (flush_requests-Runs ids (flush_request id p))

module _ (range : ItemMap → ItemMap) (order : List ℕ → List ℕ) (sonarr : Option Sonarr) where
  pub flush_touched-Runs : (p : Projector) → Runs p (flush_touched range order sonarr p)
  unfolding flush_touched
  flush_touched-Runs p = flush_requests-Runs (order p.touched) p

  -- Every event, of any kind and with any payload.
  pub handle-Runs :
      (event : ℕ) (op : Op) (p : Projector) → Runs p (handle range order sonarr event op p).1
  unfolding handle
  handle-Runs event (seerr_op op) p = apply_seerr-Runs sonarr event op p
  handle-Runs event (grab_op op) p = apply_grab-Runs range event op p
  handle-Runs event (import_op op) p = apply_import-Runs range event op p
  handle-Runs event (failure_op op) p = apply_failure-Runs range event op p
  handle-Runs event (job_transition_op op) p = apply_job_transition-Runs event op p
  handle-Runs event (transcode_op op) p = apply_transcode-Runs event op p
  handle-Runs event (available_op op) p = apply_available-Runs event op p
  handle-Runs event (notified_op op) p = apply_notified-Runs event op p
  handle-Runs event unreadable p = done
  handle-Runs event unhandled p = done

  drive_fanouts-Runs :
      (rs : List FanoutRetry) (p : Projector) → Runs p (drive_fanouts range order sonarr rs p)
  unfolding drive_fanouts
  drive_fanouts-Runs [] p = done
  drive_fanouts-Runs (r ∷ rs) p =
      let q = fanout_tv sonarr r.request_id r.tvdb_id r.seasons 0 (record p { touched = [] }) in
      append (fanout_tv-Runs sonarr r.request_id r.tvdb_id r.seasons 0 (record p { touched = [] }))
        (append (flush_touched-Runs q) (drive_fanouts-Runs rs (flush_touched range order sonarr q)))

  pub retry_fanouts-Runs :
      (shuffle : List FanoutRetry → List FanoutRetry) (p : Projector)
      → Runs p (retry_fanouts range order sonarr shuffle p)
  unfolding retry_fanouts
  retry_fanouts-Runs shuffle p =
      let d = take_due p.db.now p.retries in
      let q = record p { retries = d.1; next_sweep = p.db.now + sweep_interval } in
      let swept = add_swept (active_tv_requests_without_items p.db) d.0 in
      if_case (λ q. Runs p q) (ltb p.next_sweep p.db.now)
        (λ _. drive_fanouts-Runs (shuffle swept) q)
        (λ _. drive_fanouts-Runs (shuffle d.0) (record p { retries = d.1 }))
