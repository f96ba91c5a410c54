-- ===== src/Actions/Remove/Cascade.antt =====
-- When a removal of backend/internal/actions/remove.go succeeds, and what it leaves in the database.
use journarr.Base.{
  ℕ, ◌≡◌, refl, sym, ap, ◌∙◌, subst, inl, inr, Bool, true, false, not, ◌&&◌, ◌||◌, Option, none,
  some, List, [], ◌∷◌, ltb, ◌==◌, if◌then◌else◌, Bool-cases, is_some, if_case, is_empty,
}
use journarr.Store.Rows.{Db}
use journarr.Store.Removal.{purge_requests}
use journarr.Actions.RemovalPlan.{
  Systems, RemovalPlan, RemovalError, being_watched, downloads_failed, deletion_failed, Result, ok,
  client_for, is_configured, plan_removal,
}
use journarr.Actions.Remove.{
  Removal, RemovalCall, Place, StepStatus, add, ask, is_stopped, stop_all, close_step,
  is_empty_list, stop_downloads, delete_at_arr, ask_requests, unlist_at_seerr, check_jellyfin,
  left_at_jellyfin, tombstone, purge_title, finish_removal, and_then, finished, from_arr, cascade,
  with_plan, remove_planned, remove, delete_queue_item,
}

abbrev pub is_reachable : Systems → RemovalPlan → Bool
is_reachable sys p = is_configured sys (client_for p.media_type)

abbrev pub all_stopped : Systems → List ℕ → Bool
all_stopped sys [] = true
all_stopped sys (id ∷ ids) = is_stopped (sys.delete_queue_item id) && all_stopped sys ids

-- Nobody is watching or the removal is forced, and a configured arr stops every download and deletes
-- the title that it has.
abbrev pub may_remove : Systems → RemovalPlan → Bool → Bool
may_remove sys p force =
    (is_empty_list p.viewers || force)
    && ((not (is_reachable sys p) || all_stopped sys p.queue_ids)
        && (not (is_reachable sys p) || p.arr_id == 0 || sys.delete_title p.arr_id))

stop_all_lem :
    (sys : Systems) (ids : List ℕ) (r : Removal)
    → ((stop_all sys ids r).0 ≡ all_stopped sys ids) × ((stop_all sys ids r).1.db ≡ r.db)
unfolding stop_all
stop_all_lem sys [] r = (refl, refl)
stop_all_lem sys (id ∷ ids) r = elim (Bool-cases (is_stopped (sys.delete_queue_item id))) [
  | inl e ↦ rw e (stop_all_lem sys ids (ask (delete_queue_item id) r))
  | inr e ↦ rw e (refl, refl)
]

stop_downloads_lem :
    (sys : Systems) (p : RemovalPlan) (r : Removal)
    → ((stop_downloads sys p r).0 ≡ (not (is_reachable sys p) || all_stopped sys p.queue_ids))
      × ((stop_downloads sys p r).1.db ≡ r.db)
unfolding stop_downloads
stop_downloads_lem sys p r = go p.queue_ids (is_reachable sys p)
  where
    go :
        (ids : List ℕ) (b : Bool)
        → let q : Bool × Removal =
            if not b || is_empty_list ids
            then (true, add Place.downloads_place StepStatus.skipped r)
            else close_step Place.downloads_place (stop_all sys ids r) in
          (q.0 ≡ (not b || all_stopped sys ids)) × (q.1.db ≡ r.db)
    go ids false = (refl, refl)
    go [] true = (refl, refl)
    go (id ∷ ids) true = stop_all_lem sys (id ∷ ids) r

delete_at_arr_lem :
    (sys : Systems) (p : RemovalPlan) (r : Removal)
    → ((delete_at_arr sys p r).0
        ≡ (not (is_reachable sys p) || p.arr_id == 0 || sys.delete_title p.arr_id))
      × ((delete_at_arr sys p r).1.db ≡ r.db)
unfolding delete_at_arr
delete_at_arr_lem sys p r = elim (Bool-cases (not (is_reachable sys p) || p.arr_id == 0)) [
  | inl e ↦ rw e (refl, refl)
  | inr e ↦ rw e (refl, refl)
]

ask_requests-db : (ids : List ℕ) (r : Removal) → (ask_requests ids r).db ≡ r.db
unfolding ask_requests
ask_requests-db [] r = refl
ask_requests-db (id ∷ ids) r = ask_requests-db ids (ask (RemovalCall.delete_seerr_request id) r)

unlist_at_seerr-db :
    (sys : Systems) (p : RemovalPlan) (r : Removal) → (unlist_at_seerr sys p r).db ≡ r.db
unfolding unlist_at_seerr
unlist_at_seerr-db sys p r =
    let Same = λ (q : Removal). q.db ≡ r.db in
    if_case Same (not sys.has_seerr) (λ _. refl)
      (λ _.
        if_case Same (not (p.seerr_media == 0)) (λ _. refl)
          (λ _.
            if_case Same (not (is_empty_list p.seerr_ids)) (λ _. ask_requests-db p.seerr_ids r)
              (λ _. refl)))

check_jellyfin-db :
    (sys : Systems) (p : RemovalPlan) (r : Removal) → (check_jellyfin sys p r).db ≡ r.db
unfolding check_jellyfin
check_jellyfin-db sys p r =
    let Same = λ (q : Removal). q.db ≡ r.db in
    if_case Same (not sys.has_jellyfin || is_empty p.path) (λ _. refl)
      (λ _. if_case Same (ltb 0 (left_at_jellyfin sys p)) (λ _. refl) (λ _. refl))

finish_removal-db :
    (sys : Systems) (p : RemovalPlan) (r : Removal)
    → (finish_removal sys p r).db ≡ purge_requests p.request_ids (tombstone p p.arr) r.db
unfolding purge_title
finish_removal-db sys p r =
    ap (purge_requests p.request_ids (tombstone p p.arr))
      (check_jellyfin-db sys p (unlist_at_seerr sys p r) ∙ unlist_at_seerr-db sys p r)

-- What a step and the steps behind it come to, by a test that says whether the removal goes through.
record Comes (goes : Bool) (after before : Db) (q : Option RemovalError × Removal) : Type 0 where
  pub error : is_some q.0 ≡ not goes
  pub db : q.1.db ≡ (if goes then after else before)

and_then-Comes :
    (first rest : Bool) (after before : Db) (e : RemovalError) (r : Bool × Removal)
    (k : Removal → Option RemovalError × Removal)
    → r.0 ≡ first
    → r.1.db ≡ before
    → Comes rest after before (k r.1)
    → Comes (first && rest) after before (and_then e r k)
and_then-Comes true rest after before e r k h same c = rw h c
and_then-Comes false rest after before e r k h same c = rw h (record { error = refl; db = same })

removed-Comes :
    (sys : Systems) (p : RemovalPlan) (before : Db) (r : Removal)
    → r.db ≡ before
    → Comes true
        (purge_requests p.request_ids (tombstone p p.arr) before)
        before
        (none, finish_removal sys p r)
removed-Comes sys p before r same = record {
  error = refl;
  db = finish_removal-db sys p r ∙ ap (purge_requests p.request_ids (tombstone p p.arr)) same;
}

and_true : (b : Bool) → (b && true) ≡ b
and_true true = refl
and_true false = refl

abbrev downloads_stop : Systems → RemovalPlan → Bool
downloads_stop sys p = not (is_reachable sys p) || all_stopped sys p.queue_ids

abbrev title_goes : Systems → RemovalPlan → Bool
title_goes sys p = not (is_reachable sys p) || p.arr_id == 0 || sys.delete_title p.arr_id

module _ (sys : Systems) (p : RemovalPlan) (r : Removal) where
  abbrev purged : Db
  purged = purge_requests p.request_ids (tombstone p p.arr) r.db

  cascade-Comes : Comes (downloads_stop sys p && title_goes sys p) purged r.db (cascade sys p r)
  cascade-Comes =
      let stop = stop_downloads_lem sys p r in
      let stopped = (stop_downloads sys p r).1 in
      let del = delete_at_arr_lem sys p stopped in
      let same = del.1 ∙ stop.1 in
      and_then-Comes (downloads_stop sys p) (title_goes sys p) purged r.db downloads_failed
        (stop_downloads sys p r) (from_arr sys p) stop.0 stop.1
        (subst (λ (b : Bool). Comes b purged r.db (from_arr sys p stopped))
          (and_true (title_goes sys p))
          (and_then-Comes (title_goes sys p) true purged r.db deletion_failed
            (delete_at_arr sys p stopped) (finished sys p) del.0 same
            (removed-Comes sys p r.db (delete_at_arr sys p stopped).1 same)))

  guarded-Comes :
      (unwatched force : Bool)
      → Comes
          ((unwatched || force) && (downloads_stop sys p && title_goes sys p))
          purged
          r.db
          (if not unwatched && not force then (some being_watched, r) else cascade sys p r)
  guarded-Comes true force = cascade-Comes
  guarded-Comes false true = cascade-Comes
  guarded-Comes false false = record { error = refl; db = refl }

-- A removal with a plan succeeds exactly where the plan found no viewer or it is forced, and where, if
-- the arr of the title is configured, that arr stopped every queue entry of the plan and, if the title
-- has an id there, deleted the title; with an arr that is not configured there is nothing to stop or
-- delete. A removal that succeeds purges the requests of the plan and leaves its tombstone; one that
-- fails leaves the database as it was.
pub remove_lem :
    (sys : Systems) (id : ℕ) (force : Bool) (r : Removal) (p : RemovalPlan)
    → plan_removal sys id r.db ≡ ok p
    → let q = remove sys id force r in
      (is_some q.0 ≡ not (may_remove sys p force))
      × (q.1.db ≡ (
          if may_remove sys p force
          then purge_requests p.request_ids (tombstone p p.arr) r.db
          else r.db))
unfolding remove remove_planned
remove_lem sys id force r p e =
    let c = guarded-Comes sys p r (is_empty_list p.viewers) force in
    let purged = purge_requests p.request_ids (tombstone p p.arr) r.db in
    subst
      (λ (x : Result RemovalPlan).
        let q = with_plan sys force r x in
        (is_some q.0 ≡ not (may_remove sys p force))
        × (q.1.db ≡ (if may_remove sys p force then purged else r.db)))
      (sym e) (c.error, c.db)
