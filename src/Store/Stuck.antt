-- ===== src/Store/Stuck.antt =====
-- backend/internal/store/stuck.go and release.go: items that make no progress, and items that wait
-- for a release date.
pub mod Guards
use journarr.Base.{
  ℕ, ◌+◌, Bool, true, false, not, ◌&&◌, Option, none, some, List, [], ◌∷◌, ◌==◌, leb, ltb,
  if◌then◌else◌, opt_is, is_some, is_empty, exists, select, update, count,
}
use journarr.Pipeline.Ops.{tv}
use journarr.Store.Stages.{
  Stage, requested, approved, available, notified, stage_eq, RequestStatus, active, partial,
  completed, movie_item, item_type_eq,
}
use journarr.Store.Rows.{Db, MediaItem, Request, Download, Link}
use journarr.Store.Items.{update_item, is_request_active}
use journarr.Store.Requests.{request_type_eq}

-- Did a download of the item's current cycle move in the last `secs` seconds?
abbrev pub has_live_download : ℕ → Db → MediaItem → Bool
has_live_download secs db m =
    exists
      (λ (l : Link).
        l.media_item_id == m.id
        && l.cycle == m.current_cycle
        && exists (λ (d : Download). d.id == l.download_id && leb db.now (d.updated_at + secs))
            db.downloads)
      db.links

-- The WHERE clause of MarkStuck, at one stage and its threshold.
unfoldable pub should_mark : Stage → ℕ → Db → MediaItem → Bool
unfolding is_request_active
should_mark stage secs db m =
    stage_eq m.current_stage stage
    && not (is_some m.stuck_since)
    && is_empty m.last_error
    && not (is_some m.awaiting_release_at)
    && is_request_active db m.request_id
    && ltb (m.updated_at + secs) db.now
    && not (has_live_download secs db m)

unfoldable pub mark_stage : Stage → ℕ → Db → Db
unfolding should_mark
mark_stage stage secs db = record db {
  items = update (should_mark stage secs db) (λ m. record m { stuck_since = some db.now }) db.items;
}

-- MarkStuck: the thresholds in the order of Go's map iteration.
unfoldable pub mark_stuck : List (Stage × ℕ) → Db → ℕ × Db
unfolding mark_stage
mark_stuck [] db = (0, db)
mark_stuck ((stage, secs) ∷ ts) db =
    let (total, db') = mark_stuck ts (mark_stage stage secs db) in
    (count (should_mark stage secs db) db.items + total, db')

unfoldable pub clear_stuck_for_request : ℕ → Db → Db
clear_stuck_for_request request_id db = record db {
  items =
      update (λ m. opt_is request_id m.request_id && is_some m.stuck_since)
        (λ m. record m { stuck_since = none }) db.items;
}

unfoldable pub count_stuck : Db → ℕ
unfolding is_request_active
count_stuck db = count (λ m. is_some m.stuck_since && is_request_active db m.request_id) db.items

-- current_stage IN ('requested', 'approved').
abbrev pub is_early : Stage → Bool
is_early requested = true
is_early approved = true
is_early _ = false

-- The WHERE clause of MoviesForReleaseCheck.
unfoldable pub may_wait : Db → MediaItem → Bool
unfolding is_request_active
may_wait db m =
    item_type_eq m.media_type movie_item
    && is_some m.tmdb_id
    && is_early m.current_stage
    && is_request_active db m.request_id

unfoldable pub movies_for_release_check : Db → List MediaItem
unfolding may_wait
movies_for_release_check db = select (may_wait db) db.items

unfoldable pub set_awaiting_release : ℕ → ℕ → Db → Db
set_awaiting_release id at db =
    update_item id (λ m. record m { awaiting_release_at = some at; stuck_since = none }) db

unfoldable pub clear_awaiting_release : ℕ → Db → Db
clear_awaiting_release id db = record db {
  items =
      update (λ m. m.id == id && is_some m.awaiting_release_at)
        (λ m. record m { awaiting_release_at = none }) db.items;
}

pub record TvWaitCandidate : Type 0 where
  pub id : ℕ
  pub tvdb_id : ℕ
  pub in_flight : Bool
  pub awaiting_release_at : Option ℕ

-- current_stage NOT IN ('available', 'notified').
abbrev pub is_being_worked : Stage → Bool
is_being_worked available = false
is_being_worked notified = false
is_being_worked _ = true

-- status IN ('active', 'partial', 'completed').
abbrev pub can_wait : RequestStatus → Bool
can_wait active = true
can_wait partial = true
can_wait completed = true
can_wait _ = false

abbrev pub candidate : Db → Request → ℕ → TvWaitCandidate
candidate db r tvdb = record {
  id = r.id;
  tvdb_id = tvdb;
  in_flight =
      exists (λ (m : MediaItem). opt_is r.id m.request_id && is_being_worked m.current_stage)
        db.items;
  awaiting_release_at = r.awaiting_release_at;
}

unfoldable pub candidates : Db → List Request → List TvWaitCandidate
candidates db [] = []
candidates db (r ∷ rs) =
    let rest = candidates db rs in
    elim r.tvdb_id [
      | none ↦ rest
      | some tvdb ↦
          if request_type_eq r.media_type tv && can_wait r.status
          then candidate db r tvdb ∷ rest
          else rest
    ]

unfoldable pub tv_waiting_candidates : Db → List TvWaitCandidate
unfolding candidates
tv_waiting_candidates db = candidates db db.requests

unfoldable pub set_request_awaiting : ℕ → ℕ → Db → Db
set_request_awaiting id at db = record db {
  requests = update (λ r. r.id == id) (λ r. record r { awaiting_release_at = some at }) db.requests;
}

unfoldable pub clear_request_awaiting : ℕ → Db → Db
clear_request_awaiting id db = record db {
  requests =
      update (λ r. r.id == id && is_some r.awaiting_release_at)
        (λ r. record r { awaiting_release_at = none }) db.requests;
}
