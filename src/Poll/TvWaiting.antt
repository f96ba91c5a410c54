-- ===== src/Poll/TvWaiting.antt =====
-- backend/internal/poll/tvwaiting.go: series that wait for their next episode. Sonarr's answers are a
-- parameter; a time is its seconds, and a day is one of UTC.
use journarr.Base.{
  ℕ, not, ◌&&◌, Option, none, some, List, [], ◌∷◌, ◌==◌, ltb, if◌then◌else◌, maybe, is_some,
}
use journarr.Store.Rows.{Db}
use journarr.Store.Stuck.{
  TvWaitCandidate, tv_waiting_candidates, set_request_awaiting, clear_request_awaiting,
}
use journarr.Poll.Release.{Mark, keep, clear, stamp, is_same_day, Marking, add_changed}

-- SeriesByTvdbID, as far as it says when the next episode airs: the outer `none` is an error, the
-- inner one no series or no readable time.
abbrev pub AiringLookup : Type 0
AiringLookup = ℕ → Option (Option ℕ)

-- A next episode in the future, and nothing in flight.
unfoldable pub waits_for : ℕ → TvWaitCandidate → Option ℕ → Option ℕ
waits_for now c none = none
waits_for now c (some next) = if ltb now next && not c.in_flight then some next else none

abbrev pub mark_request : Option ℕ → Option ℕ → Mark
mark_request awaiting none = if is_some awaiting then clear else keep
mark_request awaiting (some next) = if is_same_day awaiting next then keep else stamp next

unfoldable pub mark_candidate : ℕ → AiringLookup → TvWaitCandidate → Mark
unfolding waits_for
mark_candidate now lookup c =
    if c.tvdb_id == 0
    then keep
    else maybe (lookup c.tvdb_id) keep
        λ next. mark_request c.awaiting_release_at (waits_for now c next)

abbrev pub write_candidate : TvWaitCandidate → Mark → Marking → Marking
write_candidate c keep s = s
write_candidate c clear s = record {
  db = clear_request_awaiting c.id s.db;
  changed = add_changed (some c.id) s.changed;
}
write_candidate c (stamp at) s = record {
  db = set_request_awaiting c.id at s.db;
  changed = add_changed (some c.id) s.changed;
}

unfoldable pub check_candidates : ℕ → AiringLookup → List TvWaitCandidate → Marking → Marking
unfolding mark_candidate set_request_awaiting clear_request_awaiting
check_candidates now lookup [] s = s
check_candidates now lookup (c ∷ cs) s =
    check_candidates now lookup cs (write_candidate c (mark_candidate now lookup c) s)

-- pass.
unfoldable pub tv_waiting_pass : AiringLookup → Db → Marking
unfolding check_candidates tv_waiting_candidates
tv_waiting_pass lookup db =
    check_candidates db.now lookup (tv_waiting_candidates db) (record { db = db; changed = [] })
