-- ===== src/Poll/Writes.antt =====
-- The passes of backend/internal/poll that edit items, requests and downloads.
use journarr.Base.{
  ℕ, ◌-◌, refl, none, some, List, [], ◌∷◌, if◌then◌else◌, maybe_case, if_case, Text,
}
use journarr.Store.Rows.{Db, MediaItem, Download}
use journarr.Store.Items.{set_item_error}
use journarr.Store.Stuck.{
  set_awaiting_release, clear_awaiting_release, set_request_awaiting, clear_request_awaiting,
  movies_for_release_check, TvWaitCandidate, tv_waiting_candidates,
}
use journarr.Store.Downloads.{update_download_progress, item_ids_for_download}
use journarr.Store.Normalize.{normalize_download_id}
use journarr.Store.Writes.{Writes, IsEdit, edits, done, one, append}
use journarr.Store.Writes.Statements.{
  of_Elsewhere, set_item_error-Writes, update_download_progress-Elsewhere, updated_requests,
}
use journarr.Poll.Release.{
  Mark, keep, clear, stamp, Marking, Lookup, mark_of, write_mark, check_movies,
}
use journarr.Poll.Release
use journarr.Poll.TvWaiting.{
  AiringLookup, mark_candidate, write_candidate, check_candidates, tv_waiting_pass,
}
use journarr.Poll.ArrQueue.{
  QueueRecord, QueuePass, by_client_id, has_seen, is_blocked, set_item_errors, report_progress,
  read_queue, read_queues, queue_pass,
}
use journarr.Store.Downloads.{active_downloads}

-- The edits of a mark.
cleared-IsEdit : IsEdit (λ m. record m { awaiting_release_at = none })
cleared-IsEdit = record {
  id = λ m. refl;
  request_id = λ m. refl;
  media_type = λ m. refl;
  season = λ m. refl;
  episode = λ m. refl;
  stage = λ m. refl;
  cycle = λ m. refl;
}

stamped-IsEdit :
    (at : ℕ) → IsEdit (λ m. record m { awaiting_release_at = some at; stuck_since = none })
stamped-IsEdit at = record {
  id = λ m. refl;
  request_id = λ m. refl;
  media_type = λ m. refl;
  season = λ m. refl;
  episode = λ m. refl;
  stage = λ m. refl;
  cycle = λ m. refl;
}

write_mark-Writes :
    (t : MediaItem) (mark : Mark) (s : Marking) → Writes s.db (write_mark t mark s).db
unfolding set_awaiting_release clear_awaiting_release
write_mark-Writes t keep s = done
write_mark-Writes t clear s = one (edits _ _ s.db cleared-IsEdit)
write_mark-Writes t (stamp at) s = one (edits _ _ s.db (stamped-IsEdit at))

check_movies-Writes :
    (now : ℕ) (lookup : Lookup) (ts : List MediaItem) (s : Marking)
    → Writes s.db (check_movies now lookup ts s).db
unfolding check_movies
check_movies-Writes now lookup [] s = done
check_movies-Writes now lookup (t ∷ ts) s =
    append (write_mark-Writes t (mark_of now lookup t) s)
      (check_movies-Writes now lookup ts (write_mark t (mark_of now lookup t) s))

pub release_pass-Writes : (lookup : Lookup) (db : Db) → Writes db (Release.pass lookup db).db
unfolding Release.pass
release_pass-Writes lookup db =
    check_movies-Writes db.now lookup (movies_for_release_check db)
      (record { db = db; changed = [] })

write_candidate-Writes :
    (c : TvWaitCandidate) (mark : Mark) (s : Marking) → Writes s.db (write_candidate c mark s).db
unfolding set_request_awaiting clear_request_awaiting
write_candidate-Writes c keep s = done
write_candidate-Writes c clear s = of_Elsewhere (updated_requests _ _ s.db (λ r. refl))
write_candidate-Writes c (stamp at) s = of_Elsewhere (updated_requests _ _ s.db (λ r. refl))

check_candidates-Writes :
    (now : ℕ) (lookup : AiringLookup) (cs : List TvWaitCandidate) (s : Marking)
    → Writes s.db (check_candidates now lookup cs s).db
unfolding check_candidates
check_candidates-Writes now lookup [] s = done
check_candidates-Writes now lookup (c ∷ cs) s =
    append (write_candidate-Writes c (mark_candidate now lookup c) s)
      (check_candidates-Writes now lookup cs (write_candidate c (mark_candidate now lookup c) s))

pub tv_waiting_pass-Writes :
    (lookup : AiringLookup) (db : Db) → Writes db (tv_waiting_pass lookup db).db
unfolding tv_waiting_pass
tv_waiting_pass-Writes lookup db =
    check_candidates-Writes db.now lookup (tv_waiting_candidates db)
      (record { db = db; changed = [] })

set_item_errors-Writes :
    (ids : List ℕ) (msg : Text) (db : Db) → Writes db (set_item_errors ids msg db)
unfolding set_item_errors
set_item_errors-Writes [] msg db = done
set_item_errors-Writes (id ∷ ids) msg db =
    append (set_item_error-Writes id msg db)
      (set_item_errors-Writes ids msg (set_item_error id msg db))

report_progress-Writes :
    (r : QueueRecord) (d : Download) (s : QueuePass) → Writes s.db (report_progress r d s).db
unfolding report_progress
report_progress-Writes r d s =
    let db = update_download_progress d.id (r.size - r.size_left) r.size s.db in
    append
      (of_Elsewhere (update_download_progress-Elsewhere d.id (r.size - r.size_left) r.size s.db))
      (if_case (Writes db) (is_blocked r)
        (λ _. set_item_errors-Writes (item_ids_for_download d.id db) r.error_message db)
        (λ _. done))

read_queue-Writes :
    (active : List Download) (rs : List QueueRecord) (seen : List Text) (s : QueuePass)
    → Writes s.db (read_queue active rs seen s).db
unfolding read_queue
read_queue-Writes active [] seen s = done
read_queue-Writes active (r ∷ rs) seen s =
    let key = normalize_download_id r.download_id in
    maybe_case (λ (x : QueuePass). Writes s.db x.db)
      (if has_seen seen key then none else by_client_id active key)
      (read_queue-Writes active rs seen s)
      λ d _.
        append (report_progress-Writes r d s)
          (read_queue-Writes active rs (key ∷ seen) (report_progress r d s))

read_queues-Writes :
    (active : List Download) (qs : List (List QueueRecord)) (s : QueuePass)
    → Writes s.db (read_queues active qs s).db
unfolding read_queues
read_queues-Writes active [] s = done
read_queues-Writes active (q ∷ qs) s =
    append (read_queue-Writes active q [] s)
      (read_queues-Writes active qs (read_queue active q [] s))

pub queue_pass-Writes : (qs : List (List QueueRecord)) (db : Db) → Writes db (queue_pass qs db).db
unfolding queue_pass
queue_pass-Writes qs db =
    read_queues-Writes (active_downloads db) qs (record { db = db; published = [] })
