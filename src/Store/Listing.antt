-- ===== src/Store/Listing.antt =====
-- ListRequests, RollupForRequest and stageCounts of backend/internal/store/requests.go: what the web
-- pages show of the requests. LIKE is SQLite's, which ignores the case of ASCII letters.
pub mod Views
use journarr.Base.{
  ℕ, zero, suc, ◌+◌, Bool, true, false, not, ◌&&◌, ◌||◌, Option, none, some, List, [], ◌∷◌, ◌++◌,
  ◌==◌, ltb, leb, if◌then◌else◌, maybe, is_some, or_else, map, length, count, select, exists, take,
  is_empty, Text, text, text_eq,
}
use journarr.Store.Stages.{
  Stage, requested, approved, grabbed, submitted, cloud_downloading, pulling, downloaded, imported,
  transcode, available, notified, stage_eq, RequestStatus, active, completed, partial, failed,
  canceled,
}
use journarr.Store.Normalize.{lower}
use journarr.Store.Rows.{Db, Request, MediaItem}
use journarr.Store.Requests.{get_request, of_request}
use journarr.Store.Stuck.{is_early}

unfoldable pub status_text : RequestStatus → Text
status_text active = text "active"
status_text completed = text "completed"
status_text partial = text "partial"
status_text failed = text "failed"
status_text canceled = text "canceled"

-- `awaiting`: the request carries a date, or an item of it that was not grabbed yet.
unfoldable pub is_awaiting : Db → Request → Bool
is_awaiting db r =
    is_some r.awaiting_release_at
    || exists
        (λ m. of_request r.id m && (is_some m.awaiting_release_at && is_early m.current_stage))
        db.items

abbrev pub is_finished : RequestStatus → Bool
is_finished completed = true
is_finished canceled = true
is_finished failed = true
is_finished _ = false

-- The switch on the view.
unfoldable pub in_view : Text → Db → Request → Bool
unfolding status_text is_awaiting
in_view status db r =
    if is_empty status || text_eq status (text "all")
    then true
    else if text_eq status (text "waiting")
    then is_awaiting db r
    else if text_eq status (text "done")
    then is_finished r.status && not (is_awaiting db r)
    else text_eq (status_text r.status) status && not (is_awaiting db r)

abbrev pub some_suffix : (Text → Bool) → Text → Bool
some_suffix f [] = f []
some_suffix f (c ∷ s) = f (c ∷ s) || some_suffix f s

abbrev pub on_head : (ℕ → Text → Bool) → Text → Bool
on_head f [] = false
on_head f (c ∷ s) = f c s

-- LIKE, with its wildcards % and _.
unfoldable pub is_like : Text → Text → Bool
unfolding lower
is_like [] s = is_empty s
is_like (p ∷ ps) s =
    let rest = is_like ps in
    if p == b'%'
    then some_suffix rest s
    else on_head (λ c t. (p == b'_' || lower p == lower c) && rest t) s

unfoldable pub has_title : Text → Request → Bool
unfolding is_like
has_title q r = is_empty q || is_like (b'%' ∷ (q ++ b'%' ∷ [])) r.title

-- The rows of a view whose titles match.
unfoldable pub matching : Text → Text → Db → List Request
unfolding in_view has_title
matching status q db = select (λ r. in_view status db r && has_title q r) db.requests

-- ORDER BY updated_at DESC.
unfoldable pub insert_request : Request → List Request → List Request
insert_request r [] = r ∷ []
insert_request r (x ∷ xs) =
    let rest = insert_request r xs in if leb x.updated_at r.updated_at then r ∷ x ∷ xs else x ∷ rest

unfoldable pub newest_first : List Request → List Request
unfolding insert_request
newest_first [] = []
newest_first (r ∷ rs) = insert_request r (newest_first rs)

abbrev pub skip_rows : ℕ → List Request → List Request
skip_rows zero rs = rs
skip_rows (suc n) [] = []
skip_rows (suc n) (r ∷ rs) = skip_rows n rs

-- StageCounts has no key for a stage without items.
pub record RequestRollup : Type 0 where
  pub request : Request
  pub item_count : ℕ
  pub stage_counts : Stage → ℕ
  pub last_error : Text
  pub stuck_count : ℕ
  pub awaiting_release_at : Option ℕ

abbrev pub all_stages : List Stage
all_stages =
    requested ∷ approved ∷ grabbed ∷ submitted ∷ cloud_downloading ∷ pulling ∷ downloaded ∷ imported
    ∷ transcode ∷ available ∷ notified ∷ []

-- COUNT(*) of a stage.
abbrev pub stage_count : ℕ → Db → Stage → ℕ
stage_count id db s = count (λ m. of_request id m && stage_eq m.current_stage s) db.items

abbrev pub sum_of : (Stage → ℕ) → List Stage → ℕ
sum_of f [] = 0
sum_of f (s ∷ ss) = f s + sum_of f ss

-- The latest of the errors: ORDER BY updated_at DESC LIMIT 1.
abbrev pub later_error : MediaItem → Option MediaItem → Option MediaItem
later_error m none = some m
later_error m (some best) = if ltb m.updated_at best.updated_at then some best else some m

unfoldable pub latest_error : List MediaItem → Option MediaItem
latest_error [] = none
latest_error (m ∷ ms) = later_error m (latest_error ms)

abbrev pub sooner : Option ℕ → Option ℕ → Option ℕ
sooner none b = b
sooner (some a) none = some a
sooner (some a) (some b) = if ltb b a then some b else some a

-- MIN(awaiting_release_at).
unfoldable pub soonest : List MediaItem → Option ℕ
soonest [] = none
soonest (m ∷ ms) = sooner m.awaiting_release_at (soonest ms)

-- stageCounts, in the row of its request.
unfoldable pub rollup_of : Db → Request → RequestRollup
unfolding latest_error soonest
rollup_of db r =
    let items = select (of_request r.id) db.items in
    record {
      request = r;
      item_count = sum_of (stage_count r.id db) all_stages;
      stage_counts = stage_count r.id db;
      last_error =
          maybe (latest_error (select (λ m. not (is_empty m.last_error)) items)) []
            λ m. m.last_error;
      stuck_count = count (λ m. of_request r.id m && is_some m.stuck_since) db.items;
      awaiting_release_at =
          or_else r.awaiting_release_at (soonest (select (λ m. is_early m.current_stage) items));
    }

unfoldable pub list_requests : Text → Text → ℕ → ℕ → Db → List RequestRollup
unfolding matching newest_first rollup_of
list_requests status q limit offset db =
    map (rollup_of db) (take limit (skip_rows offset (newest_first (matching status q db))))

unfoldable pub rollup_for_request : ℕ → Db → Option RequestRollup
unfolding get_request rollup_of
rollup_for_request id db = maybe (get_request id db) none λ r. some (rollup_of db r)
