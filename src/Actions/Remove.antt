-- ===== src/Actions/Remove.antt =====
-- Remove of backend/internal/actions/remove.go: a title goes from every system. The audit row, the
-- texts of steps and errors, and the pause before Jellyfin is asked are left out.
pub mod Cascade
pub mod Buried
pub mod ByteUnits
use journarr.Base.{
  ℕ, zero, suc, ◌+◌, ◌*◌, ◌/◌, leb, text, Bool, true, false, not, ◌&&◌, ◌||◌, Option, none, some,
  List, [], ◌∷◌, ◌++◌, ◌==◌, ltb, if◌then◌else◌, maybe, count, length, is_empty, Text,
}
use journarr.Pipeline.Ops.{Arr, sonarr, radarr}
use journarr.Store.Rows.{Db}
use journarr.Store.Removal.{Tombstone, purge_requests}
use journarr.Actions.RemovalPlan.{
  Systems, Deletion, deleted, gone, refused, RemovalPlan, RemovalError, being_watched,
  downloads_failed, deletion_failed, Result, ok, err, client_for, is_configured, is_below,
  plan_removal,
}

pub data RemovalCall : Type 0 where
  delete_queue_item delete_title delete_media delete_seerr_request : ℕ → RemovalCall
  refresh_library : RemovalCall

pub data Place : Type 0 where
  downloads_place seerr_place jellyfin_place journarr_place : Place
  arr_place : Arr → Place

pub data StepStatus : Type 0 where
  done skipped warning failed : StepStatus

pub record Removal : Type 0 where
  pub db : Db
  pub steps : List (Place × StepStatus)
  pub calls : List RemovalCall
  pub published : List ℕ

abbrev pub add : Place → StepStatus → Removal → Removal
add place status r = record r { steps = r.steps ++ (place, status) ∷ [] }

abbrev pub ask : RemovalCall → Removal → Removal
ask c r = record r { calls = r.calls ++ c ∷ [] }

-- `gone` counts as stopped, a refusal ends the loop.
abbrev pub is_stopped : Deletion → Bool
is_stopped refused = false
is_stopped _ = true

unfoldable pub stop_all : Systems → List ℕ → Removal → Bool × Removal
stop_all sys [] r = (true, r)
stop_all sys (id ∷ ids) r =
    let rest = stop_all sys ids (ask (delete_queue_item id) r) in
    if is_stopped (sys.delete_queue_item id) then rest else (false, ask (delete_queue_item id) r)

abbrev pub close_step : Place → Bool × Removal → Bool × Removal
close_step place r = (r.0, add place (if r.0 then done else failed) r.1)

abbrev pub is_empty_list {ℓ} : {A : Type ℓ} → List A → Bool
is_empty_list [] = true
is_empty_list (x ∷ xs) = false

-- Step 2.
unfoldable pub stop_downloads : Systems → RemovalPlan → Removal → Bool × Removal
unfolding stop_all
stop_downloads sys p r =
    if not (is_configured sys (client_for p.media_type)) || is_empty_list p.queue_ids
    then (true, add downloads_place skipped r)
    else close_step downloads_place (stop_all sys p.queue_ids r)

-- Step 3.
unfoldable pub delete_at_arr : Systems → RemovalPlan → Removal → Bool × Removal
delete_at_arr sys p r =
    if not (is_configured sys (client_for p.media_type)) || p.arr_id == 0
    then (true, add (arr_place p.arr) skipped r)
    else close_step (arr_place p.arr) (sys.delete_title p.arr_id, ask (delete_title p.arr_id) r)

unfoldable pub ask_requests : List ℕ → Removal → Removal
ask_requests [] r = r
ask_requests (id ∷ ids) r = ask_requests ids (ask (delete_seerr_request id) r)

abbrev pub all_deleted : Systems → List ℕ → Bool
all_deleted sys ids = count (λ id. not (sys.delete_request id)) ids == 0

-- Step 4, which does not fail.
unfoldable pub unlist_at_seerr : Systems → RemovalPlan → Removal → Removal
unfolding ask_requests
unlist_at_seerr sys p r =
    if not sys.has_seerr
    then add seerr_place skipped r
    else if not (p.seerr_media == 0)
    then add seerr_place (if sys.delete_media p.seerr_media then done else warning)
        (ask (delete_media p.seerr_media) r)
    else if not (is_empty_list p.seerr_ids)
    then add seerr_place (if all_deleted sys p.seerr_ids then done else warning)
        (ask_requests p.seerr_ids r)
    else add seerr_place skipped r

abbrev pub left_at_jellyfin : Systems → RemovalPlan → ℕ
left_at_jellyfin sys p =
    maybe (sys.paths_by_name p.title) 0 λ paths. count (λ path. is_below path p.path) paths

-- Step 5, which does not fail.
unfoldable pub check_jellyfin : Systems → RemovalPlan → Removal → Removal
unfolding is_below
check_jellyfin sys p r =
    if not sys.has_jellyfin || is_empty p.path
    then r
    else if ltb 0 (left_at_jellyfin sys p)
    then add jellyfin_place (if sys.refresh_library then done else warning) (ask refresh_library r)
    else add jellyfin_place done r

abbrev pub tombstone : RemovalPlan → Arr → Tombstone
tombstone p sonarr = record {
  title = p.title;
  sonarr_series_ids = p.arr_ids;
  radarr_movie_ids = [];
  seerr_request_ids = p.seerr_ids;
}
tombstone p radarr = record {
  title = p.title;
  sonarr_series_ids = [];
  radarr_movie_ids = p.arr_ids;
  seerr_request_ids = p.seerr_ids;
}

-- Step 6.
unfoldable pub purge_title : RemovalPlan → Removal → Removal
unfolding purge_requests
purge_title p r = add journarr_place done (record r {
  db = purge_requests p.request_ids (tombstone p p.arr) r.db;
  published = r.published ++ p.request_ids;
})

-- The steps behind the first two.
abbrev pub finish_removal : Systems → RemovalPlan → Removal → Removal
finish_removal sys p r = purge_title p (check_jellyfin sys p (unlist_at_seerr sys p r))

abbrev pub and_then :
    RemovalError
    → Bool × Removal
    → (Removal → Option RemovalError × Removal)
    → Option RemovalError × Removal
and_then e r k = if r.0 then k r.1 else (some e, r.1)

abbrev pub finished : Systems → RemovalPlan → Removal → Option RemovalError × Removal
finished sys p r = (none, finish_removal sys p r)

abbrev pub from_arr : Systems → RemovalPlan → Removal → Option RemovalError × Removal
from_arr sys p r = and_then deletion_failed (delete_at_arr sys p r) (finished sys p)

-- Steps 2 to 6; the first two stop the cascade where they fail.
abbrev pub cascade : Systems → RemovalPlan → Removal → Option RemovalError × Removal
cascade sys p r = and_then downloads_failed (stop_downloads sys p r) (from_arr sys p)

unfoldable pub remove_planned :
    Systems → RemovalPlan → Bool → Removal → Option RemovalError × Removal
unfolding stop_downloads delete_at_arr unlist_at_seerr check_jellyfin purge_title
remove_planned sys p force r =
    if not (is_empty_list p.viewers) && not force then (some being_watched, r) else cascade sys p r

abbrev pub with_plan : Systems → Bool → Removal → Result RemovalPlan → Option RemovalError × Removal
with_plan sys force r (err e) = (some e, r)
with_plan sys force r (ok p) = remove_planned sys p force r

-- Remove; `none` is success.
unfoldable pub remove : Systems → ℕ → Bool → Removal → Option RemovalError × Removal
unfolding plan_removal remove_planned
remove sys id force r = with_plan sys force r (plan_removal sys id r.db)

-- The loop of humanBytes over m, with `fuel` rounds: the divisor and the exponent.
unfoldable pub byte_unit : ℕ → ℕ → ℕ → ℕ → ℕ × ℕ
byte_unit zero m div exp = (div, exp)
byte_unit (suc fuel) m div exp =
    let rest = byte_unit fuel (m / 1024) (div * 1024) (exp + 1) in
    if leb 1024 m then rest else (div, exp)

abbrev pub unit_letters : Text
unit_letters = text "KMGTPE"

-- The element of a list; `none` is a run-time panic.
abbrev pub get_elem? {ℓ} : {A : Type ℓ} → List A → ℕ → Option A
get_elem? [] i = none
get_elem? (x ∷ xs) zero = some x
get_elem? (x ∷ xs) (suc i) = get_elem? xs i

-- humanBytes above 1023 bytes: the divisor and the letter; the quotient is printed as a float. The fuel
-- is what 63 bits need.
unfoldable pub human_unit : ℕ → Option (ℕ × ℕ)
unfolding byte_unit
human_unit n =
    let r = byte_unit 6 (n / 1024) 1024 0 in
    maybe (get_elem? unit_letters r.1) none λ letter. some (r.0, letter)
