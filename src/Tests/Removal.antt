-- ===== src/Tests/Removal.antt =====
-- The removal of backend/internal/actions/remove.go on concrete data.
use journarr.Base.{
  ◌≡◌, refl, true, false, not, none, some, [], ◌∷◌, arith, if◌then◌else◌, is_some, text,
}
use journarr.Pipeline.Ops.{radarr, movie}
use journarr.Store.Downloads.{link_download_item}
use journarr.Store.Transitions.{advance_pointer, insert_transition}
use journarr.Store.Transitions.Pointer.{applied_db}
use journarr.Store.Items.{upsert_item}
use journarr.Store.Removal.{purge_requests, is_arr_removed}
use journarr.Actions.RemovalPlan.{Systems, gone, recycle_bin_unknown, RemovalPlan, ok, plan_removal}
use journarr.Actions.Remove.{Removal, tombstone, remove, human_unit}
use journarr.Actions.Remove.Cascade.{may_remove, remove_lem}
use journarr.Actions.Remove.Buried.{remove-is_arr_removed}
use journarr.Actions.Remove.ByteUnits.{Fits, human_unit-Fits}
use journarr.Tests.Samples.{grabbed_db, with_item}

-- Radarr has the film and one download of it, which its client has lost; someone is watching.
abbrev systems : Systems
systems = record {
  has_sonarr = false;
  has_radarr = true;
  has_seerr = true;
  has_jellyfin = true;
  series_by_tvdb_id = λ id. some none;
  series_by_id = λ id. some none;
  movie_by_tmdb_id = λ id. some (
      some (record {
        id = 5;
        path = text "/movies/The Matrix";
        files = 1;
        size_bytes = 4096;
        seasons = 0;
      }));
  movie_by_id = λ id. none;
  recycle_bin = none;
  queue = some (
      record {
        id = 31;
        download_id = text "ABC";
        title = text "The.Matrix.1999";
        series_id = 0;
        movie_id = 5;
      }
      ∷ []);
  media_id = λ type id. some 9;
  sessions = some (
      record {
        user = text "trinity";
        title = text "The Matrix";
        path = text "/movies/The Matrix/film.mkv";
        series_name = [];
        item_name = text "The Matrix";
      }
      ∷ []);
  paths_by_name = λ name. some [];
  delete_queue_item = λ id. gone;
  delete_title = λ id. true;
  delete_media = λ id. false;
  delete_request = λ id. true;
  refresh_library = true;
}

abbrev start : Removal
start = record { db = grabbed_db; steps = []; calls = []; published = [] }

abbrev plan : RemovalPlan
plan = record {
  title = text "The Matrix";
  media_type = movie;
  arr = radarr;
  arr_id = 5;
  path = text "/movies/The Matrix";
  files = 1;
  size_bytes = 4096;
  seasons = 0;
  downloads = text "The.Matrix.1999" ∷ [];
  recycle_bin = [];
  recycle_days = 0;
  viewers = text "trinity (The Matrix)" ∷ [];
  warnings = recycle_bin_unknown ∷ [];
  request_ids = 1 ∷ [];
  seerr_ids = 7 ∷ [];
  seerr_media = 9;
  arr_ids = 5 ∷ [];
  queue_ids = 31 ∷ [];
  tmdb_id = 603;
}

planned : plan_removal systems 1 grabbed_db ≡ ok plan
unfolding plan_removal grabbed_db link_download_item applied_db advance_pointer insert_transition
    with_item upsert_item
planned = refl

remove_lem_example :
    (is_some (remove systems 1 true start).0 ≡ not (may_remove systems plan true))
    × ((remove systems 1 true start).1.db ≡ (
        if may_remove systems plan true
        then purge_requests plan.request_ids (tombstone plan radarr) grabbed_db
        else grabbed_db))
remove_lem_example = remove_lem systems 1 true start plan planned

remove-is_arr_removed_example : is_arr_removed radarr 5 (remove systems 1 true start).1.db ≡ true
remove-is_arr_removed_example =
    remove-is_arr_removed systems 1 true start plan 5 planned refl refl refl

human_unit-Fits_example : Fits 5368709120 (human_unit 5368709120)
human_unit-Fits_example = human_unit-Fits 5368709120 (omega arith) (omega arith)
