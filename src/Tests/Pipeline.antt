-- ===== src/Tests/Pipeline.antt =====
-- The projector of backend/internal/pipeline on concrete data.
use journarr.Base.{
  ℕ, ◌+◌, ◌<◌, ◌≡◌, refl, ◌≢◌, true, false, ◌&&◌, some, [], ◌∷◌, arith, is_some, select, exists,
  All, text,
}
use journarr.Store.Events.{is_unprocessed}
use journarr.Store.Writes.Sound.{IsSound, Persists}
use journarr.Pipeline.Projector.{Projector, set_db}
use journarr.Pipeline.Drain.{drain, retry_fanouts}
use journarr.System.{
  Reaches, drains, retries, waits, repeats, here, then_step, Reaches-IsSound, Reaches-Persists,
}
use journarr.Actions.Retry.{retry}
use journarr.Actions.Cancel.{cancel}
use journarr.Actions.Canceled.{cancel_lem, is_running}
use journarr.Store.Stages.{canceled, is_terminal}
use journarr.Store.Rows.{Request}
use journarr.Store.Requests.{get_request, of_request}
use journarr.Store.Downloads.{downloads_for_request}
use mathlib.Core.List.{reverse}
use journarr.Tests.Samples.{matrix_request, radarr_only}
use journarr.Pipeline.Backlog.{drain-rest}
use journarr.Pipeline.Seasons.{seasons_json, parse_seasons}
use journarr.Pipeline.Seasons.RoundTrip.{parse_seasons-seasons_json}
use Prim.Native.Nat.{max}
use journarr.Store.Stages.{pulling_dl, grabbed_dl, imported, available, stage_key}
use journarr.Store.Rows.{MediaItem, Link, Download}
use journarr.Store.Items.{insert_row, upsert_item}
use journarr.Store.Transitions.{has_item}
use journarr.Store.Normalize.{normalize_download_id, trim_space, trim_left, is_space, lower}
use journarr.Store.Tasks.{lookup}
use journarr.Pipeline.Grabs.{grab_item}
use journarr.Pipeline.Grabs.Round.{grab_item_again}
use journarr.Store.Correlate.Cycles.{is_download_of}
use journarr.Pipeline.Arrarr.{advance_download, download_state_rank}
use journarr.Pipeline.Arrarr.Forward.{download_at, advance_download_lem}
use journarr.Flow.Settings.{on_stage_applied, is_on, get, notify_stage}
use journarr.Flow.Notices.{on_stage_applied_idem, notify_task_key-injective}
use journarr.Flow.Completion.{IsNoticed, on_stage_applied_lem}
use journarr.Tests.Samples.{
  matrix_item, matrix_download, bare_db, with_item, sample, sample_db-IsSound, one_series, in_order,
  ids_in_order,
}

-- The import of the sample is drained, its item is retried, and a minute later the fan-outs are.
abbrev drained : Projector
drained = drain in_order ids_in_order (some one_series) sample

abbrev repeated : Projector
repeated =
    set_db (retry in_order radarr_only 1 (record { db = drained.db; calls = [] })).1.db drained

abbrev later : Projector
later =
    retry_fanouts in_order ids_in_order (some one_series) (λ due. due)
      (set_db (record repeated.db { now = repeated.db.now + 60 }) repeated)

sample_run : Reaches in_order ids_in_order (some one_series) sample later
sample_run =
    then_step
      (then_step (then_step (then_step here (drains sample)) (repeats radarr_only 1 [] drained))
        (waits 60 repeated))
      (retries (λ due. due) _)

Reaches-IsSound_example : IsSound later.db
Reaches-IsSound_example =
    Reaches-IsSound in_order ids_in_order (some one_series) sample later sample_run
      sample_db-IsSound

Reaches-Persists_example : Persists sample.db later.db
Reaches-Persists_example =
    Reaches-Persists in_order ids_in_order (some one_series) sample later sample_run

drain-rest_example : select is_unprocessed drained.db.events ≡ []
drain-rest_example = drain-rest in_order ids_in_order (some one_series) sample

parse_seasons-seasons_json_example :
    parse_seasons (seasons_json (1 ∷ 12 ∷ 305 ∷ [])) ≡ 1 ∷ 12 ∷ 305 ∷ []
parse_seasons-seasons_json_example =
    parse_seasons-seasons_json (1 ∷ 12 ∷ 305 ∷ []) (omega arith, (omega arith, (omega arith, tt)))

abbrev row : MediaItem
row = insert_row 1 1000 matrix_item

own_download : is_download_of 1 (text "abc") with_item ≡ true
unfolding with_item upsert_item normalize_download_id trim_space trim_left is_space lower
own_download = refl

has_row : has_item 1 with_item ≡ true
unfolding with_item upsert_item
has_row = refl

links_positive : All (λ (l : Link). 0 < l.cycle) with_item.links
unfolding with_item upsert_item
links_positive = tt

abbrev added : Projector
added = set_db with_item sample

grab_item_again_example :
    let q = (grab_item 2 (text "abc") (text "The.Matrix.1999") 1 1 row (0, added)).1 in
    (grab_item 3 (text "abc") [] 1 1 row (0, q)).1 ≡ q
unfolding insert_row
grab_item_again_example =
    grab_item_again 2 3 b'a' (text "bc") (text "The.Matrix.1999") [] 1 1 1 row row 0 0 added refl
      own_download has_row links_positive (omega arith) refl

advance_download_lem_example :
    (d' : Download) × (download_at 1 (advance_download pulling_dl matrix_download bare_db)
      ≡ some d')
    × (d'.id ≡ 1)
    × ((download_state_rank grabbed_dl ≢ 0)
        → download_state_rank d'.state
          ≡ max (download_state_rank grabbed_dl) (download_state_rank pulling_dl))
    × ((download_state_rank grabbed_dl ≡ 0) → d' ≡ matrix_download)
advance_download_lem_example = advance_download_lem pulling_dl matrix_download bare_db refl

stage_applied_again :
    on_stage_applied sample.settings 1 imported
      (on_stage_applied sample.settings 1 imported bare_db)
    ≡ on_stage_applied sample.settings 1 imported bare_db
stage_applied_again = on_stage_applied_idem sample.settings 1 imported bare_db

notices_on : is_on sample.settings (text "notify_on_complete") ≡ true
unfolding is_on get lookup
notices_on = refl

at_available : stage_key available ≡ notify_stage sample.settings
unfolding notify_stage get lookup
at_available = refl

on_stage_applied_lem_example :
    IsNoticed 1 bare_db (on_stage_applied sample.settings 1 available bare_db)
on_stage_applied_lem_example =
    on_stage_applied_lem sample.settings 1 available bare_db
      (record { id = λ id. omega arith; key = λ k. omega arith; freed = tt }) (omega arith)
      notices_on at_available

one_key : ◌≡◌ {A = ℕ} 12 12
one_key = notify_task_key-injective 12 12 (omega arith) (omega arith) refl

cancel_lem_example :
    let (ok, s') = cancel radarr_only 1 (record { db = bare_db; calls = [] }) in
    (ok ≡ true)
    × (r' : Request) × (get_request 1 s'.db ≡ some r')
    × (r'.status ≡ canceled)
    × (exists (λ (m : MediaItem). of_request 1 m && is_some m.stuck_since) s'.db.items ≡ false)
    × All
        (λ (d : Download).
          is_terminal d.state ≡ false → exists (is_running d.id) s'.db.downloads ≡ false)
        (reverse (downloads_for_request 1 bare_db))
unfolding get_request
cancel_lem_example =
    cancel_lem radarr_only 1 (record { db = bare_db; calls = [] }) matrix_request refl refl
