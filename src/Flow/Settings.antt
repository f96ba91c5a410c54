-- ===== src/Flow/Settings.antt =====
-- The cached settings of backend/internal/flow/controller.go, and OnStageApplied, which the projector
-- calls after every applied transition.
use journarr.Base.{
  ℕ, ◌+◌, Bool, ◌&&◌, ◌||◌, List, [], ltb, if◌then◌else◌, from_option, Text, text, text_eq,
}
use journarr.Store.Stages.{
  Stage, imported, stage_key, stage_eq, jellyfin_scan, notify, request_target, no_target,
}
use journarr.Store.Rows.{Db}
use journarr.Store.Tasks.{lookup, enqueue_flow_task, notify_task_key}

abbrev pub Settings : Type 0
Settings = List (Text × Text)

-- c.get.
unfoldable pub get : Settings → Text → Text → Text
unfolding lookup
get settings key default = from_option default (lookup key settings)

-- c.on.
unfoldable pub is_on : Settings → Text → Bool
unfolding get
is_on settings key =
    let v = get settings key [] in
    text_eq v (text "true")
    || text_eq v (text "1")
    || text_eq v (text "on")
    || text_eq v (text "yes")

unfoldable pub notify_stage : Settings → Text
unfolding get
notify_stage settings = get settings (text "notify_stage") (text "available")

abbrev pub scan_delay : ℕ
scan_delay = 45

abbrev pub notify_delay : ℕ
notify_delay = 60

-- The coalesced scan after an import.
unfoldable pub enqueue_scan : Settings → Stage → Db → Db
unfolding is_on
enqueue_scan settings stage db =
    if stage_eq stage imported && is_on settings (text "jellyfin_scan_on_import")
    then (enqueue_flow_task jellyfin_scan no_target 0 (text "jellyfin_scan") (db.now + scan_delay)
        db).1
    else db

-- The completion notice of a request.
unfoldable pub enqueue_notice : Settings → ℕ → Stage → Db → Db
unfolding is_on notify_stage
enqueue_notice settings request_id stage db =
    if ltb 0 request_id
      && is_on settings (text "notify_on_complete")
      && text_eq (stage_key stage) (notify_stage settings)
    then (enqueue_flow_task notify request_target request_id (notify_task_key request_id)
        (db.now + notify_delay) db).1
    else db

-- OnStageApplied; it does not read the item and the cycle.
unfoldable pub on_stage_applied : Settings → ℕ → Stage → Db → Db
unfolding enqueue_scan enqueue_notice
on_stage_applied settings request_id stage db =
    enqueue_notice settings request_id stage (enqueue_scan settings stage db)
