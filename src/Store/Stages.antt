-- ===== src/Store/Stages.antt =====
-- The stage catalog and the state columns of backend/internal/store/migrations.
use journarr.Base.{ℕ, Bool, true, false, ◌==◌, ◌≡◌, text, Text, arith}

-- The keys of the table `stages`.
pub data Stage : Type 0 where
  requested approved grabbed submitted cloud_downloading pulling : Stage
  downloaded imported transcode available notified : Stage

abbrev pub ordinal : Stage → ℕ
ordinal requested = 10
ordinal approved = 20
ordinal grabbed = 30
ordinal submitted = 40
ordinal cloud_downloading = 50
ordinal pulling = 60
ordinal downloaded = 65
ordinal imported = 70
ordinal transcode = 80
ordinal available = 90
ordinal notified = 100

-- The text of the column `key`.
abbrev pub stage_key : Stage → Text
stage_key requested = text "requested"
stage_key approved = text "approved"
stage_key grabbed = text "grabbed"
stage_key submitted = text "submitted"
stage_key cloud_downloading = text "cloud_downloading"
stage_key pulling = text "pulling"
stage_key downloaded = text "downloaded"
stage_key imported = text "imported"
stage_key transcode = text "transcode"
stage_key available = text "available"
stage_key notified = text "notified"

-- No two stages share an ordinal.
pub ordinal-injective : (s t : Stage) → ordinal s ≡ ordinal t → s ≡ t
ordinal-injective s t h = ground arith

-- Keys are compared through their ordinals, which tell them apart.
abbrev pub stage_eq : Stage → Stage → Bool
stage_eq s t = ordinal s == ordinal t

-- downloads.state.
pub data DownloadState : Type 0 where
  grabbed_dl submitted_dl cloud_downloading_dl pulling_dl downloaded_dl : DownloadState
  imported_dl failed_dl canceled_dl : DownloadState

-- state IN ('imported', 'failed', 'canceled'); `isTerminal` of the actions.
abbrev pub is_terminal : DownloadState → Bool
is_terminal imported_dl = true
is_terminal failed_dl = true
is_terminal canceled_dl = true
is_terminal _ = false

-- downloads.source: NormalizeSource knows two protocols, and '' stands for any other.
pub data Source : Type 0 where
  usenet torrent no_source : Source

-- requests.status.
pub data RequestStatus : Type 0 where
  active completed partial failed canceled : RequestStatus

-- events.match_status.
pub data Match : Type 0 where
  pending matched orphan ignored : Match

-- media_items.media_type.
pub data ItemType : Type 0 where
  movie_item episode_item : ItemType

abbrev pub item_type_eq : ItemType → ItemType → Bool
item_type_eq movie_item movie_item = true
item_type_eq episode_item episode_item = true
item_type_eq _ _ = false

-- flow_tasks.kind, target_type and status.
pub data TaskKind : Type 0 where
  jellyfin_scan notify retry other_task : TaskKind

pub data TargetType : Type 0 where
  request_target media_item_target no_target : TargetType

pub data TaskStatus : Type 0 where
  pending_task done_task failed_task dead_task revived_task : TaskStatus
