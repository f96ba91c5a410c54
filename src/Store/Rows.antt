-- ===== src/Store/Rows.antt =====
-- The rows of the tables that backend/internal/store/migrations create, and the database. A column
-- that may be NULL is an `Option`, except a text that every reader COALESCEs with ''. The numbers of
-- a season and an episode are `none` where the table holds its sentinel -1. Tables are lists in the
-- order of their ids, times are seconds, and `now` is what CURRENT_TIMESTAMP reads.
use journarr.Base.{ℕ, Option, List, Text}
use journarr.Pipeline.Ops.{Arr, RequestType, Op}
use journarr.Store.Stages.{
  Stage, DownloadState, Source, RequestStatus, Match, ItemType, TaskKind, TargetType, TaskStatus,
}

pub record Request : Type 0 where
  pub id : ℕ
  pub seerr_request_id : Option ℕ
  pub media_type : RequestType
  pub tmdb_id : Option ℕ
  pub tvdb_id : Option ℕ
  pub title : Text
  pub year : Option ℕ
  pub poster_url : Text
  pub requested_by : Text
  pub requested_at : Option ℕ
  pub seasons : Text
  pub status : RequestStatus
  pub awaiting_release_at : Option ℕ
  pub updated_at : ℕ

pub record MediaItem : Type 0 where
  pub id : ℕ
  pub request_id : Option ℕ
  pub media_type : ItemType
  pub tmdb_id : Option ℕ
  pub tvdb_id : Option ℕ
  pub sonarr_series_id : Option ℕ
  pub sonarr_episode_id : Option ℕ
  pub radarr_movie_id : Option ℕ
  pub season_number : Option ℕ
  pub episode_number : Option ℕ
  pub title : Text
  pub current_stage : Stage
  pub current_cycle : ℕ
  pub stuck_since : Option ℕ
  pub last_error : Text
  pub imported_path : Text
  pub jellyfin_item_id : Text
  pub awaiting_release_at : Option ℕ
  pub updated_at : ℕ

pub record Download : Type 0 where
  pub id : ℕ
  pub client_download_id : Text
  pub arrarr_nzo_id : Text
  pub arr : Arr
  pub source : Source
  pub release_title : Text
  pub indexer : Text
  pub size_bytes : Option ℕ
  pub state : DownloadState
  pub bytes_downloaded : Option ℕ
  pub bytes_total : Option ℕ
  pub last_error : Text
  pub grabbed_at : Option ℕ
  pub completed_at : Option ℕ
  pub updated_at : ℕ

-- download_items.
pub record Link : Type 0 where
  pub download_id : ℕ
  pub media_item_id : ℕ
  pub cycle : ℕ

-- stage_transitions.
pub record StageTransition : Type 0 where
  pub id : ℕ
  pub media_item_id : ℕ
  pub cycle : ℕ
  pub stage : Stage
  pub entered_at : ℕ
  pub source_event_id : Option ℕ
  pub note : Text

pub record Event : Type 0 where
  pub id : ℕ
  pub dedupe_key : Option Text
  pub payload : Op
  pub received_at : ℕ
  pub processed_at : Option ℕ
  pub match_status : Match
  pub request_id : Option ℕ
  pub media_item_id : Option ℕ
  pub download_id : Option ℕ

pub record FlowTask : Type 0 where
  pub id : ℕ
  pub kind : TaskKind
  pub target_type : TargetType
  pub target_id : Option ℕ
  pub status : TaskStatus
  pub attempts : ℕ
  pub run_after : Option ℕ
  pub dedupe_key : Option Text
  pub finished_at : Option ℕ

-- removed_media.
pub record Removed : Type 0 where
  pub id : ℕ
  pub arr : Option Arr
  pub arr_id : Option ℕ
  pub seerr_request_id : Option ℕ
  pub title : Text
  pub removed_at : ℕ

pub record Db : Type 0 where
  pub now : ℕ
  pub requests : List Request
  pub items : List MediaItem
  pub downloads : List Download
  pub links : List Link
  pub transitions : List StageTransition
  pub events : List Event
  pub tasks : List FlowTask
  pub settings : List (Text × Text)
  pub removed : List Removed
