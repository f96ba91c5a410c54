-- ===== src/Pipeline/Ops.antt =====
-- The normalized operations of backend/internal/pipeline/ops.go, with the kinds and states that the
-- program spells as strings. A payload is kept decoded: `unreadable` is one that json.Unmarshal
-- refuses, `unhandled` one of a kind that the projector does not know. Numbers are never negative.
use journarr.Base.{ℕ, Option, List, Bool, Text}

pub data Arr : Type 0 where
  sonarr radarr : Arr

-- requests.media_type, with `unknown` for a text that the table's CHECK refuses.
pub data RequestType : Type 0 where
  movie tv unknown : RequestType

pub record SeriesRef : Type 0 where
  pub sonarr_id : ℕ
  pub tvdb_id : ℕ
  pub tmdb_id : ℕ
  pub title : Text

pub record EpisodeRef : Type 0 where
  pub sonarr_id : ℕ
  pub season : ℕ
  pub episode : ℕ
  pub title : Text

pub record MovieRef : Type 0 where
  pub radarr_id : ℕ
  pub tmdb_id : ℕ
  pub title : Text
  pub year : ℕ

pub record GrabOp : Type 0 where
  pub arr : Arr
  pub download_id : Text
  pub release_title : Text
  pub indexer : Text
  pub size : ℕ
  pub protocol : Text
  pub series : Option SeriesRef
  pub episodes : List EpisodeRef
  pub movie : Option MovieRef

pub record ImportOp : Type 0 where
  pub arr : Arr
  pub download_id : Text
  pub series : Option SeriesRef
  pub episodes : List EpisodeRef
  pub movie : Option MovieRef
  pub episode_paths : List (ℕ × Text)
  pub movie_path : Text

pub record FailureOp : Type 0 where
  pub arr : Arr
  pub download_id : Text
  pub message : Text
  pub soft : Bool
  pub series : Option SeriesRef
  pub episodes : List EpisodeRef
  pub movie : Option MovieRef

-- The job states that Arrarr reports.
pub data JobState : Type 0 where
  submitted_job downloading_job completed_torbox_job ready_job failed_job canceled_job : JobState
  other_job : JobState

pub record JobTransitionOp : Type 0 where
  pub nzo_id : Text
  pub nzb_sha256 : Text
  pub to : JobState
  pub bytes_downloaded : ℕ
  pub bytes_total : ℕ
  pub local_path : Text
  pub error : Text

pub record AvailableOp : Type 0 where
  pub media_item_id : ℕ
  pub jellyfin_item_id : Text
  pub note : Text

pub record EpisodeNum : Type 0 where
  pub season : ℕ
  pub episode : ℕ

pub record NotifiedOp : Type 0 where
  pub media_type : RequestType
  pub tmdb_id : ℕ
  pub title : Text
  pub episodes : List EpisodeNum
  pub media_item_ids : List ℕ

pub record TranscodeOp : Type 0 where
  pub is_complete : Bool
  pub file : Text
  pub tmdb_id : ℕ
  pub tvdb_id : ℕ
  pub season : ℕ
  pub episode : ℕ

pub data SeerrKind : Type 0 where
  pending_kind approved_kind declined_kind available_kind failed_kind other_kind : SeerrKind

pub record SeerrOp : Type 0 where
  pub seerr_request_id : ℕ
  pub kind : SeerrKind
  pub media_type : RequestType
  pub tmdb_id : ℕ
  pub tvdb_id : ℕ
  pub title : Text
  pub year : ℕ
  pub poster : Text
  pub requested_by : Text
  pub seasons : List ℕ

pub data Op : Type 0 where
  seerr_op : SeerrOp → Op
  grab_op : GrabOp → Op
  import_op : ImportOp → Op
  failure_op : FailureOp → Op
  job_transition_op : JobTransitionOp → Op
  transcode_op : TranscodeOp → Op
  available_op : AvailableOp → Op
  notified_op : NotifiedOp → Op
  unreadable : Op
  unhandled : Op
