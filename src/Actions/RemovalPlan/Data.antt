-- ===== src/Actions/RemovalPlan/Data.antt =====
-- What PlanRemoval of backend/internal/actions/remove.go asks and answers.
use journarr.Base.{ℕ, Bool, Option, List, Text}
use journarr.Pipeline.Ops.{Arr, RequestType}

-- A series or a movie of an arr; a movie has no seasons.
pub record ArrTitle : Type 0 where
  pub id : ℕ
  pub path : Text
  pub files : ℕ
  pub size_bytes : ℕ
  pub seasons : ℕ

pub record QueueEntry : Type 0 where
  pub id : ℕ
  pub download_id : Text
  pub title : Text
  pub series_id : ℕ
  pub movie_id : ℕ

-- JellySession.
pub record Session : Type 0 where
  pub user : Text
  pub title : Text
  pub path : Text
  pub series_name : Text
  pub item_name : Text

-- What DeleteQueueItem comes back with; `gone` is an error with a 404.
pub data Deletion : Type 0 where
  deleted gone refused : Deletion

-- The systems: `none` is an error, and in a lookup `some none` is "not there".
pub record Systems : Type 0 where
  pub has_sonarr : Bool
  pub has_radarr : Bool
  pub has_seerr : Bool
  pub has_jellyfin : Bool
  pub series_by_tvdb_id : ℕ → Option (Option ArrTitle)
  pub series_by_id : ℕ → Option (Option ArrTitle)
  pub movie_by_tmdb_id : ℕ → Option (Option ArrTitle)
  pub movie_by_id : ℕ → Option (Option ArrTitle)
  pub recycle_bin : Option (Text × ℕ)
  pub queue : Option (List QueueEntry)
  pub media_id : RequestType → ℕ → Option ℕ
  pub sessions : Option (List Session)
  pub paths_by_name : Text → Option (List Text)
  pub delete_queue_item : ℕ → Deletion
  pub delete_title : ℕ → Bool
  pub delete_media : ℕ → Bool
  pub delete_request : ℕ → Bool
  pub refresh_library : Bool

pub data Warning : Type 0 where
  not_configured : Arr → Warning
  recycle_bin_unknown seerr_failed sessions_unavailable : Warning

pub record RemovalPlan : Type 0 where
  pub title : Text
  pub media_type : RequestType
  pub arr : Arr
  pub arr_id : ℕ
  pub path : Text
  pub files : ℕ
  pub size_bytes : ℕ
  pub seasons : ℕ
  pub downloads : List Text
  pub recycle_bin : Text
  pub recycle_days : ℕ
  pub viewers : List Text
  pub warnings : List Warning
  pub request_ids : List ℕ
  pub seerr_ids : List ℕ
  pub seerr_media : ℕ
  pub arr_ids : List ℕ
  pub queue_ids : List ℕ
  pub tmdb_id : ℕ

pub data RemovalError : Type 0 where
  not_found arr_lookup_failed queue_failed being_watched downloads_failed deletion_failed :
      RemovalError

pub data Result (A : Type 0) : Type 0 where
  ok : A → Result A
  err : RemovalError → Result A

infixl 5 ◌>>=◌
abbrev pub ◌>>=◌ : {A B : Type 0} → Result A → (A → Result B) → Result B
ok a >>= f = f a
err e >>= f = err e
