-- ===== src/Actions/Menu.antt =====
-- backend/internal/actions/registry.go: which actions the web page offers, and the search of a season.
-- The registry of instances is a parameter; labels and the ids of the descriptors are left out.
pub mod Honest
use journarr.Base.{
  ℕ, Bool, true, false, not, ◌&&◌, ◌||◌, Option, none, some, List, [], ◌∷◌, ◌++◌, ◌==◌, leb, ltb,
  if◌then◌else◌, maybe, map, exists, first, is_some, opt_is, Text,
}
use journarr.Store.Stages.{episode_item, item_type_eq}
use journarr.Store.Rows.{Db, MediaItem}
use journarr.Store.Items.{items_for_request}
use journarr.Store.Requests.{get_request}
use journarr.Store.Removal.{in_list}
use journarr.Store.Tasks.{is_open}
use journarr.Actions.Resend.{has_unannounced}

-- The instances of a capability, and whether one can send notices or search a season.
pub record Registry : Type 0 where
  pub library_scanners : List Text
  pub transcode_scanners : List Text
  pub transcode_pausers : List Text
  pub sends_notices : Bool
  pub searches_seasons : Bool

pub data Scope : Type 0 where
  global_scope request_scope other_scope : Scope

pub data Action : Type 0 where
  library_scan transcode_scan transcode_pause transcode_resume : Text → Action
  cancel_action resend_action : ℕ → Action
  season_action : ℕ → ℕ → Action

abbrev pub pause_and_resume : List Text → List Action
pause_and_resume [] = []
pause_and_resume (i ∷ is) = transcode_pause i ∷ transcode_resume i ∷ pause_and_resume is

abbrev pub global_actions : Registry → List Action
global_actions reg =
    map library_scan reg.library_scanners
    ++ (map transcode_scan reg.transcode_scanners ++ pause_and_resume reg.transcode_pausers)

abbrev pub season_of : MediaItem → Option ℕ
season_of m = if item_type_eq m.media_type episode_item then m.season_number else none

-- The seasons of the episodes, each once and in order.
abbrev pub insert_season : ℕ → List ℕ → List ℕ
insert_season n [] = n ∷ []
insert_season n (s ∷ ss) =
    let rest = insert_season n ss in
    if n == s then s ∷ ss else if ltb n s then n ∷ s ∷ ss else s ∷ rest

unfoldable pub seasons_of : List MediaItem → List ℕ
seasons_of [] = []
seasons_of (m ∷ ms) = let rest = seasons_of ms in maybe (season_of m) rest λ n. insert_season n rest

unfoldable pub request_actions : Registry → ℕ → Db → List Action
unfolding get_request has_unannounced seasons_of items_for_request
request_actions reg id db = maybe (get_request id db) [] λ r.
    (if is_open r.status then cancel_action id ∷ [] else [])
    ++ ((if reg.sends_notices && has_unannounced id db then resend_action id ∷ [] else [])
        ++ (if reg.searches_seasons
            then map (season_action id) (seasons_of (items_for_request id db))
            else []))

-- Available; `none` for an instance without a registry.
unfoldable pub available_actions : Option Registry → Scope → ℕ → Db → List Action
unfolding request_actions
available_actions none scope id db = []
available_actions (some reg) global_scope id db = global_actions reg
available_actions (some reg) request_scope id db = request_actions reg id db
available_actions (some reg) other_scope id db = []

pub data SeasonSearch : Type 0 where
  no_sonarr no_series : SeasonSearch
  searched : Bool → ℕ → ℕ → SeasonSearch

abbrev pub has_series : MediaItem → Bool
has_series m = maybe m.sonarr_series_id false λ id. ltb 0 id

-- SeasonSearch; `accepts` is whether Sonarr takes the command.
unfoldable pub season_search : Bool → (ℕ → ℕ → Bool) → ℕ → ℕ → Db → SeasonSearch
unfolding items_for_request
season_search has_sonarr accepts id season db =
    if not has_sonarr
    then no_sonarr
    else maybe (first has_series (items_for_request id db)) no_series
        λ m. maybe m.sonarr_series_id no_series λ s. searched (accepts s season) s season
