-- ===== src/Actions/Clients.antt =====
-- What the interventions of backend/internal/actions/actions.go ask of the other services. What the
-- services answer is a parameter; the calls are kept in their order. The audit rows of the table
-- `actions` and the announcement of their results are left out.
use journarr.Base.{ℕ, Bool, Option, List, [], ◌∷◌, ◌++◌, Text}
use journarr.Pipeline.Ops.{Arr, sonarr, radarr}
use journarr.Store.Stages.{ItemType, movie_item, episode_item}
use journarr.Store.Rows.{Db}

-- `clear_queue` deletes every queue record of a client id, with or without a blocklist entry.
pub data Call : Type 0 where
  clear_queue : Arr → Text → Bool → Call
  search_movies : Arr → List ℕ → Call
  search_episodes : Arr → List ℕ → Call
  unmonitor_movie : ℕ → Call
  unmonitor_episodes : List ℕ → Call
  delete_request : ℕ → Call

-- The configured clients; `movie_by_tmdb_id` is `none` for an error and for no movie, `accepts` is
-- whether a command succeeds after the calls so far.
pub record Clients : Type 0 where
  pub has_sonarr : Bool
  pub has_radarr : Bool
  pub has_seerr : Bool
  pub movie_by_tmdb_id : ℕ → Option ℕ
  pub accepts : List Call → Bool

pub record Intervention : Type 0 where
  pub db : Db
  pub calls : List Call

abbrev pub call : Call → Intervention → Intervention
call c s = record s { calls = s.calls ++ c ∷ [] }

abbrev pub write : Db → Intervention → Intervention
write db s = record s { db = db }

-- arrFor with an item's type, and with a download's arr.
abbrev pub arr_of_type : ItemType → Arr
arr_of_type movie_item = radarr
arr_of_type episode_item = sonarr

abbrev pub has_arr : Clients → Arr → Bool
has_arr c sonarr = c.has_sonarr
has_arr c radarr = c.has_radarr
