-- ===== src/Pipeline/Projector.antt =====
-- The projector's state (backend/internal/pipeline/projector.go) and `apply` (seerr.go), through which
-- most handlers record a stage.
use journarr.Base.{
  ℕ, Bool, not, ◌&&◌, List, [], ◌∷◌, ◌++◌, ◌==◌, ltb, if◌then◌else◌, maybe, exists, Text,
}
use journarr.Store.Stages.{Stage, Match, RequestStatus}
use journarr.Store.Rows.{Db}
use journarr.Store.Items.{get_media_item}
use journarr.Store.Transitions.{apply_stage}
use journarr.Flow.Settings.{Settings, on_stage_applied}

-- What `Publish` sends to the browsers.
pub data Message : Type 0 where
  media_stage : ℕ → ℕ → Stage → ℕ → Message
  request_updated : ℕ → RequestStatus → Message
  download_progress : ℕ → ℕ → ℕ → Message

pub record FanoutRetry : Type 0 where
  pub request_id : ℕ
  pub tvdb_id : ℕ
  pub seasons : List ℕ
  pub attempts : ℕ
  pub next_at : ℕ

-- `touched` is the set of the requests of one drain, `settings` the cache that OnStage reads.
pub record Projector : Type 0 where
  pub db : Db
  pub settings : Settings
  pub touched : List ℕ
  pub published : List Message
  pub retries : List FanoutRetry
  pub next_sweep : ℕ

-- The four results of a handler.
pub record Outcome : Type 0 where
  pub match : Match
  pub request_id : ℕ
  pub item_id : ℕ
  pub download_id : ℕ

abbrev pub outcome : Match → ℕ → ℕ → ℕ → Outcome
outcome m r i d = record { match = m; request_id = r; item_id = i; download_id = d }

abbrev pub set_db : Db → Projector → Projector
set_db db p = record p { db = db }

unfoldable pub touch : ℕ → Projector → Projector
touch request_id p =
    if ltb 0 request_id && not (exists (λ r. r == request_id) p.touched)
    then record p { touched = p.touched ++ request_id ∷ [] }
    else p

abbrev pub publish : Message → Projector → Projector
publish m p = record p { published = p.published ++ m ∷ [] }

-- Publish, then the hook OnStage.
unfoldable pub publish_stage : ℕ → ℕ → Stage → ℕ → Projector → Projector
unfolding on_stage_applied
publish_stage item request_id stage cycle p =
    let q = publish (media_stage item request_id stage cycle) p in
    set_db (on_stage_applied p.settings request_id stage q.db) q

-- What follows ApplyStage in every handler: a stage that was new is published, and its request
-- touched.
unfoldable pub announce : Bool → ℕ → ℕ → Stage → ℕ → Projector → Projector
unfolding touch publish_stage
announce applied item request_id stage cycle p =
    if applied then touch request_id (publish_stage item request_id stage cycle p) else p

-- ApplyStage in a given cycle, announced.
unfoldable pub apply_in : ℕ → ℕ → ℕ → ℕ → Stage → Text → Projector → Projector
unfolding announce
apply_in item request_id cycle event stage note p =
    maybe (apply_stage item cycle stage event note p.db) p
      λ r. announce r.0 item request_id stage cycle (set_db r.1 p)

-- apply: in the item's current cycle.
unfoldable pub apply : ℕ → ℕ → ℕ → Stage → Text → Projector → Projector
unfolding apply_in
apply item request_id event stage note p =
    if item == 0
    then p
    else maybe (get_media_item item p.db) p
        λ m. apply_in item request_id m.current_cycle event stage note p
