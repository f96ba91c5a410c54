-- ===== src/Tests/Menu.antt =====
-- The actions that backend/internal/actions/registry.go offers, on concrete data.
use journarr.Base.{◌≡◌, refl, true, some, [], ◌∷◌, select, if◌then◌else◌}
use journarr.Store.Items.{upsert_item}
use journarr.Actions.Clients.{Intervention}
use journarr.Actions.Cancel.{cancel}
use journarr.Actions.Menu.{Registry, request_scope, cancel_action, available_actions}
use journarr.Actions.Menu.Honest.{is_cancel, available_actions-cancel}
use journarr.Tests.Samples.{with_item, radarr_only}

abbrev registry : Registry
registry = record {
  library_scanners = [];
  transcode_scanners = [];
  transcode_pausers = [];
  sends_notices = true;
  searches_seasons = true;
}

abbrev intervention : Intervention
intervention = record { db = with_item; calls = [] }

available_actions-cancel_example :
    select is_cancel (available_actions (some registry) request_scope 1 with_item)
    ≡ (if (cancel radarr_only 1 intervention).0 then cancel_action 1 ∷ [] else [])
available_actions-cancel_example = available_actions-cancel registry radarr_only 1 intervention

-- A movie has no season to search, and nothing of it was announced late.
menu : available_actions (some registry) request_scope 1 with_item ≡ cancel_action 1 ∷ []
unfolding available_actions with_item upsert_item
menu = refl
