-- ===== src/Actions/Menu/Honest.antt =====
-- What the web page offers against what the actions accept.
use journarr.Base.{
  ℕ, ◌≡◌, refl, ◌∙◌, Bool, true, false, ◌&&◌, some, List, [], ◌∷◌, ◌++◌, if◌then◌else◌, map, select,
  ap, if_case, Option-cases, inl, inr,
}
use journarr.Store.Items.{items_for_request}
use journarr.Store.Requests.{get_request}
use journarr.Actions.Clients.{Clients, Intervention}
use journarr.Store.Tasks.{is_open}
use journarr.Actions.Cancel.{cancel}
use journarr.Actions.Resend.{has_unannounced}
use journarr.Actions.Menu.{
  Registry, Action, cancel_action, resend_action, season_action, request_scope, seasons_of,
  request_actions, available_actions,
}

abbrev pub is_cancel : Action → Bool
is_cancel (cancel_action id) = true
is_cancel _ = false

no_season_cancels : (id : ℕ) (ns : List ℕ) → select is_cancel (map (season_action id) ns) ≡ []
no_season_cancels id [] = refl
no_season_cancels id (n ∷ ns) = no_season_cancels id ns

-- Behind the offer to cancel no other one comes.
nothing_else :
    (id : ℕ) (notices searches : Bool) (ns : List ℕ)
    → select is_cancel (
        (if notices then resend_action id ∷ [] else [])
        ++ (if searches then map (season_action id) ns else []))
      ≡ []
nothing_else id true true ns = no_season_cancels id ns
nothing_else id true false ns = refl
nothing_else id false true ns = no_season_cancels id ns
nothing_else id false false ns = refl

offered :
    (id : ℕ) (undone notices searches : Bool) (ns : List ℕ)
    → select is_cancel (
        (if undone then cancel_action id ∷ [] else [])
        ++ ((if notices then resend_action id ∷ [] else [])
            ++ (if searches then map (season_action id) ns else [])))
      ≡ (if undone then cancel_action id ∷ [] else [])
offered id true notices searches ns =
    ap (◌∷◌ (cancel_action id)) (nothing_else id notices searches ns)
offered id false notices searches ns = nothing_else id notices searches ns

-- Where the instances of the registry are known, the offers to cancel that a request has are none
-- where Cancel would refuse it, and where Cancel would accept it one, that of the request itself,
-- whatever the clients answer.
pub available_actions-cancel :
    (reg : Registry) (c : Clients) (id : ℕ) (s : Intervention)
    → select is_cancel (available_actions (some reg) request_scope id s.db)
      ≡ (if (cancel c id s).0 then cancel_action id ∷ [] else [])
unfolding available_actions request_actions cancel
available_actions-cancel reg c id s = elim (Option-cases (get_request id s.db)) [
  | inl e ↦ rw e refl
  | inr (r, e) ↦ rw e (
      offered id (is_open r.status) (reg.sends_notices && has_unannounced id s.db)
        reg.searches_seasons (seasons_of (items_for_request id s.db))
      ∙ if_case
          (λ (x : Bool × Intervention).
            (if is_open r.status then cancel_action id ∷ [] else [])
            ≡ (if x.0 then cancel_action id ∷ [] else []))
          (is_open r.status) (λ h. rw h refl) (λ h. rw h refl))
]
