-- ===== src/Flow/Announcements.antt =====
-- The completion notices of execNotify (backend/internal/flow/controller.go): an upgrade or a retry
-- that reaches the stage again must not send a second message.
use journarr.Base.{◌≡◌, false, List, [], ◌∷◌, ◌++◌, All}
use journarr.Store.Rows.{Db}
use journarr.Store.Transitions.{is_notified_item}
use journarr.Actions.Clients.{Clients}
use journarr.Flow.Controller.{Controller, Notification}

-- A notice about items of which no transition to 'notified' is recorded.
abbrev pub IsNew : Db → Notification → Type 0
IsNew db n = All (λ id. is_notified_item n.request_id id db ≡ false) n.announced

-- At most one notice is handed to the notifier, and it is about such items.
pub data Asked (db : Db) (before : List Notification) : List Notification → Type 0 where
  nothing : Asked db before before
  notice : (n : Notification) → IsNew db n → Asked db before (before ++ n ∷ [])
