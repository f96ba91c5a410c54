-- ===== src/Actions/Resend.antt =====
-- ResendNotify of backend/internal/actions/actions.go, and when the web page offers it.
pub mod Offered
pub mod Written
use journarr.Base.{
  ℕ, Bool, true, false, not, ◌&&◌, Option, none, some, List, [], if◌then◌else◌, maybe, from_option,
  exists, is_empty, Text, text, text_eq,
}
use journarr.Store.Stages.{stage_key, notify, request_target}
use journarr.Store.Rows.{Db}
use journarr.Store.Items.{items_for_request}
use journarr.Store.Requests.{get_request}
use journarr.Store.Tasks.{lookup, enqueue_flow_task, notify_task_key}
use journarr.Store.Transitions.{is_notified_item}

-- notifyStage, read from the table; an empty value counts as none.
unfoldable pub resend_stage : Db → Text
unfolding lookup
resend_stage db =
    let stage = from_option [] (lookup (text "notify_stage") db.settings) in
    if is_empty stage then text "available" else stage

-- hasUnannounced.
unfoldable pub has_unannounced : ℕ → Db → Bool
unfolding resend_stage items_for_request is_notified_item
has_unannounced id db =
    exists
      (λ m.
        text_eq (stage_key m.current_stage) (resend_stage db) && not (is_notified_item id m.id db))
      (items_for_request id db)

-- ResendNotify: `none` for a request that is not there, else whether the task is new.
unfoldable pub resend_notify : ℕ → Db → Option Bool × Db
unfolding get_request enqueue_flow_task notify_task_key
resend_notify id db =
    maybe (get_request id db) (none, db)
      λ r.
        let (queued, db') =
          enqueue_flow_task notify request_target id (notify_task_key id) db.now db in
        (some queued, db')
