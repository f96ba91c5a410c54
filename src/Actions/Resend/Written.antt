-- ===== src/Actions/Resend/Written.antt =====
-- What ResendNotify of backend/internal/actions/actions.go writes.
use journarr.Base.{ℕ, Bool, Option, maybe_case}
use journarr.Store.Stages.{notify, request_target}
use journarr.Store.Rows.{Db}
use journarr.Store.Requests.{get_request}
use journarr.Store.Tasks.{notify_task_key}
use journarr.Store.Writes.{Writes, done}
use journarr.Store.Writes.Statements.{of_Elsewhere, enqueue_flow_task-Elsewhere}
use journarr.Actions.Resend.{resend_notify}

pub resend_notify-Writes : (id : ℕ) (db : Db) → Writes db (resend_notify id db).1
unfolding resend_notify
resend_notify-Writes id db =
    maybe_case (λ (r : Option Bool × Db). Writes db r.1) (get_request id db) done
      λ r _.
        of_Elsewhere
          (enqueue_flow_task-Elsewhere notify request_target id (notify_task_key id) db.now db)
