-- ===== src/Actions/Resend/Offered.antt =====
-- The offer to send a notice again, against what the flow controller would send.
use journarr.Base.{
  ℕ, ◌≡◌, refl, sym, ap, ◌∙◌, Bool, true, false, not, ◌&&◌, Option, none, some, List, [], ◌∷◌,
  if◌then◌else◌, maybe, from_option, exists, select, exists-select, exists-ext, ◌||◌, if_case,
  is_empty, Text, text, text_eq, arith,
}
use journarr.Store.Stages.{stage_key}
use journarr.Store.Rows.{Db, MediaItem}
use journarr.Store.Items.{items_for_request}
use journarr.Store.Tasks.{lookup}
use journarr.Store.Transitions.{is_notified_item}
use journarr.Flow.Settings.{get, notify_stage}
use journarr.Flow.Controller.{is_at, pending_items, items_to_send}
use journarr.Actions.Resend.{resend_stage, has_unannounced}

abbrev pub is_filled : List MediaItem → Bool
is_filled [] = false
is_filled (m ∷ ms) = true

is_filled-select :
    (q : MediaItem → Bool) (ms : List MediaItem) → is_filled (select q ms) ≡ exists q ms
is_filled-select q [] = refl
is_filled-select q (m ∷ ms) =
    if_case (λ (xs : List MediaItem). is_filled xs ≡ (q m || exists q ms)) (q m) (λ e. ground arith)
      (λ e. is_filled-select q ms ∙ ground arith)

same_default :
    (o : Option Text)
    → maybe o true (λ v. not (is_empty v)) ≡ true
    → (if is_empty (from_option [] o) then text "available" else from_option [] o)
      ≡ from_option (text "available") o
same_default none h = refl
same_default (some []) h = absurd (cc)
same_default (some (c ∷ s)) h = refl

-- Where the stage of the notices is not set to the empty text, a notice is offered to be sent again
-- exactly where the flow controller, with the settings of the table, has an item to announce.
pub has_unannounced-items_to_send :
    (id : ℕ) (db : Db)
    → maybe (lookup (text "notify_stage") db.settings) true (λ v. not (is_empty v)) ≡ true
    → has_unannounced id db ≡ is_filled (items_to_send db.settings id db)
unfolding has_unannounced items_to_send pending_items is_at resend_stage notify_stage get
has_unannounced-items_to_send id db set =
    let items = items_for_request id db in
    let fresh = λ (m : MediaItem). not (is_notified_item id m.id db) in
    exists-ext (λ m. text_eq (stage_key m.current_stage) (resend_stage db) && fresh m)
      (λ m. is_at db.settings m && fresh m) items
      (λ m.
        ap (λ (s : Text). text_eq (stage_key m.current_stage) s && fresh m)
          (same_default (lookup (text "notify_stage") db.settings) set))
    ∙ sym (
        is_filled-select fresh (select (is_at db.settings) items)
        ∙ exists-select fresh (is_at db.settings) items)
