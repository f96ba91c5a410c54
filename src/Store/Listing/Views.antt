-- ===== src/Store/Listing/Views.antt =====
-- The views of the requests (backend/internal/store/requests.go) against each other.
use journarr.Base.{
  ℕ, ◌+◌, ◌≡◌, refl, Bool, true, false, not, ◌&&◌, List, [], ◌∷◌, if◌then◌else◌, length, select,
  Bool-cases, inl, inr, Text, text, text_eq, arith,
}
use journarr.Store.Stages.{RequestStatus, active, completed, partial, failed, canceled}
use journarr.Store.Rows.{Db, Request}
use journarr.Store.Listing.{status_text, is_awaiting, is_finished, in_view, has_title, matching}

abbrev bit : Bool → ℕ
bit b = if b then 1 else 0

-- The status decides, where the request does not wait.
status_view : RequestStatus → Bool → Bool → ℕ
status_view s w t =
    bit (w && t)
    + (bit ((is_finished s && not w) && t)
        + (bit ((text_eq (status_text s) (text "active") && not w) && t)
            + bit ((text_eq (status_text s) (text "partial") && not w) && t)))

one_view : (s : RequestStatus) (w t : Bool) → status_view s w t ≡ bit t
unfolding status_view status_text
one_view active true true = refl
one_view active true false = refl
one_view active false true = refl
one_view active false false = refl
one_view completed w t = ground arith
one_view partial w t = ground arith
one_view failed w t = ground arith
one_view canceled w t = ground arith

length-select :
    (p : Request → Bool) (x : Request) (xs : List Request)
    → length (select p (x ∷ xs)) ≡ bit (p x) + length (select p xs)
length-select p x xs = elim (Bool-cases (p x)) [
  | inl e ↦ rw e (omega arith)
  | inr e ↦ rw e (omega arith)
]

regroup :
    (a b c d t v w x y z : ℕ)
    → a + (b + (c + d)) ≡ t
    → v + (w + (x + y)) ≡ z
    → (a + v) + ((b + w) + ((c + x) + (d + y))) ≡ t + z
regroup a b c d t v w x y z h g = omega arith

abbrev shown : Text → Text → Db → Request → Bool
shown status q db r = in_view status db r && has_title q r

counted :
    (q : Text) (db : Db) (rs : List Request)
    → length (select (shown (text "waiting") q db) rs)
        + (length (select (shown (text "done") q db) rs)
            + (length (select (shown (text "active") q db) rs)
                + length (select (shown (text "partial") q db) rs)))
      ≡ length (select (shown (text "all") q db) rs)
unfolding in_view status_view
counted q db [] = refl
counted q db (r ∷ rs) =
    let one = one_view r.status (is_awaiting db r) (has_title q r) in
    let rest = counted q db rs in
    rw
      (
        length-select (shown (text "waiting") q db) r rs,
        length-select (shown (text "done") q db) r rs,
        length-select (shown (text "active") q db) r rs,
        length-select (shown (text "partial") q db) r rs,
        length-select (shown (text "all") q db) r rs,
      )
      (regroup (bit (shown (text "waiting") q db r)) (bit (shown (text "done") q db r))
        (bit (shown (text "active") q db r)) (bit (shown (text "partial") q db r)) _ _ _ _ _ _ one
        rest)

-- Whatever title is searched for, the views Waiting, Done, Active and Partial together show as many
-- requests as the view of all.
pub matching-views :
    (q : Text) (db : Db)
    → length (matching (text "waiting") q db)
        + (length (matching (text "done") q db)
            + (length (matching (text "active") q db) + length (matching (text "partial") q db)))
      ≡ length (matching (text "all") q db)
unfolding matching
matching-views q db = counted q db db.requests
