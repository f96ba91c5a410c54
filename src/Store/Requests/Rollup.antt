-- ===== src/Store/Requests/Rollup.antt =====
-- RecomputeRequestStatus (backend/internal/store/requests.go) derives a request's status from its items.
use journarr.Base.{
  ℕ, ◌≤◌, ◌≡◌, refl, sym, ap, ◌∙◌, ◌↔◌, ◌⊎◌, inl, inr, Bool, true, false, ◌&&◌, none, some, List,
  [], ◌∷◌, arith, ◌==◌, if◌then◌else◌, Bool-cases, Option-cases, exists, count, All, first_sound,
  map_option, count-pos_of_exists, first-update,
}
use journarr.Store.Stages.{RequestStatus, active, completed, partial, failed, canceled}
use journarr.Store.Rows.{Db, MediaItem, Request}
use journarr.Store.Requests.{
  status_eq, is_done, of_request, rollup, derived_status, get_request, set_request_status,
  recompute_request_status,
}

status_eq-eq : (s t : RequestStatus) → status_eq s t ≡ true → s ≡ t
status_eq-eq s t h = ground arith

-- The request after its status was set.
pub set_request_status-get :
    (id : ℕ) (s : RequestStatus) (db : Db) (r : Request)
    → get_request id db ≡ some r
    → (r' : Request) × (get_request id (set_request_status id s db) ≡ some r') × (r'.status ≡ s)
unfolding get_request set_request_status
set_request_status-get id s db r h =
    let f : Request → Request = λ r. record r { status = s; updated_at = db.now } in
    let at =
      first-update (λ (r : Request). r.id == id) (λ (r : Request). r.id == id) f (λ r. refl)
        db.requests in
    let same = first_sound (λ (r : Request). r.id == id) db.requests h in
    (f r, at ∙ ap (map_option _) h ∙ rw same refl, refl)

recomputed-get :
    (id : ℕ) (s : RequestStatus) (db : Db) (r : Request)
    → get_request id db ≡ some r
    → (r' : Request) × (get_request id
          (if status_eq s r.status then db else set_request_status id s db)
        ≡ some r')
      × (r'.status ≡ s)
recomputed-get id s db r h = elim (Bool-cases (status_eq s r.status)) [
  | inl e ↦ rw e (r, h, sym (status_eq-eq s r.status e))
  | inr e ↦ rw e (set_request_status-get id s db r h)
]

-- A request that is there has the derived status afterwards, and that status is reported.
pub recompute_request_status_lem :
    (id : ℕ) (db : Db) (r : Request)
    → get_request id db ≡ some r
    → let (reported, db') = recompute_request_status id db in
      (reported ≡ some (derived_status id r.status db))
      × (r' : Request) × (get_request id db' ≡ some r')
      × (r'.status ≡ derived_status id r.status db)
unfolding recompute_request_status
recompute_request_status_lem id db r h =
    let (r', at, is) = recomputed-get id (derived_status id r.status db) db r h in
    rw h (refl, r', at, is)

counts :
    (id : ℕ) (xs : List MediaItem)
    → count (λ m. of_request id m && is_done m) xs ≤ count (of_request id) xs
counts id [] = omega arith
counts id (x ∷ xs) = ground (arith, counts id xs)

done_of_counts :
    (id : ℕ) (xs : List MediaItem)
    → count (λ m. of_request id m && is_done m) xs ≡ count (of_request id) xs
    → All (λ m. of_request id m ≡ true → is_done m ≡ true) xs
done_of_counts id [] h = tt
done_of_counts id (x ∷ xs) h =
    let le = counts id xs in (λ e. ground arith, done_of_counts id xs (ground arith))

counts_of_done :
    (id : ℕ) (xs : List MediaItem)
    → All (λ m. of_request id m ≡ true → is_done m ≡ true) xs
    → count (λ m. of_request id m && is_done m) xs ≡ count (of_request id) xs
counts_of_done id [] h = refl
counts_of_done id (x ∷ xs) h = elim (Bool-cases (of_request id x)) [
  | inl e ↦ rw (e, h.0 e, counts_of_done id xs h.1) refl
  | inr e ↦ rw (e, counts_of_done id xs h.1) refl
]

-- A status that the items decide.
abbrev pub is_live : RequestStatus → Bool
is_live canceled = false
is_live failed = false
is_live _ = true

derived_live :
    (id : ℕ) (s : RequestStatus) (db : Db)
    → is_live s ≡ true
    → exists (of_request id) db.items ≡ true
    → derived_status id s db ≡ rollup id db
unfolding derived_status
derived_live id active db live h = ground (arith, count-pos_of_exists (of_request id) db.items h)
derived_live id completed db live h = ground (arith, count-pos_of_exists (of_request id) db.items h)
derived_live id partial db live h = ground (arith, count-pos_of_exists (of_request id) db.items h)
derived_live id failed db live h = cc
derived_live id canceled db live h = cc

-- A request with items that has not failed and was not canceled is completed exactly when each of its
-- items has reached 'available' or a later stage, and is active else.
pub derived_status_lem :
    (id : ℕ) (s : RequestStatus) (db : Db)
    → is_live s ≡ true
    → exists (of_request id) db.items ≡ true
    → ((derived_status id s db ≡ completed)
        ↔ All (λ m. of_request id m ≡ true → is_done m ≡ true) db.items)
      × ((derived_status id s db ≡ completed) ⊎ (derived_status id s db ≡ active))
derived_status_lem id s db live h =
    let is = derived_live id s db live h in
    (
      (
        λ e. done_of_counts id db.items (ground arith),
        λ all. let same = counts_of_done id db.items all in ground arith,
      ),
      ground arith,
    )

derived_status_again :
    (id : ℕ) (s : RequestStatus) (a b : Db)
    → b.items ≡ a.items
    → derived_status id (derived_status id s a) b ≡ derived_status id s a
unfolding derived_status
derived_status_again id active a b h = rw h (ground arith)
derived_status_again id completed a b h = rw h (ground arith)
derived_status_again id partial a b h = rw h (ground arith)
derived_status_again id failed a b h = refl
derived_status_again id canceled a b h = refl

recompute_request_status-items :
    (id : ℕ) (db : Db) → (recompute_request_status id db).1.items ≡ db.items
unfolding recompute_request_status set_request_status
recompute_request_status-items id db = ground arith

recompute_missing :
    (id : ℕ) (db : Db) → get_request id db ≡ none → recompute_request_status id db ≡ (none, db)
unfolding recompute_request_status
recompute_missing id db h = rw h refl

status_eq_refl : (s : RequestStatus) → status_eq s s ≡ true
status_eq_refl s = ground arith

recompute_settled :
    (id : ℕ) (db : Db) (r : Request)
    → get_request id db ≡ some r
    → derived_status id r.status db ≡ r.status
    → recompute_request_status id db ≡ (some r.status, db)
unfolding recompute_request_status
recompute_settled id db r h e = rw (h, e, status_eq_refl r.status) refl

-- Deriving the status of a request a second time reports the same status and changes nothing.
pub recompute_request_status_idem :
    (id : ℕ) (db : Db)
    → let (reported, db') = recompute_request_status id db in
      recompute_request_status id db' ≡ (reported, db')
recompute_request_status_idem id db = elim (Option-cases (get_request id db)) [
  | inl e ↦ let same = recompute_missing id db e in rw (same, same) refl
  | inr (r, e) ↦
      let (reported, r', at, is) = recompute_request_status_lem id db r e in
      let db' = (recompute_request_status id db).1 in
      let again = derived_status_again id r.status db db' (recompute_request_status-items id db) in
      recompute_settled id db' r' at (ap (λ s. derived_status id s db') is ∙ again ∙ sym is)
      ∙ ap (λ s. (s, db')) (ap some is ∙ sym reported)
]
