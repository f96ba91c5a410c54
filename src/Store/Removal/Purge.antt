-- ===== src/Store/Removal/Purge.antt =====
-- What PurgeRequests (backend/internal/store/removal.go) deletes and what it keeps.
use journarr.Base.{
  ℕ, ◌≡◌, refl, ap, ◌∙◌, Bool, true, false, Option, none, some, List, [], ◌∷◌, arith, ◌==◌, ==_iff,
  opt_is, select, exists, Text,
}
use journarr.Store.Rows.{Db, Request}
use journarr.Store.Requests.{of_request}
use journarr.Store.Removal.{
  Tombstone, in_list, opt_in, delete_requests, bury_series, bury_movies, bury_requests,
  purge_requests,
}

-- The database without its tombstones.
abbrev pub unburied : Db → Db
unburied db = record db { removed = [] }

bury_series-unburied :
    (ids : List ℕ) (title : Text) (db : Db) → unburied (bury_series ids title db) ≡ unburied db
unfolding bury_series
bury_series-unburied [] title db = refl
bury_series-unburied (id ∷ ids) title db = bury_series-unburied ids title _

bury_movies-unburied :
    (ids : List ℕ) (title : Text) (db : Db) → unburied (bury_movies ids title db) ≡ unburied db
unfolding bury_movies
bury_movies-unburied [] title db = refl
bury_movies-unburied (id ∷ ids) title db = bury_movies-unburied ids title _

bury_requests-unburied :
    (ids : List ℕ) (title : Text) (db : Db) → unburied (bury_requests ids title db) ≡ unburied db
unfolding bury_requests
bury_requests-unburied [] title db = refl
bury_requests-unburied (id ∷ ids) title db = bury_requests-unburied ids title _

-- Behind the tombstones stands the deletion; 0 is in the list of the ids.
pub purge_requests-unburied :
    (i : ℕ) (ids : List ℕ) (t : Tombstone) (db : Db)
    → unburied (purge_requests (i ∷ ids) t db) ≡ unburied (delete_requests (0 ∷ i ∷ ids) db)
unfolding purge_requests
purge_requests-unburied i ids t db =
    bury_requests-unburied t.seerr_request_ids t.title _
    ∙ bury_movies-unburied t.radarr_movie_ids t.title _
    ∙ bury_series-unburied t.sonarr_series_ids t.title (delete_requests (0 ∷ i ∷ ids) db)

pub none_of_select {ℓ} :
    {A : Type ℓ} (q p : A → Bool) (xs : List A)
    → ((a : A) → q a ≡ true → p a ≡ false)
    → exists q (select p xs) ≡ false
none_of_select q p [] h = refl
none_of_select q p (x ∷ xs) h = ground (arith, h x, none_of_select q p xs h)

pub kept_of_select {ℓ} :
    {A : Type ℓ} (q p : A → Bool) (xs : List A)
    → ((a : A) → q a ≡ true → p a ≡ true)
    → exists q (select p xs) ≡ exists q xs
kept_of_select q p [] h = refl
kept_of_select q p (x ∷ xs) h = ground (arith, h x, kept_of_select q p xs h)

pub same_rows {ℓ} :
    {A : Type ℓ} (q p : A → Bool) (xs : List A)
    → ((a : A) → q a ≡ true → p a ≡ true)
    → select q (select p xs) ≡ select q xs
same_rows q p [] h = refl
same_rows q p (x ∷ xs) h = ground (arith, h x, same_rows q p xs h)

abbrev pub is_request : ℕ → Request → Bool
is_request r q = q.id == r

delete_requests-request :
    (ids : List ℕ) (db : Db) (r : ℕ)
    → (in_list ids r ≡ true → exists (is_request r) (delete_requests ids db).requests ≡ false)
      × (in_list ids r ≡ false
          → select (is_request r) (delete_requests ids db).requests
            ≡ select (is_request r) db.requests)
unfolding delete_requests
delete_requests-request ids db r = (
  λ h. none_of_select _ _ db.requests (λ q e. rw ((==_iff q.id r).0 e, h) refl),
  λ h. same_rows _ _ db.requests (λ q e. rw ((==_iff q.id r).0 e, h) refl),
)

opt_in-opt_is :
    (ids : List ℕ) (r : ℕ) (o : Option ℕ) → opt_is r o ≡ true → opt_in ids o ≡ in_list ids r
opt_in-opt_is ids r none h = cc
opt_in-opt_is ids r (some n) h = ap (in_list ids) ((==_iff n r).0 h)

delete_requests-items :
    (ids : List ℕ) (db : Db) (r : ℕ)
    → (in_list ids r ≡ true → exists (of_request r) (delete_requests ids db).items ≡ false)
      × (in_list ids r ≡ false
          → select (of_request r) (delete_requests ids db).items ≡ select (of_request r) db.items)
unfolding delete_requests
delete_requests-items ids db r = (
  λ h. none_of_select _ _ db.items (λ m e. rw (opt_in-opt_is ids r m.request_id e, h) refl),
  λ h. same_rows _ _ db.items (λ m e. rw (opt_in-opt_is ids r m.request_id e, h) refl),
)

-- A purge leaves no request of its list and no item of one, and leaves the row of every other request
-- and the rows of its items as they were. The list is not empty, and 0 counts as one of its ids.
pub purge_requests_lem :
    (i : ℕ) (ids : List ℕ) (t : Tombstone) (db : Db) (r : ℕ)
    → let db' = purge_requests (i ∷ ids) t db in
      (in_list (0 ∷ i ∷ ids) r ≡ true
        → (exists (is_request r) db'.requests ≡ false) × (exists (of_request r) db'.items ≡ false))
      × (in_list (0 ∷ i ∷ ids) r ≡ false
          → (select (is_request r) db'.requests ≡ select (is_request r) db.requests)
            × (select (of_request r) db'.items ≡ select (of_request r) db.items))
purge_requests_lem i ids t db r =
    let same = purge_requests-unburied i ids t db in
    let (gone, stays) = delete_requests-request (0 ∷ i ∷ ids) db r in
    let (gone_items, stay_items) = delete_requests-items (0 ∷ i ∷ ids) db r in
    let requests_at = ap (λ (d : Db). d.requests) same in
    let items_at = ap (λ (d : Db). d.items) same in
    (
      λ h. (
        ap (exists (is_request r)) requests_at ∙ gone h,
        ap (exists (of_request r)) items_at ∙ gone_items h,
      ),
      λ h. (
        ap (select (is_request r)) requests_at ∙ stays h,
        ap (select (of_request r)) items_at ∙ stay_items h,
      ),
    )
