-- ===== src/Actions/Remove/Buried.antt =====
-- The tombstones that a removal of backend/internal/actions/remove.go leaves, by which late webhooks of
-- the title are told.
use journarr.Base.{
  ℕ, ◌≡◌, refl, ◌∙◌, subst, inl, inr, Bool, true, false, ◌&&◌, Option, none, some, List, [], ◌∷◌,
  arith, ◌==◌, ==_iff, Bool-cases, opt_is, exists, Text, exists-append,
}
use journarr.Pipeline.Ops.{Arr, sonarr, radarr}
use journarr.Store.Rows.{Db, Removed}
use journarr.Store.Removal.{
  purge_requests, delete_requests, bury_series, bury_movies, bury_requests, add_removed,
  is_arr_removed, arr_is, in_list,
}
use journarr.Actions.RemovalPlan.{Systems, RemovalPlan, ok, plan_removal}
use journarr.Actions.Remove.{Removal, tombstone, remove}
use journarr.Actions.Remove.Cascade.{may_remove, remove_lem}

abbrev is_tombstone : Arr → ℕ → Removed → Bool
is_tombstone arr id x = arr_is arr x.arr && opt_is id x.arr_id

abbrev IsBuried : Arr → ℕ → Db → Type 0
IsBuried arr id db = exists (is_tombstone arr id) db.removed ≡ true

module _ (arr : Arr) (id : ℕ) where
  keeps :
      (a : Option Arr) (n s : Option ℕ) (title : Text) (db : Db)
      → IsBuried arr id db
      → IsBuried arr id (add_removed a n s title db)
  keeps a n s title db h = rw (exists-append (is_tombstone arr id) db.removed (_ ∷ []), h)

  bury_series-keeps :
      (ids : List ℕ) (title : Text) (db : Db)
      → IsBuried arr id db
      → IsBuried arr id (bury_series ids title db)
  unfolding bury_series
  bury_series-keeps [] title db h = h
  bury_series-keeps (n ∷ ids) title db h =
      bury_series-keeps ids title (add_removed (some sonarr) (some n) none title db)
        (keeps (some sonarr) (some n) none title db h)

  bury_movies-keeps :
      (ids : List ℕ) (title : Text) (db : Db)
      → IsBuried arr id db
      → IsBuried arr id (bury_movies ids title db)
  unfolding bury_movies
  bury_movies-keeps [] title db h = h
  bury_movies-keeps (n ∷ ids) title db h =
      bury_movies-keeps ids title (add_removed (some radarr) (some n) none title db)
        (keeps (some radarr) (some n) none title db h)

  bury_requests-keeps :
      (ids : List ℕ) (title : Text) (db : Db)
      → IsBuried arr id db
      → IsBuried arr id (bury_requests ids title db)
  unfolding bury_requests
  bury_requests-keeps [] title db h = h
  bury_requests-keeps (n ∷ ids) title db h =
      bury_requests-keeps ids title (add_removed none none (some n) title db)
        (keeps none none (some n) title db h)

added :
    (arr : Arr) (n : ℕ) (title : Text) (db : Db)
    → IsBuried arr n (add_removed (some arr) (some n) none title db)
added sonarr n title db = exists-append (is_tombstone sonarr n) db.removed (_ ∷ []) ∙ ground arith
added radarr n title db = exists-append (is_tombstone radarr n) db.removed (_ ∷ []) ∙ ground arith

bury_series_lem :
    (ids : List ℕ) (id : ℕ) (title : Text) (db : Db)
    → in_list ids id ≡ true
    → IsBuried sonarr id (bury_series ids title db)
unfolding bury_series
bury_series_lem [] id title db h = cc
bury_series_lem (n ∷ ids) id title db h = elim (Bool-cases (n == id)) [
  | inl e ↦
      bury_series-keeps sonarr id ids title (add_removed (some sonarr) (some n) none title db) (
        subst (λ k. IsBuried sonarr k (add_removed (some sonarr) (some n) none title db))
          ((==_iff n id).0 e) (added sonarr n title db))
  | inr e ↦ bury_series_lem ids id title _ (ground arith)
]

bury_movies_lem :
    (ids : List ℕ) (id : ℕ) (title : Text) (db : Db)
    → in_list ids id ≡ true
    → IsBuried radarr id (bury_movies ids title db)
unfolding bury_movies
bury_movies_lem [] id title db h = cc
bury_movies_lem (n ∷ ids) id title db h = elim (Bool-cases (n == id)) [
  | inl e ↦
      bury_movies-keeps radarr id ids title (add_removed (some radarr) (some n) none title db) (
        subst (λ k. IsBuried radarr k (add_removed (some radarr) (some n) none title db))
          ((==_iff n id).0 e) (added radarr n title db))
  | inr e ↦ bury_movies_lem ids id title _ (ground arith)
]

-- The three loops of a purge, whatever was deleted before.
abbrev bury : RemovalPlan → Arr → Db → Db
bury p arr db =
    let t = tombstone p arr in
    bury_requests t.seerr_request_ids t.title
      (bury_movies t.radarr_movie_ids t.title (bury_series t.sonarr_series_ids t.title db))

bury_lem :
    (p : RemovalPlan) (arr : Arr) (id : ℕ) (db : Db)
    → in_list p.arr_ids id ≡ true
    → IsBuried arr id (bury p arr db)
bury_lem p sonarr id db h =
    bury_requests-keeps sonarr id p.seerr_ids p.title _
      (bury_movies-keeps sonarr id [] p.title _ (bury_series_lem p.arr_ids id p.title db h))
bury_lem p radarr id db h =
    bury_requests-keeps radarr id p.seerr_ids p.title _ (bury_movies_lem p.arr_ids id p.title _ h)

purge_requests-buries :
    (ids : List ℕ) (p : RemovalPlan) (arr : Arr) (id : ℕ) (db : Db)
    → in_list p.arr_ids id ≡ true
    → IsBuried arr id (purge_requests ids (tombstone p arr) db)
unfolding purge_requests
purge_requests-buries [] p arr id db h = bury_lem p arr id db h
purge_requests-buries (i ∷ ids) p arr id db h =
    bury_lem p arr id (delete_requests (0 ∷ i ∷ ids) db) h

-- Behind a removal that goes through, each id of the title at its arr that is not 0 counts as removed,
-- so that its late webhooks are ignored.
pub remove-is_arr_removed :
    (sys : Systems) (id : ℕ) (force : Bool) (r : Removal) (p : RemovalPlan) (arr_id : ℕ)
    → plan_removal sys id r.db ≡ ok p
    → may_remove sys p force ≡ true
    → in_list p.arr_ids arr_id ≡ true
    → (arr_id == 0) ≡ false
    → is_arr_removed p.arr arr_id (remove sys id force r).1.db ≡ true
unfolding is_arr_removed
remove-is_arr_removed sys id force r p arr_id plan may listed given =
    let purged = purge_requests p.request_ids (tombstone p p.arr) r.db in
    let db : (remove sys id force r).1.db ≡ purged =
      (remove_lem sys id force r p plan).1 ∙ rw may refl in
    rw (db, given) (purge_requests-buries p.request_ids p p.arr arr_id r.db listed)
