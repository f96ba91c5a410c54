-- ===== src/Poll/Release/Settled.antt =====
-- A pass of backend/internal/poll/release.go as one update of the items that it looks at, and what is
-- left for a second pass.
use journarr.Base.{
  update-and, update-same, write_each, write_each-select, IsDistinct-of_count, ℕ, ◌≤◌, ◌≡◌, refl,
  sym, ap, ◌∙◌, subst, inl, inr, Bool, true, false, Option, none, some, List, [], ◌∷◌, arith, ◌==◌,
  if◌then◌else◌, Bool-cases, Option-cases, is_some, if_case, select, update, count, All,
}
use journarr.Store.Rows.{Db, MediaItem}
use journarr.Store.Items.{is_request_active}
use journarr.Store.Stuck.{
  may_wait, movies_for_release_check, set_awaiting_release, clear_awaiting_release,
}
use journarr.Poll.Release.{
  MovieRelease, release_wait, Mark, keep, clear, stamp, mark_after, Lookup, mark_of, Marking,
  write_mark, check_movies, pass,
}

-- What a mark makes of a row.
abbrev pub settle : Mark → MediaItem → MediaItem
settle keep m = m
settle clear m = record m { awaiting_release_at = none }
settle (stamp at) m = record m { awaiting_release_at = some at; stuck_since = none }

settle-id : (mark : Mark) (m : MediaItem) → (settle mark m).id ≡ m.id
settle-id keep m = refl
settle-id clear m = refl
settle-id (stamp at) m = refl

settle-tmdb_id : (mark : Mark) (m : MediaItem) → (settle mark m).tmdb_id ≡ m.tmdb_id
settle-tmdb_id keep m = refl
settle-tmdb_id clear m = refl
settle-tmdb_id (stamp at) m = refl

-- A row without a date is as the clearing leaves it.
cleared-row :
    (m : MediaItem) (o : Option ℕ)
    → m.awaiting_release_at ≡ o
    → (if is_some o then record m { awaiting_release_at = none } else m)
      ≡ record m { awaiting_release_at = none }
cleared-row m none e = ap (λ (o : Option ℕ). record m { awaiting_release_at = o }) e
cleared-row m (some at) e = refl

write_mark-items :
    (t : MediaItem) (mark : Mark) (s : Marking)
    → (write_mark t mark s).db
      ≡ record s.db { items = update (λ (m : MediaItem). m.id == t.id) (settle mark) s.db.items }
unfolding clear_awaiting_release set_awaiting_release
write_mark-items t keep s =
    ap (λ (xs : List MediaItem). record s.db { items = xs })
      (sym (update-same (λ (m : MediaItem). m.id == t.id) s.db.items))
write_mark-items t clear s =
    ap (λ (xs : List MediaItem). record s.db { items = xs })
      (update-and (λ (m : MediaItem). m.id == t.id)
        (λ (m : MediaItem). is_some m.awaiting_release_at) (settle clear) (settle clear)
        (λ m. cleared-row m m.awaiting_release_at refl) s.db.items)
write_mark-items t (stamp at) s = refl

module _ (now : ℕ) (lookup : Lookup) where
  abbrev mark : MediaItem → Mark
  mark m = mark_of now lookup m

  abbrev write : MediaItem → MediaItem → MediaItem
  write t m = settle (mark t) m

  check_movies-items :
      (ts : List MediaItem) (s : Marking)
      → (check_movies now lookup ts s).db
        ≡ record s.db { items = write_each (λ (m : MediaItem). m.id) write ts s.db.items }
  unfolding check_movies
  check_movies-items [] s = refl
  check_movies-items (t ∷ ts) s =
      check_movies-items ts (write_mark t (mark t) s)
      ∙ ap
          (λ (db : Db). record db {
            items = write_each (λ (m : MediaItem). m.id) write ts db.items;
          })
          (write_mark-items t (mark t) s)

  -- What the source writes is what it would leave as it is.
  mark_after-settle :
      (m : MediaItem) (awaiting : Option ℕ) (r : Option ℕ × Bool)
      → m.awaiting_release_at ≡ awaiting
      → mark_after (settle (mark_after awaiting r) m).awaiting_release_at r ≡ keep
  mark_after-settle m none (when, false) e = rw e refl
  mark_after-settle m (some at) (when, false) e = refl
  mark_after-settle m none (none, true) e = refl
  mark_after-settle m (some at) (none, true) e = rw e refl
  mark_after-settle m none (some when, true) e = ground arith
  mark_after-settle m (some at) (some when, true) e = ground arith

  mark_at :
      (m : MediaItem) (tmdb : ℕ) (mv : Option MovieRelease)
      → m.tmdb_id ≡ some tmdb
      → lookup tmdb ≡ some mv
      → mark m ≡ mark_after m.awaiting_release_at (release_wait mv now)
  unfolding mark_of
  mark_at m tmdb mv e l = rw (e, l) refl

  unmarked_row : (m : MediaItem) → mark m ≡ keep → mark (settle (mark m) m) ≡ keep
  unmarked_row m k = subst (λ (x : Mark). mark (settle x m) ≡ keep) (sym k) k

  mark_of-settle : (m : MediaItem) → mark (settle (mark m) m) ≡ keep
  unfolding mark_of
  mark_of-settle m = elim (Option-cases m.tmdb_id) [
    | inl e ↦ unmarked_row m (rw e refl)
    | inr (tmdb, e) ↦ elim (Option-cases (lookup tmdb)) [
      | inl l ↦ unmarked_row m (rw (e, l) refl)
      | inr (mv, l) ↦
          let r = release_wait mv now in
          mark_at (settle (mark m) m) tmdb mv (settle-tmdb_id (mark m) m ∙ e) l
          ∙ subst (λ (x : Mark). mark_after (settle x m).awaiting_release_at r ≡ keep)
              (sym (mark_at m tmdb mv e l)) (mark_after-settle m m.awaiting_release_at r refl)
    ]
  ]

  unmarked :
      (ts : List MediaItem) (s : Marking)
      → All (λ t. mark t ≡ keep) ts
      → check_movies now lookup ts s ≡ s
  unfolding check_movies
  unmarked [] s h = refl
  unmarked (t ∷ ts) s h = rw h.0 (unmarked ts s h.1)

  -- The rows that the next scan finds are those that were written.
  settled :
      (q : MediaItem → Bool) (xs : List MediaItem)
      → All (λ t. mark t ≡ keep) (select q (update q (λ m. settle (mark m) m) xs))
  settled q [] = tt
  settled q (x ∷ xs) = elim (Bool-cases (q x)) [
    | inl e ↦ rw e (
        if_case (All (λ t. mark t ≡ keep)) (q (settle (mark x) x))
          (λ _. (mark_of-settle x, settled q xs)) (λ _. settled q xs))
    | inr e ↦ rw (e, e) (settled q xs)
  ]

-- Where ids are unique, a pass marks, clears or keeps each movie that it looks at by what Radarr says
-- of it, and touches nothing else; the loop over the items that were read first is one update of the table.
pub pass-items :
    (lookup : Lookup) (db : Db)
    → ((id : ℕ) → count (λ (m : MediaItem). m.id == id) db.items ≤ 1)
    → (pass lookup db).db ≡ record db {
      items = update (may_wait db) (λ m. settle (mark_of db.now lookup m) m) db.items;
    }
unfolding pass movies_for_release_check
pass-items lookup db unique =
    check_movies-items db.now lookup (select (may_wait db) db.items)
      (record { db = db; changed = [] })
    ∙ ap (λ (xs : List MediaItem). record db { items = xs })
        (write_each-select (λ (m : MediaItem). m.id) (write db.now lookup) (may_wait db)
          (λ a b. settle-id (mark_of db.now lookup a) b) db.items
          (IsDistinct-of_count (λ (m : MediaItem). m.id) db.items unique))

-- Where ids are unique, a second pass at the same time, where Radarr says the same, writes and
-- publishes nothing.
pub pass_again :
    (lookup : Lookup) (db : Db)
    → ((id : ℕ) → count (λ (m : MediaItem). m.id == id) db.items ≤ 1)
    → let db' = (pass lookup db).db in pass lookup db' ≡ record { db = db'; changed = [] }
unfolding pass movies_for_release_check may_wait is_request_active
pass_again lookup db unique =
    let q = may_wait db in
    let xs = update q (λ m. settle (mark_of db.now lookup m) m) db.items in
    rw (pass-items lookup db unique) (
      unmarked db.now lookup (select q xs) (record { db = record db { items = xs }; changed = [] })
        (settled db.now lookup q db.items))
