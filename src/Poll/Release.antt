-- ===== src/Poll/Release.antt =====
-- backend/internal/poll/release.go: movies that cannot be grabbed yet are marked with the date at which
-- they are expected. Radarr's answers are a parameter. A time is its seconds, 0 for the zero time, and
-- a day is one of UTC.
pub mod Settled
pub mod Outcome
use journarr.Base.{
  ℕ, ◌/◌, Bool, true, false, not, ◌&&◌, Option, none, some, List, [], ◌∷◌, ◌++◌, ◌==◌, ltb,
  if◌then◌else◌, maybe, is_some, or_else,
}
use journarr.Store.Rows.{Db, MediaItem}
use journarr.Store.Removal.{given, in_list}
use journarr.Store.Stuck.{movies_for_release_check, set_awaiting_release, clear_awaiting_release}

-- MovieRelease.
pub record MovieRelease : Type 0 where
  pub has_file : Bool
  pub is_available : Bool
  pub digital_release : Option ℕ
  pub physical_release : Option ℕ
  pub in_cinemas : Option ℕ

unfoldable pub expected_release : MovieRelease → Option ℕ
expected_release mv =
    or_else (given mv.digital_release) (or_else (given mv.physical_release) (given mv.in_cinemas))

abbrev pub wait_until : MovieRelease → ℕ → Option ℕ → Option ℕ × Bool
wait_until mv now none = (none, true)
wait_until mv now (some when) =
    if ltb now when
    then (some when, true)
    else if not mv.is_available
    then (some when, true)
    else (none, false)

unfoldable pub release_wait : Option MovieRelease → ℕ → Option ℕ × Bool
unfolding expected_release
release_wait none now = (none, false)
release_wait (some mv) now =
    if mv.has_file then (none, false) else wait_until mv now (expected_release mv)

-- 9999-01-01.
abbrev pub tba_sentinel : ℕ
tba_sentinel = 253370764800

abbrev pub same_day : ℕ → ℕ → Bool
same_day a b = a / 86400 == b / 86400

abbrev pub is_same_day : Option ℕ → ℕ → Bool
is_same_day none b = false
is_same_day (some a) b = same_day a b

-- What the loop writes for an item.
pub data Mark : Type 0 where
  keep : Mark
  clear : Mark
  stamp : ℕ → Mark

abbrev pub mark_for : Option ℕ → Option ℕ → Bool → Mark
mark_for awaiting when false = if is_some awaiting then clear else keep
mark_for awaiting none true = if is_some awaiting then keep else stamp tba_sentinel
mark_for awaiting (some when) true = if is_same_day awaiting when then keep else stamp when

abbrev pub mark_after : Option ℕ → Option ℕ × Bool → Mark
mark_after awaiting r = mark_for awaiting r.0 r.1

-- LookupMovieByTmdb: `none` is an error, `some none` no movie.
abbrev pub Lookup : Type 0
Lookup = ℕ → Option (Option MovieRelease)

unfoldable pub mark_of : ℕ → Lookup → MediaItem → Mark
unfolding release_wait
mark_of now lookup it =
    maybe it.tmdb_id keep
      λ tmdb. maybe (lookup tmdb) keep λ mv. mark_after it.awaiting_release_at (release_wait mv now)

abbrev pub add_changed : Option ℕ → List ℕ → List ℕ
add_changed none ids = ids
add_changed (some id) ids = if in_list ids id then ids else ids ++ id ∷ []

-- The database, and the requests in `changed`.
pub record Marking : Type 0 where
  pub db : Db
  pub changed : List ℕ

abbrev pub write_mark : MediaItem → Mark → Marking → Marking
write_mark it keep s = s
write_mark it clear s = record {
  db = clear_awaiting_release it.id s.db;
  changed = add_changed it.request_id s.changed;
}
write_mark it (stamp at) s = record {
  db = set_awaiting_release it.id at s.db;
  changed = add_changed it.request_id s.changed;
}

unfoldable pub check_movies : ℕ → Lookup → List MediaItem → Marking → Marking
unfolding mark_of set_awaiting_release clear_awaiting_release
check_movies now lookup [] s = s
check_movies now lookup (it ∷ its) s =
    check_movies now lookup its (write_mark it (mark_of now lookup it) s)

-- pass: what it leaves, and the requests whose change it publishes.
unfoldable pub pass : Lookup → Db → Marking
unfolding check_movies movies_for_release_check
pass lookup db =
    check_movies db.now lookup (movies_for_release_check db) (record { db = db; changed = [] })
