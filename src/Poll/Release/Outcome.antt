-- ===== src/Poll/Release/Outcome.antt =====
-- What a pass of backend/internal/poll/release.go leaves of a movie, by what Radarr says of it.
use journarr.Base.{
  ℕ, ◌/◌, ◌<◌, ◌≤◌, ◌≡◌, ◌≢◌, refl, sym, ap, ◌∙◌, ◌⊎◌, inl, inr, Bool, true, false, Option, none,
  some, arith, ◌==◌, ==_iff, if◌then◌else◌, maybe, is_some, update, count, Option-cases,
}
use journarr.Store.Rows.{Db, MediaItem}
use journarr.Store.Removal.{given}
use journarr.Store.Stuck.{may_wait}
use journarr.Poll.Release.{
  MovieRelease, expected_release, release_wait, keep, clear, mark_after, Lookup, mark_of,
  is_same_day, pass,
}
use journarr.Poll.Release.Settled.{settle, pass-items}

abbrev pub IsMissing : Option ℕ → Type 0
IsMissing date = (date ≡ none) ⊎ (date ≡ some 0)

abbrev pub IsGiven : Option ℕ → ℕ → Type 0
IsGiven date when = (date ≡ some when) × (0 < when)

-- The first date that is given: of the digital release, the physical one, the cinemas.
abbrev pub IsExpected : MovieRelease → ℕ → Type 0
IsExpected mv when =
    IsGiven mv.digital_release when
    ⊎ (IsMissing mv.digital_release
        × (IsGiven mv.physical_release when
            ⊎ (IsMissing mv.physical_release × IsGiven mv.in_cinemas when)))

abbrev pub IsUndated : MovieRelease → Type 0
IsUndated mv =
    IsMissing mv.digital_release × IsMissing mv.physical_release × IsMissing mv.in_cinemas

abbrev pub released : MediaItem → MediaItem
released m = record m { awaiting_release_at = none }

abbrev pub awaiting : ℕ → MediaItem → MediaItem
awaiting at m = record m { awaiting_release_at = some at; stuck_since = none }

-- What Radarr answers for a movie; one without a TMDB id is not asked for.
abbrev pub answer_for : Lookup → MediaItem → Option (Option MovieRelease)
answer_for lookup m = maybe m.tmdb_id none lookup

-- A row before and behind the pass, by the answer.
pub record IsSettled (now : ℕ) (answer : Option (Option MovieRelease)) (m m' : MediaItem)
    : Type 0 where
  pub failed : answer ≡ none → m' ≡ m
  pub unknown : answer ≡ some none → m' ≡ released m
  pub has_file :
      (mv : MovieRelease) → answer ≡ some (some mv) → mv.has_file ≡ true → m' ≡ released m
  pub is_out :
      (mv : MovieRelease) (when : ℕ)
      → answer ≡ some (some mv)
      → IsExpected mv when
      → when ≤ now
      → mv.is_available ≡ true
      → m' ≡ released m
  -- 9999-01-01, the date to be announced.
  pub undated :
      (mv : MovieRelease)
      → answer ≡ some (some mv)
      → mv.has_file ≡ false
      → IsUndated mv
      → m.awaiting_release_at ≡ none
      → m' ≡ awaiting 253370764800 m
  pub undated_again :
      (mv : MovieRelease) (at : ℕ)
      → answer ≡ some (some mv)
      → mv.has_file ≡ false
      → IsUndated mv
      → m.awaiting_release_at ≡ some at
      → m' ≡ m
  -- The date is written where the row has none, or that of another day.
  pub dated :
      (mv : MovieRelease) (when : ℕ)
      → answer ≡ some (some mv)
      → mv.has_file ≡ false
      → IsExpected mv when
      → (now < when) ⊎ (mv.is_available ≡ false)
      → ((at : ℕ) → m.awaiting_release_at ≡ some at → at / 86400 ≢ when / 86400)
      → m' ≡ awaiting when m
  pub dated_again :
      (mv : MovieRelease) (when at : ℕ)
      → answer ≡ some (some mv)
      → mv.has_file ≡ false
      → IsExpected mv when
      → (now < when) ⊎ (mv.is_available ≡ false)
      → m.awaiting_release_at ≡ some at
      → at / 86400 ≡ when / 86400
      → m' ≡ m

given_set : (date : Option ℕ) (when : ℕ) → IsGiven date when → given date ≡ some when
given_set date when (e, pos) = rw e (ground arith)

given_unset : (date : Option ℕ) → IsMissing date → given date ≡ none
given_unset date (inl e) = rw e refl
given_unset date (inr e) = rw e refl

expected_of : (mv : MovieRelease) (when : ℕ) → IsExpected mv when → expected_release mv ≡ some when
unfolding expected_release
expected_of mv when (inl h) = rw (given_set mv.digital_release when h) refl
expected_of mv when (inr (u, inl h)) =
    rw (given_unset mv.digital_release u, given_set mv.physical_release when h) refl
expected_of mv when (inr (u, inr (v, h))) =
    rw
      (
        given_unset mv.digital_release u,
        given_unset mv.physical_release v,
        given_set mv.in_cinemas when h,
      )
      refl

undated_of : (mv : MovieRelease) → IsUndated mv → expected_release mv ≡ none
unfolding expected_release
undated_of mv (u, v, w) =
    rw
      (
        given_unset mv.digital_release u,
        given_unset mv.physical_release v,
        given_unset mv.in_cinemas w,
      )
      refl

-- The four answers of releaseWait.
wait_file :
    (mv : MovieRelease) (now : ℕ) → mv.has_file ≡ true → release_wait (some mv) now ≡ (none, false)
unfolding release_wait
wait_file mv now h = rw h refl

wait_out :
    (mv : MovieRelease) (now when : ℕ)
    → IsExpected mv when
    → when ≤ now
    → mv.is_available ≡ true
    → release_wait (some mv) now ≡ (none, false)
unfolding release_wait
wait_out mv now when e past out = rw (expected_of mv when e, out) (ground arith)

wait_undated :
    (mv : MovieRelease) (now : ℕ)
    → mv.has_file ≡ false
    → IsUndated mv
    → release_wait (some mv) now ≡ (none, true)
unfolding release_wait
wait_undated mv now h u = rw (h, undated_of mv u) refl

wait_dated :
    (mv : MovieRelease) (now when : ℕ)
    → mv.has_file ≡ false
    → IsExpected mv when
    → (now < when) ⊎ (mv.is_available ≡ false)
    → release_wait (some mv) now ≡ (some when, true)
unfolding release_wait
wait_dated mv now when h e (inl early) = rw (h, expected_of mv when e) (ground arith)
wait_dated mv now when h e (inr out) = rw (h, expected_of mv when e, out) (ground arith)

module _ (now : ℕ) (lookup : Lookup) (m : MediaItem) where
  abbrev after : MediaItem
  after = settle (mark_of now lookup m) m

  asked_nothing : answer_for lookup m ≡ none → after ≡ m
  unfolding mark_of
  asked_nothing h = elim (Option-cases m.tmdb_id) [
    | inl e ↦ rw e refl
    | inr (tmdb, e) ↦
        let unanswered : lookup tmdb ≡ none = sym (rw e refl) ∙ h in rw (e, unanswered) refl
  ]

  answered :
      (mv : Option MovieRelease) (r : Option ℕ × Bool)
      → answer_for lookup m ≡ some mv
      → release_wait mv now ≡ r
      → after ≡ settle (mark_after m.awaiting_release_at r) m
  unfolding mark_of
  answered mv r h w = elim (Option-cases m.tmdb_id) [
    | inl e ↦ absurd (cc)
    | inr (tmdb, e) ↦
        let given : lookup tmdb ≡ some mv = sym (rw e refl) ∙ h in rw (e, given, w) refl
  ]

  clearing :
      (o : Option ℕ)
      → m.awaiting_release_at ≡ o
      → settle (if is_some o then clear else keep) m ≡ released m
  clearing none e = ap (λ (o : Option ℕ). record m { awaiting_release_at = o }) e
  clearing (some at) e = refl

  ended :
      (mv : Option MovieRelease)
      → answer_for lookup m ≡ some mv
      → release_wait mv now ≡ (none, false)
      → after ≡ released m
  ended mv h w = answered mv (none, false) h w ∙ clearing m.awaiting_release_at refl

  another_day :
      (o : Option ℕ) (when : ℕ)
      → ((at : ℕ) → o ≡ some at → at / 86400 ≢ when / 86400)
      → is_same_day o when ≡ false
  another_day none when h = refl
  another_day (some at) when h = ground (arith, h at refl)

  after-IsSettled : IsSettled now (answer_for lookup m) m after
  after-IsSettled = record {
    failed = asked_nothing;
    unknown = λ h. ended none h (unfold release_wait in refl);
    has_file = λ mv h f. ended (some mv) h (wait_file mv now f);
    is_out = λ mv when h e past out. ended (some mv) h (wait_out mv now when e past out);
    undated = λ mv h f u e. answered (some mv) (none, true) h (wait_undated mv now f u) ∙ rw e refl;
    undated_again =
        λ mv at h f u e. answered (some mv) (none, true) h (wait_undated mv now f u) ∙ rw e refl;
    dated = λ mv when h f e early other.
        answered (some mv) (some when, true) h (wait_dated mv now when f e early)
        ∙ rw (another_day m.awaiting_release_at when other) refl;
    dated_again = λ mv when at h f e early is same.
        answered (some mv) (some when, true) h (wait_dated mv now when f e early)
        ∙ rw (is, (==_iff (at / 86400) (when / 86400)).1 same) refl;
  }

-- Where ids are unique, a pass rewrites the movies that it looks at, each by what Radarr says of it, and
-- nothing else. A row stays as it is where Radarr cannot be asked. It loses its date where Radarr does
-- not know the movie or has its file, and where the first date that Radarr gives (digital, physical,
-- cinemas) has passed and the movie is available. Without a file it gets that date as long as the date
-- is ahead or the movie is not available, unless it has one of the same day, and where there is no date
-- that of 9999-01-01, unless it has one; with a date it is no longer stuck.
pub pass_lem :
    (lookup : Lookup) (db : Db)
    → ((id : ℕ) → count (λ (m : MediaItem). m.id == id) db.items ≤ 1)
    → (f : MediaItem → MediaItem) × ((pass lookup db).db
        ≡ record db { items = update (may_wait db) f db.items })
      × ((m : MediaItem) → IsSettled db.now (answer_for lookup m) m (f m))
pass_lem lookup db unique = (
  λ m. settle (mark_of db.now lookup m) m,
  pass-items lookup db unique,
  λ m. after-IsSettled db.now lookup m,
)
