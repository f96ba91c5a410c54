-- ===== src/Poll/History.antt =====
-- backend/internal/poll/arrhistory.go: grabs, imports and failures that the webhooks missed. What
-- InsertEvent and SetPollCursor can meet (a locked database, a full disk) is a parameter.
pub mod Inserted
pub mod Lossless
use journarr.Base.{
  ℕ, ◌+◌, Bool, true, false, not, ◌||◌, ◌&&◌, Option, none, some, List, [], ◌∷◌, ◌++◌, ◌==◌, ltb,
  if◌then◌else◌, maybe, is_empty, is_some, map, Text, text, text_eq,
}
use journarr.Pipeline.Ops.{
  Arr, sonarr, radarr, SeriesRef, EpisodeRef, MovieRef, Op, grab_op, import_op, failure_op,
}
use journarr.Pipeline.Seasons.{itoa64}
use journarr.Store.Stages.{Source, usenet, torrent, no_source}
use journarr.Store.Rows.{Db}
use journarr.Store.Normalize.{normalize_source}
use journarr.Store.Events.{insert_event}
use journarr.Poll.Cursors.{PollState, get_poll_cursor, set_poll_cursor, parse_int}
use journarr.Poll.HistoryPages.{ArrSeries, ArrEpisode, ArrMovie, HistoryRecord, history_since}

-- c.Name.
abbrev pub arr_name : Arr → Text
arr_name sonarr = text "sonarr"
arr_name radarr = text "radarr"

abbrev pub source_name : Source → Text
source_name usenet = text "usenet"
source_name torrent = text "torrent"
source_name no_source = []

abbrev pub series_ref : ArrSeries → SeriesRef
series_ref s = record { sonarr_id = s.id; tvdb_id = s.tvdb_id; tmdb_id = 0; title = s.title }

abbrev pub episode_ref : ArrEpisode → EpisodeRef
episode_ref e = record {
  sonarr_id = e.id;
  season = e.season_number;
  episode = e.episode_number;
  title = e.title;
}

abbrev pub movie_ref : ArrMovie → MovieRef
movie_ref m = record { radarr_id = m.id; tmdb_id = m.tmdb_id; title = m.title; year = m.year }

abbrev pub series_of : HistoryRecord → Option SeriesRef
series_of r = maybe r.series none λ s. some (series_ref s)

abbrev pub episode_of : HistoryRecord → List EpisodeRef
episode_of r = maybe r.episode [] λ e. episode_ref e ∷ []

abbrev pub movie_of : HistoryRecord → Option MovieRef
movie_of r = maybe r.movie none λ m. some (movie_ref m)

abbrev pub episode_paths_of : HistoryRecord → Text → List (ℕ × Text)
episode_paths_of r [] = []
episode_paths_of r (c ∷ path) = maybe r.episode [] λ e. (e.id, c ∷ path) ∷ []

abbrev pub message_or : Text → Text
message_or [] = text "download failed"
message_or (c ∷ s) = c ∷ s

-- normalize; `none` is the empty kind.
unfoldable pub normalize : Arr → HistoryRecord → Option Op
unfolding parse_int normalize_source
normalize arr r =
    if text_eq r.event_type (text "grabbed")
    then some (
        grab_op (record {
          arr = arr;
          download_id = r.download_id;
          release_title = r.source_title;
          indexer = r.values (text "indexer");
          size = parse_int (r.values (text "size"));
          protocol = source_name (normalize_source (r.values (text "protocol")));
          series = series_of r;
          episodes = episode_of r;
          movie = movie_of r;
        }))
    else if text_eq r.event_type (text "downloadFolderImported")
        || text_eq r.event_type (text "movieFolderImported")
    then some (
        import_op (record {
          arr = arr;
          download_id = r.download_id;
          series = series_of r;
          episodes = episode_of r;
          movie = movie_of r;
          episode_paths = episode_paths_of r (r.values (text "importedPath"));
          movie_path = if is_some r.episode then [] else r.values (text "importedPath");
        }))
    else if text_eq r.event_type (text "downloadFailed")
    then some (
        failure_op (record {
          arr = arr;
          download_id = r.download_id;
          message = message_or (r.values (text "message"));
          soft = false;
          series = series_of r;
          episodes = episode_of r;
          movie = movie_of r;
        }))
    else none

-- The dedupe key of a record.
unfoldable pub history_key : Arr → ℕ → Text
history_key arr id = arr_name arr ++ text ":history:" ++ itoa64 id

unfoldable pub cursor_key : Arr → Text
cursor_key arr = arr_name arr ++ text ":history"

-- The database, the cursors, and whether the projector was woken.
pub record Poller : Type 0 where
  pub db : Db
  pub cursors : PollState
  pub woken : Bool

-- What a pass meets: the pages of the history, the records whose InsertEvent fails, and whether
-- GetPollCursor and SetPollCursor succeed.
pub record Round : Type 0 where
  pub pages : ℕ → Option (List HistoryRecord)
  pub fails : ℕ → Bool
  pub loads : Bool
  pub saves : Bool

-- One record of the loop: whether an event was inserted; `none` aborts the pass.
unfoldable pub insert_record : Arr → (ℕ → Bool) → Bool → HistoryRecord → Db → Option (Bool × Db)
unfolding normalize history_key
insert_record arr fails first_run r db =
    if first_run
    then some (false, db)
    else maybe (normalize arr r) (some (false, db)) λ op.
      if fails r.id
      then none
      else let (result, db') = insert_event (history_key arr r.id) op db in some (result.1, db')

abbrev pub later : ℕ → ℕ → ℕ
later cursor id = if ltb cursor id then id else cursor

abbrev pub one_if : Bool → ℕ
one_if b = if b then 1 else 0

abbrev pub and_count : Bool → ℕ × ℕ × Db → ℕ × ℕ × Db
and_count ok r = (r.0, one_if ok + r.1, r.2)

-- The loop: the cursor, the number of events inserted, and the database.
unfoldable pub insert_records : Arr → (ℕ → Bool) → Bool → List HistoryRecord → ℕ → Db → ℕ × ℕ × Db
unfolding insert_record
insert_records arr fails first_run [] cursor db = (cursor, 0, db)
insert_records arr fails first_run (r ∷ rs) cursor db =
    maybe (insert_record arr fails first_run r db) (cursor, 0, db)
      λ done. and_count done.0 (insert_records arr fails first_run rs (later cursor r.id) done.1)

abbrev pub max_pages : ℕ
max_pages = 10

unfoldable pub saved : Arr → Bool → ℕ → ℕ → PollState → PollState
unfolding cursor_key set_poll_cursor
saved arr saves since cursor cursors =
    if not (cursor == since) && saves
    then set_poll_cursor (cursor_key arr) (itoa64 cursor) cursors
    else cursors

-- The pass with the records that were fetched; without one, nothing is written.
unfoldable pub process_records : Arr → Round → ℕ → List HistoryRecord → Poller → Poller
unfolding insert_records saved
process_records arr round since records p =
    let (cursor, inserted, db) = insert_records arr round.fails (since == 0) records since p.db in
    record {
      db = db;
      cursors = saved arr round.saves since cursor p.cursors;
      woken = p.woken || ltb 0 inserted;
    }

-- sinceID.
unfoldable pub since_id : Arr → Poller → ℕ
unfolding cursor_key get_poll_cursor parse_int
since_id arr p = parse_int (get_poll_cursor (cursor_key arr) p.cursors)

-- pass.
unfoldable pub pass : Arr → Round → Poller → Poller
unfolding process_records since_id
pass arr round p =
    if not round.loads
    then p
    else maybe (history_since round.pages (since_id arr p) max_pages) p
        λ (records, complete). process_records arr round (since_id arr p) records p
