-- ===== src/Tests/Poll.antt =====
-- The pollers of backend/internal/poll on concrete data.
use journarr.Base.{
  ℕ, ◌≤◌, ◌<◌, ◌≡◌, refl, ◌⊎◌, true, false, Option, none, some, List, [], ◌∷◌, arith, ◌==◌,
  if◌then◌else◌, count, update, text, text_eq,
}
use journarr.Pipeline.Ops.{radarr}
use journarr.Pipeline.Seasons.{itoa64}
use journarr.Store.Rows.{MediaItem}
use journarr.Store.Items.{upsert_item}
use journarr.Store.Stuck.{may_wait}
use journarr.Poll.HistoryPages.{HistoryRecord, history_since}
use journarr.Poll.History.{Poller, Round, max_pages, since_id, normalize, pass}
use journarr.Poll.History.Inserted.{is_logged}
use journarr.Poll.History.Lossless.{calm, pass-IsLossless, pass-logged}
use journarr.Poll.Release.{MovieRelease, Lookup, Marking, mark_of}
use journarr.Poll.Release as Release
use journarr.Poll.Release.Settled.{pass_again}
use journarr.Poll.Release.Outcome.{IsSettled, answer_for, pass_lem}
use journarr.Store.Items.{insert_row, get_media_item, find_movie_item_by_tmdb}
use journarr.Poll.Jellyfin.{
  JellyItem, Jellyfin, Clock, parse_jellyfin_time, provider_id, jellyfin_since, jellyfin_pass,
}
use journarr.Poll.Jellyfin.Noticed.{is_noticed, jellyfin_pass-is_noticed}
use journarr.Tests.Samples.{matrix_item, with_item, grabbed_db}

abbrev failure : ℕ → HistoryRecord
failure id = record {
  id = id;
  event_type = text "downloadFailed";
  source_title = text "The.Matrix.1999";
  download_id = text "ABC";
  series = none;
  episode = none;
  movie = some (record { id = 5; tmdb_id = 603; title = text "The Matrix"; year = 1999 });
  values = λ key. if text_eq key (text "message") then text "no space" else [];
}

-- Newest first, down to the record at the cursor.
abbrev pages : ℕ → Option (List HistoryRecord)
pages page = if page == 1 then some (failure 12 ∷ failure 11 ∷ failure 10 ∷ []) else none

abbrev fetched : List HistoryRecord
fetched = failure 11 ∷ failure 12 ∷ []

abbrev poller : Poller
poller = record {
  db = grabbed_db;
  cursors = (text "radarr:history", text "10") ∷ [];
  woken = false;
}

-- The second of the two records meets a locked database.
abbrev locked : Round
locked = record { pages = pages; fails = λ id. id == 12; loads = true; saves = true }

fetched_pages : history_since pages (since_id radarr poller) max_pages ≡ some (fetched, true)
unfolding history_since since_id
fetched_pages = refl

pass-IsLossless_example :
    (is_logged radarr 12 (pass radarr locked poller).db ≡ true)
    ⊎ (since_id radarr (pass radarr locked poller) < 12)
unfolding since_id normalize
pass-IsLossless_example =
    pass-IsLossless radarr locked poller fetched true 12 refl fetched_pages (omega arith) refl refl

pass-logged_example : is_logged radarr 12 (pass radarr (calm pages true) poller).db ≡ true
unfolding since_id normalize
pass-logged_example =
    pass-logged radarr pages true poller fetched true 12 refl fetched_pages refl refl

cursor_behind_failure : since_id radarr (pass radarr locked poller) ≡ 11
unfolding since_id pass history_since itoa64
cursor_behind_failure = refl

-- The film is out in a year.
abbrev not_out : Lookup
not_out tmdb = some (
    some (record {
      has_file = false;
      is_available = true;
      digital_release = none;
      physical_release = some 31536000;
      in_cinemas = some 500;
    }))

with_item_unique : (id : ℕ) → count (λ (m : MediaItem). m.id == id) with_item.items ≤ 1
unfolding with_item upsert_item
with_item_unique id = ground arith

pass_lem_example :
    (f : MediaItem → MediaItem) × ((Release.pass not_out with_item).db
      ≡ record with_item { items = update (may_wait with_item) f with_item.items })
    × ((m : MediaItem) → IsSettled with_item.now (answer_for not_out m) m (f m))
pass_lem_example = pass_lem not_out with_item with_item_unique

settled_again :
    Release.pass not_out (Release.pass not_out with_item).db
    ≡ record { db = (Release.pass not_out with_item).db; changed = [] }
settled_again = pass_again not_out with_item with_item_unique

flagged_first : (Release.pass not_out with_item).changed ≡ 1 ∷ []
unfolding Release.pass with_item upsert_item
flagged_first = refl

-- Jellyfin lists the film behind an episode whose series it cannot look up; time is not read.
abbrev episode_file : JellyItem
episode_file = record {
  id = text "e";
  type = text "Episode";
  date_created = [];
  provider_ids = [];
  parent_index = some 1;
  index = some 1;
  index_end = none;
  series_id = text "s";
}

abbrev film : JellyItem
film = record {
  id = text "f";
  type = text "Movie";
  date_created = [];
  provider_ids = (text "tmdb", text "603") ∷ [];
  parent_index = none;
  index = none;
  index_end = none;
  series_id = [];
}

abbrev jellyfin : Jellyfin
jellyfin = record {
  items_by_date_created = λ from limit. if from == 0 then some (episode_file ∷ film ∷ []) else none;
  series_tvdb_id = λ n id. none;
}

abbrev clock : Clock
clock = record { parse = λ s. none; format = λ t. [] }

abbrev matrix : MediaItem
matrix = insert_row 1 1000 matrix_item

jellyfin_pass-is_noticed_example :
    is_noticed matrix
      (jellyfin_pass clock jellyfin ([], record { db = with_item; woken = false })).1.db
    ≡ true
unfolding parse_jellyfin_time provider_id find_movie_item_by_tmdb get_media_item with_item
    upsert_item jellyfin_since
jellyfin_pass-is_noticed_example =
    jellyfin_pass-is_noticed clock jellyfin ([], record { db = with_item; woken = false })
      (episode_file ∷ []) film [] matrix refl (λ f t h g. absurd (cc), tt) (λ f t h g. absurd (cc))
      refl refl (refl, refl) refl
