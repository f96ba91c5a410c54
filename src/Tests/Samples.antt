-- ===== src/Tests/Samples.antt =====
-- A small database: one movie request whose item was grabbed.
use journarr.Base.{
  ℕ, refl, true, false, none, some, List, [], ◌∷◌, arith, ◌==◌, if◌then◌else◌, text,
}
use journarr.Pipeline.Ops.{radarr, movie, ImportOp, import_op}
use journarr.Store.Stages.{grabbed, grabbed_dl, usenet, active, movie_item}
use journarr.Store.Rows.{Db, Request, Download}
use journarr.Store.Items.{NewItem, upsert_item}
use journarr.Store.Transitions.{has_transition}
use journarr.Store.Transitions.Pointer.{applied_db}
use journarr.Store.Downloads.{link_download_item}
use journarr.Store.Events.{insert_event}
use journarr.Store.Writes.{Writes, next, upserts, applies, connects, done}
use journarr.Pipeline.Fanout.{Sonarr}
use journarr.Actions.Clients.{Clients}
use journarr.Pipeline.Grabs.{ItemMap}
use journarr.Store.Writes.Sound.{insert_event-IsSound, IsSound, Writes-IsSound}
use journarr.Pipeline.Projector.{Projector}

abbrev pub matrix_request : Request
matrix_request = record {
  id = 1;
  seerr_request_id = some 7;
  media_type = movie;
  tmdb_id = some 603;
  tvdb_id = none;
  title = text "The Matrix";
  year = some 1999;
  poster_url = [];
  requested_by = text "neo";
  requested_at = none;
  seasons = [];
  status = active;
  awaiting_release_at = none;
  updated_at = 100;
}

abbrev pub matrix_download : Download
matrix_download = record {
  id = 1;
  client_download_id = text "abc";
  arrarr_nzo_id = [];
  arr = radarr;
  source = usenet;
  release_title = text "The.Matrix.1999";
  indexer = [];
  size_bytes = none;
  state = grabbed_dl;
  bytes_downloaded = none;
  bytes_total = none;
  last_error = [];
  grabbed_at = some 100;
  completed_at = none;
  updated_at = 100;
}

abbrev pub matrix_item : NewItem
matrix_item = record {
  request_id = 1;
  media_type = movie_item;
  tmdb_id = some 603;
  tvdb_id = none;
  sonarr_series_id = none;
  sonarr_episode_id = none;
  radarr_movie_id = some 5;
  season_number = none;
  episode_number = none;
  title = text "The Matrix";
}

abbrev pub bare_db : Db
bare_db = record {
  now = 1000;
  requests = matrix_request ∷ [];
  items = [];
  downloads = matrix_download ∷ [];
  links = [];
  transitions = [];
  events = [];
  tasks = [];
  settings = [];
  removed = [];
}

unfoldable pub with_item : Db
with_item = upsert_item matrix_item bare_db

unfoldable pub grabbed_db : Db
grabbed_db = link_download_item 1 1 1 (applied_db 1 1 grabbed 1 [] with_item)

abbrev pub matrix_import : ImportOp
matrix_import = record {
  arr = radarr;
  download_id = text "ABC";
  series = none;
  episodes = [];
  movie = some (record { radarr_id = 5; tmdb_id = 603; title = text "The Matrix"; year = 1999 });
  episode_paths = [];
  movie_path = text "/movies/The Matrix.mkv";
}

unfoldable pub sample_db : Db
sample_db = (insert_event (text "radarr:import:5") (import_op matrix_import) grabbed_db).1

abbrev pub sample : Projector
sample = record {
  db = sample_db;
  settings =
      (text "notify_on_complete", text "true") ∷ (text "jellyfin_scan_on_import", text "1") ∷ [];
  touched = [];
  published = [];
  retries = [];
  next_sweep = 0;
}

bare_db-IsSound : IsSound bare_db
unfolding has_transition
bare_db-IsSound = record {
  dominated = record { attached = λ i c s h. cc; dominated = λ i c s m h at. cc };
  keys = record {
    item_id = λ id. omega arith;
    item_key = λ n. omega arith;
    transition_key = λ i c s. omega arith;
    link_key = λ d i. omega arith;
  };
  references = record { parents = tt; linked = λ d i h. cc };
}

grabbed_db-Writes : Writes bare_db grabbed_db
unfolding with_item grabbed_db upsert_item
grabbed_db-Writes =
    next
      (next (next done (upserts matrix_item bare_db refl))
        (applies 1 1 grabbed 1 [] with_item refl))
      (connects 1 1 1 (applied_db 1 1 grabbed 1 [] with_item))

pub grabbed_db-IsSound : IsSound grabbed_db
grabbed_db-IsSound = Writes-IsSound grabbed_db-Writes bare_db-IsSound

-- A Sonarr that knows one series with one aired episode.
abbrev pub one_series : Sonarr
one_series = record {
  series_by_tvdb_id =
      λ tvdb. if tvdb == 81189 then some (some (record { id = 3; tvdb_id = 81189 })) else some none;
  episodes_by_series = λ id. some (
      record {
        id = 44;
        season_number = 1;
        episode_number = 1;
        title = text "Pilot";
        monitored = true;
        air = some 500;
      }
      ∷ []);
}

-- Radarr alone is configured, and takes every command.
abbrev pub radarr_only : Clients
radarr_only = record {
  has_sonarr = false;
  has_radarr = true;
  has_seerr = false;
  movie_by_tmdb_id = λ tmdb. some 5;
  accepts = λ calls. true;
}

abbrev pub in_order : ItemMap → ItemMap
in_order m = m

abbrev pub ids_in_order : List ℕ → List ℕ
ids_in_order ids = ids

pub sample_db-IsSound : IsSound sample_db
unfolding sample_db
sample_db-IsSound =
    insert_event-IsSound (text "radarr:import:5") (import_op matrix_import) grabbed_db
      grabbed_db-IsSound
