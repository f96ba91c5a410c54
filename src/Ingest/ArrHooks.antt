-- ===== src/Ingest/ArrHooks.antt =====
-- backend/internal/ingest/arr.go: the webhooks of Sonarr and Radarr. IsUpgrade, which nothing reads, is
-- left out of the payloads.
use journarr.Base.{
  ℕ, Bool, true, false, ◌&&◌, ◌||◌, Option, none, some, List, [], ◌∷◌, ◌==◌, if◌then◌else◌, maybe,
  map, is_empty, Text, text, text_eq,
}
use journarr.Pipeline.Ops.{
  Arr, sonarr, radarr, SeriesRef, EpisodeRef, MovieRef, Op, grab_op, import_op, failure_op,
}
use journarr.Store.Normalize.{lower}
use journarr.Poll.Emit.{Emitter, emit_event}
use journarr.Ingest.{Handler}

pub record Release : Type 0 where
  pub release_title : Text
  pub indexer : Text
  pub size : ℕ

-- arrWebhookCommon.
pub record ArrWebhook : Type 0 where
  pub event_type : Text
  pub download_id : Text
  pub download_client_type : Text
  pub release : Option Release
  pub status_messages : List (List Text)

pub record SonarrWebhook : Type 0 where
  pub common : ArrWebhook
  pub series : Option SeriesRef
  pub episodes : List EpisodeRef
  pub episode_file : Option Text
  pub episode_files : List Text

-- `file_path` is that of the movie.
pub record RadarrWebhook : Type 0 where
  pub common : ArrWebhook
  pub movie : Option MovieRef
  pub file_path : Text
  pub movie_file : Option Text

-- strings.EqualFold.
unfoldable pub equal_fold : Text → Text → Bool
unfolding lower
equal_fold s t = text_eq (map lower s) (map lower t)

unfoldable pub has_prefix : Text → Text → Bool
has_prefix s [] = true
has_prefix [] (c ∷ p) = false
has_prefix (d ∷ s) (c ∷ p) = d == c && has_prefix s p

-- strings.Contains.
unfoldable pub contains : Text → Text → Bool
unfolding has_prefix
contains [] sub = is_empty sub
contains (c ∷ s) sub = has_prefix (c ∷ s) sub || contains s sub

unfoldable pub protocol_from_client_type : Text → Text
unfolding equal_fold contains lower
protocol_from_client_type t =
    if equal_fold t (text "sabnzbd") || equal_fold t (text "nzbget")
    then text "usenet"
    else if contains (map lower t) (text "torrent")
        || equal_fold t (text "deluge")
        || equal_fold t (text "transmission")
        || equal_fold t (text "rtorrent")
    then text "torrent"
    else []

abbrev pub no_release : Release
no_release = record { release_title = []; indexer = []; size = 0 }

abbrev pub release_of : Option Release → Release
release_of none = no_release
release_of (some r) = r

-- The first message, where there is one.
abbrev pub first_message : List (List Text) → Text
first_message ((m ∷ ms) ∷ others) = m
first_message _ = text "manual interaction required"

unfoldable pub grab_of :
    Arr → ArrWebhook → Option SeriesRef → List EpisodeRef → Option MovieRef → Op
unfolding protocol_from_client_type
grab_of arr w series episodes movie =
    let r = release_of w.release in
    grab_op (record {
      arr = arr;
      download_id = w.download_id;
      release_title = r.release_title;
      indexer = r.indexer;
      size = r.size;
      protocol = protocol_from_client_type w.download_client_type;
      series = series;
      episodes = episodes;
      movie = movie;
    })

unfoldable pub interaction_of :
    Arr → ArrWebhook → Option SeriesRef → List EpisodeRef → Option MovieRef → Op
interaction_of arr w series episodes movie = failure_op (record {
  arr = arr;
  download_id = w.download_id;
  message = first_message w.status_messages;
  soft = true;
  series = series;
  episodes = episodes;
  movie = movie;
})

-- EpisodePaths: only where one file meets one episode.
abbrev pub paths_of : Option Text → List Text → List EpisodeRef → List (ℕ × Text)
paths_of (some path) files (e ∷ []) = (e.sonarr_id, path) ∷ []
paths_of none (path ∷ []) (e ∷ []) = (e.sonarr_id, path) ∷ []
paths_of _ _ _ = []

-- What a webhook with a series is: an event, a type that is ignored, or a test.
unfoldable pub sonarr_op : SonarrWebhook → SeriesRef → Option Op
unfolding grab_of interaction_of
sonarr_op w series =
    let type = w.common.event_type in
    if text_eq type (text "Grab")
    then some (grab_of sonarr w.common (some series) w.episodes none)
    else if text_eq type (text "Download")
    then some (
        import_op (record {
          arr = sonarr;
          download_id = w.common.download_id;
          series = some series;
          episodes = w.episodes;
          movie = none;
          episode_paths = paths_of w.episode_file w.episode_files w.episodes;
          movie_path = [];
        }))
    else if text_eq type (text "ManualInteractionRequired")
    then some (interaction_of sonarr w.common (some series) w.episodes none)
    else none

abbrev pub movie_path_of : Option Text → Text → Text
movie_path_of none path = path
movie_path_of (some file) path = file

unfoldable pub radarr_op : RadarrWebhook → MovieRef → Option Op
unfolding grab_of interaction_of
radarr_op w movie =
    let type = w.common.event_type in
    if text_eq type (text "Grab")
    then some (grab_of radarr w.common none [] (some movie))
    else if text_eq type (text "Download")
    then some (
        import_op (record {
          arr = radarr;
          download_id = w.common.download_id;
          series = none;
          episodes = [];
          movie = some movie;
          episode_paths = [];
          movie_path = movie_path_of w.movie_file w.file_path;
        }))
    else if text_eq type (text "ManualInteractionRequired")
    then some (interaction_of radarr w.common none [] (some movie))
    else none

-- An event goes to the log without a dedupe key.
abbrev pub emit_op : Option Op → Emitter → Bool × Emitter
emit_op none s = (true, s)
emit_op (some op) s = (true, emit_event [] op s)

unfoldable pub handle_sonarr : Handler SonarrWebhook
unfolding sonarr_op emit_event
handle_sonarr none s = (false, s)
handle_sonarr (some w) s =
    maybe w.series (text_eq w.common.event_type (text "Test"), s)
      λ series. emit_op (sonarr_op w series) s

unfoldable pub handle_radarr : Handler RadarrWebhook
unfolding radarr_op emit_event
handle_radarr none s = (false, s)
handle_radarr (some w) s =
    maybe w.movie (text_eq w.common.event_type (text "Test"), s)
      λ movie. emit_op (radarr_op w movie) s
