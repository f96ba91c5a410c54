-- ===== src/Pipeline/Fanout.antt =====
-- backend/internal/pipeline/fanout.go: a tv request becomes one item for each aired, monitored episode
-- of its seasons. Sonarr is a parameter: what its two calls answer, where `none` is an error.
use journarr.Base.{
  ℕ, ◌+◌, Bool, false, not, ◌&&◌, Option, none, some, List, [], ◌∷◌, ◌==◌, leb, if◌then◌else◌,
  maybe, exists, select, Text, text,
}
use journarr.Store.Stages.{requested, approved, episode_item}
use journarr.Store.Items.{NewItem, ensure_media_item}
use journarr.Pipeline.Projector.{Projector, FanoutRetry, set_db, apply}

pub record Series : Type 0 where
  pub id : ℕ
  pub tvdb_id : ℕ

-- `air` is AirDateUTC as time.Parse reads it, `none` where it is empty or not a date.
pub record Episode : Type 0 where
  pub id : ℕ
  pub season_number : ℕ
  pub episode_number : ℕ
  pub title : Text
  pub monitored : Bool
  pub air : Option ℕ

pub record Sonarr : Type 0 where
  pub series_by_tvdb_id : ℕ → Option (Option Series)
  pub episodes_by_series : ℕ → Option (List Episode)

abbrev pub retry_delay : ℕ
retry_delay = 30

abbrev pub sweep_interval : ℕ
sweep_interval = 300

abbrev pub max_attempts : ℕ
max_attempts = 120

abbrev pub one_day : ℕ
one_day = 86400

-- The entry of a request in `retries`, with its next time put off; a new one starts at no attempts.
unfoldable pub put_retry : FanoutRetry → List FanoutRetry → List FanoutRetry
put_retry r [] = r ∷ []
put_retry r (q ∷ qs) =
    if q.request_id == r.request_id
    then record q { next_at = r.next_at } ∷ qs
    else q ∷ put_retry r qs

unfoldable pub queue_fanout_retry : ℕ → ℕ → List ℕ → Projector → Projector
unfolding put_retry
queue_fanout_retry request_id tvdb seasons p =
    let r : FanoutRetry = record {
      request_id = request_id;
      tvdb_id = tvdb;
      seasons = seasons;
      attempts = 0;
      next_at = p.db.now + retry_delay;
    } in
    record p { retries = put_retry r p.retries }

-- The three `continue`s: another season, not monitored, not aired within a day from now.
unfoldable pub is_wanted : ℕ → List ℕ → Episode → Bool
is_wanted now [] ep =
    ep.monitored && elim ep.air [ none ↦ false | some air ↦ leb air (now + one_day) ]
is_wanted now (s ∷ ss) ep =
    exists (λ n. n == ep.season_number) (s ∷ ss)
    && ep.monitored
    && elim ep.air [ none ↦ false | some air ↦ leb air (now + one_day) ]

abbrev pub episode_row : ℕ → Series → Episode → NewItem
episode_row request_id series ep = record {
  request_id = request_id;
  media_type = episode_item;
  tmdb_id = none;
  tvdb_id = some series.tvdb_id;
  sonarr_series_id = some series.id;
  sonarr_episode_id = some ep.id;
  radarr_movie_id = none;
  season_number = some ep.season_number;
  episode_number = some ep.episode_number;
  title = ep.title;
}

unfoldable pub fanout_episode : ℕ → ℕ → Series → Episode → Projector → Projector
fanout_episode request_id event series ep p =
    maybe (ensure_media_item (episode_row request_id series ep) p.db) p λ r.
      apply r.0 request_id event approved (text "fanout")
        (apply r.0 request_id event requested [] (set_db r.1 p))

unfoldable pub fanout_episodes : ℕ → ℕ → Series → List Episode → Projector → Projector
unfolding fanout_episode
fanout_episodes request_id event series [] p = p
fanout_episodes request_id event series (ep ∷ eps) p =
    fanout_episodes request_id event series eps (fanout_episode request_id event series ep p)

-- delete(p.retries, reqID).
abbrev pub drop_retry : ℕ → Projector → Projector
drop_retry request_id p = record p {
  retries = select (λ r. not (r.request_id == request_id)) p.retries;
}

unfoldable pub fanout_series : Sonarr → ℕ → ℕ → List ℕ → ℕ → Series → Projector → Projector
unfolding queue_fanout_retry is_wanted fanout_episodes
fanout_series sonarr request_id tvdb seasons event series p =
    maybe (sonarr.episodes_by_series series.id) (queue_fanout_retry request_id tvdb seasons p)
      λ eps.
        drop_retry request_id
          (fanout_episodes request_id event series (select (is_wanted p.db.now seasons) eps) p)

-- fanoutTV; `none` for the client where Sonarr is not configured.
unfoldable pub fanout_tv : Option Sonarr → ℕ → ℕ → List ℕ → ℕ → Projector → Projector
unfolding fanout_series queue_fanout_retry
fanout_tv none request_id tvdb seasons event p = p
fanout_tv (some sonarr) request_id tvdb seasons event p =
    if tvdb == 0
    then p
    else maybe (sonarr.series_by_tvdb_id tvdb) (queue_fanout_retry request_id tvdb seasons p)
        λ found.
          maybe found (queue_fanout_retry request_id tvdb seasons p)
            λ series. fanout_series sonarr request_id tvdb seasons event series p
