-- ===== src/Tests/Alert.antt =====
-- The alerts of backend/internal/alert on the history of its own test.
use journarr.Base.{
  ℕ, ◌+◌, ◌*◌, ◌≤◌, ◌≡◌, refl, inl, inr, true, none, List, [], ◌∷◌, map, arith, count, Text, text,
  text_eq,
}
use journarr.Alert.{
  should_alert, outage, truncate, HealthStatus, up, degraded, down, Alerter, Observation, put,
  outage, observe, observe_all, sent_title,
}
use journarr.Alert.Incidents.{is_outage, is_recovery, told, pending, observe_all-balance, IsMute}
use journarr.Alert.Brief.{observe_all-IsMute}

abbrev sonarr : Text
sonarr = text "sonarr"

abbrev radarr : Text
radarr = text "radarr"

-- Ten minutes for a service that is down, two hours for a degraded one.
abbrev alerter : Alerter
alerter = record {
  has_sender = true;
  down_after = 600;
  degraded_after = 7200;
  skip = text_eq (text "journarr");
}

abbrev result : ℕ → Text → HealthStatus → Observation
result now service status = record {
  now = now;
  service = service;
  status = status;
  detail = text "detail";
}

abbrev history : List Observation
history =
    result 0 sonarr down
    ∷ result 300 sonarr down
    ∷ result 660 sonarr down
    ∷ result 720 sonarr down
    ∷ result 780 sonarr up
    ∷ result 780 radarr degraded
    ∷ result 6180 radarr degraded
    ∷ result 6180 (text "journarr") down
    ∷ result 9780 (text "journarr") down
    ∷ result 11640 radarr degraded
    ∷ result 11700 radarr down
    ∷ result 11760 radarr up
    ∷ []

titles_sent :
    map sent_title (observe_all alerter history (λ s. none)).0
    ≡ text "Journarr: sonarr down"
      ∷ text "Journarr: sonarr recovered"
      ∷ text "Journarr: radarr degraded"
      ∷ text "Journarr: radarr down"
      ∷ text "Journarr: radarr recovered"
      ∷ []
unfolding observe_all observe put outage should_alert sent_title truncate
titles_sent = refl

observe_all-balance_example :
    let alerts = (observe_all alerter history (λ s. none)).0 in
    (count (is_recovery radarr) alerts
        + pending ((observe_all alerter history (λ s. none)).1 radarr)
      ≤ count (is_outage radarr) alerts)
    × (count (is_outage radarr) alerts
        ≤ 2 * count (is_recovery radarr) alerts
          + told ((observe_all alerter history (λ s. none)).1 radarr))
observe_all-balance_example = observe_all-balance radarr alerter history

abbrev blip : List Observation
blip =
    result 100 sonarr down
    ∷ result 150 radarr degraded
    ∷ result 400 sonarr down
    ∷ result 500 sonarr up
    ∷ []

observe_all-IsMute_example : IsMute (observe_all alerter blip (λ s. none)).0 sonarr
observe_all-IsMute_example =
    observe_all-IsMute sonarr alerter blip 100 (λ s. none)
      (
        inr (omega arith, omega arith, omega arith),
        (
          inl refl,
          (
            inr (omega arith, omega arith, omega arith),
            (inr (omega arith, omega arith, omega arith), tt),
          ),
        ),
      )
      tt
