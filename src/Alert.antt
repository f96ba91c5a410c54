-- ===== src/Alert.antt =====
-- backend/internal/alert/alert.go: Observe feeds the health results of the services to an Alerter, which
-- tells a person of an outage that lasts, and of its end. The map of the services is a function, the
-- delivery of a message (Sender) is outside; an alert has the duration in seconds, before it is rounded.
pub mod Incidents
pub mod Brief
use journarr.Base.{
  ℕ, ◌+◌, ◌-◌, Bool, true, false, not, ◌&&◌, ◌||◌, Option, none, some, List, [], ◌∷◌, ◌++◌, leb,
  ltb, length, if◌then◌else◌, Text, text, text_eq, take,
}

pub data HealthStatus : Type 0 where
  up degraded down : HealthStatus

-- The map `severity`.
abbrev pub severity : HealthStatus → ℕ
severity up = 0
severity degraded = 1
severity down = 2

-- severity[st.alerted], where "" is no key of the map.
abbrev pub alerted_severity : Option HealthStatus → ℕ
alerted_severity none = 0
alerted_severity (some status) = severity status

-- svcState.
pub record SvcState : Type 0 where
  pub since : ℕ
  pub alerted : Option HealthStatus

-- The thresholds of an Alerter, and whether it has a sender.
pub record Alerter : Type 0 where
  pub has_sender : Bool
  pub down_after : ℕ
  pub degraded_after : ℕ
  pub skip : Text → Bool

-- The map `state`.
abbrev pub Incidents : Type 0
Incidents = Text → Option SvcState

pub record Alert : Type 0 where
  pub service : Text
  pub status : HealthStatus
  pub elapsed : ℕ
  pub detail : Text

-- One health result, with the time at which it is observed.
pub record Observation : Type 0 where
  pub now : ℕ
  pub service : Text
  pub status : HealthStatus
  pub detail : Text

-- a.state[service] = st, and delete for `none`.
unfoldable pub put : Text → Option SvcState → Incidents → Incidents
put service st state name = if text_eq name service then st else state name

unfoldable pub truncate : Text → ℕ → Text
truncate s n = if leb (length s) n then s else take n s ++ text "…"

abbrev pub wait_for : Alerter → HealthStatus → ℕ
wait_for a up = a.degraded_after
wait_for a degraded = a.degraded_after
wait_for a down = a.down_after

abbrev pub or_new : ℕ → Option SvcState → SvcState
or_new now none = record { since = now; alerted = none }
or_new now (some st) = st

-- The case "up", where the service has a state.
abbrev pub recovered : Observation → ℕ → Option HealthStatus → Option Alert
recovered o since none = none
recovered o since (some status) =
    some (record { service = o.service; status = up; elapsed = o.now - since; detail = [] })

-- The case "up": what the service's state says, before it is deleted.
abbrev pub recovery : Observation → Option SvcState → Option Alert
recovery o none = none
recovery o (some st) = recovered o st.since st.alerted

-- The condition of the default case.
unfoldable pub should_alert : Alerter → Observation → SvcState → Bool
should_alert a o st =
    leb (st.since + wait_for a o.status) o.now
    && ltb (alerted_severity st.alerted) (severity o.status)

-- The default case: the alert, and the service's next state.
unfoldable pub outage : Alerter → Observation → SvcState → Option Alert × SvcState
unfolding should_alert truncate
outage a o st =
    if should_alert a o st
    then (
      some (record {
        service = o.service;
        status = o.status;
        elapsed = o.now - st.since;
        detail = truncate o.detail 400;
      }),
      record st { alerted = some o.status },
    )
    else (none, st)

-- The switch on the status.
abbrev pub by_status :
    Alerter → Observation → Option SvcState → HealthStatus → Option Alert × Option SvcState
unfolding outage
by_status a o st up = (recovery o st, none)
by_status a o st degraded = let (alert, st') = outage a o (or_new o.now st) in (alert, some st')
by_status a o st down = let (alert, st') = outage a o (or_new o.now st) in (alert, some st')

-- Observe.
unfoldable pub observe : Alerter → Observation → Incidents → Option Alert × Incidents
unfolding by_status put
observe a o state =
    if not a.has_sender || a.skip o.service
    then (none, state)
    else let (alert, st) = by_status a o (state o.service) o.status in
      (alert, put o.service st state)

abbrev pub to_list : Option Alert → List Alert
to_list none = []
to_list (some alert) = alert ∷ []

-- The alerts of a history of health results, and the state after them.
unfoldable pub observe_all : Alerter → List Observation → Incidents → List Alert × Incidents
unfolding observe
observe_all a [] state = ([], state)
observe_all a (o ∷ os) state =
    let (alert, state') = observe a o state in
    let (alerts, end) = observe_all a os state' in (to_list alert ++ alerts, end)

abbrev pub status_title : Text → HealthStatus → Text
status_title service up = service ++ text " recovered"
status_title service degraded = service ++ text " degraded"
status_title service down = service ++ text " down"

-- The title with which an alert is sent.
unfoldable pub sent_title : Alert → Text
sent_title alert = text "Journarr: " ++ status_title alert.service alert.status
