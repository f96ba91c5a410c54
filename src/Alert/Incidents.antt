-- ===== src/Alert/Incidents.antt =====
-- The alerts of backend/internal/alert over a whole history of health results.
use journarr.Base.{
  ℕ, ◌+◌, ◌*◌, ◌≤◌, ◌<◌, ◌≡◌, refl, sym, subst, Bool, true, false, not, ◌&&◌, ◌||◌, Option, none,
  some, List, [], ◌∷◌, ◌++◌, arith, ltb, if_case, count, Text, text_eq, text_eq_iff, count-append,
}
use journarr.Alert.{
  HealthStatus, up, degraded, down, SvcState, Alerter, Incidents, Alert, Observation, put, outage,
  should_alert, recovery, recovered, or_new, by_status, observe, to_list, observe_all, severity,
  alerted_severity,
}

abbrev pub is_outage : Text → Alert → Bool
is_outage s alert = text_eq s alert.service && ltb 0 (severity alert.status)

abbrev pub is_recovery : Text → Alert → Bool
is_recovery s alert = text_eq s alert.service && not (ltb 0 (severity alert.status))

-- The severity that a service's state was alerted on, and whether it was alerted on at all.
abbrev pub told : Option SvcState → ℕ
told none = 0
told (some st) = alerted_severity st.alerted

abbrev pub is_told : Option HealthStatus → ℕ
is_told none = 0
is_told (some status) = 1

abbrev pub pending : Option SvcState → ℕ
pending none = 0
pending (some st) = is_told st.alerted

-- The balance between outages and recoveries that lead from one state of a service to another.
pub record IsBalanced (st : Option SvcState) (alerts : List Alert) (end : Option SvcState)
    (s : Text) : Type 0 where
  pub most : count (is_outage s) alerts + told st ≤ told end + 2 * count (is_recovery s) alerts
  pub least : count (is_recovery s) alerts + pending end ≤ count (is_outage s) alerts + pending st

IsBalanced-refl : (s : Text) (st : Option SvcState) → IsBalanced st [] st s
IsBalanced-refl s st = record { most = omega arith; least = omega arith }

IsBalanced-trans :
    (s : Text) (st mid end : Option SvcState) (xs ys : List Alert)
    → IsBalanced st xs mid s
    → IsBalanced mid ys end s
    → IsBalanced st (xs ++ ys) end s
IsBalanced-trans s st mid end xs ys f g = record {
  most =
      grind (
        arith,
        count-append (is_outage s) xs ys,
        count-append (is_recovery s) xs ys,
        f.most,
        g.most,
      );
  least = grind (
    arith,
    count-append (is_outage s) xs ys,
    count-append (is_recovery s) xs ys,
    f.least,
    g.least,
  );
}

severity-le : (status : HealthStatus) → severity status ≤ 2
severity-le up = omega arith
severity-le degraded = omega arith
severity-le down = omega arith

recovered-IsBalanced :
    (s : Text) (o : Observation) (st : SvcState) (alerted : Option HealthStatus)
    → text_eq s o.service ≡ true
    → IsBalanced
        (some (record st { alerted = alerted }))
        (to_list (recovered o st.since alerted))
        none
        s
recovered-IsBalanced s o st none h = record { most = omega arith; least = omega arith }
recovered-IsBalanced s o st (some status) h = record {
  most = rw h (ground (arith, severity-le status));
  least = rw h (omega arith);
}

recovery-IsBalanced :
    (s : Text) (o : Observation) (st : Option SvcState)
    → text_eq s o.service ≡ true
    → IsBalanced st (to_list (recovery o st)) none s
recovery-IsBalanced s o none h = IsBalanced-refl s none
recovery-IsBalanced s o (some st) h = recovered-IsBalanced s o st st.alerted h

-- An alert is due only on a severity above the one alerted on.
rises :
    (a : Alerter) (o : Observation) (st : SvcState)
    → should_alert a o st ≡ true
    → alerted_severity st.alerted < severity o.status
unfolding should_alert
rises a o st h = ground arith

should_alert_rises :
    (a : Alerter) (o : Observation) (st : SvcState)
    → should_alert a o st ≡ true
    → ltb 0 (severity o.status) ≡ true
should_alert_rises a o st h = ground (arith, rises a o st h)

outage-IsBalanced :
    (s : Text) (a : Alerter) (o : Observation) (st : SvcState)
    → text_eq s o.service ≡ true
    → IsBalanced (some st) (to_list (outage a o st).0) (some (outage a o st).1) s
unfolding outage should_alert
outage-IsBalanced s a o st h =
    if_case (λ (r : Option Alert × SvcState). IsBalanced (some st) (to_list r.0) (some r.1) s)
      (should_alert a o st)
      (λ due. record {
        most = rw (h, should_alert_rises a o st due) (ground (arith, rises a o st due));
        least = rw (h, should_alert_rises a o st due) (omega arith);
      })
      (λ _. IsBalanced-refl s (some st))

or_new-IsBalanced :
    (s : Text) (now : ℕ) (st : Option SvcState) → IsBalanced st [] (some (or_new now st)) s
or_new-IsBalanced s now none = record { most = omega arith; least = omega arith }
or_new-IsBalanced s now (some st) = IsBalanced-refl s (some st)

default-IsBalanced :
    (s : Text) (a : Alerter) (o : Observation) (st : Option SvcState)
    → text_eq s o.service ≡ true
    → IsBalanced st
        (to_list (outage a o (or_new o.now st)).0)
        (some (outage a o (or_new o.now st)).1)
        s
default-IsBalanced s a o st h =
    IsBalanced-trans s st (some (or_new o.now st)) (some (outage a o (or_new o.now st)).1) []
      (to_list (outage a o (or_new o.now st)).0) (or_new-IsBalanced s o.now st)
      (outage-IsBalanced s a o (or_new o.now st) h)

by_status-IsBalanced :
    (s : Text) (a : Alerter) (o : Observation) (st : Option SvcState) (status : HealthStatus)
    → text_eq s o.service ≡ true
    → IsBalanced st (to_list (by_status a o st status).0) (by_status a o st status).1 s
unfolding by_status
by_status-IsBalanced s a o st up h = recovery-IsBalanced s o st h
by_status-IsBalanced s a o st degraded h = default-IsBalanced s a o st h
by_status-IsBalanced s a o st down h = default-IsBalanced s a o st h

pub record IsMute (alerts : List Alert) (s : Text) : Type 0 where
  pub outages : count (is_outage s) alerts ≡ 0
  pub recoveries : count (is_recovery s) alerts ≡ 0

IsBalanced-of_IsMute :
    (s : Text) (kept : Option SvcState) (xs : List Alert) → IsMute xs s → IsBalanced kept xs kept s
IsBalanced-of_IsMute s kept xs m = record {
  most = rw (m.outages, m.recoveries) (omega arith);
  least = rw (m.outages, m.recoveries) (omega arith);
}

-- What an observation sends says nothing of other services.
recovered-other :
    (s : Text) (o : Observation) (since : ℕ) (alerted : Option HealthStatus)
    → text_eq s o.service ≡ false
    → IsMute (to_list (recovered o since alerted)) s
recovered-other s o since none h = record { outages = refl; recoveries = refl }
recovered-other s o since (some status) h = record { outages = rw h refl; recoveries = rw h refl }

recovery-other :
    (s : Text) (o : Observation) (st : Option SvcState)
    → text_eq s o.service ≡ false
    → IsMute (to_list (recovery o st)) s
recovery-other s o none h = record { outages = refl; recoveries = refl }
recovery-other s o (some st) h = recovered-other s o st.since st.alerted h

outage-other :
    (s : Text) (a : Alerter) (o : Observation) (st : SvcState)
    → text_eq s o.service ≡ false
    → IsMute (to_list (outage a o st).0) s
unfolding outage
outage-other s a o st h =
    if_case (λ (r : Option Alert × SvcState). IsMute (to_list r.0) s) (should_alert a o st)
      (λ due. record { outages = rw h refl; recoveries = rw h refl })
      (λ _. record { outages = refl; recoveries = refl })

pub by_status-other :
    (s : Text) (a : Alerter) (o : Observation) (st : Option SvcState) (status : HealthStatus)
    → text_eq s o.service ≡ false
    → IsMute (to_list (by_status a o st status).0) s
unfolding by_status
by_status-other s a o st up h = recovery-other s o st h
by_status-other s a o st degraded h = outage-other s a o (or_new o.now st) h
by_status-other s a o st down h = outage-other s a o (or_new o.now st) h

observe-IsBalanced :
    (s : Text) (a : Alerter) (o : Observation) (state : Incidents)
    → IsBalanced (state s) (to_list (observe a o state).0) ((observe a o state).1 s) s
unfolding observe put
observe-IsBalanced s a o state =
    if_case (λ (r : Option Alert × Incidents). IsBalanced (state s) (to_list r.0) (r.1 s) s)
      (not a.has_sender || a.skip o.service) (λ _. IsBalanced-refl s (state s))
      (λ _.
        let r = by_status a o (state o.service) o.status in
        if_case (λ (end : Option SvcState). IsBalanced (state s) (to_list r.0) end s)
          (text_eq s o.service)
          (λ h.
            subst (λ n. IsBalanced (state n) (to_list r.0) r.1 s)
              (sym ((text_eq_iff s o.service).0 h))
              (by_status-IsBalanced s a o (state o.service) o.status h))
          (λ h.
            IsBalanced-of_IsMute s (state s) (to_list r.0)
              (by_status-other s a o (state o.service) o.status h)))

observe_all-IsBalanced :
    (s : Text) (a : Alerter) (os : List Observation) (state : Incidents)
    → IsBalanced (state s) (observe_all a os state).0 ((observe_all a os state).1 s) s
unfolding observe_all
observe_all-IsBalanced s a [] state = IsBalanced-refl s (state s)
observe_all-IsBalanced s a (o ∷ os) state =
    let next = (observe a o state).1 in
    IsBalanced-trans s (state s) (next s) ((observe_all a os next).1 s)
      (to_list (observe a o state).0) (observe_all a os next).0 (observe-IsBalanced s a o state)
      (observe_all-IsBalanced s a os next)

-- Over a whole history of health results of all services, from the start, the messages about one
-- service are balanced: each recovery and an open incident that was told have an outage of their own,
-- and there are at most two outages (degraded, then down) for each recovery, and for the open incident
-- no more than the severity it was told at.
pub observe_all-balance :
    (s : Text) (a : Alerter) (os : List Observation)
    → let alerts = (observe_all a os (λ _. none)).0 in
      (count (is_recovery s) alerts + pending ((observe_all a os (λ _. none)).1 s)
        ≤ count (is_outage s) alerts)
      × (count (is_outage s) alerts
          ≤ 2 * count (is_recovery s) alerts + told ((observe_all a os (λ _. none)).1 s))
observe_all-balance s a os =
    let b = observe_all-IsBalanced s a os (λ _. none) in
    (grind (arith, b.least), grind (arith, b.most))
