-- ===== src/Alert/Brief.antt =====
-- Outages that end within the thresholds of backend/internal/alert.
use journarr.Base.{
  ℕ, ◌+◌, ◌≤◌, ◌<◌, ◌≡◌, refl, ◌∙◌, subst, ◌⊎◌, inl, inr, false, not, ◌||◌, Option, none, some,
  List, [], ◌∷◌, ◌++◌, arith, leb, if_case, All, Text, text_eq, text_eq_iff, count-append,
}
use journarr.Alert.{
  HealthStatus, up, degraded, down, SvcState, Alerter, Incidents, Alert, Observation, put, outage,
  should_alert, wait_for, recovery, or_new, by_status, observe, to_list, observe_all,
}
use journarr.Alert.Incidents.{is_outage, is_recovery, IsMute, by_status-other}

-- No incident, or one that began at `t` or later and was not told.
abbrev pub IsFresh : ℕ → Option SvcState → Type 0
IsFresh t none = Unit
IsFresh t (some st) = (t ≤ st.since) × (st.alerted ≡ none)

-- A result about another service, or one at a time before `t` plus either threshold.
abbrev pub IsWithin : Text → Alerter → ℕ → Observation → Type 0
IsWithin s a t o =
    (text_eq s o.service ≡ false)
    ⊎ ((t ≤ o.now) × (o.now < t + a.down_after) × (o.now < t + a.degraded_after))

record IsQuiet (t : ℕ) (s : Text) (alerts : List Alert) (end : Option SvcState) : Type 0 where
  pub mute : IsMute alerts s
  pub fresh : IsFresh t end

nothing : (s : Text) → IsMute [] s
nothing s = record { outages = refl; recoveries = refl }

not_due :
    (a : Alerter) (o : Observation) (st : SvcState) (status : HealthStatus) (t : ℕ)
    → t ≤ st.since
    → o.now < t + a.down_after
    → o.now < t + a.degraded_after
    → leb (st.since + wait_for a status) o.now ≡ false
not_due a o st up t h d g = ground arith
not_due a o st degraded t h d g = ground arith
not_due a o st down t h d g = ground arith

recovery-fresh :
    (o : Observation) (t : ℕ) (st : Option SvcState) → IsFresh t st → to_list (recovery o st) ≡ []
recovery-fresh o t none h = refl
recovery-fresh o t (some st) h = rw h.1 refl

or_new-IsFresh :
    (t now : ℕ) (st : Option SvcState) → t ≤ now → IsFresh t st → IsFresh t (some (or_new now st))
or_new-IsFresh t now none h f = (h, refl)
or_new-IsFresh t now (some st) h f = f

outage-fresh :
    (a : Alerter) (o : Observation) (t : ℕ) (st : SvcState)
    → t ≤ st.since
    → o.now < t + a.down_after
    → o.now < t + a.degraded_after
    → outage a o st ≡ (none, st)
unfolding outage should_alert
outage-fresh a o t st h d g = rw (not_due a o st o.status t h d g) refl

default-IsQuiet :
    (s : Text) (a : Alerter) (o : Observation) (t : ℕ) (st : Option SvcState)
    → t ≤ o.now
    → o.now < t + a.down_after
    → o.now < t + a.degraded_after
    → IsFresh t st
    → IsQuiet t s (to_list (outage a o (or_new o.now st)).0) (some (outage a o (or_new o.now st)).1)
default-IsQuiet s a o t st n d g f =
    let f' = or_new-IsFresh t o.now st n f in
    rw (outage-fresh a o t (or_new o.now st) f'.0 d g) (record { mute = nothing s; fresh = f' })

by_status-IsQuiet :
    (s : Text) (a : Alerter) (o : Observation) (t : ℕ) (st : Option SvcState)
    (status : HealthStatus)
    → t ≤ o.now
    → o.now < t + a.down_after
    → o.now < t + a.degraded_after
    → IsFresh t st
    → IsQuiet t s (to_list (by_status a o st status).0) (by_status a o st status).1
unfolding by_status
by_status-IsQuiet s a o t st up n d g f =
    rw (recovery-fresh o t st f) (record { mute = nothing s; fresh = tt })
by_status-IsQuiet s a o t st degraded n d g f = default-IsQuiet s a o t st n d g f
by_status-IsQuiet s a o t st down n d g f = default-IsQuiet s a o t st n d g f

observe-IsQuiet :
    (s : Text) (a : Alerter) (o : Observation) (t : ℕ) (state : Incidents)
    → IsWithin s a t o
    → IsFresh t (state s)
    → IsQuiet t s (to_list (observe a o state).0) ((observe a o state).1 s)
unfolding observe put
observe-IsQuiet s a o t state w f =
    if_case (λ (r : Option Alert × Incidents). IsQuiet t s (to_list r.0) (r.1 s))
      (not a.has_sender || a.skip o.service) (λ _. record { mute = nothing s; fresh = f })
      (λ _.
        let r = by_status a o (state o.service) o.status in
        if_case (λ (end : Option SvcState). IsQuiet t s (to_list r.0) end) (text_eq s o.service)
          (λ h. elim w [
            | inl e ↦ absurd (ground arith)
            | inr b ↦
                by_status-IsQuiet s a o t (state o.service) o.status b.0 b.1 b.2
                  (subst (λ n. IsFresh t (state n)) ((text_eq_iff s o.service).0 h) f)
          ])
          (λ h. record { mute = by_status-other s a o (state o.service) o.status h; fresh = f }))

IsMute-append : (s : Text) (xs ys : List Alert) → IsMute xs s → IsMute ys s → IsMute (xs ++ ys) s
IsMute-append s xs ys m n = record {
  outages = count-append (is_outage s) xs ys ∙ rw (m.outages, n.outages) refl;
  recoveries = count-append (is_recovery s) xs ys ∙ rw (m.recoveries, n.recoveries) refl;
}

-- Where a service has no incident, or one that began at `t` or later and was not told, and all its
-- results come from `t` on and before `t` plus either threshold, nobody is told anything of that
-- service, whatever it reports and whatever is observed of the others.
pub observe_all-IsMute :
    (s : Text) (a : Alerter) (os : List Observation) (t : ℕ) (state : Incidents)
    → All (IsWithin s a t) os
    → IsFresh t (state s)
    → IsMute (observe_all a os state).0 s
unfolding observe_all
observe_all-IsMute s a [] t state w f = nothing s
observe_all-IsMute s a (o ∷ os) t state w f =
    let q = observe-IsQuiet s a o t state w.0 f in
    IsMute-append s (to_list (observe a o state).0) (observe_all a os (observe a o state).1).0
      q.mute (observe_all-IsMute s a os t (observe a o state).1 w.1 q.fresh)
