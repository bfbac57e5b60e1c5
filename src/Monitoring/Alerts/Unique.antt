-- ===== src/Monitoring/Alerts/Unique.antt =====
-- How many incidents of a fingerprint are open while the engine of
-- apps/worker/src/monitoring/alert-engine.js and the administrators act.
pub mod Counts
use hello_deploy.Prelude.{
  ◌∙◌, and-eq-true, ap, sym, ℕ, ◌+◌, ◌≤◌, ◌≡◌, refl, arith, Bool, true, false, ◌&&◌, not,
  if◌then◌else◌, ltb, min, ◌*◌, ◌==◌, ◌=?◌, inl, inr, Bool-cases, Option, none, some, or_else, List,
  [], ◌∷◌, ◌++◌, map, includes, String, string_eq,
}
use hello_deploy.Prelude.Assoc.{lookup, insert}
use hello_deploy.Monitoring.Incidents.{
  Severity, warning, IncidentState, active, acknowledged, Resolution, recovered, cleared,
  Observation, Incident, is_open, is_open_for, find_open, find_recent, later, resolved_since,
  update_open, replace, reopened, created, resolve_doc, one_more, acknowledge, severity_eq,
}
use hello_deploy.Monitoring.Alerts.{
  Entry, Engine, Timer, reopen_or_create, refreshed, counted, create_incident, open_incident,
  resolve_incident, refresh_doc, refresh_incident, last_seen_write_ms, dispatch, step, load, steps,
  clear_gone, evaluate, DeployStatus, failed, healthy, other, on_outcome, count_failure,
  record_deployment, deployment_fingerprint, deployment_observation, elapsed, update_timer,
  effective_level, no_timer, entity_rules,
}
pub use hello_deploy.Monitoring.Alerts.Unique.Counts.{IsUnique}
unfoldable pub use hello_deploy.Monitoring.Alerts.Unique.Counts.{count_open}
use hello_deploy.Monitoring.Alerts.Unique.Counts.{
  one, count_open-append, count_open-replace, count_open-update_open, count_open-acknowledge, room,
  find_recent-fingerprint,
}

module _ (j : String) where
  either :
      (b : Bool) (x y : Engine)
      → count_open j x.docs ≤ 1
      → count_open j y.docs ≤ 1
      → count_open j (if b then x else y).docs ≤ 1
  either true x y p q = p
  either false x y p q = q

  count_open-create_incident :
      (o : Observation) (level : Severity) (at revision : ℕ) (e : Engine)
      → count_open j e.docs ≤ 1
      → (q : Option Incident) → find_open o.fingerprint e.docs ≡ q
      → count_open j (create_incident o level at revision e q).docs ≤ 1
  unfolding create_incident
  count_open-create_incident o level at revision e h (some d) q = h
  count_open-create_incident o level at revision e h none q =
      let d = created o level at revision e.next_id in
      rw (count_open-append j e.docs d) (room j o.fingerprint d e.docs refl q h)

  count_open-reopen_or_create :
      (o : Observation) (level : Severity) (at revision : ℕ) (e : Engine)
      → count_open j e.docs ≤ 1
      → (r q : Option Incident) → find_recent o.fingerprint at e.docs ≡ r
      → find_open o.fingerprint e.docs ≡ q
      → count_open j (reopen_or_create o level at revision e r q).docs ≤ 1
  unfolding reopen_or_create
  count_open-reopen_or_create o level at revision e h (some d) none r q =
      let d' = reopened o level at revision d in
      let fits =
        room j o.fingerprint d' e.docs (find_recent-fingerprint o.fingerprint at e.docs d r) q h in
      omega (arith, count_open-replace j d' e.docs, fits)
  count_open-reopen_or_create o level at revision e h none q r s =
      count_open-create_incident o level at revision e h q s
  count_open-reopen_or_create o level at revision e h (some d) (some x) r s =
      count_open-create_incident o level at revision e h (some x) s

  count_open-open_incident :
      (o : Observation) (level : Severity) (at revision : ℕ) (e : Engine)
      → count_open j e.docs ≤ 1
      → count_open j (open_incident o level at revision e).docs ≤ 1
  unfolding open_incident
  count_open-open_incident o level at revision e h =
      count_open-reopen_or_create o level at revision e h (find_recent o.fingerprint at e.docs)
        (find_open o.fingerprint e.docs) refl refl

  count_open-resolve_incident :
      (i : String) (r : Resolution) (at : ℕ) (c : Entry) (e : Engine)
      → count_open j e.docs ≤ 1
      → count_open j (resolve_incident i r at c e).docs ≤ 1
  unfolding resolve_incident
  count_open-resolve_incident i r at c e h =
      omega (arith, h, count_open-update_open j c.doc.id (resolve_doc r at) e.docs (λ d. refl))

  refresh_doc-fingerprint :
      (o : Observation) (level : Severity) (at : ℕ) (m d : Incident)
      → (refresh_doc o level at m d).fingerprint ≡ d.fingerprint
  refresh_doc-fingerprint o level at m d = ground arith

  count_open-refreshed :
      (o : Observation) (at : ℕ) (same : Bool) (e : Engine)
      → count_open j e.docs ≤ 1
      → (w : Option Incident × List Incident) → count_open j w.1 ≤ 1
      → count_open j (refreshed o at same e w).docs ≤ 1
  unfolding refreshed
  count_open-refreshed o at same e h (none, ds) k = h
  count_open-refreshed o at same e h (some d, ds) k = k

  count_open-refresh_incident :
      (o : Observation) (level : Severity) (at : ℕ) (c : Entry) (e : Engine)
      → count_open j e.docs ≤ 1
      → count_open j (refresh_incident o level at c e).docs ≤ 1
  unfolding refresh_incident
  count_open-refresh_incident o level at c e h =
      let f = refresh_doc o level at c.doc in
      let written =
        count_open-update_open j c.doc.id f e.docs (refresh_doc-fingerprint o level at c.doc) in
      either (severity_eq c.doc.severity level && ltb at (c.last_write_at + last_seen_write_ms)) _ _
        h
        (count_open-refreshed o at (severity_eq c.doc.severity level) e h
          (update_open c.doc.id f e.docs) (omega (arith, h, written)))

  count_open-counted :
      (i : String) (at : ℕ) (e : Engine)
      → count_open j e.docs ≤ 1
      → (w : Option Incident × List Incident) → count_open j w.1 ≤ 1
      → count_open j (counted i at e w).docs ≤ 1
  unfolding counted
  count_open-counted i at e h (none, ds) k = h
  count_open-counted i at e h (some d, ds) k = k

  count_open-count_failure :
      (i : String) (at : ℕ) (c : Entry) (e : Engine)
      → count_open j e.docs ≤ 1
      → count_open j (count_failure i at c e).docs ≤ 1
  unfolding count_failure
  count_open-count_failure i at c e h =
      count_open-counted i at e h (update_open c.doc.id (one_more at) e.docs)
        (omega (arith, h, count_open-update_open j c.doc.id (one_more at) e.docs (λ d. refl)))

  count_open-dispatch :
      (o : Observation) (now revision : ℕ) (t : Timer) (l : Option Severity) (c : Option Entry)
      (e : Engine)
      → count_open j e.docs ≤ 1
      → count_open j (dispatch o now revision t l c e).docs ≤ 1
  unfolding dispatch
  count_open-dispatch o now revision t (some l) none e h =
      count_open-open_incident o l now revision e h
  count_open-dispatch o now revision t (some l) (some c) e h =
      count_open-refresh_incident o l now c e h
  count_open-dispatch o now revision t none none e h = h
  count_open-dispatch o now revision t none (some c) e h =
      either o.intentional _ _ (count_open-resolve_incident o.fingerprint cleared now c e h) (
        either (elapsed t.clear_since now (min 60000 (o.sustain_seconds * 1000))) _ _
          (count_open-resolve_incident o.fingerprint recovered now c e h) h)

  count_open-step :
      (o : Observation) (now revision : ℕ) (e : Engine)
      → count_open j e.docs ≤ 1
      → count_open j (step o now revision e).docs ≤ 1
  unfolding step
  count_open-step o now revision e h =
      let t = update_timer o now (or_else (lookup o.fingerprint e.timers) no_timer) in
      either o.unknown _ _ h (
        count_open-dispatch o now revision t (effective_level t now (o.sustain_seconds * 1000))
          (lookup o.fingerprint e.open_incidents)
          (record e { timers = insert o.fingerprint t e.timers }) h)

  count_open-steps :
      (os : List Observation) (now revision : ℕ) (e : Engine)
      → count_open j e.docs ≤ 1
      → count_open j (steps os now revision e).docs ≤ 1
  unfolding steps
  count_open-steps [] now revision e h = h
  count_open-steps (o ∷ os) now revision e h =
      count_open-steps os now revision (step o now revision e) (count_open-step o now revision e h)

  count_open-load :
      (at : ℕ) (e : Engine) → count_open j e.docs ≤ 1 → count_open j (load at e).docs ≤ 1
  unfolding load
  count_open-load at e h = either e.loaded _ _ h h

  count_open-clear_gone :
      (seen : List String) (entries : List (String × Entry)) (now : ℕ) (e : Engine)
      → count_open j e.docs ≤ 1
      → count_open j (clear_gone seen entries now e).docs ≤ 1
  unfolding clear_gone
  count_open-clear_gone seen [] now e h = h
  count_open-clear_gone seen ((fingerprint, entry) ∷ entries) now e h =
      count_open-clear_gone seen entries now _ (
        either (not (includes seen fingerprint) && includes entity_rules entry.doc.rule) _ _
          (count_open-resolve_incident fingerprint cleared now entry e h) h)

  count_open-evaluate :
      (os : List Observation) (now revision : ℕ) (e : Engine)
      → count_open j e.docs ≤ 1
      → count_open j (evaluate os now revision e).docs ≤ 1
  unfolding evaluate
  count_open-evaluate os now revision e h =
      let e' = steps os now revision (load now e) in
      count_open-clear_gone (map (λ o. o.fingerprint) os) e'.open_incidents now e'
        (count_open-steps os now revision (load now e) (count_open-load now e h))

  count_open-on_outcome :
      (p : String) (s : DeployStatus) (at revision : ℕ) (c : Option Entry) (e : Engine)
      → count_open j e.docs ≤ 1
      → count_open j (on_outcome p s at revision c e).docs ≤ 1
  count_open-on_outcome p failed at revision (some c) e h =
      count_open-count_failure (deployment_fingerprint p) at c e h
  count_open-on_outcome p failed at revision none e h =
      count_open-open_incident (deployment_observation p) warning at revision e h
  count_open-on_outcome p healthy at revision (some c) e h =
      count_open-resolve_incident (deployment_fingerprint p) recovered at c e h
  count_open-on_outcome p healthy at revision none e h = h
  count_open-on_outcome p other at revision c e h = h

  count_open-record_deployment :
      (p : String) (s : DeployStatus) (at revision : ℕ) (e : Engine)
      → count_open j e.docs ≤ 1
      → count_open j (record_deployment p s at revision e).docs ≤ 1
  unfolding record_deployment
  count_open-record_deployment p s at revision e h =
      count_open-on_outcome p s at revision
        (lookup (deployment_fingerprint p) (load at e).open_incidents) (load at e)
        (count_open-load at e h)

-- What happens to the incidents: a snapshot is evaluated, a deployment's outcome is recorded, an
-- administrator acknowledges, or the worker starts again with nothing in memory.
pub data Event : Type 0 where
  snapshot : List Observation → ℕ → ℕ → Event
  outcome : String → DeployStatus → ℕ → ℕ → Event
  acknowledgement : ℕ → ℕ → ℕ → Event
  restart : Event

abbrev pub on_event : Event → Engine → Engine
on_event (snapshot os now revision) e = evaluate os now revision e
on_event (outcome p s at revision) e = record_deployment p s at revision e
on_event (acknowledgement id actor at) e = record e { docs = acknowledge id actor at e.docs }
on_event restart e = record e { open_incidents = []; timers = []; loaded = false }

unfoldable pub on_events : List Event → Engine → Engine
on_events [] e = e
on_events (v ∷ vs) e = on_events vs (on_event v e)

count_open-on_event :
    (j : String) (v : Event) (e : Engine)
    → count_open j e.docs ≤ 1
    → count_open j (on_event v e).docs ≤ 1
count_open-on_event j (snapshot os now revision) e h = count_open-evaluate j os now revision e h
count_open-on_event j (outcome p s at revision) e h =
    count_open-record_deployment j p s at revision e h
count_open-on_event j (acknowledgement id actor at) e h =
    rw (count_open-acknowledge j id actor at e.docs) h
count_open-on_event j restart e h = h

-- Where no fingerprint has two open incidents, no fingerprint has two after any sequence of
-- evaluated snapshots, recorded deployments, acknowledgements and restarts of the worker.
pub open_incidents-IsUnique :
    (vs : List Event) (e : Engine) → IsUnique e.docs → IsUnique (on_events vs e).docs
unfolding on_events
open_incidents-IsUnique [] e h = h
open_incidents-IsUnique (v ∷ vs) e h =
    open_incidents-IsUnique vs (on_event v e) (λ j. count_open-on_event j v e (h j))
