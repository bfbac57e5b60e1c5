-- ===== src/Monitoring/Alerts.antt =====
-- `createAlertEngine` of apps/worker/src/monitoring/alert-engine.js: incidents from observations.
-- The collection answers every query; the clock stands still within one call. The wording of an
-- incident is its title only, and an event on Redis is the incident that it is about.
pub mod Timers
pub mod Sustained
pub mod Unique
pub mod Steps
pub mod Recovery
pub mod Deployments
use hello_deploy.Prelude.{
  ℕ, ◌+◌, ◌*◌, min, Bool, true, false, ◌&&◌, ◌||◌, not, ltb, leb, ◌==◌, if◌then◌else◌, Option, none,
  some, is_some, or_else, List, [], ◌∷◌, ◌++◌, map, any, includes, ℕ_eq, string_eq, String, ◌=?◌,
}
use Prim.Native.String.{◌++◌ as concat}
use hello_deploy.Prelude.Assoc.{lookup, insert, remove}
use hello_deploy.Monitoring.Incidents.{
  Incident, IncidentState, Observation, Resolution, Severity, acknowledge, acknowledged, active,
  cleared, created, critical, find_open, find_recent, is_critical, is_open, is_open_for, later,
  level_is_critical, one_more, recovered, reopen_window_ms, reopened, replace, resolve_doc,
  resolved, resolved_retention_ms, resolved_since, severity_eq, update_open, warning,
}

pub record Timer : Type 0 where
  pub warning_since : Option ℕ
  pub critical_since : Option ℕ
  pub clear_since : Option ℕ

abbrev pub no_timer : Timer
no_timer = record { warning_since = none; critical_since = none; clear_since = none }

-- An entry of `open`: the document as the engine last read it, and when.
pub record Entry : Type 0 where
  pub doc : Incident
  pub last_write_at : ℕ

-- The collection, the id that its next document gets, and the engine's own maps.
pub record Engine : Type 0 where
  pub docs : List Incident
  pub next_id : ℕ
  pub open_incidents : List (String × Entry)
  pub timers : List (String × Timer)
  pub loaded : Bool
  pub events : List Incident

abbrev pub last_seen_write_ms : ℕ
last_seen_write_ms = 60000

-- `open.set(…)` and `publish(…)` at the end of `openIncident`.
abbrev pub adopt : String → ℕ → Incident → Engine → Engine
adopt fingerprint at d e = record e {
  open_incidents = insert fingerprint (record { doc = d; last_write_at = at }) e.open_incidents;
  events = d ∷ e.events;
}

-- The create of `openIncident`, where no incident was reopened. The unique index refuses a second
-- open document, and then the open one is read.
unfoldable pub create_incident : Observation → Severity → ℕ → ℕ → Engine → Option Incident → Engine
create_incident o level at revision e (some d) = adopt o.fingerprint at d e
create_incident o level at revision e none =
    let d = created o level at revision e.next_id in
    adopt o.fingerprint at d (record e { docs = e.docs ++ d ∷ []; next_id = e.next_id + 1 })

-- The reopening of `openIncident`, by the recent document and the open one. It is refused while
-- another incident of the fingerprint is open.
unfoldable pub reopen_or_create :
    Observation → Severity → ℕ → ℕ → Engine → Option Incident → Option Incident → Engine
reopen_or_create o level at revision e (some d) none =
    let d' = reopened o level at revision d in
    adopt o.fingerprint at d' (record e { docs = replace d' e.docs })
reopen_or_create o level at revision e _ current = create_incident o level at revision e current

-- `openIncident`
unfoldable pub open_incident : Observation → Severity → ℕ → ℕ → Engine → Engine
open_incident o level at revision e =
    reopen_or_create o level at revision e (find_recent o.fingerprint at e.docs)
      (find_open o.fingerprint e.docs)

abbrev pub announce : Option Incident → List Incident → List Incident
announce none events = events
announce (some d) events = d ∷ events

-- `resolveIncident`, for the entry that `open` holds under the fingerprint.
unfoldable pub resolve_incident : String → Resolution → ℕ → Entry → Engine → Engine
resolve_incident fingerprint resolution at current e =
    let (doc, docs) = update_open current.doc.id (resolve_doc resolution at) e.docs in
    record e {
      docs = docs;
      open_incidents = remove fingerprint e.open_incidents;
      timers = remove fingerprint e.timers;
      events = announce doc e.events;
    }

-- The `$set` of `refreshIncident`. Whether the acknowledgement is dropped is decided by the state
-- that the engine remembers, not by the document's.
abbrev pub refresh_doc : Observation → Severity → ℕ → Incident → Incident → Incident
refresh_doc o level at remembered d =
    let seen = record d { last_seen = at; value = o.value } in
    if severity_eq remembered.severity level
    then seen
    else let changed = record seen { severity = level; title = o.title } in
      elim remembered.state [
        | acknowledged ↦
            if is_critical level
            then record changed { state = active; acknowledged_at = none; acknowledged_by = none }
            else changed
        | _ ↦ changed
      ]

-- What `refreshIncident` keeps of its write. No document: it was resolved or removed elsewhere.
unfoldable pub refreshed :
    Observation → ℕ → Bool → Engine → Option Incident × List Incident → Engine
refreshed o at same e (none, docs) = record e {
  open_incidents = remove o.fingerprint e.open_incidents;
}
refreshed o at same e (some d, docs) = record e {
  docs = docs;
  open_incidents = insert o.fingerprint (record { doc = d; last_write_at = at }) e.open_incidents;
  events = if same then e.events else d ∷ e.events;
}

-- `refreshIncident`
unfoldable pub refresh_incident : Observation → Severity → ℕ → Entry → Engine → Engine
refresh_incident o level at current e =
    let same = severity_eq current.doc.severity level in
    if same && ltb at (current.last_write_at + last_seen_write_ms)
    then e
    else refreshed o at same e
        (update_open current.doc.id (refresh_doc o level at current.doc) e.docs)

-- `condition ? (since ?? now) : null`
abbrev pub since : Bool → ℕ → Option ℕ → Option ℕ
since false now s = none
since true now s = some (or_else s now)

-- The timer of a rule after a known reading.
unfoldable pub update_timer : Observation → ℕ → Timer → Timer
update_timer o now t = record {
  warning_since = since (is_some o.level) now t.warning_since;
  critical_since = since (level_is_critical o.level) now t.critical_since;
  clear_since = since o.clear now t.clear_since;
}

-- `since !== null && now - since >= ms`
abbrev pub elapsed : Option ℕ → ℕ → ℕ → Bool
elapsed none now ms = false
elapsed (some s) now ms = leb (s + ms) now

unfoldable pub effective_level : Timer → ℕ → ℕ → Option Severity
effective_level t now sustain_ms =
    if elapsed t.critical_since now sustain_ms
    then some critical
    else if elapsed t.warning_since now sustain_ms
    then some warning
    else none

-- What `step` does with the effective level, the open entry and the timer.
unfoldable pub dispatch :
    Observation → ℕ → ℕ → Timer → Option Severity → Option Entry → Engine → Engine
dispatch o now revision t (some level) none e = open_incident o level now revision e
dispatch o now revision t (some level) (some current) e = refresh_incident o level now current e
dispatch o now revision t none none e = e
dispatch o now revision t none (some current) e =
    if o.intentional
    then resolve_incident o.fingerprint cleared now current e
    else if elapsed t.clear_since now (min 60000 (o.sustain_seconds * 1000))
    then resolve_incident o.fingerprint recovered now current e
    else e

unfoldable pub step : Observation → ℕ → ℕ → Engine → Engine
step o now revision e =
    if o.unknown
    then e
    else let t = update_timer o now (or_else (lookup o.fingerprint e.timers) no_timer) in
      dispatch o now revision t (effective_level t now (o.sustain_seconds * 1000))
        (lookup o.fingerprint e.open_incidents)
        (record e { timers = insert o.fingerprint t e.timers })

unfoldable pub load_docs : List Incident → ℕ → List (String × Entry) → List (String × Entry)
load_docs [] at m = m
load_docs (d ∷ ds) at m =
    load_docs ds at (
      if is_open d.state
      then insert d.fingerprint (record { doc = d; last_write_at = at }) m
      else m)

-- `if (!loaded) await load()`
unfoldable pub load : ℕ → Engine → Engine
load at e =
    if e.loaded
    then e
    else record e { open_incidents = load_docs e.docs at e.open_incidents; loaded = true }

unfoldable pub steps : List Observation → ℕ → ℕ → Engine → Engine
steps [] now revision e = e
steps (o ∷ os) now revision e = steps os now revision (step o now revision e)

abbrev pub entity_rules : List String
entity_rules = "app.health" ∷ "container.memory" ∷ "host.disk" ∷ []

-- The loop over `[...open.keys()]`: what was there when it began.
unfoldable pub clear_gone : List String → List (String × Entry) → ℕ → Engine → Engine
clear_gone seen [] now e = e
clear_gone seen ((fingerprint, entry) ∷ entries) now e = clear_gone seen entries now (
    if not (includes seen fingerprint) && includes entity_rules entry.doc.rule
    then resolve_incident fingerprint cleared now entry e
    else e)

-- `evaluate`, on the observations of one snapshot.
unfoldable pub evaluate : List Observation → ℕ → ℕ → Engine → Engine
evaluate os now revision e =
    let e' = steps os now revision (load now e) in
    clear_gone (map (λ o. o.fingerprint) os) e'.open_incidents now e'

pub data DeployStatus : Type 0 where
  failed healthy other : DeployStatus

abbrev pub deployment_fingerprint : String → String
deployment_fingerprint project_id = concat "deployment:failed:" project_id

abbrev pub deployment_observation : String → Observation
deployment_observation project_id = record {
  fingerprint = deployment_fingerprint project_id;
  rule = "deployment.failed";
  title = "Latest deployment failed";
  unknown = false;
  level = none;
  clear = false;
  intentional = false;
  value = none;
  sustain_seconds = 0;
}

unfoldable pub counted : String → ℕ → Engine → Option Incident × List Incident → Engine
counted fingerprint at e (none, docs) = e
counted fingerprint at e (some d, docs) = record e {
  docs = docs;
  open_incidents = insert fingerprint (record { doc = d; last_write_at = at }) e.open_incidents;
}

-- A failure while the incident is open.
unfoldable pub count_failure : String → ℕ → Entry → Engine → Engine
count_failure fingerprint at current e =
    counted fingerprint at e (update_open current.doc.id (one_more at) e.docs)

abbrev pub on_outcome : String → DeployStatus → ℕ → ℕ → Option Entry → Engine → Engine
on_outcome project_id failed at revision (some current) e =
    count_failure (deployment_fingerprint project_id) at current e
on_outcome project_id failed at revision none e =
    open_incident (deployment_observation project_id) warning at revision e
on_outcome project_id healthy at revision (some current) e =
    resolve_incident (deployment_fingerprint project_id) recovered at current e
on_outcome project_id healthy at revision none e = e
on_outcome project_id other at revision o e = e

-- `recordDeployment`
unfoldable pub record_deployment : String → DeployStatus → ℕ → ℕ → Engine → Engine
record_deployment project_id status at revision e =
    let e' = load at e in
    on_outcome project_id status at revision
      (lookup (deployment_fingerprint project_id) e'.open_incidents) e'
