-- ===== src/Monitoring/Incidents.antt =====
-- The collection `monitoring_incidents` (packages/database/src/models/monitoring-incident.model.js):
-- the queries and the writes of apps/worker/src/monitoring/alert-engine.js on it, and that of
-- apps/web/src/services/admin-ops/incidents.service.js. No rule gives the severity `info`.
use hello_deploy.Prelude.{
  ℕ, ◌+◌, Bool, true, false, ◌&&◌, not, ltb, leb, ◌==◌, if◌then◌else◌, Option, none, some, or_else,
  List, [], ◌∷◌, String, string_eq, ◌=?◌,
}

pub data Severity : Type 0 where
  critical warning : Severity

-- `IncidentState`
pub data IncidentState : Type 0 where
  active acknowledged resolved : IncidentState

pub data Resolution : Type 0 where
  recovered cleared : Resolution

-- One reading of a rule. `title` is the wording that a change of severity writes.
pub record Observation : Type 0 where
  pub fingerprint : String
  pub rule : String
  pub title : String
  pub unknown : Bool
  pub level : Option Severity
  pub clear : Bool
  pub intentional : Bool
  pub value : Option ℕ
  pub sustain_seconds : ℕ

-- A document of `monitoring_incidents`.
pub record Incident : Type 0 where
  pub id : ℕ
  pub fingerprint : String
  pub rule : String
  pub title : String
  pub severity : Severity
  pub state : IncidentState
  pub value : Option ℕ
  pub first_seen : ℕ
  pub last_seen : ℕ
  pub occurrences : ℕ
  pub policy_revision : ℕ
  pub resolved_at : Option ℕ
  pub resolution : Option Resolution
  pub expires_at : Option ℕ
  pub acknowledged_at : Option ℕ
  pub acknowledged_by : Option ℕ

abbrev pub reopen_window_ms : ℕ
reopen_window_ms = 1800000

abbrev pub resolved_retention_ms : ℕ
resolved_retention_ms = 7776000000

-- `OPEN_INCIDENT_STATES.includes(state)`
abbrev pub is_open : IncidentState → Bool
is_open active = true
is_open acknowledged = true
is_open resolved = false

abbrev pub is_critical : Severity → Bool
is_critical critical = true
is_critical warning = false

abbrev pub severity_eq : Severity → Severity → Bool
severity_eq critical s = is_critical s
severity_eq warning s = not (is_critical s)

-- An open document with the fingerprint: what the unique index forbids twice.
abbrev pub is_open_for : String → Incident → Bool
is_open_for fingerprint d = d.fingerprint =? fingerprint && is_open d.state

unfoldable pub find_open : String → List Incident → Option Incident
find_open fingerprint [] = none
find_open fingerprint (d ∷ ds) =
    let rest = find_open fingerprint ds in if is_open_for fingerprint d then some d else rest

abbrev pub resolved_since : String → ℕ → Incident → Bool
resolved_since fingerprint at d =
    d.fingerprint =? fingerprint
    && not (is_open d.state)
    && elim d.resolved_at [ none ↦ false | some r ↦ leb at (r + reopen_window_ms) ]

abbrev pub later : Incident → Option Incident → Incident
later d none = d
later d (some e) = if ltb (or_else d.resolved_at 0) (or_else e.resolved_at 0) then e else d

-- The filter and the sort `{resolvedAt: -1}` of the reopening query.
unfoldable pub find_recent : String → ℕ → List Incident → Option Incident
find_recent fingerprint at [] = none
find_recent fingerprint at (d ∷ ds) =
    let rest = find_recent fingerprint at ds in
    if resolved_since fingerprint at d then some (later d rest) else rest

-- `findOneAndUpdate({_id, state: {$in: OPEN_INCIDENT_STATES}}, …, {new: true})`
unfoldable pub update_open :
    ℕ → (Incident → Incident) → List Incident → Option Incident × List Incident
update_open id f [] = (none, [])
update_open id f (d ∷ ds) =
    let rest = update_open id f ds in
    if d.id == id && is_open d.state then (some (f d), f d ∷ ds) else (rest.0, d ∷ rest.1)

-- The document with an id is replaced.
unfoldable pub replace : Incident → List Incident → List Incident
replace new [] = []
replace new (d ∷ ds) = let rest = replace new ds in if d.id == new.id then new ∷ ds else d ∷ rest

-- `$set: {...fields, state: ACTIVE, …}, $inc: {occurrences: 1}`
abbrev pub reopened : Observation → Severity → ℕ → ℕ → Incident → Incident
reopened o level at revision d = record d {
  rule = o.rule;
  title = o.title;
  severity = level;
  state = active;
  value = o.value;
  last_seen = at;
  occurrences = d.occurrences + 1;
  policy_revision = revision;
  resolved_at = none;
  resolution = none;
  expires_at = none;
  acknowledged_at = none;
  acknowledged_by = none;
}

abbrev pub created : Observation → Severity → ℕ → ℕ → ℕ → Incident
created o level at revision id = record {
  id = id;
  fingerprint = o.fingerprint;
  rule = o.rule;
  title = o.title;
  severity = level;
  state = active;
  value = o.value;
  first_seen = at;
  last_seen = at;
  occurrences = 1;
  policy_revision = revision;
  resolved_at = none;
  resolution = none;
  expires_at = none;
  acknowledged_at = none;
  acknowledged_by = none;
}

abbrev pub resolve_doc : Resolution → ℕ → Incident → Incident
resolve_doc resolution at d = record d {
  state = resolved;
  last_seen = at;
  resolved_at = some at;
  resolution = some resolution;
  expires_at = some (at + resolved_retention_ms);
}

abbrev pub level_is_critical : Option Severity → Bool
level_is_critical none = false
level_is_critical (some s) = is_critical s

abbrev pub one_more : ℕ → Incident → Incident
one_more at d = record d { last_seen = at; occurrences = d.occurrences + 1 }

-- The write of `acknowledgeIncident` in apps/web/src/services/admin-ops/incidents.service.js,
-- which the engine does not see: the incident with an id, if it is active.
unfoldable pub acknowledge : ℕ → ℕ → ℕ → List Incident → List Incident
acknowledge id actor at [] = []
acknowledge id actor at (d ∷ ds) =
    let rest = acknowledge id actor at ds in
    let marked = record d {
      state = acknowledged;
      acknowledged_at = some at;
      acknowledged_by = some actor;
    } in
    if d.id == id then (elim d.state [ active ↦ marked | _ ↦ d ] ∷ ds) else d ∷ rest
