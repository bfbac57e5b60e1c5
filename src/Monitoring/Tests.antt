-- ===== src/Monitoring/Tests.antt =====
-- The monitoring modules on small inputs.
use mathlib.Core.List.{Memᴰ}
use hello_deploy.Prelude.{
  All, ℕ, ◌+◌, ◌≤◌, ◌≡◌, ◌⊎◌, inr, refl, arith, true, false, Option, none, some, is_some, List, [],
  ◌∷◌, String, ℕ_eq, string_eq,
}
use hello_deploy.Prelude.Assoc.{lookup, remove}
use hello_deploy.Monitoring.Incidents.{
  Severity, critical, warning, IncidentState, active, acknowledged, Observation, Incident, created,
}
use hello_deploy.Monitoring.Alerts.{
  no_timer, Entry, Engine, update_timer, effective_level, step, DeployStatus, failed,
  deployment_fingerprint, dispatch, resolve_incident,
}
use hello_deploy.Monitoring.Alerts.Timers.{timer_after, reaches, Held, effective_level_sound}
use hello_deploy.Monitoring.Alerts.Sustained.{effective_level_complete}
use hello_deploy.Monitoring.Alerts.Unique.{
  count_open, IsUnique, Event, snapshot, outcome, acknowledgement, restart, on_events,
  open_incidents-IsUnique,
}
use hello_deploy.Monitoring.Alerts.Deployments.{
  record_all, last_failed, deployment_incident_follows_last_outcome,
}
use hello_deploy.Monitoring.Policy.{StoredThreshold, StoredPolicy, normalize_policy}
use hello_deploy.Monitoring.Rules.{Snapshot, observe}
use hello_deploy.Monitoring.Rules.Consistent.{IsConsistent, observe-IsConsistent}
use hello_deploy.Monitoring.Alerts.Recovery.{LetsGo, step-LetsGo}

abbrev reading : Option Severity → Observation
reading level = record {
  fingerprint = "host.cpu";
  rule = "host.cpu";
  title = "CPU";
  unknown = false;
  level = level;
  clear = false;
  intentional = false;
  value = some 97;
  sustain_seconds = 5;
}

abbrev bad : Observation
bad = reading (some critical)

abbrev readings : List (ℕ × Option Observation)
readings = (9000, some bad) ∷ (3000, some bad) ∷ []

effective_level_sound_example :
    (s : ℕ) × (s + 5000 ≤ 9000)
    × ((o : Observation) × Memᴰ (s, some o) readings
        × (reaches critical o ≡ true)
        × (o.unknown ≡ false))
    × Held (reaches critical) s readings
unfolding effective_level timer_after update_timer
effective_level_sound_example =
    effective_level_sound critical readings 9000 5000 ((omega arith, tt), (tt, tt)) refl

effective_level_complete_example :
    ((critical ≡ critical) × (effective_level (timer_after readings) 9000 5000 ≡ some critical))
    ⊎ ((critical ≡ warning) × (is_some (effective_level (timer_after readings) 9000 5000) ≡ true))
effective_level_complete_example =
    effective_level_complete critical readings 9000 5000 3000 bad ((omega arith, tt), (tt, tt))
      (Memᴰ.tail (Memᴰ.head refl)) refl refl (inr (inr refl), (inr (inr refl), tt)) (omega arith)

abbrev incident : IncidentState → Severity → Incident
incident s level = record (created bad level 0 1 4) { state = s }

abbrev engine : List Incident → List (String × Entry) → Engine
engine docs held = record {
  docs = docs;
  next_id = 5;
  open_incidents = held;
  timers = [];
  loaded = true;
  events = [];
}

abbrev events : List Event
events =
    outcome "p1" failed 10 1
    ∷ restart
    ∷ snapshot ((reading none) ∷ []) 20 1
    ∷ acknowledgement 5 2 30
    ∷ []

open_incidents-IsUnique_example : IsUnique (on_events events (engine [] [])).docs
unfolding count_open
open_incidents-IsUnique_example = open_incidents-IsUnique events (engine [] []) (λ j. omega arith)

deployment_incident_follows_last_outcome_example :
    is_some (
      lookup
        (deployment_fingerprint "p1")
        (record_all "p1"
          ((DeployStatus.healthy, 10, 1) ∷ (failed, 20, 1) ∷ [])
          (engine [] [])).open_incidents)
    ≡ true
unfolding last_failed
deployment_incident_follows_last_outcome_example =
    deployment_incident_follows_last_outcome "p1"
      ((DeployStatus.healthy, 10, 1) ∷ (failed, 20, 1) ∷ []) (engine [] []) refl

abbrev calm : Observation
calm = record (reading none) { clear = true }

abbrev held : Entry
held = record { doc = incident active warning; last_write_at = 0 }

abbrev holding : Engine
holding = record (engine (incident active warning ∷ []) (("host.cpu", held) ∷ [])) {
  timers = ("host.cpu", update_timer calm 3000 no_timer) ∷ [];
}

step-LetsGo_example :
    (calm.unknown ≡ false)
    × LetsGo calm 9000
        ((9000, some calm) ∷ (3000, some calm) ∷ [])
        held
        holding
        (effective_level (timer_after ((9000, some calm) ∷ (3000, some calm) ∷ [])) 9000 5000)
unfolding lookup step dispatch resolve_incident remove update_timer effective_level timer_after
step-LetsGo_example =
    step-LetsGo calm 9000 1 ((3000, some calm) ∷ []) held holding ((omega arith, tt), (tt, tt)) refl
      refl refl

abbrev stale : Engine
stale = engine (incident acknowledged warning ∷ []) (("host.cpu", held) ∷ [])

abbrev unset : StoredThreshold
unset = record {
  stored_warning = none;
  stored_critical = some 50;
  stored_clear = none;
  stored_sustain_seconds = some 60;
}

abbrev stored_policy : StoredPolicy
stored_policy = record {
  stored_cpu = unset;
  stored_memory = unset;
  stored_disk = unset;
  stored_container_memory = unset;
  stored_pressure = none;
  stored_reserve = some 20;
}

abbrev full_host : Snapshot
full_host = record {
  cpu = some 970;
  cores = some 2;
  load1 = some 150;
  memory = none;
  memory_pressure = none;
  memory_total = some 8000;
  memory_available = some 900;
  disks = record { key = "root"; label = "Root"; used_percent = some 930 } ∷ [];
  apps = [];
  host_ok = some true;
  docker_ok = none;
  nginx_ok = some false;
  services = [];
  queue = some (record { waiting = 2; active = 0; is_paused = false });
  resource_seconds = none;
  service_seconds = none;
}

observe-IsConsistent_example : All IsConsistent (observe full_host (normalize_policy stored_policy))
observe-IsConsistent_example = observe-IsConsistent full_host stored_policy
