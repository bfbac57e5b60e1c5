-- ===== src/Monitoring/Rules.antt =====
-- `observe` of apps/worker/src/monitoring/alert-engine.js: the alert rules, from one snapshot to the
-- observations that the engine evaluates. A reading of a percentage counts tenths, one of a load
-- hundredths, and a missing one is `none`; details, links and scopes are left out.
pub mod Consistent
use hello_deploy.Prelude.{
  ℕ, ◌+◌, ◌*◌, ◌/◌, Bool, true, false, ◌&&◌, ◌||◌, not, ltb, leb, ◌==◌, if◌then◌else◌, Option, none,
  some, is_some, or_else, List, [], ◌∷◌, ◌++◌, String,
}
use Prim.Native.String.{◌++◌ as concat}
use hello_deploy.Monitoring.Incidents.{
  Severity, critical, warning, Observation, is_critical, level_is_critical,
}
use hello_deploy.Monitoring.Probes.{
  AppHealth, healthy, degraded, unhealthy, starting, restarting, stopped, maintenance, unknown,
}
use hello_deploy.Monitoring.Policy.{
  Policy, StoredPolicy, StoredThreshold, Threshold, clamp_int, default_threshold, normalize_policy,
  normalize_threshold,
}

pub record Disk : Type 0 where
  pub key : String
  pub label : String
  pub used_percent : Option ℕ

pub record App : Type 0 where
  pub project_id : String
  pub slug : String
  pub memory_bytes : Option ℕ
  pub memory_limit_bytes : Option ℕ
  pub has_running_container : Bool
  pub health : AppHealth

pub record Service : Type 0 where
  pub key : String
  pub label : String
  pub is_installed : Bool
  pub is_web : Bool
  pub is_up : Bool

pub record Queue : Type 0 where
  pub waiting : ℕ
  pub active : ℕ
  pub is_paused : Bool

pub record Snapshot : Type 0 where
  pub cpu : Option ℕ
  pub cores : Option ℕ
  pub load1 : Option ℕ
  pub memory : Option ℕ
  pub memory_pressure : Option ℕ
  pub memory_total : Option ℕ
  pub memory_available : Option ℕ
  pub disks : List Disk
  pub apps : List App
  pub host_ok : Option Bool
  pub docker_ok : Option Bool
  pub nginx_ok : Option Bool
  pub services : List Service
  pub queue : Option Queue
  pub resource_seconds : Option ℕ
  pub service_seconds : Option ℕ

-- What `threshold` answers.
pub record Reading : Type 0 where
  pub is_unknown : Bool
  pub level : Option Severity
  pub is_clear : Bool
  pub value : Option ℕ
  pub sustain_seconds : ℕ

unfoldable pub threshold : Threshold → Option ℕ → Reading
threshold t none = record {
  is_unknown = true;
  level = none;
  is_clear = false;
  value = none;
  sustain_seconds = 0;
}
threshold t (some v) = record {
  is_unknown = false;
  level =
      if leb (t.critical_at * 10) v
      then some critical
      else if leb (t.warning_at * 10) v
      then some warning
      else none;
  is_clear = ltb v (t.clear_below * 10);
  value = some v;
  sustain_seconds = t.sustain_seconds;
}

abbrev pub observed : String → String → String → Reading → Observation
observed fingerprint rule title r = record {
  fingerprint = fingerprint;
  rule = rule;
  title = title;
  unknown = r.is_unknown;
  level = r.level;
  clear = r.is_clear;
  intentional = false;
  value = r.value;
  sustain_seconds = r.sustain_seconds;
}

-- A reading that is critical only with a second condition is a warning without it.
abbrev pub lowered : Bool → Reading → Reading
lowered keep r =
    if level_is_critical r.level && not keep then record r { level = some warning } else r

-- `load1 !== null && cores && load1 / cores >= 1`
abbrev pub is_loaded : Option ℕ → Option ℕ → Bool
is_loaded (some load) (some cores) = ltb 0 cores && leb (cores * 100) load
is_loaded _ _ = false

unfoldable pub cpu_rule : Snapshot → Policy → List Observation
cpu_rule s p =
    observed "host:cpu" "host.cpu" "Host CPU is high"
      (lowered (is_loaded s.load1 s.cores) (threshold p.cpu s.cpu))
    ∷ []

abbrev pub is_pressed : Option ℕ → ℕ → Bool
is_pressed none limit = true
is_pressed (some pressure) limit = leb (limit * 10) pressure

unfoldable pub memory_rule : Snapshot → Policy → List Observation
memory_rule s p =
    observed "host:memory" "host.memory" "Host memory is running low" (
      lowered (is_pressed s.memory_pressure p.memory_pressure_critical)
        (threshold p.memory s.memory))
    ∷ []

-- `Math.round((part / total) * 1000)`, for a total above 0.
abbrev pub tenths : ℕ → ℕ → ℕ
tenths part total = (2000 * part + total) / (2 * total)

-- An observation with these fields, of a reading that is known.
abbrev pub known_reading :
    String → String → String → Option Severity → Bool → Option ℕ → ℕ → Observation
known_reading fingerprint rule title level clear value sustain_seconds = record {
  fingerprint = fingerprint;
  rule = rule;
  title = title;
  unknown = false;
  level = level;
  clear = clear;
  intentional = false;
  value = value;
  sustain_seconds = sustain_seconds;
}

abbrev pub reserve_observation : Policy → ℕ → Observation
reserve_observation p available =
    let reserve = p.memory_reserve_percent * 10 in
    known_reading "capacity:memory:reserve" "capacity.memory"
      "Memory headroom is inside the policy reserve"
      (if ltb 0 reserve && ltb available reserve then some warning else none)
      (leb (reserve + 50) available) (some available) p.memory.sustain_seconds

abbrev pub reserve_of : Policy → Option ℕ → Option ℕ → List Observation
reserve_of p (some total) (some available) =
    if ltb 0 total then reserve_observation p (tenths available total) ∷ [] else []
reserve_of p _ _ = []

unfoldable pub reserve_rule : Snapshot → Policy → List Observation
reserve_rule s p = reserve_of p s.memory_total s.memory_available

unfoldable pub disk_rules : List Disk → Policy → List Observation
disk_rules [] p = []
disk_rules (d ∷ ds) p =
    observed (concat "host:disk:" d.key) "host.disk" (concat d.label " is filling up")
      (threshold p.disk d.used_percent)
    ∷ disk_rules ds p

abbrev pub is_set : Option ℕ → Bool
is_set none = false
is_set (some n) = ltb 0 n

abbrev pub memory_percent : Option ℕ → Option ℕ → Option ℕ
memory_percent (some used) (some limit) = if ltb 0 limit then some (tenths used limit) else none
memory_percent _ _ = none

unfoldable pub container_rule : App → Policy → List Observation
container_rule app p =
    if is_set app.memory_limit_bytes && app.has_running_container
    then observed (concat "container:memory:" app.project_id) "container.memory"
        (concat app.slug " is near its memory limit")
        (threshold p.container_memory (memory_percent app.memory_bytes app.memory_limit_bytes))
      ∷ []
    else []

abbrev pub health_observation : App → String → Bool → Option Severity → Bool → Bool → Observation
health_observation app title is_unknown level clear intentional = record {
  fingerprint = concat "app:health:" app.project_id;
  rule = "app.health";
  title = title;
  unknown = is_unknown;
  level = level;
  clear = clear;
  intentional = intentional;
  value = none;
  sustain_seconds = 0;
}

unfoldable pub health_rule : App → AppHealth → Observation
health_rule app unhealthy =
    health_observation app (concat app.slug " is unhealthy") false (some critical) false false
health_rule app restarting =
    health_observation app (concat app.slug " is restarting") false (some critical) false false
health_rule app degraded =
    health_observation app (concat app.slug " is degraded") false (some warning) false false
health_rule app healthy =
    health_observation app (concat app.slug " recovered") false none true false
health_rule app stopped = health_observation app (concat app.slug " stopped") false none true true
health_rule app maintenance =
    health_observation app (concat app.slug " stopped") false none true true
health_rule app _ = health_observation app app.slug true none false false

unfoldable pub app_rules : List App → Policy → List Observation
app_rules [] p = []
app_rules (app ∷ apps) p = container_rule app p ++ health_rule app app.health ∷ app_rules apps p

-- `level: state.ok ? null : severity, clear: state.ok`
abbrev pub level_unless : Bool → Severity → Option Severity
level_unless true v = none
level_unless false v = some v

-- `sourceRule`
unfoldable pub source_rule : String → String → Option Bool → Option ℕ → List Observation
source_rule key title none seconds = []
source_rule key title (some ok) seconds =
    known_reading (concat "monitoring:" key) (concat "monitoring." key) title
      (level_unless ok warning) ok none (or_else seconds 15 * 2)
    ∷ []

unfoldable pub nginx_rule : Option Bool → List Observation
nginx_rule none = []
nginx_rule (some ok) =
    known_reading "service:nginx:config" "service.nginx" "Nginx configuration check failed"
      (level_unless ok critical) ok none 0
    ∷ []

unfoldable pub service_rules : List Service → Option ℕ → List Observation
service_rules [] seconds = []
service_rules (service ∷ services) seconds =
    let rest = service_rules services seconds in
    if not service.is_installed || service.is_web
    then rest
    else known_reading (concat "service:" service.key) "service.unit"
        (concat service.label " is not running") (level_unless service.is_up critical) service.is_up
        none (or_else seconds 30 * 2)
      ∷ rest

abbrev pub queue_stall_seconds : ℕ
queue_stall_seconds = 600

unfoldable pub queue_rule : Option Queue → List Observation
queue_rule none = []
queue_rule (some q) =
    let stalled = ltb 0 q.waiting && q.active == 0 && not q.is_paused in
    known_reading "queue:stalled" "queue.stalled" "Deployments are waiting but none is running"
      (level_unless (not stalled) warning) (not stalled) none queue_stall_seconds
    ∷ []

unfoldable pub concat_all : List (List Observation) → List Observation
concat_all [] = []
concat_all (os ∷ rest) = os ++ concat_all rest

-- The pushes of `observe`, in their order.
unfoldable pub observe : Snapshot → Policy → List Observation
observe s p = concat_all (
    cpu_rule s p
    ∷ memory_rule s p
    ∷ reserve_rule s p
    ∷ disk_rules s.disks p
    ∷ app_rules s.apps p
    ∷ source_rule "host" "Host metrics cannot be read" s.host_ok s.resource_seconds
    ∷ source_rule "docker" "Docker is not answering the monitor" s.docker_ok s.resource_seconds
    ∷ nginx_rule s.nginx_ok
    ∷ service_rules s.services s.service_seconds
    ∷ queue_rule s.queue
    ∷ [])
