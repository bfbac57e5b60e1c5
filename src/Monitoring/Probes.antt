-- ===== src/Monitoring/Probes.antt =====
-- apps/worker/src/monitoring/probes.js: consecutive probe results and the health of an app. An HTTP
-- answer is the parameter `probe`; the probes of one run touch different projects, so their
-- interleaving is not modelled.
pub mod Streaks
pub mod Health
mod Tests
use hello_deploy.Prelude.{
  ℕ, ◌+◌, Bool, true, false, ◌&&◌, ◌||◌, not, ltb, leb, if◌then◌else◌, Option, none, some, is_some,
  or_else, List, [], ◌∷◌, map, includes, ℕ_eq, String,
}
use hello_deploy.Prelude.Assoc.{lookup, insert, retain}
use hello_deploy.Contracts.Enums.{ProjectStatus}

-- What `probeOnce` resolves to; `ok` is `res.statusCode < 400`, and false after an error.
pub record Answer : Type 0 where
  pub status_code : Option ℕ
  pub latency_ms : ℕ

unfoldable pub is_ok : Answer → Bool
is_ok a = elim a.status_code [ none ↦ false | some code ↦ ltb code 400 ]

pub record History : Type 0 where
  pub consecutive_failures : ℕ
  pub consecutive_successes : ℕ
  pub last_success_at : Option ℕ
  pub last_failure_at : Option ℕ
  pub last : Option Answer
  pub public_answer : Option Answer

abbrev pub no_history : History
no_history = record {
  consecutive_failures = 0;
  consecutive_successes = 0;
  last_success_at = none;
  last_failure_at = none;
  last = none;
  public_answer = none;
}

-- A result at the time `at`.
unfoldable pub record_answer : ℕ → Answer → History → History
unfolding is_ok
record_answer at a h =
    if is_ok a
    then record h {
      consecutive_successes = h.consecutive_successes + 1;
      consecutive_failures = 0;
      last_success_at = some at;
      last = some a;
    }
    else record h {
      consecutive_failures = h.consecutive_failures + 1;
      consecutive_successes = 0;
      last_failure_at = some at;
      last = some a;
    }

pub record Target : Type 0 where
  pub project_id : ℕ
  pub has_subdomain : Bool

pub record Request : Type 0 where
  pub has_public_domain : Bool
  pub check_public : Bool

-- What the two URLs of a target answer.
pub record Network : Type 0 where
  pub loopback : Target → Answer
  pub public_url : Target → Answer

unfoldable pub record_public : Request → Target → Answer → History → History
record_public r t a h =
    if r.check_public && r.has_public_domain && t.has_subdomain
    then record h { public_answer = some a }
    else if not r.check_public
    then record h { public_answer = none }
    else h

module _ (net : Network) (request : Request) (at : ℕ) where
  -- The task that `mapLimited` runs for each target.
  unfoldable pub probe_target : Target → List (ℕ × History) → List (ℕ × History)
  unfolding record_answer record_public
  probe_target t history =
      let before = or_else (lookup t.project_id history) no_history in
      insert t.project_id
        (record_public request t (net.public_url t) (record_answer at (net.loopback t) before))
        history

  unfoldable pub probe_all : List Target → List (ℕ × History) → List (ℕ × History)
  unfolding probe_target
  probe_all [] history = history
  probe_all (t ∷ ts) history = probe_all ts (probe_target t history)

  -- `run` of the tracker: probe, then forget the projects with no live release.
  unfoldable pub run : List Target → List (ℕ × History) → List (ℕ × History)
  unfolding probe_all
  run targets history =
      retain (includes (map (λ t. t.project_id) targets)) (probe_all targets history)

pub data AppHealth : Type 0 where
  healthy degraded unhealthy starting restarting stopped maintenance unknown : AppHealth

pub record AppProject : Type 0 where
  pub maintenance : Bool
  pub status : ProjectStatus
  pub active_deployment_id : Option ℕ

pub record AppContainer : Type 0 where
  pub running : Bool
  pub restarting : Bool
  pub started_at : Option ℕ

pub record ProbePolicy : Type 0 where
  pub failures_before_unhealthy : ℕ
  pub successes_before_healthy : ℕ

abbrev pub starting_grace_ms : ℕ
starting_grace_ms = 60000

abbrev pub is_suspended : ProjectStatus → Bool
is_suspended ProjectStatus.suspended = true
is_suspended _ = false

-- The part of `deriveAppHealth` that reads the probe history.
unfoldable pub health_of_history : ProbePolicy → ℕ → ℕ → History → AppHealth
health_of_history policy started_ms now_ms h =
    if not (is_some h.last)
    then unknown
    else if leb policy.failures_before_unhealthy h.consecutive_failures
    then unhealthy
    else if ltb 0 h.consecutive_failures
    then (if ltb now_ms (started_ms + starting_grace_ms) && not (is_some h.last_success_at)
        then starting
        else degraded)
    else if leb policy.successes_before_healthy h.consecutive_successes
    then healthy
    else starting

unfoldable pub health_of_container :
    Option History → ProbePolicy → Bool → ℕ → Option AppContainer → AppHealth
unfolding health_of_history
health_of_container probe policy probes_enabled now_ms none = unhealthy
health_of_container probe policy probes_enabled now_ms (some c) =
    if c.restarting
    then restarting
    else if not c.running
    then unhealthy
    else if not probes_enabled
    then unknown
    else health_of_history policy (or_else c.started_at 0) now_ms (or_else probe no_history)

-- `deriveAppHealth`, without the reason that it words. A missing probe record reads as an empty
-- one, since both have no last answer.
unfoldable pub derive_app_health :
    AppProject → Option AppContainer → Option History → ProbePolicy → Bool → ℕ → AppHealth
unfolding health_of_container
derive_app_health p container probe policy probes_enabled now_ms =
    if p.maintenance
    then maintenance
    else if is_suspended p.status
    then stopped
    else if not (is_some p.active_deployment_id)
    then stopped
    else health_of_container probe policy probes_enabled now_ms container
