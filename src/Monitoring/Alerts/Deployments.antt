-- ===== src/Monitoring/Alerts/Deployments.antt =====
-- `recordDeployment` of apps/worker/src/monitoring/alert-engine.js over a project's outcomes.
use hello_deploy.Prelude.{
  ℕ, ◌≡◌, refl, arith, Bool, true, false, Option, none, some, is_some, List, [], ◌∷◌, String,
  string_eq, beq_refl, ◌∙◌, ap, if◌then◌else◌,
}
use hello_deploy.Prelude.Assoc.{lookup, insert, lookup-insert, lookup-remove}
use hello_deploy.Monitoring.Incidents.{
  Incident, Observation, Severity, warning, Resolution, find_open, find_recent, one_more,
  update_open, recovered,
}
use hello_deploy.Monitoring.Alerts.{
  Entry, Engine, create_incident, reopen_or_create, open_incident, resolve_incident, counted,
  count_failure, load, load_docs, DeployStatus, failed, healthy, other, on_outcome,
  record_deployment, deployment_fingerprint, deployment_observation,
}

abbrev is_held : String → Engine → Bool
is_held i e = is_some (lookup i e.open_incidents)

is_held-insert :
    (i : String) (n : Entry) (m : List (String × Entry)) → is_some (lookup i (insert i n m)) ≡ true
is_held-insert i n m = ground (arith, lookup-insert i i n m, beq_refl i)

is_held-create :
    (o : Observation) (l : Severity) (at revision : ℕ) (e : Engine) (q : Option Incident)
    → is_held o.fingerprint (create_incident o l at revision e q) ≡ true
unfolding create_incident
is_held-create o l at revision e none = is_held-insert o.fingerprint _ e.open_incidents
is_held-create o l at revision e (some d) = is_held-insert o.fingerprint _ e.open_incidents

is_held-reopen :
    (o : Observation) (l : Severity) (at revision : ℕ) (e : Engine) (r q : Option Incident)
    → is_held o.fingerprint (reopen_or_create o l at revision e r q) ≡ true
unfolding reopen_or_create
is_held-reopen o l at revision e none q = is_held-create o l at revision e q
is_held-reopen o l at revision e (some d) none = is_held-insert o.fingerprint _ e.open_incidents
is_held-reopen o l at revision e (some d) (some x) = is_held-create o l at revision e (some x)

pub open_incident-holds :
    (o : Observation) (l : Severity) (at revision : ℕ) (e : Engine)
    → is_held o.fingerprint (open_incident o l at revision e) ≡ true
unfolding open_incident
open_incident-holds o l at revision e =
    is_held-reopen o l at revision e (find_recent o.fingerprint at e.docs)
      (find_open o.fingerprint e.docs)

pub resolve_incident-lets_go :
    (i : String) (r : Resolution) (at : ℕ) (c : Entry) (e : Engine)
    → is_held i (resolve_incident i r at c e) ≡ false
unfolding resolve_incident
resolve_incident-lets_go i r at c e = ground (arith, lookup-remove i i e.open_incidents, beq_refl i)

is_held-counted :
    (i : String) (at : ℕ) (e : Engine) (w : Option Incident × List Incident)
    → is_held i e ≡ true
    → is_held i (counted i at e w) ≡ true
unfolding counted
is_held-counted i at e (none, ds) h = h
is_held-counted i at e (some d, ds) h = is_held-insert i _ e.open_incidents

-- Whether the incident is open after an outcome, by whether it was before.
abbrev pub open_after : DeployStatus → Bool → Bool
open_after failed b = true
open_after healthy b = false
open_after other b = b

is_held-on_outcome :
    (p : String) (s : DeployStatus) (at revision : ℕ) (e : Engine) (c : Option Entry)
    → lookup (deployment_fingerprint p) e.open_incidents ≡ c
    → is_held (deployment_fingerprint p) (on_outcome p s at revision c e) ≡ open_after s (is_some c)
unfolding count_failure
is_held-on_outcome p failed at revision e (some c) h =
    is_held-counted (deployment_fingerprint p) at e (update_open c.doc.id (one_more at) e.docs)
      (ap is_some h)
is_held-on_outcome p failed at revision e none h =
    open_incident-holds (deployment_observation p) warning at revision e
is_held-on_outcome p healthy at revision e (some c) h =
    resolve_incident-lets_go (deployment_fingerprint p) recovered at c e
is_held-on_outcome p healthy at revision e none h = ap is_some h
is_held-on_outcome p other at revision e c h = ap is_some h

load-loaded : (at : ℕ) (e : Engine) → e.loaded ≡ true → load at e ≡ e
unfolding load
load-loaded at e h =
    ap
      (λ b.
        if b
        then e
        else record e { open_incidents = load_docs e.docs at e.open_incidents; loaded = true })
      h

create-loaded :
    (o : Observation) (l : Severity) (at revision : ℕ) (e : Engine) (q : Option Incident)
    → (create_incident o l at revision e q).loaded ≡ e.loaded
unfolding create_incident
create-loaded o l at revision e none = refl
create-loaded o l at revision e (some d) = refl

reopen-loaded :
    (o : Observation) (l : Severity) (at revision : ℕ) (e : Engine) (r q : Option Incident)
    → (reopen_or_create o l at revision e r q).loaded ≡ e.loaded
unfolding reopen_or_create
reopen-loaded o l at revision e none q = create-loaded o l at revision e q
reopen-loaded o l at revision e (some d) none = refl
reopen-loaded o l at revision e (some d) (some x) = create-loaded o l at revision e (some x)

counted-loaded :
    (i : String) (at : ℕ) (e : Engine) (w : Option Incident × List Incident)
    → (counted i at e w).loaded ≡ e.loaded
unfolding counted
counted-loaded i at e (none, ds) = refl
counted-loaded i at e (some d, ds) = refl

on_outcome-loaded :
    (p : String) (s : DeployStatus) (at revision : ℕ) (e : Engine) (c : Option Entry)
    → (on_outcome p s at revision c e).loaded ≡ e.loaded
unfolding count_failure open_incident resolve_incident
on_outcome-loaded p failed at revision e (some c) =
    counted-loaded (deployment_fingerprint p) at e (update_open c.doc.id (one_more at) e.docs)
on_outcome-loaded p failed at revision e none =
    let i = deployment_fingerprint p in
    reopen-loaded (deployment_observation p) warning at revision e (find_recent i at e.docs)
      (find_open i e.docs)
on_outcome-loaded p healthy at revision e (some c) = refl
on_outcome-loaded p healthy at revision e none = refl
on_outcome-loaded p other at revision e c = refl

is_held-record :
    (p : String) (s : DeployStatus) (at revision : ℕ) (e : Engine)
    → e.loaded ≡ true
    → (is_held (deployment_fingerprint p) (record_deployment p s at revision e)
        ≡ open_after s (is_held (deployment_fingerprint p) e))
      × ((record_deployment p s at revision e).loaded ≡ true)
unfolding record_deployment
is_held-record p s at revision e h =
    let c = lookup (deployment_fingerprint p) e.open_incidents in
    rw (load-loaded at e h)
      (is_held-on_outcome p s at revision e c refl, on_outcome-loaded p s at revision e c ∙ h)

-- The outcomes of a project's deployments, each with its time and the policy's revision.
abbrev pub Outcomes : Type 0
Outcomes = List (DeployStatus × ℕ × ℕ)

unfoldable pub record_all : String → Outcomes → Engine → Engine
record_all p [] e = e
record_all p ((s, at, revision) ∷ rest) e = record_all p rest (record_deployment p s at revision e)

-- Whether the last outcome that is a failure or a success was a failure.
unfoldable pub last_failed : Outcomes → Bool → Bool
last_failed [] b = b
last_failed ((s, at, revision) ∷ rest) b = last_failed rest (open_after s b)

-- Once the engine is loaded, it holds an open incident on a project's deployments just when the
-- last of its recorded failures and successes was a failure (when there was none: just when it
-- held one before). Other outcomes do not matter.
pub deployment_incident_follows_last_outcome :
    (p : String) (outcomes : Outcomes) (e : Engine)
    → e.loaded ≡ true
    → is_some (lookup (deployment_fingerprint p) (record_all p outcomes e).open_incidents)
      ≡ last_failed outcomes (is_some (lookup (deployment_fingerprint p) e.open_incidents))
unfolding record_all last_failed
deployment_incident_follows_last_outcome p [] e h = refl
deployment_incident_follows_last_outcome p ((s, at, revision) ∷ rest) e h =
    let (held, kept) = is_held-record p s at revision e h in
    deployment_incident_follows_last_outcome p rest (record_deployment p s at revision e) kept
    ∙ ap (last_failed rest) held
