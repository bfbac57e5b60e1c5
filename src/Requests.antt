-- ===== src/Requests.antt =====
-- apps/web/src/services/deployment.service.js: the requests that create and cancel deployments, on the
-- collection of deployment records. The other documents that a request reads are its arguments.
pub mod Readiness
pub mod Passing
pub mod Conditions
pub mod Checks
pub mod InFlight
pub mod Finished
pub mod Race
pub mod Answers
pub mod Pages
mod Tests
use hello_deploy.Prelude.{
  ℕ, ◌+◌, Bool, true, false, ◌&&◌, ◌||◌, not, leb, ◌==◌, if◌then◌else◌, Option, none, some, is_some,
  or_else, List, [], ◌∷◌, ◌++◌, all, keep_if, length, includes, string_eq, String, Text, is_digit,
}
use hello_deploy.Contracts.Enums.{
  DeploymentStatus, DeploymentStatus-eq, queued, deploying, healthy, failed, cancelled,
}
use hello_deploy.Contracts.Strategies.{BuildStrategy, legacy_generated, strategy_eq}
use hello_deploy.Contracts.Subdomains.{to_lower_case, trim_start, trim_end}
use hello_deploy.Deployment.Status.{Row, is_active, next_sequence_number}
use hello_deploy.Quota.{Refusal as QuotaRefusal}
use hello_deploy.Requests.Readiness.{
  Refusal, Project, BuilderGate, commit_sha_format, project_not_found, project_not_active,
  no_repository, no_detection, quota_refused, missing_environment, repository_inactive,
  commit_not_verified, no_commit, in_progress, queue_unavailable, deployment_not_found,
  not_retryable, not_cancellable, target_not_found, target_not_healthy, target_without_image,
  target_already_active, strategy_not_enabled, release_without_snapshot, is_active_status,
  validate_project_deployment_eligibility, find_owner_deployment_refusal,
  validate_build_strategy_readiness, check_builder_deployment_gate,
}

-- The result of a chain of checks: an early return, or what the next check needs.
pub data Checked (A : Type 0) : Type 0 where
  passed : A → Checked A
  refused : Refusal → Checked A

infixl 5 ◌>>=◌ ◌>>◌
unfoldable pub ◌>>=◌ : {A B : Type 0} → Checked A → (A → Checked B) → Checked B
passed a >>= f = f a
refused r >>= f = refused r

abbrev pub ◌>>◌ : {B : Type 0} → Checked (Unit {0}) → Checked B → Checked B
m >> k = m >>= λ _. k

-- `if (error) return error`
abbrev pub refuse_if_some : Option Refusal → Checked (Unit {0})
refuse_if_some none = passed tt
refuse_if_some (some r) = refused r

abbrev pub require : Bool → Refusal → Checked (Unit {0})
require true r = passed tt
require false r = refused r

abbrev pub require_some : {A : Type 0} → Option A → Refusal → Checked A
require_some none r = refused r
require_some (some a) r = passed a

-- The repository that is connected to the project.
pub record Repository : Type 0 where
  pub has_access : Bool
  pub is_public : Bool
  pub last_commit_sha : Option Text

-- What a request reads besides the deployments. `latest_commit` is GitHub's answer for a commit or,
-- without one, for the production branch; it is `none` where the call throws.
pub record Surroundings : Type 0 where
  pub project : Option Project
  pub is_enabled : Option BuildStrategy → Bool
  pub gate : BuilderGate
  pub quota_refusal : Option QuotaRefusal
  pub required_environment : List String
  pub configured_environment : List String
  pub repository : Option Repository
  pub latest_commit : Option Text → Option Text
  pub has_queue : Bool

abbrev pub is_hex : ℕ → Bool
is_hex c = is_digit c || (leb b'a' c && leb c b'f')

-- `FULL_COMMIT_SHA_PATTERN`
unfoldable pub is_full_commit_sha : Text → Bool
is_full_commit_sha sha = length sha == 40 && all is_hex sha

-- `String(commitShaOverride).trim().toLowerCase()` and its test, where a commit is asked for.
unfoldable pub check_commit : Option Text → Checked (Option Text)
check_commit none = passed none
check_commit (some sha) =
    let s = to_lower_case (trim_end (trim_start sha)) in
    if is_full_commit_sha s then passed (some s) else refused commit_sha_format

abbrev pub platform_managed_env_names : List String
platform_managed_env_names = "PORT" ∷ []

abbrev pub missing_names : Surroundings → List String
missing_names w =
    keep_if (λ name. not (includes w.configured_environment name))
      (keep_if (λ name. not (includes platform_managed_env_names name)) w.required_environment)

abbrev pub has_none : List String → Bool
has_none [] = true
has_none (name ∷ names) = false

abbrev pub connected : Surroundings → Checked Repository
connected w = do
  repository ← require_some w.repository repository_inactive
  require repository.has_access repository_inactive
  passed repository

-- The commit that is built.
abbrev pub target_commit : Surroundings → Repository → Option Text → Checked Text
target_commit w repository asked =
    if repository.is_public
    then require_some (w.latest_commit asked) commit_not_verified
    else require_some (elim asked [ some sha ↦ some sha | none ↦ repository.last_commit_sha ])
        no_commit

-- `findInFlightDeployment`
unfoldable pub find_in_flight : ℕ → List Row → Option Row
find_in_flight project [] = none
find_in_flight project (r ∷ rows) =
    let rest = find_in_flight project rows in
    if r.project_id == project && is_active r.status then some r else rest

abbrev pub require_none_in_flight : ℕ → List Row → Checked (Unit {0})
require_none_in_flight project rows =
    require (not (is_some (find_in_flight project rows))) in_progress

-- The checks that `createDeployment` and `retryDeployment` share.
abbrev pub eligible : Surroundings → Project → Checked (Unit {0})
eligible w p = do
  refuse_if_some (validate_project_deployment_eligibility p)
  refuse_if_some (find_owner_deployment_refusal p)

abbrev pub buildable : Surroundings → Project → Checked (Unit {0})
buildable w p = do
  refuse_if_some (validate_build_strategy_readiness w.is_enabled p)
  refuse_if_some (check_builder_deployment_gate w.gate p)

-- What a new deployment is created with.
pub record Plan : Type 0 where
  pub project_id : ℕ
  pub status : DeploymentStatus
  pub commit_sha : Text
  pub source : Option ℕ

unfoldable pub check_create : Surroundings → Option Text → List Row → Checked Plan
unfolding check_commit
check_create w commit rows = do
  asked ← check_commit commit
  p ← require_some w.project project_not_found
  eligible w p
  require p.has_repository no_repository
  require (is_some p.runtime_type) no_detection
  buildable w p
  require (not (is_some w.quota_refusal)) quota_refused
  require (has_none (missing_names w)) missing_environment
  repository ← connected w
  sha ← target_commit w repository asked
  require_none_in_flight p.id rows
  passed (record { project_id = p.id; status = queued; commit_sha = sha; source = none })

-- What `retryDeployment` reads of the deployment that it repeats.
pub record Original : Type 0 where
  pub row : Row
  pub commit_sha : Text

abbrev pub is_retryable_deployment_status : DeploymentStatus → Bool
is_retryable_deployment_status status = includes (failed ∷ cancelled ∷ []) status

-- `opts.source === 'latest'`
abbrev pub retry_commit : Surroundings → Bool → Original → Checked Text
retry_commit w true o = require_some (w.latest_commit none) commit_not_verified
retry_commit w false o = passed o.commit_sha

unfoldable pub check_retry : Surroundings → Bool → Option Original → List Row → Checked Plan
check_retry w latest original rows = do
  o ← require_some original deployment_not_found
  p ← require_some w.project project_not_found
  require (is_retryable_deployment_status o.row.status) not_retryable
  eligible w p
  buildable w p
  connected w >>= λ _. passed tt
  sha ← retry_commit w latest o
  require_none_in_flight o.row.project_id rows
  passed
      (record { project_id = o.row.project_id; status = queued; commit_sha = sha; source = none })

-- What `rollbackDeployment` reads of its target.
pub record Target : Type 0 where
  pub row : Row
  pub commit_sha : Text
  pub has_image : Bool
  pub snapshot : Option (Option BuildStrategy)

abbrev pub is_healthy : DeploymentStatus → Bool
is_healthy healthy = true
is_healthy _ = false

abbrev pub is_other : Option ℕ → ℕ → Bool
is_other none id = true
is_other (some active) id = not (active == id)

unfoldable pub is_rollback_target_eligible : Target → ℕ → Option ℕ → Bool
is_rollback_target_eligible t project active =
    t.row.project_id == project
    && is_healthy t.row.status
    && t.has_image
    && is_other active t.row.id

-- `targetDeployment.configurationSnapshot?.buildStrategy`
abbrev pub snapshot_strategy : Target → Option BuildStrategy
snapshot_strategy t = or_else t.snapshot none

-- A release without a snapshot was made by the generated build.
abbrev pub has_known_build : Target → Project → Bool
has_known_build t p =
    is_some t.snapshot || strategy_eq (or_else p.build_strategy legacy_generated) legacy_generated

unfoldable pub check_rollback : Surroundings → Option Target → List Row → Checked Plan
check_rollback w target rows = do
  p ← require_some w.project project_not_found
  require (is_active_status p.status) project_not_active
  refuse_if_some (find_owner_deployment_refusal p)
  t ← require_some target target_not_found
  require (t.row.project_id == p.id) target_not_found
  require (is_healthy t.row.status) target_not_healthy
  require t.has_image target_without_image
  require (is_rollback_target_eligible t p.id p.active_deployment_id) target_already_active
  require (w.is_enabled (snapshot_strategy t)) strategy_not_enabled
  require (has_known_build t p) release_without_snapshot
  require_none_in_flight p.id rows
  passed (record {
    project_id = p.id;
    status = deploying;
    commit_sha = t.commit_sha;
    source = some t.row.id;
  })

-- The record that a plan creates, with an id that is new.
abbrev pub new_row : ℕ → Plan → List Row → Row
new_row id plan rows = record {
  id = id;
  project_id = plan.project_id;
  sequence_number = next_sequence_number rows plan.project_id;
  status = plan.status;
}

-- `Deployment.create` and the queue: without one the new record is set to FAILED at once.
unfoldable pub launch : Bool → ℕ → Checked Plan → List Row → Checked Row × List Row
launch has_queue id (refused r) rows = (refused r, rows)
launch true id (passed plan) rows =
    (passed (new_row id plan rows), rows ++ new_row id plan rows ∷ [])
launch false id (passed plan) rows =
    (refused queue_unavailable, rows ++ record (new_row id plan rows) { status = failed } ∷ [])

unfoldable pub create_deployment :
    Surroundings → Option Text → ℕ → List Row → Checked Row × List Row
unfolding launch
create_deployment w commit id rows = launch w.has_queue id (check_create w commit rows) rows

unfoldable pub retry_deployment :
    Surroundings → Bool → Option Original → ℕ → List Row → Checked Row × List Row
unfolding launch
retry_deployment w latest original id rows =
    launch w.has_queue id (check_retry w latest original rows) rows

unfoldable pub rollback_deployment :
    Surroundings → Option Target → ℕ → List Row → Checked Row × List Row
unfolding launch
rollback_deployment w target id rows = launch w.has_queue id (check_rollback w target rows) rows

-- `findOne({_id, projectId})`
unfoldable pub find_of : ℕ → ℕ → List Row → Option Row
find_of id project [] = none
find_of id project (r ∷ rows) =
    let rest = find_of id project rows in
    if r.id == id && r.project_id == project then some r else rest

-- `updateOne({_id}, {$set: {status}})`, whatever the status is by now.
unfoldable pub overwrite_status : ℕ → DeploymentStatus → List Row → List Row
overwrite_status id to [] = []
overwrite_status id to (r ∷ rows) =
    let rest = overwrite_status id to rows in
    if r.id == id then record r { status = to } ∷ rows else r ∷ rest

-- What `cancelDeployment` reads decides; the write is a command of its own.
unfoldable pub check_cancel : Option Row → Checked (Unit {0})
check_cancel none = refused deployment_not_found
check_cancel (some r) = require (is_active r.status) not_cancellable

abbrev pub after_check : Checked (Unit {0}) → ℕ → List Row → List Row
after_check (passed _) id rows = overwrite_status id cancelled rows
after_check (refused r) id rows = rows

unfoldable pub cancel_deployment : ℕ → ℕ → List Row → Checked (Unit {0}) × List Row
unfolding check_cancel
cancel_deployment id project rows =
    let c = check_cancel (find_of id project rows) in (c, after_check c id rows)
