-- ===== src/Requests/Checks.antt =====
-- The checks of apps/web/src/services/deployment.service.js: what has been found out when a request
-- passes them.
use hello_deploy.Contracts.Enums.{queued, deploying}
use hello_deploy.Prelude.{
  ◌≡◌, refl, arith, Bool, true, false, Option, none, some, is_some, List, Text,
}
use hello_deploy.Deployment.Status.{Row}
use hello_deploy.Requests.Readiness.{
  Project, is_active_status, validate_project_deployment_eligibility, find_owner_deployment_refusal,
  validate_build_strategy_readiness, check_builder_deployment_gate,
}
use hello_deploy.Requests.{
  passed, Surroundings, Original, Target, Plan, find_in_flight, check_create, check_retry,
  check_rollback, eligible, buildable, has_none, missing_names, is_retryable_deployment_status,
  snapshot_strategy, Repository, is_healthy, is_other, has_known_build,
}
use hello_deploy.Requests.Passing.{
  Passes, passes, >>=-Passes, require_inv, require_some_inv, refuse_if_some_inv, not_inv,
  two_refusals_inv,
}
use hello_deploy.Requests.Conditions.{
  IsAsked, IsTarget, IsConnected, IsRetried, is_some_inv, check_commit-IsAsked,
  connected-IsConnected, target_commit-IsTarget, retry_commit-IsRetried, access_inv, eligible_inv,
}

-- The state of a project in which it may be deployed.
pub record IsDeployable (w : Surroundings) (p : Project) : Type 0 where
  pub eligible : validate_project_deployment_eligibility p ≡ none
  pub owner : find_owner_deployment_refusal p ≡ none
  pub strategy : validate_build_strategy_readiness w.is_enabled p ≡ none
  pub builder : check_builder_deployment_gate w.gate p ≡ none

pub record Creatable (w : Surroundings) (commit : Option Text) (rows : List Row) (plan : Plan)
    : Type 0 where
  pub asked : Option Text
  pub is_asked : IsAsked commit asked
  pub repository : Repository
  pub is_connected : IsConnected w repository
  pub is_target : IsTarget w repository asked plan.commit_sha
  pub status : plan.status ≡ queued
  pub source : plan.source ≡ none
  pub project : Project
  pub found : w.project ≡ some project
  pub linked : project.has_repository ≡ true
  pub detected : is_some project.runtime_type ≡ true
  pub same : plan.project_id ≡ project.id
  pub deployable : IsDeployable w project
  pub quota : w.quota_refusal ≡ none
  pub environment : has_none (missing_names w) ≡ true
  pub free : is_some (find_in_flight plan.project_id rows) ≡ false

deployable :
    (w : Surroundings) (p : Project) {t u : Unit {0}}
    → eligible w p ≡ passed t
    → buildable w p ≡ passed u
    → IsDeployable w p
deployable w p e f =
    let (a, b) = two_refusals_inv _ _ e in
    let (c, d) = two_refusals_inv _ _ f in
    record { eligible = a; owner = b; strategy = c; builder = d }

pub check_create-Creatable :
    (w : Surroundings) (commit : Option Text) (rows : List Row)
    → Passes (Creatable w commit rows) (check_create w commit rows)
unfolding check_create
check_create-Creatable w commit rows = >>=-Passes _ _ λ asked format. >>=-Passes _ _ λ p found.
    >>=-Passes _ _ λ _ able. >>=-Passes _ _ λ _ linked. >>=-Passes _ _ λ _ detected.
      >>=-Passes _ _ λ _ built. >>=-Passes _ _ λ _ quota. >>=-Passes _ _ λ _ names.
        >>=-Passes _ _ λ repository access. >>=-Passes _ _ λ sha target. >>=-Passes _ _ λ _ free.
          passes (record {
            asked = asked;
            is_asked = check_commit-IsAsked commit format;
            repository = repository;
            is_connected = connected-IsConnected w repository access;
            is_target = target_commit-IsTarget w repository asked sha target;
            status = refl;
            source = refl;
            linked = require_inv _ _ linked;
            detected = require_inv _ _ detected;
            project = p;
            found = require_some_inv _ _ found;
            same = refl;
            deployable = deployable w p able built;
            quota = is_some_inv _ (not_inv _ (require_inv _ _ quota));
            environment = require_inv _ _ names;
            free = not_inv _ (require_inv _ _ free);
          })

pub record Retryable (w : Surroundings) (latest : Bool) (original : Option Original)
    (rows : List Row) (plan : Plan) : Type 0 where
  pub deployment : Original
  pub repository : Repository
  pub is_connected : IsConnected w repository
  pub is_retried : IsRetried w deployment latest plan.commit_sha
  pub status : plan.status ≡ queued
  pub source : plan.source ≡ none
  pub found : original ≡ some deployment
  pub over : is_retryable_deployment_status deployment.row.status ≡ true
  pub same : plan.project_id ≡ deployment.row.project_id
  pub project : Project
  pub owned : w.project ≡ some project
  pub deployable : IsDeployable w project
  pub free : is_some (find_in_flight plan.project_id rows) ≡ false

pub check_retry-Retryable :
    (w : Surroundings) (latest : Bool) (original : Option Original) (rows : List Row)
    → Passes (Retryable w latest original rows) (check_retry w latest original rows)
unfolding check_retry
check_retry-Retryable w latest original rows = >>=-Passes _ _ λ o found. >>=-Passes _ _ λ p owned.
    >>=-Passes _ _ λ _ over. >>=-Passes _ _ λ _ able. >>=-Passes _ _ λ _ built.
      >>=-Passes _ _ λ _ access. >>=-Passes _ _ λ sha commit. >>=-Passes _ _ λ _ free.
        let (repository, granted) = access_inv w access in
        passes (record {
          deployment = o;
          repository = repository;
          is_connected = granted;
          is_retried = retry_commit-IsRetried w latest o sha commit;
          status = refl;
          source = refl;
          found = require_some_inv _ _ found;
          over = require_inv _ _ over;
          same = refl;
          project = p;
          owned = require_some_inv _ _ owned;
          deployable = deployable w p able built;
          free = not_inv _ (require_inv _ _ free);
        })

pub record Restorable (w : Surroundings) (target : Option Target) (rows : List Row) (plan : Plan)
    : Type 0 where
  pub release : Target
  pub found : target ≡ some release
  pub project : Project
  pub owned : w.project ≡ some project
  pub active : is_active_status project.status ≡ true
  pub owner : find_owner_deployment_refusal project ≡ none
  pub enabled : w.is_enabled (snapshot_strategy release) ≡ true
  pub own : release.row.project_id ≡ project.id
  pub healthy : is_healthy release.row.status ≡ true
  pub image : release.has_image ≡ true
  pub inactive : is_other project.active_deployment_id release.row.id ≡ true
  pub known : has_known_build release project ≡ true
  pub same_commit : plan.commit_sha ≡ release.commit_sha
  pub status : plan.status ≡ deploying
  pub same : plan.project_id ≡ project.id
  pub source : plan.source ≡ some release.row.id
  pub free : is_some (find_in_flight plan.project_id rows) ≡ false

pub check_rollback-Restorable :
    (w : Surroundings) (target : Option Target) (rows : List Row)
    → Passes (Restorable w target rows) (check_rollback w target rows)
unfolding check_rollback
check_rollback-Restorable w target rows = >>=-Passes _ _ λ p owned. >>=-Passes _ _ λ _ active.
    >>=-Passes _ _ λ _ owner. >>=-Passes _ _ λ t found. >>=-Passes _ _ λ _ own.
      >>=-Passes _ _ λ _ well. >>=-Passes _ _ λ _ image. >>=-Passes _ _ λ _ eligible.
        >>=-Passes _ _ λ _ enabled. >>=-Passes _ _ λ _ known. >>=-Passes _ _ λ _ free.
          passes (record {
            release = t;
            found = require_some_inv _ _ found;
            project = p;
            owned = require_some_inv _ _ owned;
            active = require_inv _ _ active;
            owner = refuse_if_some_inv _ owner;
            own = ground (arith, require_inv _ _ own);
            healthy = require_inv _ _ well;
            image = require_inv _ _ image;
            inactive = eligible_inv t p.id p.active_deployment_id (require_inv _ _ eligible);
            known = require_inv _ _ known;
            same_commit = refl;
            status = refl;
            enabled = require_inv _ _ enabled;
            same = refl;
            source = refl;
            free = not_inv _ (require_inv _ _ free);
          })
