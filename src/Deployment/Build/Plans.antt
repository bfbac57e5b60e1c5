-- ===== src/Deployment/Build/Plans.antt =====
-- apps/worker/src/jobs/build-deployment.job.js: what a build is made of, and the checks before anything
-- is cloned.
use mathlib.Core.Option
use hello_deploy.Prelude.{
  ℕ, ltb, ◌==◌, ◌&&◌, ◌||◌, not, Bool, true, false, if◌then◌else◌, Option, none, some, is_some,
  or_else, Text, [], ◌∷◌,
}
use hello_deploy.Contracts.Enums.{DeploymentStatus, queued, validating}
use hello_deploy.Contracts.Strategies.{BuildStrategy, legacy_generated, dockerfile_v1, strategy_eq}
use hello_deploy.Contracts.Builder.{
  get_builder_runtime_family, is_owner_image_strategy, evaluate_builder_eligibility,
}
use hello_deploy.Requests.{is_full_commit_sha}
use hello_deploy.Jobs.{next, ended, ◌>>=◌, ◌>>◌}
use hello_deploy.Deployment.Build.Flow.{
  FailureCode, M, Reference, Configuration, Snapshot, Project, Repository, Call, meanwhile,
  update_status, fail_build, fail, or_fail, or_fail_some, project_not_found,
  deployment_snapshot_invalid, configuration_changed, build_strategy_disabled, builder_offline,
  ineligible, skipped, before_validating,
}

abbrev pub or_other : {A : Type 0} → Option A → Option A → Option A
or_other (some a) other = some a
or_other none other = other

abbrev pub has_text : Option Text → Bool
has_text none = false
has_text (some []) = false
has_text (some (c ∷ cs)) = true

-- What the first checks work out.
pub record Plan : Type 0 where
  pub snapshot : Option Snapshot
  pub strategy : BuildStrategy
  pub repository : Repository
  pub reference : Option Reference

abbrev pub snapshot_of : Call → Option Snapshot
snapshot_of j = if ltb j.payload.version 2 then none else j.stored_snapshot

abbrev pub from_snapshot : {A : Type 0} → (Snapshot → Option A) → Call → Option A
from_snapshot field j = elim (snapshot_of j) [ none ↦ none | some x ↦ field x ]

abbrev pub commit_sha : Call → Option Text
commit_sha j = or_other (from_snapshot (λ x. x.source_commit) j) j.payload.commit_sha

abbrev pub strategy_of : Call → BuildStrategy
strategy_of j = or_else (from_snapshot (λ x. x.build_strategy) j) legacy_generated

abbrev pub configuration_of : Call → Project → Option Configuration
configuration_of j p = or_other (from_snapshot (λ x. x.build_configuration) j) p.build_configuration

abbrev pub repository_of : Call → Project → Option Repository
repository_of j p =
    elim (or_other j.payload.repository_id
      (or_other (from_snapshot (λ x. x.source_repository_id) j) p.repository_id)) [
        | none ↦ none
        | some id ↦ j.repository id
      ]

abbrev pub image_tag : Call → Project → Option Text
image_tag j p =
    or_other j.payload.image_tag
      (if has_text (commit_sha j) then Option.map p.image_tag_of (commit_sha j) else none)

abbrev pub is_commit : Option Text → Bool
is_commit none = false
is_commit (some sha) = is_full_commit_sha sha

unfoldable pub is_complete : Call → Project → Bool
is_complete j p =
    is_commit (commit_sha j)
    && is_some (or_other (from_snapshot (λ x. x.runtime_type) j) j.payload.runtime_type)
    && has_text (image_tag j p)
    && is_some (configuration_of j p)

abbrev pub environment_of : Option Snapshot → ℕ
environment_of none = 1
environment_of (some x) = or_else x.environment_version 1

abbrev pub is_environment : Option Snapshot → Option ℕ → Bool
is_environment none stored = true
is_environment (some x) stored = or_else stored 1 == or_else x.environment_version 1

abbrev pub uses_on_demand_builder : Call → BuildStrategy → Bool
uses_on_demand_builder j strategy =
    j.settings.builder_control_enabled && is_some (get_builder_runtime_family strategy)

abbrev pub builder_refusal : Call → Project → BuildStrategy → Option FailureCode
builder_refusal j p strategy =
    if j.settings.builder_control_enabled
      && (uses_on_demand_builder j strategy || is_owner_image_strategy strategy)
    then elim (evaluate_builder_eligibility strategy j.payload.project_id p.owner_role
        j.settings.builder_settings) [
          | some refusal ↦ some (ineligible refusal)
          | none ↦ if j.answers.is_builder_ready then none else some builder_offline
        ]
    else none

abbrev pub refuse_if_some : Call → Option FailureCode → M (Unit {0})
refuse_if_some j none s = next tt s
refuse_if_some j (some code) s = fail j code s

abbrev pub check_environment : Call → M (Unit {0})
check_environment j s =
    or_fail j (is_environment (snapshot_of j) s.db.environment_version) configuration_changed s

abbrev pub is_queued : DeploymentStatus → Bool
is_queued queued = true
is_queued _ = false

abbrev pub reference_in : Option Configuration → Option Reference
reference_in none = none
reference_in (some c) = c.image_reference

unfoldable pub load : Call → M (Unit {0})
unfolding update_status
load j s =
    if j.has_deployment && is_queued s.db.status
    then next tt (update_status validating (λ db. db) (meanwhile j before_validating s))
    else ended skipped s

-- The checks before anything is cloned.
unfoldable pub check_call : Call → M Plan
unfolding fail_build
check_call j = do
  p ← or_fail_some j j.project project_not_found
  repository ← or_fail_some j (repository_of j p) project_not_found
  or_fail j (is_complete j p) deployment_snapshot_invalid
  check_environment j
  or_fail j (j.settings.is_strategy_enabled (strategy_of j)) build_strategy_disabled
  refuse_if_some j (builder_refusal j p (strategy_of j))
  or_fail j (not (strategy_eq (strategy_of j) dockerfile_v1) || j.settings.is_remote_executor)
      build_strategy_disabled
  next (record {
    snapshot = snapshot_of j;
    strategy = strategy_of j;
    repository = repository;
    reference = reference_in (configuration_of j p);
  })
