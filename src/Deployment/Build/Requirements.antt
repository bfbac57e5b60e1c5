-- ===== src/Deployment/Build/Requirements.antt =====
-- What apps/worker/src/jobs/build-deployment.job.js requires, in its order.
use hello_deploy.Prelude.{
  ℕ, ltb, Bool, true, false, ◌&&◌, ◌||◌, not, if◌then◌else◌, Option, none, some, is_some, or_else,
  List, [], ◌∷◌, ◌++◌,
}
use hello_deploy.Contracts.Strategies.{
  dockerfile_v1, oci_image_v1, strategy_eq, is_container_build_strategy,
}
use hello_deploy.Deployment.Build.Flow.{
  FailureCode, Db, Reference, Project, Repository, CloneError, LeaseAnswer, Scan, Call,
  project_not_found, deployment_snapshot_invalid, configuration_changed, build_strategy_disabled,
  builder_offline, repo_access_revoked, github_token_failed, build_workspace_failed, clone_failed,
  build_context_invalid, dockerfile_policy_violation, build_failed, dockerfile_generation_failed,
  build_cancelled, activation_enqueue_failed, image_resolution_failed, secret_decryption_failed,
  image_scan_unavailable, image_policy_failed, leased, not_leased, scanned, scan_unavailable,
  scan_failed,
}
use hello_deploy.Deployment.Build.Plans.{
  snapshot_of, strategy_of, configuration_of, repository_of, is_complete, is_environment,
  uses_on_demand_builder, builder_refusal, reference_in,
}
use hello_deploy.Deployment.Build.Stages.{lease_code, is_unchanged, digest_of}
use hello_deploy.Deployment.Build.Cloning.{is_transient}

-- A condition on the project, or something that it names.
abbrev pub in_project : Call → (Project → Bool) → Bool
in_project j f = elim j.project [ none ↦ false | some p ↦ f p ]

abbrev pub named_by_project : {A : Type 0} → Call → (Project → Option A) → Option A
named_by_project j f = elim j.project [ none ↦ none | some p ↦ f p ]

abbrev pub has_repository_with : Call → (Repository → Bool) → Bool
has_repository_with j f = elim (named_by_project j (repository_of j)) [
  | none ↦ false
  | some r ↦ f r
]

abbrev pub refusal_of : Call → Option FailureCode
refusal_of j = named_by_project j (λ p. builder_refusal j p (strategy_of j))

abbrev pub check_requirements : Call → Db → List (Bool × FailureCode)
check_requirements j db =
    (is_some j.project, project_not_found)
    ∷ (is_some (named_by_project j (repository_of j)), project_not_found)
    ∷ (in_project j (is_complete j), deployment_snapshot_invalid)
    ∷ (is_environment (snapshot_of j) db.environment_version, configuration_changed)
    ∷ (j.settings.is_strategy_enabled (strategy_of j), build_strategy_disabled)
    ∷ (not (is_some (refusal_of j)), or_else (refusal_of j) builder_offline)
    ∷ (
      not (strategy_eq (strategy_of j) dockerfile_v1) || j.settings.is_remote_executor,
      build_strategy_disabled,
    )
    ∷ []

-- What the attempts to clone come to.
abbrev pub clone_result : Call → Option CloneError
clone_result j =
    if not (is_transient (j.answers.clone 1))
    then j.answers.clone 1
    else if not (is_transient (j.answers.clone 2))
    then j.answers.clone 2
    else j.answers.clone 3

abbrev pub clone_code : Option CloneError → FailureCode
clone_code none = clone_failed
clone_code (some e) = if e.is_local then build_workspace_failed else clone_failed

abbrev pub prepare_requirements : Call → List (Bool × FailureCode)
prepare_requirements j =
    (j.answers.has_context, build_context_invalid)
    ∷ (
      not (strategy_eq (strategy_of j) dockerfile_v1) || not j.answers.has_violations,
      dockerfile_policy_violation,
    )
    ∷ (j.answers.has_profile, build_context_invalid)
    ∷ (j.answers.has_public_env, build_failed)
    ∷ (j.answers.has_build_spec, dockerfile_generation_failed)
    ∷ []

abbrev pub is_leased : LeaseAnswer → Bool
is_leased leased = true
is_leased (not_leased c) = false

abbrev pub lease_failure : LeaseAnswer → FailureCode
lease_failure leased = builder_offline
lease_failure (not_leased c) = lease_code c

abbrev pub uses_builder : Call → Bool
uses_builder j = uses_on_demand_builder j (strategy_of j)

abbrev pub build_requirements : Call → List (Bool × FailureCode)
build_requirements j =
    (not (uses_builder j) || is_leased j.answers.lease, lease_failure j.answers.lease)
    ∷ (
      is_some j.answers.built,
      if uses_builder j && j.answers.is_aborted then build_cancelled else build_failed,
    )
    ∷ []

abbrev pub passes : Scan → Bool
passes (scanned critical) = not (ltb 0 critical)
passes scan_unavailable = false
passes scan_failed = false

abbrev pub scan_code : Scan → FailureCode
scan_code (scanned critical) = image_policy_failed
scan_code scan_unavailable = image_scan_unavailable
scan_code scan_failed = image_policy_failed

abbrev pub scan_requirement : Call → Bool → Bool × FailureCode
scan_requirement j is_scanned =
    (not (is_scanned && j.settings.has_scanner) || passes j.answers.scan, scan_code j.answers.scan)

abbrev pub finish_requirements : Call → Db → List (Bool × FailureCode)
finish_requirements j db =
    (is_unchanged (snapshot_of j) db, configuration_changed)
    ∷ (j.answers.is_enqueued, activation_enqueue_failed)
    ∷ []

abbrev pub clone_requirements : Call → List (Bool × FailureCode)
clone_requirements j =
    (has_repository_with j (λ r. r.is_public) || j.answers.has_token, github_token_failed)
    ∷ (not (is_some (clone_result j)), clone_code (clone_result j))
    ∷ []

abbrev pub after_build_requirements : Call → Db → List (Bool × FailureCode)
after_build_requirements j db =
    scan_requirement j (is_container_build_strategy (strategy_of j)) ∷ finish_requirements j db

abbrev pub repository_requirements : Call → Db → List (Bool × FailureCode)
repository_requirements j db =
    (has_repository_with j (λ r. r.is_active), repo_access_revoked)
    ∷ (clone_requirements j
        ++ prepare_requirements j
        ++ build_requirements j
        ++ after_build_requirements j db)

abbrev pub reference_of : Call → Option Reference
reference_of j = named_by_project j (λ p. reference_in (configuration_of j p))

abbrev pub is_blocked_reference : Option Reference → Bool
is_blocked_reference none = false
is_blocked_reference (some r) = r.is_blocked

abbrev pub digest_named : Call → Option Reference → Option ℕ
digest_named j none = none
digest_named j (some r) = digest_of j r

abbrev pub resolve_requirements : Call → Db → List (Bool × FailureCode)
resolve_requirements j db =
    (j.answers.has_credential, secret_decryption_failed)
    ∷ (is_some (digest_named j (reference_of j)), image_resolution_failed)
    ∷ (j.answers.is_scan_prepared, image_scan_unavailable)
    ∷ scan_requirement j true
    ∷ finish_requirements j db

abbrev pub owner_image_requirements : Call → Db → List (Bool × FailureCode)
owner_image_requirements j db =
    (is_some (reference_of j), image_resolution_failed)
    ∷ (not (is_blocked_reference (reference_of j)), image_resolution_failed)
    ∷ resolve_requirements j db

abbrev pub kind_requirements : Call → Db → List (Bool × FailureCode)
kind_requirements j db =
    if strategy_eq (strategy_of j) oci_image_v1
    then owner_image_requirements j db
    else repository_requirements j db

abbrev pub requirements : Call → Db → List (Bool × FailureCode)
requirements j db = check_requirements j db ++ kind_requirements j db
