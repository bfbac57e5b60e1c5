-- ===== src/Deployment/Build/Stages.antt =====
-- The stages of apps/worker/src/jobs/build-deployment.job.js, in its order.
use hello_deploy.Prelude.{
  ℕ, suc, zero, ◌+◌, ltb, ◌==◌, ◌&&◌, ◌||◌, not, Bool, true, false, if◌then◌else◌, Option, none,
  some, or_else,
}
use hello_deploy.Contracts.Enums.{building, deploying}
use hello_deploy.Contracts.Strategies.{dockerfile_v1, strategy_eq, is_container_build_strategy}
use hello_deploy.Jobs.{Stage, next, ended, ◌>>=◌, ◌>>◌}
use hello_deploy.Deployment.Build.Flow.{
  FailureCode, Image, Db, State, Outcome, M, Reference, Snapshot, CloneError, LeaseAnswer, Call,
  act, meanwhile, update_status, fail_build, fail, or_fail, or_fail_some, fail_and_clean, or_clean,
  remove_built_artifact, configuration_changed, builder_offline, repo_access_revoked,
  github_token_failed, build_workspace_failed, clone_failed, build_context_invalid,
  dockerfile_policy_violation, build_failed, dockerfile_generation_failed, build_cancelled,
  activation_enqueue_failed, image_resolution_failed, secret_decryption_failed,
  image_scan_unavailable, image_policy_failed, builder_error, attempt_clone, clean_workspace,
  pass_policy, acquire_lease, release_lease, wait, build_image, pass_scan, enqueue_activation,
  refused, queued_activation, leased, not_leased, scanned, scan_unavailable, scan_failed,
  before_building, before_environment_check, before_deploying,
}
use hello_deploy.Deployment.Build.Plans.{or_other, Plan, uses_on_demand_builder}

abbrev pub clone_retry_attempts : ℕ
clone_retry_attempts = 3

abbrev pub clone_retry_backoff_ms : ℕ → ℕ
clone_retry_backoff_ms attempt = if attempt == 1 then 3000 else 9000

-- `cloneWithRetry` from one of its attempts on, with the number of attempts that are left.
unfoldable pub clone_from : (ℕ → Option CloneError) → ℕ → ℕ → State → Option CloneError × State
clone_from clone zero attempt s = (none, s)
clone_from clone (suc n) attempt s = elim (clone attempt) [
  | none ↦ (none, act attempt_clone s)
  | some e ↦ elim (attempt == clone_retry_attempts || not e.is_retryable) [
    | true ↦ (some e, act attempt_clone s)
    | false ↦
        clone_from clone n (attempt + 1)
          (act (wait (clone_retry_backoff_ms attempt)) (act attempt_clone s))
  ]
]

abbrev pub clone_with_retry : (ℕ → Option CloneError) → State → Option CloneError × State
clone_with_retry clone = clone_from clone clone_retry_attempts 1

abbrev pub after_clone : Call → Option CloneError × State → Stage Outcome State (Unit {0})
after_clone j (none, s) = next tt s
after_clone j (some e, s) =
    fail_and_clean j (if e.is_local then build_workspace_failed else clone_failed) s

unfoldable pub clone : Call → Plan → M (Unit {0})
unfolding clone_from fail_build
clone j plan s =
    if plan.repository.is_public || j.answers.has_token
    then after_clone j (clone_with_retry j.answers.clone s)
    else fail j github_token_failed s

-- An owner's Dockerfile is checked line by line.
abbrev pub check_policy : Call → Plan → M (Unit {0})
check_policy j plan s =
    if strategy_eq plan.strategy dockerfile_v1
    then (if j.answers.has_violations
        then fail_and_clean j dockerfile_policy_violation s
        else next tt (act pass_policy s))
    else next tt s

unfoldable pub prepare : Call → Plan → M (Unit {0})
unfolding fail_build
prepare j plan = do
  or_clean j j.answers.has_context build_context_invalid
  check_policy j plan
  or_clean j j.answers.has_profile build_context_invalid
  or_clean j j.answers.has_public_env build_failed
  or_clean j j.answers.has_build_spec dockerfile_generation_failed

abbrev pub lease_code : Option ℕ → FailureCode
lease_code none = builder_offline
lease_code (some c) = builder_error c

abbrev pub take_lease : Call → LeaseAnswer → M (Unit {0})
take_lease j leased s = next tt (act acquire_lease s)
take_lease j (not_leased c) s = fail_and_clean j (lease_code c) s

abbrev pub acquire : Call → Plan → M (Unit {0})
acquire j plan s =
    if uses_on_demand_builder j plan.strategy then take_lease j j.answers.lease s else next tt s

-- `builderLease?.release()`
abbrev pub release : Call → Plan → State → State
release j plan s = if uses_on_demand_builder j plan.strategy then act release_lease s else s

abbrev pub after_build : Call → Plan → Option Image → M Image
after_build j plan (some image) s = next image (release j plan (act (build_image image) s))
after_build j plan none s = ended refused (
    release j plan (
      act clean_workspace (
        remove_built_artifact none (
          fail_build j
            (if uses_on_demand_builder j plan.strategy && j.answers.is_aborted
              then build_cancelled
              else build_failed)
            s))))

unfoldable pub build : Call → Plan → M Image
unfolding update_status fail_build
build j plan s =
    (acquire j plan >> after_build j plan j.answers.built)
      (update_status building (λ db. db) (meanwhile j before_building s))

-- `enforceImageScan`
unfoldable pub enforce_image_scan : Call → State → Bool × State
unfolding fail_build
enforce_image_scan j s =
    if j.settings.has_scanner
    then elim j.answers.scan [
      | scanned critical ↦
          if ltb 0 critical
          then (false, fail_build j image_policy_failed s)
          else (true, act pass_scan s)
      | scan_unavailable ↦ (false, fail_build j image_scan_unavailable s)
      | scan_failed ↦ (false, fail_build j image_policy_failed s)
    ]
    else (true, s)

abbrev pub after_scan : (State → State) → Bool × State → Stage Outcome State (Unit {0})
after_scan undo (true, s) = next tt s
after_scan undo (false, s) = ended refused (undo s)

abbrev pub scan_build : Call → Plan → Image → M (Unit {0})
scan_build j plan image s =
    if is_container_build_strategy plan.strategy
    then after_scan (λ t. act clean_workspace (remove_built_artifact (some image) t))
        (enforce_image_scan j s)
    else next tt s

-- `environmentVersionFilter` and whether the project matches it.
unfoldable pub environment_version_filter : ℕ → Option ℕ → Bool
environment_version_filter version none = version == 1
environment_version_filter version (some stored) = stored == version

abbrev pub is_unchanged : Option Snapshot → Db → Bool
is_unchanged none db = true
is_unchanged (some x) db =
    db.has_project
    && environment_version_filter (or_else x.environment_version 1) db.environment_version

abbrev pub remove_platform_image : Bool → Image → State → State
remove_platform_image true image s = remove_built_artifact (some image) s
remove_platform_image false image s = s

abbrev pub save_image : Image → State → State
save_image image s = update_status deploying (λ db. record db { image = some image }) s

abbrev pub enqueue_activation_of : Call → Bool → Image → M ⊥
enqueue_activation_of j is_platform_image image s =
    if j.answers.is_enqueued
    then ended queued_activation (act enqueue_activation s)
    else ended refused
        (remove_platform_image is_platform_image image (fail_build j activation_enqueue_failed s))

unfoldable pub finish_build : Call → Plan → Bool → Image → M ⊥
unfolding update_status fail_build environment_version_filter
finish_build j plan is_platform_image image s =
    let t = meanwhile j before_environment_check s in
    if is_unchanged plan.snapshot t.db
    then enqueue_activation_of j is_platform_image image
        (act clean_workspace (save_image image (meanwhile j before_deploying t)))
    else ended refused (
        act clean_workspace
          (remove_platform_image is_platform_image image (fail_build j configuration_changed t)))

abbrev pub digest_of : Call → Reference → Option ℕ
digest_of j reference = or_other reference.digest j.answers.resolved_digest

-- `deployOwnerImage`
unfoldable pub deploy_owner_image : Call → Plan → M ⊥
unfolding update_status fail_build finish_build
deploy_owner_image j plan = do
  reference ← or_fail_some j plan.reference image_resolution_failed
  or_fail j (not reference.is_blocked) image_resolution_failed
  λ s. next tt (update_status building (λ db. db) (meanwhile j before_building s))
  or_fail j j.answers.has_credential secret_decryption_failed
  digest ← or_fail_some j (digest_of j reference) image_resolution_failed
  or_fail j j.answers.is_scan_prepared image_scan_unavailable
  λ s. after_scan (λ t. t) (enforce_image_scan j s)
  finish_build j plan false (record { image_ref = digest; is_in_registry = true })

unfoldable pub build_repository : Call → Plan → M ⊥
unfolding clone prepare build finish_build fail_build
build_repository j plan = do
  or_fail j plan.repository.is_active repo_access_revoked
  clone j plan
  prepare j plan
  image ← build j plan
  scan_build j plan image
  finish_build j plan true image
