-- ===== src/Deployment/Build/Flow.antt =====
-- apps/worker/src/jobs/build-deployment.job.js: what a build reads and does, and how it ends early.
use hello_deploy.Prelude.{ℕ, Bool, true, false, if◌then◌else◌, Option, none, some, List, ◌∷◌, Text}
use hello_deploy.Contracts.Enums.{DeploymentStatus, RuntimeType, PlatformRole, healthy, failed}
use hello_deploy.Contracts.Strategies.{BuildStrategy}
use hello_deploy.Contracts.Builder.{BuilderSettings, Ineligible}
use hello_deploy.Deployment.Status.{is_terminal}
use hello_deploy.Jobs.{next, ended, Job}

-- The codes that `failBuild` is called with; those of the builder's errors are numbered.
pub data FailureCode : Type 0 where
  project_not_found deployment_snapshot_invalid configuration_changed build_strategy_disabled
        builder_offline repo_access_revoked github_token_failed build_workspace_failed clone_failed
        build_context_invalid dockerfile_policy_violation build_failed dockerfile_generation_failed
        build_cancelled activation_enqueue_failed image_resolution_failed secret_decryption_failed
        image_scan_unavailable image_policy_failed :
      FailureCode
  ineligible : Ineligible → FailureCode
  builder_error : ℕ → FailureCode

pub record Image : Type 0 where
  pub image_ref : ℕ
  pub is_in_registry : Bool

-- The documents that the job reads again or writes: the deployment's and the project's.
pub record Db : Type 0 where
  pub status : DeploymentStatus
  pub failure_code : Option FailureCode
  pub image : Option Image
  pub has_project : Bool
  pub environment_version : Option ℕ

pub data Action : Type 0 where
  attempt_clone clean_workspace pass_policy acquire_lease release_lease : Action
  wait : ℕ → Action
  build_image : Image → Action
  delete_manifest remove_image pass_scan enqueue_activation : Action
  notify : DeploymentStatus → Action

-- The actions, newest first.
pub record State : Type 0 where
  pub db : Db
  pub actions : List Action

-- The job does nothing, fails the deployment, or leaves it to the activation.
pub data Outcome : Type 0 where
  skipped refused queued_activation : Outcome

abbrev pub M : Type 0 → Type 0
M A = Job Outcome State A

-- What a reference to a prebuilt image comes to.
pub record Reference : Type 0 where
  pub is_blocked : Bool
  pub digest : Option ℕ

-- `buildConfiguration`, as far as the job's own tests read it.
pub record Configuration : Type 0 where
  pub image_reference : Option Reference

pub record Snapshot : Type 0 where
  pub source_commit : Option Text
  pub runtime_type : Option RuntimeType
  pub build_strategy : Option BuildStrategy
  pub build_configuration : Option Configuration
  pub source_repository_id : Option ℕ
  pub environment_version : Option ℕ

-- `job.data`
pub record Payload : Type 0 where
  pub version : ℕ
  pub project_id : ℕ
  pub commit_sha : Option Text
  pub repository_id : Option ℕ
  pub runtime_type : Option RuntimeType
  pub image_tag : Option Text

pub record Project : Type 0 where
  pub repository_id : Option ℕ
  pub build_configuration : Option Configuration
  pub image_tag_of : Text → Text
  pub owner_role : Option PlatformRole

pub record Repository : Type 0 where
  pub is_public : Bool
  pub is_active : Bool

-- The worker's environment.
pub record Settings : Type 0 where
  pub is_strategy_enabled : BuildStrategy → Bool
  pub builder_control_enabled : Bool
  pub builder_settings : BuilderSettings
  pub is_remote_executor : Bool
  pub has_scanner : Bool

pub record CloneError : Type 0 where
  pub is_retryable : Bool
  pub is_local : Bool

-- `acquireBuild`: a lease, or an error with or without a code.
pub data LeaseAnswer : Type 0 where
  leased : LeaseAnswer
  not_leased : Option ℕ → LeaseAnswer

pub data Scan : Type 0 where
  scanned : ℕ → Scan
  scan_unavailable scan_failed : Scan

-- What the dependencies answer. `none` and `false` stand for an exception.
pub record Answers : Type 0 where
  pub is_builder_ready : Bool
  pub has_token : Bool
  pub clone : ℕ → Option CloneError
  pub has_context : Bool
  pub has_violations : Bool
  pub has_profile : Bool
  pub has_public_env : Bool
  pub has_build_spec : Bool
  pub lease : LeaseAnswer
  pub built : Option Image
  pub is_aborted : Bool
  pub scan : Scan
  pub has_credential : Bool
  pub resolved_digest : Option ℕ
  pub is_scan_prepared : Bool
  pub is_enqueued : Bool

-- Where other actors can come between the job's reads and writes.
pub data Point : Type 0 where
  before_validating before_building before_environment_check before_deploying before_failing : Point

-- A call: the deployment's snapshot and the documents as the job read them, and what surrounds it.
pub record Call : Type 0 where
  pub payload : Payload
  pub has_deployment : Bool
  pub stored_snapshot : Option Snapshot
  pub project : Option Project
  pub repository : ℕ → Option Repository
  pub settings : Settings
  pub answers : Answers
  pub others : Point → Db → Db

abbrev pub act : Action → State → State
act a s = record s { actions = a ∷ s.actions }

abbrev pub meanwhile : Call → Point → State → State
meanwhile j p s = record s { db = j.others p s.db }

abbrev pub notify_result : DeploymentStatus → State → State
notify_result failed s = act (notify failed) s
notify_result healthy s = act (notify healthy) s
notify_result _ s = s

-- `updateStatus`: the guarded write, and the notification after it.
unfoldable pub update_status : DeploymentStatus → (Db → Db) → State → State
update_status to extra s =
    if is_terminal s.db.status
    then s
    else notify_result to (record s { db = record (extra s.db) { status = to } })

-- `failBuild`
unfoldable pub fail_build : Call → FailureCode → State → State
unfolding update_status
fail_build j code s =
    update_status failed (λ db. record db { failure_code = some code })
      (meanwhile j before_failing s)

-- `failBuild` and `return`.
abbrev pub fail : {A : Type 0} → Call → FailureCode → M A
fail j code s = ended refused (fail_build j code s)

abbrev pub or_fail : Call → Bool → FailureCode → M (Unit {0})
or_fail j true code s = next tt s
or_fail j false code s = fail j code s

abbrev pub or_fail_some : {A : Type 0} → Call → Option A → FailureCode → M A
or_fail_some j (some a) code s = next a s
or_fail_some j none code s = fail j code s

-- `failBuild`, the removal of the workspace, and `return`.
abbrev pub fail_and_clean : {A : Type 0} → Call → FailureCode → M A
fail_and_clean j code s = ended refused (act clean_workspace (fail_build j code s))

abbrev pub or_clean : Call → Bool → FailureCode → M (Unit {0})
or_clean j true code s = next tt s
or_clean j false code s = fail_and_clean j code s

-- `removeBuiltArtifact`
abbrev pub delete_from_registry : Option Image → State → State
delete_from_registry none s = s
delete_from_registry (some i) s = if i.is_in_registry then act delete_manifest s else s

abbrev pub remove_built_artifact : Option Image → State → State
remove_built_artifact image s = act remove_image (delete_from_registry image s)
