-- ===== src/Requests/Readiness.antt =====
-- apps/web/src/services/deployment.service.js and builder-control.service.js: whether a project may be
-- deployed, before any deployment is looked at.
use hello_deploy.Prelude.{
  ℕ, Bool, true, false, ◌&&◌, ◌||◌, not, if◌then◌else◌, Option, none, some, is_some,
}
use hello_deploy.Contracts.Enums.{PlatformRole, ProjectStatus, RuntimeType}
use hello_deploy.Contracts.Strategies.{
  BuildStrategy, python_flask_v1, php_plain_v1, java_maven_v1, oci_image_v1,
  get_build_strategy_runtime, is_python_build_strategy, strategy_eq,
}
use hello_deploy.Contracts.Builder.{
  BuilderSettings, get_builder_runtime_family, is_owner_image_strategy,
  evaluate_builder_eligibility,
}
use hello_deploy.Builder.{BuilderState}

pub data DeploymentMode : Type 0 where
  manual automatic approval_required : DeploymentMode

pub data UserStatus : Type 0 where
  pending_verification active suspended archived : UserStatus

-- Why a request is refused.
pub data Refusal : Type 0 where
  commit_sha_format project_not_found project_not_active needs_approval owner_suspended
        no_repository no_detection strategy_not_enabled choose_strategy pilot_not_enabled
        no_application_module no_image_reference builder_refused builder_off quota_refused
        missing_environment repository_inactive commit_not_verified no_commit in_progress
        queue_unavailable deployment_not_found not_retryable not_cancellable target_not_found
        target_not_healthy target_without_image target_already_active release_without_snapshot :
      Refusal

-- What the checks read of a project, and of its owner.
pub record Project : Type 0 where
  pub id : ℕ
  pub status : ProjectStatus
  pub deployment_mode : DeploymentMode
  pub owner_status : UserStatus
  pub has_repository : Bool
  pub runtime_type : Option RuntimeType
  pub build_strategy : Option BuildStrategy
  pub has_application_module : Bool
  pub has_image_reference : Bool
  pub active_deployment_id : Option ℕ

abbrev pub is_active_status : ProjectStatus → Bool
is_active_status ProjectStatus.active = true
is_active_status _ = false

abbrev pub is_approval_required : DeploymentMode → Bool
is_approval_required approval_required = true
is_approval_required _ = false

unfoldable pub validate_project_deployment_eligibility : Project → Option Refusal
validate_project_deployment_eligibility p =
    if not (is_active_status p.status)
    then some project_not_active
    else if is_approval_required p.deployment_mode
    then some needs_approval
    else none

abbrev pub is_blocked : UserStatus → Bool
is_blocked UserStatus.suspended = true
is_blocked UserStatus.archived = true
is_blocked _ = false

unfoldable pub find_owner_deployment_refusal : Project → Option Refusal
find_owner_deployment_refusal p = if is_blocked p.owner_status then some owner_suspended else none

-- `PILOT_RUNTIMES`
abbrev pub pilot_runtime : Option RuntimeType → Option BuildStrategy
pilot_runtime (some RuntimeType.python) = some python_flask_v1
pilot_runtime (some RuntimeType.php) = some php_plain_v1
pilot_runtime (some RuntimeType.java) = some java_maven_v1
pilot_runtime _ = none

abbrev pub runtime_of : Option BuildStrategy → Option RuntimeType
runtime_of none = none
runtime_of (some s) = get_build_strategy_runtime s

-- `===` between a project's runtime, where it is one of the pilots', and its strategy's.
abbrev pub is_same_pilot : Option RuntimeType → Option RuntimeType → Bool
is_same_pilot (some RuntimeType.python) (some RuntimeType.python) = true
is_same_pilot (some RuntimeType.php) (some RuntimeType.php) = true
is_same_pilot (some RuntimeType.java) (some RuntimeType.java) = true
is_same_pilot _ _ = false

abbrev pub is_python : Option BuildStrategy → Bool
is_python none = false
is_python (some s) = is_python_build_strategy s

abbrev pub is_oci_image : Option BuildStrategy → Bool
is_oci_image none = false
is_oci_image (some s) = strategy_eq s oci_image_v1

abbrev pub configuration_refusal : Project → Option Refusal
configuration_refusal p =
    if is_python p.build_strategy && not p.has_application_module
    then some no_application_module
    else if is_oci_image p.build_strategy && not p.has_image_reference
    then some no_image_reference
    else none

abbrev pub pilot_refusal :
    (Option BuildStrategy → Bool) → Project → Option BuildStrategy → Option Refusal
pilot_refusal is_enabled p none = configuration_refusal p
pilot_refusal is_enabled p (some pilot) =
    if is_same_pilot p.runtime_type (runtime_of p.build_strategy)
    then configuration_refusal p
    else if is_enabled (some pilot)
    then some choose_strategy
    else some pilot_not_enabled

-- `isStrategyEnabledFor`, for one project, is the argument `is_enabled`.
unfoldable pub validate_build_strategy_readiness :
    (Option BuildStrategy → Bool) → Project → Option Refusal
validate_build_strategy_readiness is_enabled p =
    if is_enabled p.build_strategy
    then pilot_refusal is_enabled p (pilot_runtime p.runtime_type)
    else some strategy_not_enabled

-- The builder's side: whether it is in use, the owner's role, the settings and the last status.
pub record BuilderGate : Type 0 where
  pub is_enabled : Bool
  pub owner_role : Option PlatformRole
  pub settings : BuilderSettings
  pub state : BuilderState
  pub is_fresh : Bool

abbrev pub is_up : BuilderState → Bool
is_up BuilderState.ready = true
is_up BuilderState.building = true
is_up _ = false

abbrev pub gate_strategy : BuilderGate → ℕ → BuildStrategy → Option Refusal
gate_strategy g project s =
    if not g.is_enabled
      || (not (is_some (get_builder_runtime_family s)) && not (is_owner_image_strategy s))
    then none
    else if is_some (evaluate_builder_eligibility s project g.owner_role g.settings)
    then some builder_refused
    else if not g.is_fresh || not (is_up g.state)
    then some builder_off
    else none

unfoldable pub check_builder_deployment_gate : BuilderGate → Project → Option Refusal
check_builder_deployment_gate g p = elim p.build_strategy [
  | none ↦ none
  | some s ↦ gate_strategy g p.id s
]
