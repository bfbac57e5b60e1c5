-- ===== src/Contracts/Builder.antt =====
-- packages/contracts/src/builder-control.js: who may use the on-demand builder, and when the host
-- has room for it. A reading that could not be taken (NaN) is `none`. Pressure is in hundredths of a
-- percent.
pub mod Rules
use hello_deploy.Prelude.{
  ℕ, ◌+◌, Bool, true, false, ◌&&◌, ◌||◌, not, ltb, leb, if◌then◌else◌, Option, none, some, is_some,
  List, [], ◌∷◌, ◌++◌, includes, ℕ_eq,
}
use hello_deploy.Contracts.Enums.{PlatformRole, super_admin, admin}
use hello_deploy.Contracts.Strategies.{
  BuildStrategy, BuildStrategy-eq, dockerfile_v1, oci_image_v1, next_build_strategies,
  python_build_strategies, php_build_strategies, java_build_strategies, is_next_build_strategy,
  is_python_build_strategy, is_php_build_strategy, is_java_build_strategy, strategy_eq,
}

-- `BUILDER_LIMITS`
pub record BuilderLimits : Type 0 where
  pub memory_max_mb : ℕ
  pub host_reserve_mb : ℕ
  pub min_swap_free_mb : ℕ
  pub max_memory_pressure_some60 : ℕ
  pub min_disk_free_gb : ℕ
  pub min_store_free_gb : ℕ
  pub abort_available_mb : ℕ
  pub abort_app_memory_pressure_full10 : ℕ
  pub abort_builder_memory_pressure_full10 : ℕ
  pub abort_disk_free_gb : ℕ
  pub watchdog_grace_ms : ℕ

abbrev pub builder_limits : BuilderLimits
builder_limits = record {
  memory_max_mb = 1536;
  host_reserve_mb = 1024;
  min_swap_free_mb = 512;
  max_memory_pressure_some60 = 1000;
  min_disk_free_gb = 20;
  min_store_free_gb = 5;
  abort_available_mb = 600;
  abort_app_memory_pressure_full10 = 500;
  abort_builder_memory_pressure_full10 = 5000;
  abort_disk_free_gb = 10;
  watchdog_grace_ms = 60000;
}

-- `HostResourceSample`
pub record HostResourceSample : Type 0 where
  pub mem_available_mb : Option ℕ
  pub swap_free_mb : Option ℕ
  pub swap_total_mb : Option ℕ
  pub memory_pressure_some60 : Option ℕ
  pub app_memory_pressure_full10 : Option ℕ
  pub builder_memory_pressure_full10 : Option ℕ
  pub disk_free_gb : Option ℕ
  pub store_free_gb : Option ℕ

-- `reading >= limit`, `reading < limit` and `reading <= limit`: false for NaN.
abbrev pub at_least : Option ℕ → ℕ → Bool
at_least none limit = false
at_least (some x) limit = leb limit x

abbrev pub below : Option ℕ → ℕ → Bool
below none limit = false
below (some x) limit = ltb x limit

abbrev pub at_most : Option ℕ → ℕ → Bool
at_most none limit = false
at_most (some x) limit = leb x limit

-- What a reason is about.
pub data Reason : Type 0 where
  memory swap pressure disk store_unreadable store app_pressure builder_pressure : Reason

-- `if (test) reasons.push(reason)`
abbrev pub reason_if : Bool → Reason → List Reason
reason_if true r = r ∷ []
reason_if false r = []

unfoldable pub evaluate_builder_admission : HostResourceSample → List Reason
evaluate_builder_admission s =
    reason_if
      (not (
        at_least s.mem_available_mb
          (builder_limits.memory_max_mb + builder_limits.host_reserve_mb)))
      memory
    ++ reason_if
        (at_least s.swap_total_mb 1
          && not (at_least s.swap_free_mb builder_limits.min_swap_free_mb))
        swap
    ++ reason_if (not (below s.memory_pressure_some60 builder_limits.max_memory_pressure_some60))
        pressure
    ++ reason_if (not (at_least s.disk_free_gb builder_limits.min_disk_free_gb)) disk
    ++ (if not (is_some s.store_free_gb)
        then store_unreadable ∷ []
        else reason_if (not (at_least s.store_free_gb builder_limits.min_store_free_gb)) store)

unfoldable pub evaluate_builder_pressure : HostResourceSample → List Reason
evaluate_builder_pressure s =
    reason_if (not (at_least s.mem_available_mb builder_limits.abort_available_mb)) memory
    ++ reason_if
        (not (at_most s.app_memory_pressure_full10 builder_limits.abort_app_memory_pressure_full10))
        app_pressure
    ++ reason_if
        (not (
          at_most s.builder_memory_pressure_full10
            builder_limits.abort_builder_memory_pressure_full10))
        builder_pressure
    ++ reason_if (not (at_least s.disk_free_gb builder_limits.abort_disk_free_gb)) disk

-- `BuilderRuntimeFamily`
pub data BuilderRuntimeFamily : Type 0 where
  next python php java : BuilderRuntimeFamily

unfoldable pub get_builder_runtime_family : BuildStrategy → Option BuilderRuntimeFamily
unfolding is_next_build_strategy is_python_build_strategy is_php_build_strategy
    is_java_build_strategy
get_builder_runtime_family s =
    if is_next_build_strategy s
    then some next
    else if is_python_build_strategy s
    then some python
    else if is_php_build_strategy s
    then some php
    else if is_java_build_strategy s
    then some java
    else none

abbrev pub builder_build_strategies : List BuildStrategy
builder_build_strategies =
    next_build_strategies ++ python_build_strategies ++ php_build_strategies
    ++ java_build_strategies

unfoldable pub is_owner_image_strategy : BuildStrategy → Bool
is_owner_image_strategy s = strategy_eq s dockerfile_v1 || strategy_eq s oci_image_v1

pub record RuntimeSettings : Type 0 where
  pub enabled : Bool
  pub project_ids : List ℕ

-- `settings.runtimes`, as `normalizeBuilderSettings` leaves it.
pub record BuilderSettings : Type 0 where
  pub runtimes : BuilderRuntimeFamily → RuntimeSettings

pub data Ineligible : Type 0 where
  build_strategy_disabled builder_project_not_allowed : Ineligible

abbrev pub is_administrator : Option PlatformRole → Bool
is_administrator (some super_admin) = true
is_administrator (some admin) = true
is_administrator _ = false

abbrev pub family_eligibility :
    Option BuilderRuntimeFamily → ℕ → Option PlatformRole → BuilderSettings → Option Ineligible
family_eligibility none project owner_role settings = none
family_eligibility (some family) project owner_role settings =
    if not (is_administrator owner_role)
    then some builder_project_not_allowed
    else if not (settings.runtimes family).enabled
        || not (includes (settings.runtimes family).project_ids project)
    then some builder_project_not_allowed
    else none

-- `evaluateBuilderEligibility`, for a strategy that is set.
unfoldable pub evaluate_builder_eligibility :
    BuildStrategy → ℕ → Option PlatformRole → BuilderSettings → Option Ineligible
unfolding is_owner_image_strategy
evaluate_builder_eligibility s project owner_role settings =
    if is_owner_image_strategy s
    then some build_strategy_disabled
    else family_eligibility (get_builder_runtime_family s) project owner_role settings

abbrev pub builder_status_stale_ms : ℕ
builder_status_stale_ms = 60000

-- `isBuilderStatusFresh`; a missing status or an unreadable date is `none`.
unfoldable pub is_builder_status_fresh : Option ℕ → ℕ → Bool
is_builder_status_fresh none now = false
is_builder_status_fresh (some updated_at) now = leb now (updated_at + builder_status_stale_ms)
