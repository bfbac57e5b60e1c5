-- ===== src/Contracts/Enums.antt =====
-- packages/contracts/src/enums.js: the status values, as data types. The strings of the source
-- are told apart by their constructors.
use hello_deploy.Prelude.{Bool, true, false, ◌≡◌, ◌↔◌, arith, Eq}

pub data PlatformRole : Type 0 where
  super_admin admin user : PlatformRole

pub data ProjectRole : Type 0 where
  owner maintainer viewer : ProjectRole

pub data AccountTier : Type 0 where
  free premium : AccountTier

pub data ProjectStatus : Type 0 where
  draft active suspended archived : ProjectStatus

pub data DeploymentStatus : Type 0 where
  queued validating building deploying healthy failed cancelled rolled_back : DeploymentStatus

pub data DeploymentTrigger : Type 0 where
  manual automatic rollback system : DeploymentTrigger

pub data DomainStatus : Type 0 where
  pending_verification verifying verified pending_admin_approval activating active removing failed
        removed :
      DomainStatus

pub data RuntimeType : Type 0 where
  static nodejs express react vue nextjs python php java container unknown : RuntimeType

-- `===` on deployment statuses.
abbrev pub status_eq : DeploymentStatus → DeploymentStatus → Bool
status_eq DeploymentStatus.queued DeploymentStatus.queued = true
status_eq DeploymentStatus.validating DeploymentStatus.validating = true
status_eq DeploymentStatus.building DeploymentStatus.building = true
status_eq DeploymentStatus.deploying DeploymentStatus.deploying = true
status_eq DeploymentStatus.healthy DeploymentStatus.healthy = true
status_eq DeploymentStatus.failed DeploymentStatus.failed = true
status_eq DeploymentStatus.cancelled DeploymentStatus.cancelled = true
status_eq DeploymentStatus.rolled_back DeploymentStatus.rolled_back = true
status_eq _ _ = false

pub status_eq_iff : (a b : DeploymentStatus) → (status_eq a b ≡ true) ↔ (a ≡ b)
status_eq_iff a b = ground arith

instance abbrev pub DeploymentStatus-eq : Eq DeploymentStatus
DeploymentStatus-eq = record { beq = status_eq; beq_iff = status_eq_iff }
