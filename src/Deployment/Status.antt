-- ===== src/Deployment/Status.antt =====
-- packages/deployment-core/src/index.js, and `updateStatus` of
-- apps/worker/src/deployment/pipeline.js: the life cycle of one deployment record.
pub mod Paths
pub mod Updates
use hello_deploy.Prelude.{
  Bool, false, ◌&&◌, not, List, [], ◌∷◌, includes, ℕ, Option, none, some, ◌+◌, max, ◌==◌,
  if◌then◌else◌, or_else,
}
use hello_deploy.Contracts.Enums.{
  DeploymentStatus, DeploymentStatus-eq, queued, validating, building, deploying, healthy, failed,
  cancelled, rolled_back,
}

-- `TRANSITIONS`
abbrev pub transitions : DeploymentStatus → List DeploymentStatus
transitions queued = validating ∷ cancelled ∷ []
transitions validating = building ∷ failed ∷ cancelled ∷ []
transitions building = deploying ∷ failed ∷ cancelled ∷ []
transitions deploying = healthy ∷ failed ∷ cancelled ∷ []
transitions healthy = rolled_back ∷ []
transitions failed = []
transitions cancelled = []
transitions rolled_back = []

unfoldable pub can_transition : DeploymentStatus → DeploymentStatus → Bool
can_transition from to = includes (transitions from) to

unfoldable pub valid_next_statuses : DeploymentStatus → List DeploymentStatus
valid_next_statuses from = transitions from

-- The list of `isTerminal`, and `TERMINAL_STATUSES` of pipeline.js, which reads the same.
abbrev pub terminal_statuses : List DeploymentStatus
terminal_statuses = healthy ∷ failed ∷ cancelled ∷ rolled_back ∷ []

unfoldable pub is_terminal : DeploymentStatus → Bool
is_terminal status = includes terminal_statuses status

unfoldable pub is_active : DeploymentStatus → Bool
is_active status = includes (queued ∷ validating ∷ building ∷ deploying ∷ []) status

-- What the life cycle reads of a deployment document. An id is the number that its hex digits write.
pub record Row : Type 0 where
  pub id : ℕ
  pub project_id : ℕ
  pub sequence_number : ℕ
  pub status : DeploymentStatus

-- `Deployment.updateOne({_id, status: {$nin: TERMINAL_STATUSES}}, {$set: {status}})`: ids are
-- unique, so at most one record matches, and the result says whether one did.
unfoldable pub update_status : ℕ → DeploymentStatus → List Row → List Row × Bool
update_status id to [] = ([], false)
update_status id to (r ∷ rs) =
    let rest = update_status id to rs in
    if r.id == id && not (is_terminal r.status)
    then (record r { status = to } ∷ rs, Bool.true)
    else (r ∷ rest.0, rest.1)

-- `findOne({projectId}).sort({sequenceNumber: -1})`: the largest number of the project, if any.
unfoldable pub last_sequence : ℕ → List Row → Option ℕ
last_sequence project [] = none
last_sequence project (r ∷ rs) =
    let rest = last_sequence project rs in
    if r.project_id == project then some (max r.sequence_number (or_else rest 0)) else rest

unfoldable pub next_sequence_number : List Row → ℕ → ℕ
unfolding last_sequence
next_sequence_number rows project = or_else (last_sequence project rows) 0 + 1
