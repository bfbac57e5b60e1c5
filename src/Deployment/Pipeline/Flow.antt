-- ===== src/Deployment/Pipeline/Flow.antt =====
-- The stages of `runReleasePipeline` of apps/worker/src/deployment/pipeline.js: what the database
-- holds, what was done outside it, and how a stage ends the job early.
use hello_deploy.Prelude.{
  ℕ, Bool, true, false, ◌||◌, not, if◌then◌else◌, Option, none, some, List, ◌∷◌, String, Text,
}
use hello_deploy.Contracts.Enums.{DeploymentStatus, ProjectStatus, DomainStatus, healthy, failed}
use hello_deploy.Jobs.{Stage, next, ended}
use hello_deploy.Deployment.Status.{is_terminal}

-- The codes that `fail` is called with; those of failure-diagnosis.js are numbered.
pub data FailureCode : Type 0 where
  port_allocation_failed network_setup_failed secret_decryption_failed container_start_failed
        container_crashed_on_startup health_check_failed project_not_active subdomain_invalid
        nginx_route_failed route_not_connected :
      FailureCode
  diagnosed : ℕ → FailureCode

pub record Domain : Type 0 where
  pub hostname : String
  pub status : DomainStatus

-- The release that the project's `activeDeploymentId` names when the job starts.
pub record Previous : Type 0 where
  pub status : DeploymentStatus
  pub active_container_id : Option ℕ

-- The documents that the pipeline reads and writes: the deployment's own, the project's, the
-- previous release's and the project's custom domains. The deployment's and the project's may be
-- deleted meanwhile; their fields then mean nothing.
pub record Db : Type 0 where
  pub has_deployment : Bool
  pub has_project : Bool
  pub status : DeploymentStatus
  pub failure_code : Option FailureCode
  pub candidate_container_id : Option ℕ
  pub active_container_id : Option ℕ
  pub project_status : ProjectStatus
  pub active_deployment_id : Option ℕ
  pub platform_subdomain : Option Text
  pub previous : Option Previous
  pub domains : List Domain

-- `findById(…).select('status')`
abbrev pub found : {A : Type 0} → Bool → A → Option A
found has a = if has then some a else none

abbrev pub deployment_of : Db → Option DeploymentStatus
deployment_of db = found db.has_deployment db.status

abbrev pub project_of : Db → Option ProjectStatus
project_of db = found db.has_project db.project_status

-- The filter of `updateStatus` finds no such document.
abbrev pub is_closed : Db → Bool
is_closed db = is_terminal db.status || not db.has_deployment

-- What is done outside the database, and what the last checks before the routing read.
pub data Action : Type 0 where
  start_candidate : ℕ → Action
  stop_candidate pass_health_check : Action
  read_status : Option DeploymentStatus → Action
  read_project : Option ProjectStatus → Action
  activate_routes : List String → Action
  stop_previous : ℕ → Action
  remove_image : Action
  notify : DeploymentStatus → Action

-- The actions, newest first.
pub record State : Type 0 where
  pub db : Db
  pub actions : List Action

-- `{ok: true}`, `{ok: false}`, or an exception that makes the queue try the job again.
pub data Outcome : Type 0 where
  done refused threw : Outcome

abbrev pub M : Type 0 → Type 0
M A = State → Stage Outcome State A

abbrev pub act : Action → State → State
act a s = record s { actions = a ∷ s.actions }

-- `inspectContainer`
pub record ContainerState : Type 0 where
  pub running : Bool
  pub restarting : Bool
  pub restart_count : ℕ

-- What the dependencies answer. `none` and `false` stand for an exception, a test that fails, or a
-- container that could not be removed. Of the entries of the log, only the one after the start may
-- throw.
pub record Answers : Type 0 where
  pub port : Option ℕ
  pub has_network : Bool
  pub has_secrets : Bool
  pub has_stale_container : Bool
  pub is_stale_removed : Bool
  pub container : Option ℕ
  pub is_candidate_saved : Bool
  pub is_start_logged : Bool
  pub first_state : ContainerState
  pub later_states : List ContainerState
  pub is_healthy : Bool
  pub state_after_check : ContainerState
  pub diagnosis : Option FailureCode
  pub are_routes_activated : Bool
  pub is_pointer_saved : Bool
  pub is_status_saved : Bool
  pub is_previous_stopped : Bool
  pub is_candidate_removed : Bool

-- `opts`, and the environment of the worker.
pub record Options : Type 0 where
  pub remove_image_on_failure : Bool
  pub fail_on_invalid_subdomain : Bool
  pub persist_subdomain : Bool
  pub mark_previous_rolled_back : Bool
  pub nginx_enabled : Bool
  pub allow_unrouted_releases : Bool

-- Where other actors can come between the pipeline's reads and writes.
pub data Point : Type 0 where
  before_status_check before_project_check before_routing before_pointer before_healthy : Point

-- A call: the deployment, the project's document as the job read it, and what surrounds it.
pub record Job : Type 0 where
  pub id : ℕ
  pub slug : Text
  pub platform_subdomain : Option Text
  pub active_deployment_id : Option ℕ
  pub options : Options
  pub answers : Answers
  pub others : Point → Db → Db

-- `updateStatus`: the guarded write, and the removal of the image and the notification after it.
abbrev pub after_status : Job → DeploymentStatus → State → State
after_status j failed s =
    act (notify failed) (if j.options.remove_image_on_failure then act remove_image s else s)
after_status j healthy s = act (notify healthy) s
after_status j _ s = s

unfoldable pub update_status : Job → DeploymentStatus → (Db → Db) → State → State
update_status j to extra s =
    if is_closed s.db
    then s
    else after_status j to (record s { db = record (extra s.db) { status = to } })

abbrev pub meanwhile : Job → Point → State → State
meanwhile j p s = record s { db = j.others p s.db }

-- `fail`
unfoldable pub fail : {A : Type 0} → Job → FailureCode → M A
unfolding update_status
fail j code s =
    ended refused (update_status j failed (λ db. record db { failure_code = some code }) s)

-- `stopAndRemoveContainer(cName)`, whose answer is not read.
abbrev pub stop : Job → State → State
stop j s = record s {
  actions = if j.answers.is_candidate_removed then stop_candidate ∷ s.actions else s.actions;
}

-- `stop` and `fail`.
abbrev pub stop_and_fail : {A : Type 0} → Job → FailureCode → M A
stop_and_fail j code s = fail j code (stop j s)

abbrev pub or_fail : Job → Bool → FailureCode → M (Unit {0})
or_fail j true code s = next tt s
or_fail j false code s = fail j code s
