-- ===== src/Deployment/Pipeline.antt =====
-- `runReleasePipeline` of apps/worker/src/deployment/pipeline.js, for any answers of Docker, nginx and
-- the queries that it catches, while other actors change the documents between its steps.
pub mod Flow
pub mod Candidate
pub mod Publish
pub mod Trace
pub mod Safety
pub mod Requirements
pub mod Quiet
pub mod Cancelled
mod Tests
use hello_deploy.Jobs.{Stage, ◌>>=◌, ◌>>◌, next, ended}
use hello_deploy.Deployment.Pipeline.Flow.{
  FailureCode, Domain, Previous, Db, Action, State, Outcome, M, act, ContainerState, Answers,
  Options, Point, Job, after_status, update_status, meanwhile, fail, stop_and_fail, or_fail,
  port_allocation_failed, network_setup_failed, secret_decryption_failed, container_start_failed,
  container_crashed_on_startup, health_check_failed, project_not_active, subdomain_invalid,
  nginx_route_failed, route_not_connected, diagnosed, start_candidate, stop_candidate,
  pass_health_check, read_status, read_project, activate_routes, stop_previous, remove_image,
  notify, done, refused, threw, before_status_check, before_project_check, before_routing,
  before_pointer, before_healthy,
}
use hello_deploy.Prelude.{ℕ}
use hello_deploy.Deployment.Pipeline.Candidate.{
  allocate, clear_stale, start, startup_check, health_check,
}
use hello_deploy.Deployment.Pipeline.Publish.{
  status_check, project_check, route, commit, retire_previous,
}

unfoldable pub prepare : Job → M ℕ
prepare j = do
  allocate j
  or_fail j j.answers.has_network network_setup_failed
  or_fail j j.answers.has_secrets secret_decryption_failed
  clear_stale j
  container ← start j
  startup_check j
  health_check j
  next container

unfoldable pub publish : Job → ℕ → M (Unit {0})
publish j container = do
  status_check j
  project_check j
  route j
  previous ← commit j container
  retire_previous j previous

abbrev pub outcome : Stage Outcome State (Unit {0}) → Outcome × State
outcome (next _ s) = (done, s)
outcome (ended o s) = (o, s)

unfoldable pub run_release_pipeline : Job → State → Outcome × State
run_release_pipeline j s = outcome ((prepare j >>= publish j) s)
