-- ===== src/Deployment/Pipeline/Tests.antt =====
-- The release pipeline on small inputs: a release that goes well, one whose health check fails, and one
-- that is cancelled after its routes are active.
use hello_deploy.Prelude.{◌≡◌, ◌≢◌, refl, Bool, true, false, none, some, [], ◌∷◌, codes, text_eq}
use hello_deploy.Contracts.Enums.{
  ProjectStatus, DomainStatus, healthy, failed, cancelled, deploying,
}
use hello_deploy.Contracts.Subdomains.{
  is_valid_subdomain_label, is_reserved_subdomain, ends_well, to_lower_case,
}
use hello_deploy.Deployment.Status.{is_terminal}
use hello_deploy.Jobs.{◌>>=◌}
use hello_deploy.Deployment.Pipeline.Flow.{
  Previous, Db, State, ContainerState, Answers, Options, Point, Job, update_status, fail,
  start_candidate, stop_candidate, pass_health_check, read_status, read_project, activate_routes,
  stop_previous, notify, done, threw, before_status_check, before_project_check, before_routing,
  before_pointer, before_healthy,
}
use hello_deploy.Deployment.Pipeline.Candidate.{
  allocate, clear_stale, start, startup_check, health_check, has_crashed, settle,
}
use hello_deploy.Deployment.Pipeline.Publish.{
  status_check, project_check, route, commit, retire_previous,
}
use hello_deploy.Deployment.Pipeline.Trace.{running, has_stopped_previous, RoutedWhenReady}
use hello_deploy.Deployment.Pipeline.Safety.{routed_only_when_ready, pipeline_ends_terminal}
use hello_deploy.Jobs.Requirements.{first_failure}
use hello_deploy.Deployment.Pipeline.Requirements.{requirements}
use hello_deploy.Deployment.Pipeline.Quiet.{Decided, first_failure_decides}
use hello_deploy.Deployment.Pipeline.Cancelled.{CancelledLast, cancelled_release_replaces}
use hello_deploy.Deployment.Pipeline.{prepare, publish, run_release_pipeline}

abbrev up : ContainerState
up = record { running = true; restarting = false; restart_count = 0 }

abbrev answers : Bool → Answers
answers passes = record {
  port = some 20001;
  has_network = true;
  has_secrets = true;
  has_stale_container = false;
  is_stale_removed = true;
  container = some 5;
  is_candidate_saved = true;
  is_start_logged = true;
  first_state = up;
  later_states = up ∷ [];
  is_healthy = passes;
  state_after_check = up;
  diagnosis = none;
  are_routes_activated = true;
  is_pointer_saved = true;
  is_status_saved = true;
  is_previous_stopped = true;
  is_candidate_removed = true;
}

-- The options of a rollback.
abbrev options : Options
options = record {
  remove_image_on_failure = false;
  fail_on_invalid_subdomain = false;
  persist_subdomain = false;
  mark_previous_rolled_back = true;
  nginx_enabled = true;
  allow_unrouted_releases = false;
}

abbrev nobody : Point → Db → Db
nobody p db = db

abbrev canceller : Point → Db → Db
canceller before_healthy db = record db { status = cancelled }
canceller p db = db

abbrev job : Bool → (Point → Db → Db) → Job
job passes others = record {
  id = 2;
  slug = codes "books";
  platform_subdomain = some (codes "books");
  active_deployment_id = some 1;
  options = options;
  answers = answers passes;
  others = others;
}

abbrev previous : Previous
previous = record { status = healthy; active_container_id = some 4 }

abbrev begun : State
begun = record {
  db = record {
    has_deployment = true;
    has_project = true;
    status = deploying;
    failure_code = none;
    candidate_container_id = none;
    active_container_id = none;
    project_status = ProjectStatus.active;
    active_deployment_id = some 1;
    platform_subdomain = some (codes "books");
    previous = some previous;
    domains = record { hostname = "shop.example"; status = DomainStatus.verified } ∷ [];
  };
  actions = [];
}

good_release :
    (run_release_pipeline (job true nobody) begun).1.actions
    ≡ stop_previous 4
      ∷ notify healthy
      ∷ activate_routes ("shop.example" ∷ [])
      ∷ read_project (some ProjectStatus.active)
      ∷ read_status (some deploying)
      ∷ pass_health_check
      ∷ start_candidate 5
      ∷ []
unfolding run_release_pipeline prepare publish allocate clear_stale start startup_check health_check
    status_check project_check route commit retire_previous ◌>>=◌ is_terminal has_crashed settle
    update_status is_valid_subdomain_label is_reserved_subdomain ends_well text_eq to_lower_case
good_release = refl

bad_release :
    (run_release_pipeline (job false nobody) begun).1.actions
    ≡ notify failed ∷ stop_candidate ∷ start_candidate 5 ∷ []
unfolding run_release_pipeline prepare publish allocate clear_stale start startup_check health_check
    fail ◌>>=◌ is_terminal has_crashed settle update_status
bad_release = refl

routed_only_when_ready_example :
    RoutedWhenReady (run_release_pipeline (job true nobody) begun).1.actions
routed_only_when_ready_example = routed_only_when_ready (job true nobody) begun refl

refusal : (run_release_pipeline (job false canceller) begun).0 ≢ threw
unfolding run_release_pipeline prepare publish allocate clear_stale start startup_check health_check
    fail ◌>>=◌ is_terminal has_crashed settle update_status
refusal = λ e. cc

still_there : (run_release_pipeline (job false canceller) begun).1.db.has_deployment ≡ true
unfolding run_release_pipeline prepare publish allocate clear_stale start startup_check health_check
    fail ◌>>=◌ is_terminal has_crashed settle update_status
still_there = refl

pipeline_ends_terminal_example :
    is_terminal (run_release_pipeline (job false canceller) begun).1.db.status ≡ true
pipeline_ends_terminal_example =
    pipeline_ends_terminal (job false canceller) begun refl refusal still_there

first_failure_decides_example :
    Decided
      (job false nobody)
      (first_failure (requirements (job false nobody) (some ProjectStatus.active)))
      begun.db
      (run_release_pipeline (job false nobody) begun)
unfolding is_terminal
first_failure_decides_example =
    first_failure_decides (job false nobody) begun (λ p db. refl) refl refl refl refl

only_cancelled : CancelledLast (job true canceller)
only_cancelled = (quiet, λ db. refl)
  where
    quiet : (p : Point) (db : Db) → p ≢ before_healthy → canceller p db ≡ db
    quiet before_status_check db n = refl
    quiet before_project_check db n = refl
    quiet before_routing db n = refl
    quiet before_pointer db n = refl
    quiet before_healthy db n = absurd (n refl)

all_met : first_failure (requirements (job true canceller) (some ProjectStatus.active)) ≡ none
unfolding has_crashed settle is_valid_subdomain_label is_reserved_subdomain ends_well text_eq
    to_lower_case
all_met = refl

cancelled_release_replaces_example :
    ((run_release_pipeline (job true canceller) begun).0 ≡ done)
    × ((run_release_pipeline (job true canceller) begun).1.db.status ≡ cancelled)
    × ((run_release_pipeline (job true canceller) begun).1.db.active_deployment_id ≡ some 2)
    × (has_stopped_previous (run_release_pipeline (job true canceller) begun).1.actions ≡ true)
unfolding is_terminal
cancelled_release_replaces_example =
    cancelled_release_replaces (job true canceller) begun 1 4 previous only_cancelled refl refl
      all_met refl refl refl refl refl refl
