-- ===== src/Requests/Tests.antt =====
-- Requests for the deployments of one project.
use hello_deploy.Prelude.{
  ℕ, ◌⊎◌, ◌≡◌, refl, arith, true, false, none, some, List, [], ◌∷◌, ◌++◌, Text, codes,
}
use hello_deploy.Contracts.Enums.{
  DeploymentStatus, RuntimeType, queued, building, deploying, healthy, failed, cancelled,
  rolled_back,
}
use hello_deploy.Contracts.Strategies.{is_python_build_strategy, legacy_generated}
use hello_deploy.Builder.{BuilderState}
use hello_deploy.Contracts.Enums.{ProjectStatus}
use hello_deploy.Deployment.Status.{
  Row, update_status, is_active, is_terminal, next_sequence_number, last_sequence,
}
use hello_deploy.Deployment.Status.Updates.{find}
use hello_deploy.Requests.Readiness.{
  Project, DeploymentMode, UserStatus, BuilderGate, check_builder_deployment_gate,
  validate_build_strategy_readiness, find_owner_deployment_refusal,
  validate_project_deployment_eligibility,
}
use hello_deploy.Requests.{
  Surroundings, Target, Original, Plan, ◌>>=◌, is_rollback_target_eligible, create_deployment,
  retry_deployment, rollback_deployment, cancel_deployment, check_create, check_retry,
  check_rollback, launch, find_in_flight, find_of, check_cancel, after_check, overwrite_status,
}
use hello_deploy.Requests.Checks.{Creatable, Retryable, Restorable}
use hello_deploy.Requests.InFlight.{
  Event, create, retry, roll_back, cancel, work, OneInFlight, count_in_flight, on_events,
  one_in_flight,
}
use hello_deploy.Requests.Finished.{
  Write, update, overwrite, write_all, is_overwritten, terminal_stays_terminal,
}
use hello_deploy.Requests.Race.{System, Reach, two_in_flight, late_cancel_overwrites}
use hello_deploy.Requests.Answers.{Answers, every_request_answers}
use hello_deploy.Requests.Pages.{
  natural, below_zero, not_a_number, count_pages, at_least_one, get_deployments_paginated,
  first_pages, pages_partition, IsPage, paginated-IsPage,
}

abbrev shop : Project
shop = record {
  id = 1;
  status = ProjectStatus.active;
  deployment_mode = DeploymentMode.manual;
  owner_status = UserStatus.active;
  has_repository = true;
  runtime_type = some RuntimeType.nodejs;
  build_strategy = some legacy_generated;
  has_application_module = false;
  has_image_reference = false;
  active_deployment_id = some 5;
}

abbrev no_builder : BuilderGate
no_builder = record {
  is_enabled = false;
  owner_role = none;
  settings = record { runtimes = λ _. record { enabled = false; project_ids = [] } };
  state = BuilderState.stopped;
  is_fresh = false;
}

abbrev sha : Text
sha = codes "0123456789abcdef0123456789abcdef01234567"

abbrev around : Surroundings
around = record {
  project = some shop;
  is_enabled = λ _. true;
  gate = no_builder;
  quota_refusal = none;
  required_environment = "PORT" ∷ "DATABASE_URL" ∷ [];
  configured_environment = "DATABASE_URL" ∷ [];
  repository = some (record { has_access = true; is_public = false; last_commit_sha = some sha });
  latest_commit = λ _. none;
  has_queue = true;
}

abbrev row : ℕ → DeploymentStatus → Row
row id status = record { id = id; project_id = 1; sequence_number = id; status = status }

abbrev releases : List Row
releases = row 4 healthy ∷ row 5 healthy ∷ row 6 failed ∷ []

abbrev fourth : Target
fourth = record {
  row = row 4 healthy;
  commit_sha = sha;
  has_image = true;
  snapshot = some (some legacy_generated);
}

abbrev sixth : Original
sixth = record { row = row 6 failed; commit_sha = sha }

-- One request after the other, and the worker's writes between them.
abbrev day : List Event
day =
    create around none 7
    ∷ create around none 8
    ∷ work 7 building
    ∷ cancel 7 1
    ∷ retry around false (some sixth) 9
    ∷ work 9 healthy
    ∷ roll_back around (some fourth) 10
    ∷ []

releases-OneInFlight : OneInFlight releases
unfolding count_in_flight is_active
releases-OneInFlight p = ground arith

day_of_releases :
    on_events day releases
    ≡ releases
      ++ row 7 cancelled
        ∷ record (row 9 healthy) { sequence_number = 8 }
        ∷ record (row 10 deploying) { sequence_number = 9 }
        ∷ []
unfolding on_events create_deployment retry_deployment rollback_deployment cancel_deployment
    check_create check_retry check_rollback check_cancel launch find_in_flight find_of
    overwrite_status check_builder_deployment_gate validate_build_strategy_readiness
    find_owner_deployment_refusal validate_project_deployment_eligibility is_active update_status
    next_sequence_number last_sequence ◌>>=◌ is_rollback_target_eligible is_python_build_strategy
    is_terminal
day_of_releases = refl

-- A stop, a job's update and a cancellation that has read an old status.
abbrev late : List Write
late = update 4 failed ∷ overwrite 4 rolled_back ∷ overwrite 6 cancelled ∷ update 4 building ∷ []

terminal_stays_terminal_example :
    (r : Row) × (find 4 (write_all late releases) ≡ some r)
    × (is_terminal r.status ≡ true)
    × ((is_overwritten 4 late ≡ true) ⊎ (r ≡ row 4 healthy))
unfolding find is_terminal
terminal_stays_terminal_example =
    terminal_stays_terminal late releases 4 (row 4 healthy)
      ((ground arith, (ground arith, tt)), ((ground arith, tt), (tt, tt))) refl refl
      (tt, (refl, (refl, (tt, tt))))

one_in_flight_example : OneInFlight (on_events day releases)
one_in_flight_example = one_in_flight day releases releases-OneInFlight

nothing_in_flight : find_in_flight 1 releases ≡ none
unfolding find_in_flight is_active
nothing_in_flight = refl

abbrev plan : Plan
plan = record { project_id = 1; status = queued; commit_sha = sha; source = none }

plan_is_active : is_active queued ≡ true
unfolding is_active
plan_is_active = refl

two_in_flight_example :
    (t : System) × Reach (record { rows = releases; waiting = [] }) t
    × (count_in_flight 1 t.rows ≡ 2)
two_in_flight_example = two_in_flight releases plan 7 8 plan_is_active nothing_in_flight

seventh_in_flight : find 7 (row 7 queued ∷ []) ≡ some (row 7 queued)
unfolding find
seventh_in_flight = refl

late_cancel_overwrites_example :
    (let worked = update_status 7 healthy (row 7 queued ∷ []) in
      (worked.1 ≡ true)
      × (find 7 worked.0 ≡ some (row 7 healthy))
      × (find 7 (after_check (check_cancel (find_of 7 1 (row 7 queued ∷ []))) 7 worked.0)
          ≡ some (row 7 cancelled)))
late_cancel_overwrites_example =
    late_cancel_overwrites 7 1 (row 7 queued ∷ []) (row 7 queued) (tt, tt) seventh_in_flight refl
      plan_is_active

every_request_answers_example :
    Answers
      (Creatable around none releases)
      7
      releases
      true
      (create_deployment around none 7 releases)
    × Answers
        (Retryable around false (some sixth) releases)
        7
        releases
        true
        (retry_deployment around false (some sixth) 7 releases)
    × Answers
        (Restorable around (some fourth) releases)
        7
        releases
        true
        (rollback_deployment around (some fourth) 7 releases)
every_request_answers_example =
    every_request_answers around none false (some sixth) (some fourth) 7 releases

abbrev five : List ℕ
five = 5 ∷ 4 ∷ 3 ∷ 2 ∷ 1 ∷ []

last_page :
    get_deployments_paginated five (natural 9) (natural 2)
    ≡ record { deployments = 1 ∷ []; total = 5; page = 3; limit = 2; total_pages = 3 }
unfolding get_deployments_paginated count_pages at_least_one
last_page = refl

pages_partition_example :
    first_pages five
      (natural 2)
      (get_deployments_paginated five (natural 9) (natural 2)).total_pages
    ≡ five
pages_partition_example = pages_partition five (natural 9) (natural 2)

paginated-IsPage_example : IsPage five (get_deployments_paginated five below_zero not_a_number)
paginated-IsPage_example = paginated-IsPage five below_zero not_a_number
