-- ===== src/Monitoring/Probes/Tests.antt =====
-- Probes and the health of an app on small inputs.
use hello_deploy.Prelude.{ℕ, true, false, none, some, List, [], ◌∷◌, ℕ_eq, string_eq}
use hello_deploy.Contracts.Enums.{ProjectStatus}
use hello_deploy.Monitoring.Probes.{
  Answer, History, Target, Request, Network, AppProject, AppContainer, ProbePolicy,
}
use hello_deploy.Monitoring.Probes.Streaks.{after}

abbrev answer : ℕ → Answer
answer code = record { status_code = some code; latency_ms = 12 }

abbrev no_answer : Answer
no_answer = record { status_code = none; latency_ms = 8000 }

abbrev answers : List (ℕ × Answer)
answers = (30, no_answer) ∷ (20, answer 502) ∷ (10, answer 200) ∷ []

abbrev target : ℕ → Target
target n = record { project_id = n; has_subdomain = true }

abbrev net : Network
net = record { loopback = λ t. answer 200; public_url = λ t. answer 301 }

abbrev request : Request
request = record { has_public_domain = true; check_public = true }

abbrev earlier : List (ℕ × History)
earlier = (2, after answers) ∷ []

abbrev policy : ProbePolicy
policy = record { failures_before_unhealthy = 3; successes_before_healthy = 2 }

abbrev app : AppProject
app = record { maintenance = false; status = ProjectStatus.active; active_deployment_id = some 5 }

abbrev container : AppContainer
container = record { running = true; restarting = false; started_at = some 0 }

abbrev steady : History
steady = record {
  consecutive_failures = 0;
  consecutive_successes = 4;
  last_success_at = some 10;
  last_failure_at = none;
  last = some (answer 200);
  public_answer = none;
}
