-- ===== src/Quota/Tests.antt =====
-- The quota rules on one owner with two projects.
use hello_deploy.Prelude.{
  ℕ, ◌<◌, ◌≡◌, ◌↔◌, ◌⊎◌, refl, true, none, some, List, [], ◌∷◌, length, keep_if,
}
use hello_deploy.Contracts.Enums.{ProjectStatus, DeploymentTrigger, free, healthy}
use hello_deploy.Quota.{
  Override, QuotaRow, user, project, Db, ProjectRow, Date, base_plan_defaults, resolve_user_quota,
  resolve_project_quota, owned_ids, count_running_apps, count_deployments_this_month, is_running,
  is_premium, check_deployment_quota,
}
use hello_deploy.Quota.Checks.{deployment_allowed_iff, count_running_apps_lem}

abbrev more_memory : ℕ → Override
more_memory n = record {
  max_owned_projects = none;
  max_running_apps = none;
  max_project_members = none;
  memory_mb = some n;
  cpu_cores = none;
  deployments_per_month = none;
  build_timeout_seconds = none;
  max_custom_domains = none;
  max_rollback_releases = none;
}

abbrev quotas : List QuotaRow
quotas =
    record { scope_type = project; scope_id = 1; override = more_memory 512 }
    ∷ record { scope_type = user; scope_id = 9; override = more_memory 384 }
    ∷ []

abbrev today : Date
today = record { year = 2025; month = 5; day = 12; time = 0 }

abbrev site : ℕ → ProjectRow
site n = record { id = n; owner_id = 9; status = ProjectStatus.active }

abbrev db : Db
db = record {
  quotas = quotas;
  projects = site 1 ∷ site 2 ∷ [];
  deployments =
      record {
        project_id = 1;
        trigger_type = DeploymentTrigger.manual;
        created_at = today;
        status = healthy;
        active_container_id = some 4;
      }
      ∷ [];
  memberships = [];
  invitations = [];
  domains = [];
  users = record { id = 9; account_tier = free } ∷ [];
}

deployment_allowed_iff_example :
    (check_deployment_quota base_plan_defaults db (site 2) today ≡ none) ↔ (
      ((is_premium db.users 9 ≡ true)
        ⊎ (count_deployments_this_month db 2 today
            < (resolve_project_quota base_plan_defaults quotas 2 9).deployments_per_month))
      × ((is_running db 2 ≡ true)
          ⊎ (count_running_apps db 9
              < (resolve_user_quota base_plan_defaults quotas 9).max_running_apps)))
deployment_allowed_iff_example = deployment_allowed_iff base_plan_defaults db (site 2) today

count_running_apps_lem_example :
    count_running_apps db 9 ≡ length (keep_if (is_running db) (owned_ids db.projects 9))
unfolding owned_ids
count_running_apps_lem_example = count_running_apps_lem db 9 (refl, (refl, tt))
