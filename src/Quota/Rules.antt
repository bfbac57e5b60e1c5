-- ===== src/Quota/Rules.antt =====
-- How the limits of packages/database/src/quota.js are resolved.
use hello_deploy.Prelude.{◌∙◌, ap, ℕ, ◌≡◌, refl, Option, none, some, or_else, List}
use hello_deploy.Quota.{
  Limits, Override, QuotaRow, user, project, merge_onto, find_override, resolve_user_quota,
  resolve_project_quota,
}

-- The keys of `BASE_PLAN_DEFAULTS`.
pub data Key : Type 0 where
  max_owned_projects max_running_apps max_project_members memory_mb cpu_cores deployments_per_month
        build_timeout_seconds max_custom_domains max_rollback_releases :
      Key

abbrev pub limit : Key → Limits → ℕ
limit max_owned_projects l = l.max_owned_projects
limit max_running_apps l = l.max_running_apps
limit max_project_members l = l.max_project_members
limit memory_mb l = l.memory_mb
limit cpu_cores l = l.cpu_cores
limit deployments_per_month l = l.deployments_per_month
limit build_timeout_seconds l = l.build_timeout_seconds
limit max_custom_domains l = l.max_custom_domains
limit max_rollback_releases l = l.max_rollback_releases

abbrev pub given : Key → Option Override → Option ℕ
given k none = none
given max_owned_projects (some o) = o.max_owned_projects
given max_running_apps (some o) = o.max_running_apps
given max_project_members (some o) = o.max_project_members
given memory_mb (some o) = o.memory_mb
given cpu_cores (some o) = o.cpu_cores
given deployments_per_month (some o) = o.deployments_per_month
given build_timeout_seconds (some o) = o.build_timeout_seconds
given max_custom_domains (some o) = o.max_custom_domains
given max_rollback_releases (some o) = o.max_rollback_releases

limit-merge_onto :
    (k : Key) (base : Limits) (o : Option Override)
    → limit k (merge_onto base o) ≡ or_else (given k o) (limit k base)
unfolding merge_onto
limit-merge_onto max_owned_projects base none = refl
limit-merge_onto k base none = refl
limit-merge_onto max_owned_projects base (some o) = refl
limit-merge_onto k base (some o) = refl

-- For every limit, the project's override wins over its owner's, and that over the plan's default;
-- a user's own limits leave the project override out.
pub resolve_precedence :
    (k : Key) (defaults : Limits) (quotas : List QuotaRow) (project_id owner_id : ℕ)
    → (limit k (resolve_project_quota defaults quotas project_id owner_id)
        ≡ or_else
            (given k (find_override project project_id quotas))
            (or_else (given k (find_override user owner_id quotas)) (limit k defaults)))
      × (limit k (resolve_user_quota defaults quotas owner_id)
          ≡ or_else (given k (find_override user owner_id quotas)) (limit k defaults))
unfolding resolve_project_quota resolve_user_quota
resolve_precedence k defaults quotas project_id owner_id = (
  limit-merge_onto k _ (find_override project project_id quotas)
      ∙ ap (or_else (given k (find_override project project_id quotas)))
          (limit-merge_onto k defaults (find_override user owner_id quotas)),
  limit-merge_onto k defaults (find_override user owner_id quotas),
)
