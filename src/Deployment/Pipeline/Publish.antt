-- ===== src/Deployment/Pipeline/Publish.antt =====
-- The second half of `runReleasePipeline` of apps/worker/src/deployment/pipeline.js: the last checks, the
-- routes, and the change from the previous release to this one.
use hello_deploy.Prelude.{
  ℕ, Bool, true, false, ◌&&◌, not, if◌then◌else◌, Option, none, some, or_else, map, keep_if, Text,
}
use hello_deploy.Contracts.Enums.{
  DeploymentStatus, ProjectStatus, DomainStatus, healthy, rolled_back,
}
use hello_deploy.Contracts.Subdomains.{is_valid_subdomain_label, is_reserved_subdomain}
use hello_deploy.Deployment.Status.{is_terminal}
use hello_deploy.Jobs.{Stage, ◌>>=◌, ◌>>◌, next, ended}
use hello_deploy.Deployment.Pipeline.Flow.{
  Outcome, Domain, Previous, Db, State, M, act, Job, update_status, meanwhile, stop, deployment_of,
  project_of, stop_and_fail, project_not_active, subdomain_invalid, nginx_route_failed,
  route_not_connected, read_status, read_project, activate_routes, stop_previous, refused, threw,
  before_status_check, before_project_check, before_routing, before_pointer, before_healthy,
}

-- The last checks before traffic moves.
abbrev pub is_finished : Option DeploymentStatus → Bool
is_finished none = false
is_finished (some status) = is_terminal status

abbrev pub check_status : Job → State → Stage Outcome State (Unit {0})
check_status j s =
    if is_finished (deployment_of s.db)
    then ended refused (stop j (act (read_status (deployment_of s.db)) s))
    else next tt (act (read_status (deployment_of s.db)) s)

unfoldable pub status_check : Job → M (Unit {0})
status_check j s = check_status j (meanwhile j before_status_check s)

abbrev pub is_active_project : ProjectStatus → Bool
is_active_project ProjectStatus.active = true
is_active_project _ = false

-- A project that is not found passes.
abbrev pub may_release : Option ProjectStatus → Bool
may_release none = true
may_release (some status) = is_active_project status

abbrev pub check_project : Job → State → Stage Outcome State (Unit {0})
check_project j s =
    if may_release (project_of s.db)
    then next tt (act (read_project (project_of s.db)) s)
    else stop_and_fail j project_not_active (act (read_project (project_of s.db)) s)

unfoldable pub project_check : Job → M (Unit {0})
project_check j s = check_project j (meanwhile j before_project_check s)

-- The domains that the query `$in: [VERIFIED, ACTIVATING, ACTIVE]` finds.
abbrev pub is_routed_domain : Domain → Bool
is_routed_domain d = elim d.status [
  | DomainStatus.verified ↦ true
  | DomainStatus.activating ↦ true
  | DomainStatus.active ↦ true
  | _ ↦ false
]

abbrev pub activated : Domain → Domain
activated d = if is_routed_domain d then record d { status = DomainStatus.active } else d

-- The routes of the platform's hostname and of the custom domains, and the domains' new status.
abbrev pub publish_routes : Job → M (Unit {0})
publish_routes j s =
    if j.answers.are_routes_activated
    then next tt (
        act (activate_routes (map (λ d. d.hostname) (keep_if is_routed_domain s.db.domains)))
          (record s { db = record s.db { domains = map activated s.db.domains } }))
    else stop_and_fail j nginx_route_failed s

abbrev pub subdomain_of : Job → Text
subdomain_of j = or_else j.platform_subdomain j.slug

abbrev pub is_usable : Text → Bool
is_usable subdomain = is_valid_subdomain_label subdomain && not (is_reserved_subdomain subdomain)

-- `if (opts.persistSubdomain && !project.platformSubdomain)`
abbrev pub persist : Job → Option Text → State → State
persist j none s =
    if j.options.persist_subdomain
    then record s { db = record s.db { platform_subdomain = some (subdomain_of j) } }
    else s
persist j (some subdomain) s = s

abbrev pub route_subdomain : Job → Bool → M (Unit {0})
route_subdomain j true s = (publish_routes j >> λ s. next tt (persist j j.platform_subdomain s)) s
route_subdomain j false s =
    if j.options.fail_on_invalid_subdomain then stop_and_fail j subdomain_invalid s else next tt s

abbrev pub routing : Job → M (Unit {0})
routing j s =
    if j.options.nginx_enabled
    then route_subdomain j (is_usable (subdomain_of j)) s
    else if j.options.allow_unrouted_releases
    then next tt s
    else stop_and_fail j route_not_connected s

unfoldable pub route : Job → M (Unit {0})
route j s = routing j (meanwhile j before_routing s)

-- `Deployment.findById(project.activeDeploymentId)`, where the job's project names one.
abbrev pub find_previous : Option ℕ → Db → Option Previous
find_previous none db = none
find_previous (some id) db = db.previous

abbrev pub save_pointer : Job → M (Option Previous)
save_pointer j s =
    if j.answers.is_pointer_saved
    then next (find_previous j.active_deployment_id s.db)
        (record s { db = record s.db { active_deployment_id = some j.id } })
    else ended threw s

-- The status HEALTHY. The answer of `updateStatus` is not read.
abbrev pub save_healthy : Job → ℕ → M (Unit {0})
save_healthy j c s =
    if j.answers.is_status_saved
    then next tt (update_status j healthy (λ db. record db { active_container_id = some c }) s)
    else ended threw s

-- The project's pointer first, then the status.
unfoldable pub commit : Job → ℕ → M (Option Previous)
unfolding update_status
commit j c s =
    (do
      previous ← λ s. save_pointer j (meanwhile j before_pointer s)
      λ s. save_healthy j c (meanwhile j before_healthy s)
      next previous)
      s

abbrev pub roll_back : Option Previous → Option Previous
roll_back none = none
roll_back (some p) = some (record p { status = rolled_back; active_container_id = none })

-- `if (oldDeployment?.activeContainerId)`: what is thrown there is logged.
abbrev pub retire_container : Job → Option ℕ → State → State
retire_container j none s = s
retire_container j (some c) s =
    if j.answers.is_previous_stopped
    then act (stop_previous c) (
        if j.options.mark_previous_rolled_back
        then record s { db = record s.db { previous = roll_back s.db.previous } }
        else s)
    else s

abbrev pub retire : Job → Option Previous → State → State
retire j none s = s
retire j (some p) s = retire_container j p.active_container_id s

unfoldable pub retire_previous : Job → Option Previous → M (Unit {0})
retire_previous j previous s = next tt (retire j previous s)
