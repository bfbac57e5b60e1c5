-- ===== src/Quota.antt =====
-- packages/database/src/quota.js and apps/web/src/services/quota.service.js: the limits of a user
-- and of a project, and the refusals that they lead to.
pub mod Rules
pub mod Checks
mod Tests
use hello_deploy.Prelude.{
  ℕ, ◌+◌, Bool, true, false, ◌&&◌, ◌||◌, not, ltb, leb, ◌==◌, if◌then◌else◌, Option, none, some,
  or_else, List, [], ◌∷◌, any, keep_if, length, includes, ℕ_eq,
}
use hello_deploy.Contracts.Enums.{
  AccountTier, DeploymentStatus, DeploymentStatus-eq, DeploymentTrigger, DomainStatus,
  ProjectStatus, free, premium, healthy,
}

-- The limits. `cpu_cores` counts thousandths of a core, so the default 0.25 is 250.
pub record Limits : Type 0 where
  pub max_owned_projects : ℕ
  pub max_running_apps : ℕ
  pub max_project_members : ℕ
  pub memory_mb : ℕ
  pub cpu_cores : ℕ
  pub deployments_per_month : ℕ
  pub build_timeout_seconds : ℕ
  pub max_custom_domains : ℕ
  pub max_rollback_releases : ℕ

-- A quota override document: a field that is null or undefined is `none`. The type is also that
-- of the argument of `configurePlanDefaults`.
pub record Override : Type 0 where
  pub max_owned_projects : Option ℕ
  pub max_running_apps : Option ℕ
  pub max_project_members : Option ℕ
  pub memory_mb : Option ℕ
  pub cpu_cores : Option ℕ
  pub deployments_per_month : Option ℕ
  pub build_timeout_seconds : Option ℕ
  pub max_custom_domains : Option ℕ
  pub max_rollback_releases : Option ℕ

-- `BASE_PLAN_DEFAULTS`
abbrev pub base_plan_defaults : Limits
base_plan_defaults = record {
  max_owned_projects = 1;
  max_running_apps = 1;
  max_project_members = 3;
  memory_mb = 256;
  cpu_cores = 250;
  deployments_per_month = 10;
  build_timeout_seconds = 600;
  max_custom_domains = 1;
  max_rollback_releases = 3;
}

-- The loop of `mergeOnto` over the keys.
unfoldable pub merge_fields : Limits → Override → Limits
merge_fields base o = record {
  max_owned_projects = or_else o.max_owned_projects base.max_owned_projects;
  max_running_apps = or_else o.max_running_apps base.max_running_apps;
  max_project_members = or_else o.max_project_members base.max_project_members;
  memory_mb = or_else o.memory_mb base.memory_mb;
  cpu_cores = or_else o.cpu_cores base.cpu_cores;
  deployments_per_month = or_else o.deployments_per_month base.deployments_per_month;
  build_timeout_seconds = or_else o.build_timeout_seconds base.build_timeout_seconds;
  max_custom_domains = or_else o.max_custom_domains base.max_custom_domains;
  max_rollback_releases = or_else o.max_rollback_releases base.max_rollback_releases;
}

-- `mergeOnto`
unfoldable pub merge_onto : Limits → Option Override → Limits
unfolding merge_fields
merge_onto base none = base
merge_onto base (some o) = merge_fields base o

-- `configurePlanDefaults`
unfoldable pub configure_plan_defaults : Override → Limits
unfolding merge_fields
configure_plan_defaults overrides = merge_fields base_plan_defaults overrides

-- `QuotaScope`, without the scope PLAN, which no query names.
pub data QuotaScope : Type 0 where
  user project : QuotaScope

abbrev pub scope_eq : QuotaScope → QuotaScope → Bool
scope_eq user user = true
scope_eq project project = true
scope_eq _ _ = false

pub record QuotaRow : Type 0 where
  pub scope_type : QuotaScope
  pub scope_id : ℕ
  pub override : Override

-- `Quota.findOne({scopeType, scopeId})`
unfoldable pub find_override : QuotaScope → ℕ → List QuotaRow → Option Override
find_override scope id [] = none
find_override scope id (q ∷ qs) =
    let rest = find_override scope id qs in
    if scope_eq q.scope_type scope && q.scope_id == id then some q.override else rest

module _ (plan_defaults : Limits) (quotas : List QuotaRow) where
  unfoldable pub resolve_user_quota : ℕ → Limits
  unfolding merge_onto find_override
  resolve_user_quota user_id = merge_onto plan_defaults (find_override user user_id quotas)

  unfoldable pub resolve_project_quota : ℕ → ℕ → Limits
  unfolding merge_onto find_override
  resolve_project_quota project_id owner_id =
      let user_base = merge_onto plan_defaults (find_override user owner_id quotas) in
      merge_onto user_base (find_override project project_id quotas)

-- A `Date` by its UTC fields; `month` and `day` count from 0 and 1, `time` is the time of day.
pub record Date : Type 0 where
  pub year : ℕ
  pub month : ℕ
  pub day : ℕ
  pub time : ℕ

-- `a <= b` on dates.
unfoldable pub date_le : Date → Date → Bool
date_le a b =
    ltb a.year b.year
    || (a.year == b.year
        && (ltb a.month b.month
            || (a.month == b.month && (ltb a.day b.day || (a.day == b.day && leb a.time b.time)))))

unfoldable pub start_of_utc_month : Date → Date
start_of_utc_month now = record { year = now.year; month = now.month; day = 1; time = 0 }

pub record ProjectRow : Type 0 where
  pub id : ℕ
  pub owner_id : ℕ
  pub status : ProjectStatus

pub record DeploymentRow : Type 0 where
  pub project_id : ℕ
  pub trigger_type : DeploymentTrigger
  pub created_at : Date
  pub status : DeploymentStatus
  pub active_container_id : Option ℕ

pub record InvitationRow : Type 0 where
  pub project_id : ℕ
  pub expires_at : Date

pub record DomainRow : Type 0 where
  pub project_id : ℕ
  pub status : DomainStatus

pub record UserRow : Type 0 where
  pub id : ℕ
  pub account_tier : AccountTier

-- The collections that the checks count in. A membership is the id of its project.
pub record Db : Type 0 where
  pub quotas : List QuotaRow
  pub projects : List ProjectRow
  pub deployments : List DeploymentRow
  pub memberships : List ℕ
  pub invitations : List InvitationRow
  pub domains : List DomainRow
  pub users : List UserRow

abbrev is_archived : ProjectStatus → Bool
is_archived ProjectStatus.archived = true
is_archived _ = false

abbrev is_removed : DomainStatus → Bool
is_removed DomainStatus.removed = true
is_removed _ = false

abbrev is_rollback : DeploymentTrigger → Bool
is_rollback DeploymentTrigger.rollback = true
is_rollback _ = false

abbrev has_container : DeploymentRow → Bool
has_container d = elim d.active_container_id [ none ↦ false | some c ↦ true ]

-- The filter `status: HEALTHY, activeContainerId: {$ne: null}`.
unfoldable pub is_serving : DeploymentRow → Bool
is_serving d = includes (healthy ∷ []) d.status && has_container d

-- `countDeploymentsThisMonth`
unfoldable pub count_deployments_this_month : Db → ℕ → Date → ℕ
count_deployments_this_month db project_id now = length (
    keep_if
      (λ d.
        d.project_id == project_id
        && not (is_rollback d.trigger_type)
        && date_le (start_of_utc_month now) d.created_at)
      db.deployments)

-- The owner's projects that are not archived.
unfoldable pub owned_ids : List ProjectRow → ℕ → List ℕ
owned_ids [] owner = []
owned_ids (p ∷ ps) owner =
    let rest = owned_ids ps owner in
    if p.owner_id == owner && not (is_archived p.status) then p.id ∷ rest else rest

-- `Deployment.distinct('projectId', {projectId: {$in}, status, activeContainerId})`
unfoldable pub distinct_serving : List DeploymentRow → List ℕ → List ℕ
distinct_serving [] ids = []
distinct_serving (d ∷ ds) ids =
    let rest = distinct_serving ds ids in
    if includes ids d.project_id && is_serving d && not (includes rest d.project_id)
    then d.project_id ∷ rest
    else rest

-- `countRunningApps`
unfoldable pub count_running_apps : Db → ℕ → ℕ
unfolding distinct_serving owned_ids is_serving
count_running_apps db owner = length (distinct_serving db.deployments (owned_ids db.projects owner))

-- `Deployment.exists({projectId, status: HEALTHY, activeContainerId: {$ne: null}})`
unfoldable pub is_running : Db → ℕ → Bool
unfolding is_serving
is_running db project_id = any (λ d. d.project_id == project_id && is_serving d) db.deployments

unfoldable pub is_premium : List UserRow → ℕ → Bool
is_premium [] owner = false
is_premium (u ∷ us) owner =
    let rest = is_premium us owner in
    if u.id == owner then elim u.account_tier [ free ↦ false | premium ↦ true ] else rest

-- The refusals, with the numbers that their messages name.
pub data Refusal : Type 0 where
  monthly : ℕ → ℕ → Refusal
  running_apps : ℕ → ℕ → Refusal
  domains : ℕ → ℕ → Refusal

module _ (plan_defaults : Limits) (db : Db) where
  unfoldable pub check_can_create_project : ℕ → Bool
  unfolding resolve_user_quota owned_ids
  check_can_create_project user_id =
      ltb (length (owned_ids db.projects user_id))
        (resolve_user_quota plan_defaults db.quotas user_id).max_owned_projects

  unfoldable pub check_can_add_member : ℕ → ℕ → Date → Bool
  unfolding resolve_project_quota
  check_can_add_member project_id owner_id now =
      let members = length (keep_if (λ m. m == project_id) db.memberships) in
      let invited = length (
        keep_if (λ i. i.project_id == project_id && not (date_le i.expires_at now))
          db.invitations) in
      ltb (members + invited)
        (resolve_project_quota plan_defaults db.quotas project_id owner_id).max_project_members

  -- `null` is `none`.
  unfoldable pub check_deployment_quota : ProjectRow → Date → Option Refusal
  unfolding resolve_project_quota resolve_user_quota
  check_deployment_quota p now =
      let quota = resolve_project_quota plan_defaults db.quotas p.id p.owner_id in
      let owner_quota = resolve_user_quota plan_defaults db.quotas p.owner_id in
      let used = count_deployments_this_month db p.id now in
      let running = count_running_apps db p.owner_id in
      if not (is_premium db.users p.owner_id) && leb quota.deployments_per_month used
      then some (monthly used quota.deployments_per_month)
      else if not (is_running db p.id) && leb owner_quota.max_running_apps running
      then some (running_apps running owner_quota.max_running_apps)
      else none

  unfoldable pub check_domain_quota : ProjectRow → Option Refusal
  unfolding resolve_project_quota
  check_domain_quota p =
      let quota = resolve_project_quota plan_defaults db.quotas p.id p.owner_id in
      let count =
        length (keep_if (λ d. d.project_id == p.id && not (is_removed d.status)) db.domains) in
      if leb quota.max_custom_domains count
      then some (domains count quota.max_custom_domains)
      else none
