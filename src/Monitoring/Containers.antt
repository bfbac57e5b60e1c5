-- ===== src/Monitoring/Containers.antt =====
-- apps/worker/src/monitoring/classify.js: what each container is, from the database's records. Whether
-- a container's name is one of BuildKit's is a field of the container.
pub mod Active
mod Tests
use hello_deploy.Prelude.{
  Bool, true, false, ◌&&◌, not, if◌then◌else◌, Option, none, some, List, [], ◌∷◌, includes, String,
  string_eq, ◌=?◌,
}

pub record Container : Type 0 where
  pub id : String
  pub is_managed : Bool
  pub has_build_name : Bool
  pub deployment_id : Option String

pub record ProjectRecord : Type 0 where
  pub id : String
  pub active_deployment_id : Option String

pub record DeploymentRecord : Type 0 where
  pub id : String
  pub project_id : String
  pub active_container_id : Option String
  pub candidate_container_id : Option String

-- `ContainerRole` of packages/contracts/src/monitoring.js
pub data ContainerRole : Type 0 where
  active candidate retained orphaned build unmanaged : ContainerRole

-- `projectsById.get(id)`: of two projects with an id, the later one is kept.
unfoldable pub find_project : String → List ProjectRecord → Option ProjectRecord
find_project id [] = none
find_project id (p ∷ ps) =
    let later = find_project id ps in
    elim later [ some q ↦ some q | none ↦ if p.id =? id then some p else none ]

abbrev pub names : Option String → String → Bool
names none id = false
names (some s) id = s =? id

abbrev pub is_active_deployment : Option ProjectRecord → String → Bool
is_active_deployment none id = false
is_active_deployment (some p) id = names p.active_deployment_id id

abbrev pub is_live : List ProjectRecord → DeploymentRecord → Bool
is_live projects d = is_active_deployment (find_project d.project_id projects) d.id

abbrev pub add_if : Bool → Option String → List String → List String
add_if true (some id) ids = id ∷ ids
add_if _ _ ids = ids

-- `activeContainerIds`
unfoldable pub active_container_ids : List ProjectRecord → List DeploymentRecord → List String
active_container_ids projects [] = []
active_container_ids projects (d ∷ ds) =
    add_if (is_live projects d) d.active_container_id (active_container_ids projects ds)

-- `candidate !== active`, for a candidate that is set.
abbrev pub is_other : Option String → Option String → Bool
is_other (some c) o = not (names o c)
is_other none o = false

-- `candidateContainerIds`
unfoldable pub candidate_container_ids : List DeploymentRecord → List String
candidate_container_ids [] = []
candidate_container_ids (d ∷ ds) =
    add_if (is_other d.candidate_container_id d.active_container_id) d.candidate_container_id
      (candidate_container_ids ds)

-- `deploymentsById.has(id)`
unfoldable pub is_known_deployment : Option String → List DeploymentRecord → Bool
is_known_deployment id [] = false
is_known_deployment id (d ∷ ds) =
    let rest = is_known_deployment id ds in if names id d.id then true else rest

-- The role that `classifyContainers` gives to a container.
unfoldable pub role_of : List ProjectRecord → List DeploymentRecord → Container → ContainerRole
role_of projects deployments c =
    if not c.is_managed
    then (if c.has_build_name then build else unmanaged)
    else if includes (active_container_ids projects deployments) c.id
    then active
    else if includes (candidate_container_ids deployments) c.id
    then candidate
    else if is_known_deployment c.deployment_id deployments
    then retained
    else orphaned
