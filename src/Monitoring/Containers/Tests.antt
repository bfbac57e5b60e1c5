-- ===== src/Monitoring/Containers/Tests.antt =====
-- The classification of containers on small inputs.
use hello_deploy.Prelude.{
  ◌≡◌, ◌≢◌, refl, arith, ◌⊎◌, true, false, none, some, List, [], ◌∷◌, String, string_eq,
}
use hello_deploy.Monitoring.Containers.{
  Container, ProjectRecord, DeploymentRecord, ContainerRole, active, find_project,
  active_container_ids, candidate_container_ids, is_known_deployment, role_of,
}
use hello_deploy.Monitoring.Containers.Active.{Serves, active_container_unique}

abbrev shop : ProjectRecord
shop = record { id = "p"; active_deployment_id = some "d2" }

abbrev retired : DeploymentRecord
retired = record {
  id = "d1";
  project_id = "p";
  active_container_id = some "c1";
  candidate_container_id = none;
}

abbrev serving : DeploymentRecord
serving = record {
  id = "d2";
  project_id = "p";
  active_container_id = some "c2";
  candidate_container_id = some "c2";
}

abbrev deployments : List DeploymentRecord
deployments = serving ∷ retired ∷ []

abbrev managed_by : String → String → Container
managed_by id d = record {
  id = id;
  is_managed = true;
  has_build_name = false;
  deployment_id = some d;
}

abbrev app : Container
app = managed_by "c2" "d2"

retired_container : role_of (shop ∷ []) deployments (managed_by "c1" "d1") ≡ ContainerRole.retained
unfolding role_of active_container_ids candidate_container_ids is_known_deployment find_project
retired_container = refl

serving_container : role_of (shop ∷ []) deployments app ≡ active
unfolding role_of active_container_ids candidate_container_ids is_known_deployment find_project
serving_container = refl

unknown_container : role_of (shop ∷ []) deployments (managed_by "c3" "d3") ≡ ContainerRole.orphaned
unfolding role_of active_container_ids candidate_container_ids is_known_deployment find_project
unknown_container = refl

other_id : retired.id ≢ serving.id
other_id = λ e. absurd (ground (arith, (string_eq.beq_iff "d1" "d2").1 e))

active_container_unique_example :
    (app.is_managed ≡ true)
    × ((d : DeploymentRecord) × Serves (shop ∷ []) deployments app.id d
        × ((d' : DeploymentRecord) × Serves (shop ∷ []) deployments app.id d'
            × ((d.project_id ≢ d'.project_id) ⊎ (app.id ≡ app.id))))
active_container_unique_example =
    active_container_unique (shop ∷ []) deployments app app ((other_id, tt), (tt, tt))
      serving_container serving_container
