-- ===== src/Deployment/Cleanup/Tests.antt =====
-- The sweep on three healthy releases of one project, the oldest of which is the active one.
use mathlib.Core.List.{Memᴰ}
use hello_deploy.Prelude.{
  ℕ, ◌≡◌, refl, Bool, true, Option, none, some, List, [], ◌∷◌, codes, Text, text_eq,
}
use hello_deploy.Contracts.Enums.{healthy}
use hello_deploy.Deployment.Retention.{
  Release, remove_image, stop_container, clear_container, healthy_releases, sort_desc, insert_desc,
  release_keep_count, is_image_tag_in_use, clean_container, forget_container,
}
use hello_deploy.Deployment.Cleanup.{
  Owner, sweep_project, sweep_releases, sweep_release, sweep_registry, sweep_tag, keep_of,
}
use hello_deploy.Deployment.Cleanup.Active.{active_release_survives_sweep}

abbrev release : ℕ → Text → Release
release n tag = record {
  id = n;
  project_id = 7;
  status = healthy;
  sequence_number = n;
  active_container_id = some n;
  image_tag = some tag;
  image_ref = none;
  image_digest = none;
}

abbrev three : List Release
three = release 1 (codes "app:1") ∷ release 2 (codes "app:1") ∷ release 3 (codes "app:3") ∷ []

abbrev manifest : Text → Option Bool
manifest t = some true

abbrev owner : Owner
owner = record { active_deployment_id = some 1; max_rollback_releases = 1 }

-- The second release goes, and with it the image of the active one.
active_image_removed :
    (sweep_project (codes "registry/apps") manifest 3 7 (some owner) three).actions
    ≡ clear_container 2 ∷ remove_image (codes "app:1") ∷ stop_container 2 ∷ []
unfolding sweep_project sweep_releases sweep_release sweep_registry sweep_tag keep_of
    healthy_releases sort_desc insert_desc release_keep_count is_image_tag_in_use clean_container
    forget_container text_eq
active_image_removed = refl

active_release_survives_sweep_example :
    Memᴰ
      (release 1 (codes "app:1"))
      (sweep_project (codes "registry/apps") manifest 3 7 (some owner) three).records
active_release_survives_sweep_example =
    active_release_survives_sweep (codes "registry/apps") manifest 3 7 owner three
      (release 1 (codes "app:1")) (Memᴰ.head refl) refl
