-- ===== src/Deployment/Cleanup.antt =====
-- apps/worker/src/jobs/cleanup-releases.job.js: the trimming of one project's healthy releases by the
-- sweep. The images of failed deployments, workspaces and dangling images are left out.
pub mod Active
mod Tests
use hello_deploy.Prelude.{
  ℕ, max, Bool, true, false, ◌&&◌, ◌||◌, not, is_some, ◌==◌, if◌then◌else◌, Option, none, some,
  List, [], ◌∷◌, drop, keep_if, includes, ℕ_eq, Text,
}
use hello_deploy.Deployment.Registry.{is_pinned, is_platform_registry_release}
use hello_deploy.Deployment.Retention.{
  Release, State, remove_image, act, is_image_tag_in_use, is_image_digest_in_use, clean_container,
  forget_container, retire_registry_image, healthy_releases, release_keep_count, ids,
}

-- The project's document, with its resolved limit of releases; a release can outlive its project.
pub record Owner : Type 0 where
  pub active_deployment_id : Option ℕ
  pub max_rollback_releases : ℕ

-- `isActiveDeploymentProtected`
abbrev pub is_active_deployment_protected : Option ℕ → Release → Bool
is_active_deployment_protected none dep = false
is_active_deployment_protected (some id) dep = dep.id == id

abbrev pub active_of : Option Owner → Option ℕ
active_of none = none
active_of (some p) = p.active_deployment_id

-- `getReleaseKeepCount`, or the plan's default.
unfoldable pub keep_of : ℕ → Option Owner → ℕ
unfolding release_keep_count
keep_of plan_default none = plan_default
keep_of plan_default (some p) = release_keep_count p.max_rollback_releases

-- `if (dep.imageTag)`
unfoldable pub sweep_tag : List ℕ → Release → State → State
sweep_tag excess dep s = elim dep.image_tag [
  | none ↦ s
  | some tag ↦ if is_image_tag_in_use s.records tag excess then s else act (remove_image tag) s
]

module _ (platform : Text) (manifest : Text → Option Bool) (excess : List ℕ) (dep : Release) where
  unfoldable pub sweep_manifest : Text → State → State
  sweep_manifest image_ref s =
      if is_platform_registry_release platform dep.image_ref dep.image_digest
        && not (is_image_digest_in_use s.records dep.image_digest excess)
      then (retire_registry_image platform manifest dep.id image_ref s).1
      else s

  -- `removeOwnerImageCopy`
  unfoldable pub sweep_owner_copy : Text → State → State
  sweep_owner_copy image_ref s =
      if not (is_some dep.image_digest)
        || not (is_pinned image_ref)
        || is_platform_registry_release platform dep.image_ref dep.image_digest
        || is_image_digest_in_use s.records dep.image_digest excess
      then s
      else act (remove_image image_ref) s

  unfoldable pub sweep_registry : State → State
  sweep_registry s = elim dep.image_ref [
    | none ↦ s
    | some image_ref ↦ sweep_owner_copy image_ref (sweep_manifest image_ref s)
  ]

  -- One round of the inner loop.
  unfoldable pub sweep_release : Option ℕ → State → State
  sweep_release active s =
      if is_active_deployment_protected active dep
      then s
      else forget_container dep.id (sweep_registry (sweep_tag excess dep (clean_container dep s)))

module _ (platform : Text) (manifest : Text → Option Bool) where
  unfoldable pub sweep_releases : Option ℕ → List ℕ → List Release → State → State
  sweep_releases active excess [] s = s
  sweep_releases active excess (dep ∷ deps) s =
      sweep_releases active excess deps (sweep_release platform manifest excess dep active s)

  -- One round of the outer loop: `excess` is a slice of the sorted healthy releases, and the rounds
  -- of the inner loop are in the order of the collection.
  unfoldable pub sweep_project : ℕ → ℕ → Option Owner → List Release → State
  sweep_project plan_default project owner records =
      let excess = ids (drop (keep_of plan_default owner) (healthy_releases project records)) in
      sweep_releases (active_of owner) excess (keep_if (λ r. includes excess r.id) records)
        (record {
          records = records;
          removed_tags = [];
          removed_digests = [];
          deleted_digests = [];
          actions = [];
        })
