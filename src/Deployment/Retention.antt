-- ===== src/Deployment/Retention.antt =====
-- apps/worker/src/deployment/retention.js: which old releases of a project lose their container
-- and image. What the code does outside the database is the log of its actions, newest first.
pub mod Safety
pub mod Kept
pub mod Rows
mod Tests
use hello_deploy.Prelude.{
  max, ℕ, suc, Bool, true, false, ◌&&◌, ◌||◌, is_some, not, leb, ◌==◌, if◌then◌else◌, Option, none,
  some, List, [], ◌∷◌, map, any, drop, keep_if, includes, ℕ_eq, Text, text_eq, Text-eq,
}
use hello_deploy.Contracts.Enums.{
  DeploymentStatus, DeploymentStatus-eq, queued, validating, building, deploying, healthy,
}
use hello_deploy.Deployment.Registry.{is_pinned, is_platform_registry_release}

-- What retention reads of a deployment document. A missing or empty field is `none`.
pub record Release : Type 0 where
  pub id : ℕ
  pub project_id : ℕ
  pub status : DeploymentStatus
  pub sequence_number : ℕ
  pub active_container_id : Option ℕ
  pub image_tag : Option Text
  pub image_ref : Option Text
  pub image_digest : Option Text

abbrev pub live_statuses : List DeploymentStatus
live_statuses = queued ∷ validating ∷ building ∷ deploying ∷ healthy ∷ []

pub data Action : Type 0 where
  stop_container : ℕ → Action
  remove_image delete_manifest : Text → Action
  clear_identity clear_container : ℕ → Action

-- The collection, the three sets of `cleanupOldReleases` and the log.
pub record State : Type 0 where
  pub records : List Release
  pub removed_tags : List Text
  pub removed_digests : List Text
  pub deleted_digests : List Text
  pub actions : List Action

abbrev pub names : Text → Option Text → Bool
names t none = false
names t (some u) = text_eq u t

-- The query of `isImageTagInUse` and `isImageDigestInUse`, on one document.
abbrev pub uses : (Release → Option Text) → List ℕ → Text → Release → Bool
uses field exclude t r =
    not (includes exclude r.id) && names t (field r) && includes live_statuses r.status

unfoldable pub is_image_tag_in_use : List Release → Text → List ℕ → Bool
is_image_tag_in_use records tag exclude = any (uses (λ r. r.image_tag) exclude tag) records

unfoldable pub is_image_digest_in_use : List Release → Option Text → List ℕ → Bool
is_image_digest_in_use records none exclude = false
is_image_digest_in_use records (some digest) exclude =
    any (uses (λ r. r.image_digest) exclude digest) records

abbrev pub forget_identity : ℕ → Release → Release
forget_identity id r =
    if r.id == id then record r { image_tag = none; image_ref = none; image_digest = none } else r

-- `clearImageIdentity`
unfoldable pub clear_image_identity : ℕ → State → State
clear_image_identity id s = record s {
  records = map (forget_identity id) s.records;
  actions = clear_identity id ∷ s.actions;
}

-- `set.has(dep.imageDigest)`: the sets hold no missing digest.
abbrev pub has_digest : List Text → Option Text → Bool
has_digest set none = false
has_digest set (some digest) = includes set digest

abbrev pub add_digest : Option Text → List Text → List Text
add_digest none set = set
add_digest (some digest) set = digest ∷ set

abbrev pub act : Action → State → State
act a s = record s { actions = a ∷ s.actions }

-- `if (dep.activeContainerId)`: an error of the stop is logged.
unfoldable pub clean_container : Release → State → State
clean_container dep s = elim dep.active_container_id [
  | none ↦ s
  | some container ↦ act (stop_container container) s
]

-- `if (dep.imageTag && !removedTags.has(dep.imageTag))`
pub clean_tag : List ℕ → Release → State → State
clean_tag exclude dep s = elim dep.image_tag [
  | none ↦ s
  | some tag ↦
      if includes s.removed_tags tag || is_image_tag_in_use s.records tag exclude
      then s
      else record s { removed_tags = tag ∷ s.removed_tags; actions = remove_image tag ∷ s.actions }
]

-- The `try` round `retireRegistryImage`.
abbrev pub after_retire : Option Text → Option Bool × State → State
after_retire digest (none, s) = s
after_retire digest (some false, s) = record s {
  removed_digests = add_digest digest s.removed_digests;
}
after_retire digest (some true, s) = record s {
  removed_digests = add_digest digest s.removed_digests;
  deleted_digests = add_digest digest s.deleted_digests;
}

abbrev pub drop_container : ℕ → Release → Release
drop_container id r = if r.id == id then record r { active_container_id = none } else r

-- `updateOne({_id}, {$set: {activeContainerId: null}})`
unfoldable pub forget_container : ℕ → State → State
forget_container id s = record s {
  records = map (drop_container id) s.records;
  actions = clear_container id ∷ s.actions;
}

-- The outside world: the platform's image repository, whether a container was stopped without an
-- error is not read by the code, and `deleteRegistryManifest`, `none` where it throws.
-- `removeDockerImage` resolves whatever Docker says, and the code drops its answer.
module _ (platform : Text) (manifest : Text → Option Bool) where
  -- `retireRegistryImage`: `none` where the deletion throws, and the rest is skipped.
  unfoldable pub retire_registry_image : ℕ → Text → State → Option Bool × State
  unfolding clear_image_identity
  retire_registry_image id image_ref s =
      let asked = act (delete_manifest image_ref) s in
      elim (manifest image_ref) [
        | none ↦ (none, asked)
        | some true ↦ (some true, clear_image_identity id (act (remove_image image_ref) asked))
        | some false ↦ (some false, act (remove_image image_ref) asked)
      ]

  -- The branch on `isPlatformRegistryRelease(dep)`, for a release with the reference `image_ref`.
  pub clean_manifest : List ℕ → Release → Text → State → State
  unfolding retire_registry_image clear_image_identity
  clean_manifest exclude dep image_ref s =
      if has_digest s.deleted_digests dep.image_digest
      then clear_image_identity dep.id s
      else if has_digest s.removed_digests dep.image_digest
          || is_image_digest_in_use s.records dep.image_digest exclude
      then s
      else after_retire dep.image_digest (retire_registry_image dep.id image_ref s)

  -- `removeOwnerImageCopy` and the set that its caller keeps.
  pub clean_owner_copy : List ℕ → Release → Text → State → State
  clean_owner_copy exclude dep image_ref s =
      if has_digest s.removed_digests dep.image_digest
        || not (is_some dep.image_digest)
        || not (is_pinned image_ref)
        || is_platform_registry_release platform dep.image_ref dep.image_digest
        || is_image_digest_in_use s.records dep.image_digest exclude
      then s
      else record s {
        removed_digests = add_digest dep.image_digest s.removed_digests;
        actions = remove_image image_ref ∷ s.actions;
      }

  pub clean_registry : List ℕ → Release → State → State
  clean_registry exclude dep s = elim dep.image_ref [
    | none ↦ s
    | some image_ref ↦ clean_owner_copy exclude dep image_ref (
        if is_platform_registry_release platform dep.image_ref dep.image_digest
        then clean_manifest exclude dep image_ref s
        else s)
  ]

  -- One round of the loop of `cleanupOldReleases`.
  pub clean_release : List ℕ → Release → State → State
  clean_release exclude dep s =
      forget_container dep.id
        (clean_registry exclude dep (clean_tag exclude dep (clean_container dep s)))

  pub clean_all : List ℕ → List Release → State → State
  clean_all exclude [] s = s
  clean_all exclude (dep ∷ deps) s = clean_all exclude deps (clean_release exclude dep s)

-- `.sort({sequenceNumber: -1})`
unfoldable pub insert_desc : Release → List Release → List Release
insert_desc r [] = r ∷ []
insert_desc r (x ∷ xs) =
    let rest = insert_desc r xs in
    if leb x.sequence_number r.sequence_number then r ∷ x ∷ xs else x ∷ rest

unfoldable pub sort_desc : List Release → List Release
sort_desc [] = []
sort_desc (r ∷ rs) = insert_desc r (sort_desc rs)

abbrev pub is_healthy_of : ℕ → Release → Bool
is_healthy_of project r = r.project_id == project && includes (healthy ∷ []) r.status

unfoldable pub healthy_releases : ℕ → List Release → List Release
unfolding sort_desc insert_desc
healthy_releases project records = sort_desc (keep_if (is_healthy_of project) records)

abbrev pub is_not : Option ℕ → Release → Bool
is_not none r = true
is_not (some id) r = not (r.id == id)

-- `healthy.slice(keep).filter((dep) => dep._id !== activeDeploymentId)`
unfoldable pub to_clean : ℕ → Option ℕ → ℕ → List Release → List Release
unfolding healthy_releases
to_clean project active keep records =
    keep_if (is_not active) (drop keep (healthy_releases project records))

-- `getReleaseKeepCount`, from the resolved quota.
unfoldable pub release_keep_count : ℕ → ℕ
release_keep_count max_rollback_releases = max 1 max_rollback_releases

abbrev pub ids : List Release → List ℕ
ids [] = []
ids (r ∷ rs) = r.id ∷ ids rs

-- `cleanupOldReleases`, for a project that exists: its active deployment and resolved quota.
module _ (platform : Text) (manifest : Text → Option Bool) where
  unfoldable pub cleanup_old_releases : ℕ → Option ℕ → ℕ → List Release → State
  unfolding to_clean release_keep_count
  cleanup_old_releases project active max_rollback_releases records =
      let old = to_clean project active (release_keep_count max_rollback_releases) records in
      clean_all platform manifest (ids old) old (record {
        records = records;
        removed_tags = [];
        removed_digests = [];
        deleted_digests = [];
        actions = [];
      })
