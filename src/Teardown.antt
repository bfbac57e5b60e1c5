-- ===== src/Teardown.antt =====
-- `handleDeleteProject` of apps/worker/src/jobs/delete-project.job.js: attempts to remove what a deleted
-- project leaves behind.
pub mod Loops
pub mod Complete
mod Tests
use hello_deploy.Prelude.{
  ℕ, ◌+◌, leb, Bool, true, false, ◌&&◌, not, if◌then◌else◌, Option, none, some, List, [], ◌∷◌,
  keep_if, Text, text_eq,
}
use hello_deploy.Contracts.Subdomains.{is_valid_subdomain_label}
use hello_deploy.Deployment.Registry.{is_platform_image_ref}

pub data TeardownStatus : Type 0 where
  pending failed done : TeardownStatus

-- What is to be removed, or is left after an attempt.
pub record Inventory : Type 0 where
  pub container_ids : List Text
  pub image_tags : List Text
  pub registry_image_refs : List Text
  pub subdomain : Option Text
  pub custom_domain_hostnames : List Text

pub data Resource : Type 0 where
  container image manifest network route domain_route : Text → Resource

-- The record of the teardown, and what was removed outside the database, newest first.
pub record Teardown : Type 0 where
  pub status : TeardownStatus
  pub remaining : Inventory
  pub attempts : ℕ
  pub removed : List Resource

pub record Settings : Type 0 where
  pub registry : Text
  pub nginx_enabled : Bool

-- One run of the job: which removals succeed, and its place among the queue's attempts.
pub record Attempt : Type 0 where
  pub removes : Resource → Bool
  pub project_slug : Option Text
  pub attempts_made : ℕ
  pub allowed : ℕ

-- `[...new Set(list)]`
unfoldable pub unique : List Text → List Text
unique [] = []
unique (x ∷ xs) = x ∷ keep_if (λ y. not (text_eq y x)) (unique xs)

-- A loop over one kind of resource: what is left of it, and what has been removed by then.
unfoldable pub remove_each :
    (Resource → Bool) → (Text → Resource) → List Text → List Resource → List Text × List Resource
remove_each removes kind [] removed = ([], removed)
remove_each removes kind (x ∷ xs) removed = elim (removes (kind x)) [
  | true ↦ remove_each removes kind xs (kind x ∷ removed)
  | false ↦ let (left, after) = remove_each removes kind xs removed in (x ∷ left, after)
]

abbrev pub platform_refs : Settings → Inventory → List Text
platform_refs w i = keep_if (is_platform_image_ref w.registry) (unique i.registry_image_refs)

abbrev pub hostnames : Settings → Inventory → List Text
hostnames w i = if w.nginx_enabled then unique i.custom_domain_hostnames else []

-- The subdomain, where its route is removed at all.
abbrev pub routed : Settings → Option Text → List Text
routed w none = []
routed w (some label) = if w.nginx_enabled && is_valid_subdomain_label label then label ∷ [] else []

abbrev pub first_of : List Text → Option Text
first_of [] = none
first_of (x ∷ xs) = some x

abbrev pub slugs : Option Text → List Text
slugs none = []
slugs (some slug) = slug ∷ []

abbrev pub has_none : List Text → Bool
has_none [] = true
has_none (x ∷ xs) = false

abbrev pub is_missing : Option Text → Bool
is_missing none = true
is_missing (some x) = false

-- `failures` is empty.
abbrev pub is_done : Inventory → List Text → Bool
is_done left networks =
    has_none left.container_ids
    && has_none left.image_tags
    && has_none left.registry_image_refs
    && is_missing left.subdomain
    && has_none left.custom_domain_hostnames
    && has_none networks

abbrev pub is_final_attempt : Attempt → Bool
is_final_attempt a = leb a.allowed (a.attempts_made + 1)

-- `recordTeardownAttempt`
abbrev pub status_after : Attempt → Bool → TeardownStatus
status_after a true = done
status_after a false = if is_final_attempt a then failed else pending

unfoldable pub tear_down : Settings → Attempt → Teardown → Teardown
unfolding remove_each unique
tear_down w a t =
    let (containers, r1) =
      remove_each a.removes container (unique t.remaining.container_ids) t.removed in
    let (images, r2) = remove_each a.removes image (unique t.remaining.image_tags) r1 in
    let (manifests, r3) = remove_each a.removes manifest (platform_refs w t.remaining) r2 in
    let (networks, r4) = remove_each a.removes network (slugs a.project_slug) r3 in
    let (labels, r5) = remove_each a.removes route (routed w t.remaining.subdomain) r4 in
    let (domains, r6) = remove_each a.removes domain_route (hostnames w t.remaining) r5 in
    let left : Inventory = record {
      container_ids = containers;
      image_tags = images;
      registry_image_refs = manifests;
      subdomain = first_of labels;
      custom_domain_hostnames = domains;
    } in
    record {
      status = status_after a (is_done left networks);
      remaining = left;
      attempts = t.attempts + 1;
      removed = r6;
    }

-- A teardown that is done is not started again.
unfoldable pub handle_delete_project : Settings → Attempt → Teardown → Teardown
unfolding tear_down
handle_delete_project w a t = elim t.status [ done ↦ t | _ ↦ tear_down w a t ]

unfoldable pub attempt_all : Settings → List Attempt → Teardown → Teardown
unfolding handle_delete_project
attempt_all w [] t = t
attempt_all w (a ∷ rest) t = attempt_all w rest (handle_delete_project w a t)
