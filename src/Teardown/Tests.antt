-- ===== src/Teardown/Tests.antt =====
-- Two attempts to remove one project.
use mathlib.Core.List.{Memᴰ}
use hello_deploy.Prelude.{
  ◌≡◌, ◌≢◌, refl, ◌⊎◌, Bool, true, false, none, List, [], ◌∷◌, Text, codes, text_eq,
}
use hello_deploy.Teardown.{
  Resource, Teardown, Settings, Attempt, unique, remove_each, tear_down, handle_delete_project,
  attempt_all, container, image, pending, done,
}
use hello_deploy.Teardown.Complete.{Owed, teardown_loses_nothing}

abbrev settings : Settings
settings = record { registry = codes "registry.test/apps"; nginx_enabled = true }

abbrev first : Text
first = codes "c1"

abbrev tag : Text
tag = codes "shop:1"

abbrev started : Teardown
started = record {
  status = pending;
  remaining = record {
    container_ids = first ∷ first ∷ [];
    image_tags = tag ∷ [];
    registry_image_refs = [];
    subdomain = none;
    custom_domain_hostnames = [];
  };
  attempts = 0;
  removed = [];
}

abbrev without_images : Resource → Bool
without_images (image x) = false
without_images r = true

abbrev attempts : List Attempt
attempts =
    record { removes = without_images; project_slug = none; attempts_made = 0; allowed = 3 }
    ∷ record { removes = λ r. true; project_slug = none; attempts_made = 1; allowed = 3 }
    ∷ []

two_attempts : attempt_all settings attempts started ≡ record {
  status = done;
  remaining = record {
    container_ids = [];
    image_tags = [];
    registry_image_refs = [];
    subdomain = none;
    custom_domain_hostnames = [];
  };
  attempts = 2;
  removed = image tag ∷ container first ∷ [];
}
unfolding attempt_all handle_delete_project tear_down remove_each unique text_eq
two_attempts = refl

teardown_loses_nothing_example :
    (let end = attempt_all settings attempts started in
      Memᴰ (image tag) end.removed
      ⊎ ((end.status ≢ done) × Owed settings end.remaining (image tag)))
teardown_loses_nothing_example =
    teardown_loses_nothing settings attempts started (image tag) refl refl (Memᴰ.head refl)
