-- ===== src/Deployment/Retention/Tests.antt =====
-- Retention on three healthy releases of one project, two of which share an image.
use mathlib.Core.List.{Memᴰ}
use hello_deploy.Prelude.{
  ℕ, ◌≤◌, ◌≡◌, refl, Bool, true, Option, none, some, List, [], ◌∷◌, length, take, All, codes, Text,
}
use hello_deploy.Contracts.Enums.{healthy}
use hello_deploy.Deployment.Retention.{
  Release, cleanup_old_releases, to_clean, healthy_releases, sort_desc, insert_desc,
  release_keep_count, is_healthy_of, is_not,
}
use hello_deploy.Deployment.Retention.Safety.{Justified, cleanup_old_releases-Justified}
use hello_deploy.Deployment.Retention.Kept.{to_clean_old}

abbrev release : ℕ → Text → Release
release n tag = record {
  id = n;
  project_id = 7;
  status = healthy;
  sequence_number = n;
  active_container_id = some n;
  image_tag = some tag;
  image_ref = none;
  image_digest = none;
}

abbrev oldest : Release
oldest = release 1 (codes "app:1")

abbrev three : List Release
three = oldest ∷ release 2 (codes "app:2") ∷ release 3 (codes "app:2") ∷ []

abbrev platform : Text
platform = codes "registry/apps"

abbrev manifest : Text → Option Bool
manifest t = some true

cleaned : to_clean 7 (some 3) (release_keep_count 2) three ≡ oldest ∷ []
unfolding to_clean healthy_releases sort_desc insert_desc release_keep_count
cleaned = refl

cleanup_old_releases-Justified_example :
    All
      (Justified platform three (to_clean 7 (some 3) (release_keep_count 2) three))
      (cleanup_old_releases platform manifest 7 (some 3) 2 three).actions
cleanup_old_releases-Justified_example =
    cleanup_old_releases-Justified platform manifest 7 (some 3) 2 three

to_clean_old_example :
    (is_healthy_of 7 oldest ≡ true)
    × (is_not (some 3) oldest ≡ true)
    × (1 ≤ release_keep_count 2)
    × (2 ≤ release_keep_count 2)
    × (length (take (release_keep_count 2) (healthy_releases 7 three)) ≡ release_keep_count 2)
    × All
        (λ k. oldest.sequence_number ≤ k.sequence_number)
        (take (release_keep_count 2) (healthy_releases 7 three))
unfolding to_clean healthy_releases sort_desc insert_desc release_keep_count
to_clean_old_example = to_clean_old 7 (some 3) 2 three oldest (Memᴰ.head refl)
