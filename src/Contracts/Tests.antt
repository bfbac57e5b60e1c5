-- ===== src/Contracts/Tests.antt =====
-- The shared rules on small inputs.
use hello_deploy.Prelude.{
  ◌+◌, ◌≤◌, ◌<◌, ◌≡◌, ◌↔◌, ◌⊎◌, refl, true, false, if◌then◌else◌, none, some, [], ◌∷◌, all, any,
  length, includes, ℕ_eq, Text, codes, text_eq, starts_with, has_piece,
}
use hello_deploy.Contracts.Enums.{admin}
use hello_deploy.Contracts.Subdomains.{
  normalize_subdomain_label, is_valid_subdomain_label, is_label_character,
}
use hello_deploy.Contracts.Subdomains.Shape.{uncut, ends_in_hyphen, normalize_subdomain_label_lem}
use hello_deploy.Contracts.Strategies.{
  BuildStrategy-eq, next_export_v1, validate_application_root, split, is_dot, is_forbidden,
}
use hello_deploy.Contracts.Strategies.Roots.{follow, application_root_stays_below}
use hello_deploy.Contracts.Builder.{
  HostResourceSample, BuilderRuntimeFamily, get_builder_runtime_family, is_owner_image_strategy,
  BuilderSettings, is_administrator, evaluate_builder_eligibility,
}
use hello_deploy.Contracts.Builder.Rules.{eligible_iff}

abbrev name : Text
name = codes " My App! "

normalize_subdomain_label_lem_example :
    (length (normalize_subdomain_label name) ≤ 63)
    × (all is_label_character (normalize_subdomain_label name) ≡ true)
    × ((normalize_subdomain_label name ≡ [])
        ⊎ ((is_valid_subdomain_label (normalize_subdomain_label name) ≡ true)
            ⊎ ((ends_in_hyphen (normalize_subdomain_label name) ≡ true)
                × (63 < length (uncut name)))))
normalize_subdomain_label_lem_example = normalize_subdomain_label_lem name

abbrev root : Text
root = codes "apps/web"

application_root_stays_below_example :
    (1 ≤ length root)
    × (length root ≤ 255)
    × (any is_forbidden root ≡ false)
    × (follow 0 (split root) ≡ some (if is_dot root then 0 else 0 + length (split root)))
unfolding validate_application_root text_eq starts_with has_piece split
application_root_stays_below_example = application_root_stays_below root 0 refl

abbrev idle_host : HostResourceSample
idle_host = record {
  mem_available_mb = some 4000;
  swap_free_mb = none;
  swap_total_mb = some 0;
  memory_pressure_some60 = some 120;
  app_memory_pressure_full10 = some 700;
  builder_memory_pressure_full10 = none;
  disk_free_gb = some 80;
  store_free_gb = some 12;
}

abbrev settings : BuilderSettings
settings = record { runtimes = λ family. record { enabled = true; project_ids = 7 ∷ [] } }

eligible_iff_example :
    (evaluate_builder_eligibility next_export_v1 7 (some admin) settings ≡ none) ↔ (
      (is_owner_image_strategy next_export_v1 ≡ false)
      × ((get_builder_runtime_family next_export_v1 ≡ none)
          ⊎ ((family : BuilderRuntimeFamily) × (get_builder_runtime_family next_export_v1
                ≡ some family)
              × (is_administrator (some admin) ≡ true)
              × ((settings.runtimes family).enabled ≡ true)
              × (includes (settings.runtimes family).project_ids 7 ≡ true))))
eligible_iff_example = eligible_iff next_export_v1 7 (some admin) settings
