-- ===== src/Deployment/Cleanup/Active.antt =====
-- What the sweep of apps/worker/src/jobs/cleanup-releases.job.js leaves of the active release.
use mathlib.Core.List.{Memᴰ}
use hello_deploy.Prelude.{
  ℕ, ◌≡◌, ◌≢◌, arith, Bool, true, false, if◌then◌else◌, Bool-cases, Option-cases, inl, inr, Option,
  some, List, [], ◌∷◌, ==_iff, ◌==◌, ℕ_eq, Text,
}
use hello_deploy.Deployment.Retention.{
  Release, State, is_image_tag_in_use, clean_container, forget_container, clear_image_identity,
  forget_identity, drop_container, retire_registry_image,
}
use hello_deploy.Deployment.Retention.Rows.{mem-map_other}
use hello_deploy.Deployment.Cleanup.{
  Owner, sweep_tag, sweep_manifest, sweep_owner_copy, sweep_registry, sweep_release, sweep_releases,
  sweep_project,
}

module _ (platform : Text) (manifest : Text → Option Bool) (r : Release) (excess : List ℕ) where
  abbrev Stays : State → Type 0
  Stays s = Memᴰ r s.records

  either : (b : Bool) (x y : State) → Stays x → Stays y → Stays (if b then x else y)
  either true x y p q = p
  either false x y p q = q

  module _ (dep : Release) where
    clean_container-Stays : (s : State) → Stays s → Stays (clean_container dep s)
    unfolding clean_container
    clean_container-Stays s m = elim (Option-cases dep.active_container_id) [
      | inl e ↦ rw (e, clean_container) m
      | inr (c, e) ↦ rw (e, clean_container) m
    ]

    sweep_tag-Stays : (s : State) → Stays s → Stays (sweep_tag excess dep s)
    unfolding sweep_tag
    sweep_tag-Stays s m = elim (Option-cases dep.image_tag) [
      | inl e ↦ rw (e, sweep_tag) m
      | inr (t, e) ↦ rw (e, sweep_tag) (either (is_image_tag_in_use s.records t excess) _ _ m m)
    ]

    module _ (other : r.id ≢ dep.id) where
      retire-Stays :
          (t : Text) (s : State)
          → Stays s
          → Stays (retire_registry_image platform manifest dep.id t s).1
      unfolding retire_registry_image clear_image_identity
      retire-Stays t s m = elim (Option-cases (manifest t)) [
        | inl threw ↦ rw (threw, retire_registry_image) m
        | inr (true, e) ↦
            rw (e, retire_registry_image)
              (mem-map_other (forget_identity dep.id) s.records r (ground arith) m)
        | inr (false, e) ↦ rw (e, retire_registry_image) m
      ]

      sweep_registry-Stays :
          (s : State) → Stays s → Stays (sweep_registry platform manifest excess dep s)
      unfolding sweep_registry sweep_manifest sweep_owner_copy
      sweep_registry-Stays s m = elim (Option-cases dep.image_ref) [
        | inl e ↦ rw (e, sweep_registry) m
        | inr (t, e) ↦
            let swept = either _ _ _ (retire-Stays t s m) m in
            rw (e, sweep_registry) (either _ _ _ swept swept)
      ]

      sweep_other-Stays :
          (s : State)
          → Stays s
          → Stays (
              forget_container dep.id (
                sweep_registry platform manifest excess dep
                  (sweep_tag excess dep (clean_container dep s))))
      unfolding forget_container
      sweep_other-Stays s m =
          mem-map_other (drop_container dep.id) _ r (ground arith)
            (sweep_registry-Stays _ (sweep_tag-Stays _ (clean_container-Stays s m)))

    sweep_release-Stays :
        (s : State) → Stays s → Stays (sweep_release platform manifest excess dep (some r.id) s)
    unfolding sweep_release
    sweep_release-Stays s m = elim (Bool-cases (dep.id == r.id)) [
      | inl e ↦ rw e m
      | inr e ↦ rw e (sweep_other-Stays (ground (arith, e, ==_iff dep.id r.id)) s m)
    ]

  sweep_releases-Stays :
      (deps : List Release) (s : State)
      → Stays s
      → Stays (sweep_releases platform manifest (some r.id) excess deps s)
  unfolding sweep_releases
  sweep_releases-Stays [] s m = m
  sweep_releases-Stays (dep ∷ deps) s m =
      sweep_releases-Stays deps (sweep_release platform manifest excess dep (some r.id) s)
        (sweep_release-Stays dep s m)

-- The sweep of a project leaves the record of its active release as it was: its container, its
-- image and its status.
pub active_release_survives_sweep :
    (platform : Text) (manifest : Text → Option Bool) (plan_default project : ℕ) (owner : Owner)
    (records : List Release) (r : Release)
    → Memᴰ r records
    → owner.active_deployment_id ≡ some r.id
    → Memᴰ r (sweep_project platform manifest plan_default project (some owner) records).records
unfolding sweep_project
active_release_survives_sweep platform manifest plan_default project owner records r m e =
    rw e (sweep_releases-Stays platform manifest r _ _ _ m)
