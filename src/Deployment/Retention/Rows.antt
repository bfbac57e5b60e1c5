-- ===== src/Deployment/Retention/Rows.antt =====
-- Which database records `cleanupOldReleases` of apps/worker/src/deployment/retention.js may write.
use mathlib.Core.List.{Memᴰ}
use hello_deploy.Prelude.{
  sym, ℕ, ◌≡◌, ◌≢◌, refl, arith, Bool, true, false, ◌||◌, not, Bool-cases, Option-cases, inl, inr,
  Option, some, is_some, List, [], ◌∷◌, map, includes, ℕ_eq, Text, Text-eq, keep_if_mem, drop,
}
use hello_deploy.Deployment.Registry.{is_pinned, is_platform_registry_release}
use hello_deploy.Deployment.Retention.{
  Release, State, forget_identity, clear_image_identity, has_digest, is_image_digest_in_use,
  is_image_tag_in_use, retire_registry_image, clean_container, clean_tag, after_retire,
  clean_manifest, clean_owner_copy, clean_registry, drop_container, forget_container, clean_release,
  clean_all, ids, cleanup_old_releases, to_clean, release_keep_count, is_not, healthy_releases,
}

pub mem-map_other :
    (f : Release → Release) (rs : List Release) (r : Release)
    → f r ≡ r
    → Memᴰ r rs
    → Memᴰ r (map f rs)
mem-map_other f [] r e m = elim m [ ]
mem-map_other f (x ∷ xs) r e (Memᴰ.head q) = Memᴰ.head (rw (← q) (sym e))
mem-map_other f (x ∷ xs) r e (Memᴰ.tail m) = Memᴰ.tail (mem-map_other f xs r e m)

module _ (platform : Text) (manifest : Text → Option Bool) (r : Release) where
  abbrev Stays : State → Type 0
  Stays s = Memᴰ r s.records

  module _ (exclude : List ℕ) (dep : Release) (other : r.id ≢ dep.id) where
    clear_identity-Stays : (s : State) → Stays s → Stays (clear_image_identity dep.id s)
    unfolding clear_image_identity
    clear_identity-Stays s m = mem-map_other (forget_identity dep.id) s.records r (ground arith) m

    forget_container-Stays : (s : State) → Stays s → Stays (forget_container dep.id s)
    unfolding forget_container
    forget_container-Stays s m = mem-map_other (drop_container dep.id) s.records r (ground arith) m

    clean_container-Stays : (s : State) → Stays s → Stays (clean_container dep s)
    unfolding clean_container
    clean_container-Stays s m = elim (Option-cases dep.active_container_id) [
      | inl e ↦ rw (e, clean_container) m
      | inr (c, e) ↦ rw (e, clean_container) m
    ]

    clean_tag-Stays : (s : State) → Stays s → Stays (clean_tag exclude dep s)
    unfolding clean_tag
    clean_tag-Stays s m = elim (Option-cases dep.image_tag) [
      | inl e ↦ rw (e, clean_tag) m
      | inr (t, e) ↦
          elim (Bool-cases (includes s.removed_tags t || is_image_tag_in_use s.records t exclude)) [
            | inl kept ↦ rw (e, clean_tag) (rw kept m)
            | inr gone ↦ rw (e, clean_tag) (rw gone m)
          ]
    ]

    retire-Stays :
        (t : Text) (s : State)
        → Stays s
        → Stays (after_retire dep.image_digest (retire_registry_image platform manifest dep.id t s))
    unfolding retire_registry_image
    retire-Stays t s m = elim (Option-cases (manifest t)) [
      | inl threw ↦ rw (threw, retire_registry_image) m
      | inr (true, e) ↦ rw (e, retire_registry_image) (clear_identity-Stays s m)
      | inr (false, e) ↦ rw (e, retire_registry_image) m
    ]

    clean_manifest-Stays :
        (t : Text) (s : State) → Stays s → Stays (clean_manifest platform manifest exclude dep t s)
    unfolding clean_manifest
    clean_manifest-Stays t s m = elim (Bool-cases (has_digest s.deleted_digests dep.image_digest)) [
      | inl again ↦ rw again (clear_identity-Stays s m)
      | inr first ↦
          rw first
            (elim (Bool-cases (
              has_digest s.removed_digests dep.image_digest
              || is_image_digest_in_use s.records dep.image_digest exclude)) [
                | inl kept ↦ rw kept m
                | inr gone ↦ rw gone (retire-Stays t s m)
              ])
    ]

    clean_owner_copy-Stays :
        (t : Text) (s : State)
        → Stays s
        → Stays (clean_owner_copy platform manifest exclude dep t s)
    unfolding clean_owner_copy
    clean_owner_copy-Stays t s m =
        elim (Bool-cases (
          has_digest s.removed_digests dep.image_digest
          || not (is_some dep.image_digest)
          || not (is_pinned t)
          || is_platform_registry_release platform dep.image_ref dep.image_digest
          || is_image_digest_in_use s.records dep.image_digest exclude)) [
            | inl kept ↦ rw kept m
            | inr gone ↦ rw gone m
          ]

    clean_registry-Stays :
        (s : State) → Stays s → Stays (clean_registry platform manifest exclude dep s)
    unfolding clean_registry
    clean_registry-Stays s m = elim (Option-cases dep.image_ref) [
      | inl e ↦ rw (e, clean_registry) m
      | inr (t, e) ↦
          elim (Bool-cases (is_platform_registry_release platform dep.image_ref dep.image_digest)) [
            | inl own ↦
                simp (e, clean_registry)
                  (simp (rw e at own) (clean_owner_copy-Stays t _ (clean_manifest-Stays t s m)))
            | inr foreign ↦
                simp (e, clean_registry) (simp (rw e at foreign) (clean_owner_copy-Stays t _ m))
          ]
    ]

    clean_release-Stays :
        (s : State) → Stays s → Stays (clean_release platform manifest exclude dep s)
    unfolding clean_release
    clean_release-Stays s m =
        forget_container-Stays _
          (clean_registry-Stays _ (clean_tag-Stays _ (clean_container-Stays s m)))

  clean_all-Stays :
      (exclude : List ℕ) (deps : List Release) (s : State)
      → ((dep : Release) → Memᴰ dep deps → r.id ≢ dep.id)
      → Stays s
      → Stays (clean_all platform manifest exclude deps s)
  unfolding clean_all
  clean_all-Stays exclude [] s other m = m
  clean_all-Stays exclude (dep ∷ deps) s other m =
      clean_all-Stays exclude deps (clean_release platform manifest exclude dep s)
        (λ d n. other d (Memᴰ.tail n))
        (clean_release-Stays exclude dep (other dep (Memᴰ.head refl)) s m)

-- The record of the project's active deployment is in the collection afterwards as it was before:
-- its container, its image and its status.
pub active_record_stays :
    (platform : Text) (manifest : Text → Option Bool) (project active quota : ℕ)
    (records : List Release) (r : Release)
    → Memᴰ r records
    → r.id ≡ active
    → Memᴰ r (cleanup_old_releases platform manifest project (some active) quota records).records
unfolding cleanup_old_releases
active_record_stays platform manifest project active quota records r m e =
    clean_all-Stays platform manifest r (ids old) old _ apart m
  where
    old : List Release
    old = to_clean project (some active) (release_keep_count quota) records

    apart : (dep : Release) → Memᴰ dep old → r.id ≢ dep.id
    apart dep n q =
        let (_, p) =
          keep_if_mem (is_not (some active))
            (drop (release_keep_count quota) (healthy_releases project records))
            (unfold to_clean in n) in
        ground arith
