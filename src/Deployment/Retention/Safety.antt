-- ===== src/Deployment/Retention/Safety.antt =====
-- What `cleanupOldReleases` of apps/worker/src/deployment/retention.js does outside the database,
-- against the records that it started from.
pub mod Queries
use mathlib.Core.List.{Memᴰ}
use hello_deploy.Prelude.{
  ◌∙◌, sym, ℕ, ◌≡◌, refl, arith, Bool, true, false, ◌||◌, not, ◌==◌, ==_iff, Bool-cases,
  Option-cases, inl, inr, Option, none, some, is_some, List, [], ◌∷◌, map, includes, includes-cons,
  ℕ_eq, beq_refl, All, Text, Text-eq,
}
use hello_deploy.Deployment.Registry.{is_pinned, is_platform_registry_release}
use hello_deploy.Deployment.Retention.{
  Release, Action, stop_container, remove_image, delete_manifest, clear_identity, clear_container,
  State, uses, is_image_tag_in_use, is_image_digest_in_use, forget_identity, clear_image_identity,
  has_digest, act, retire_registry_image, clean_container, clean_tag, after_retire, clean_manifest,
  clean_owner_copy, clean_registry, drop_container, forget_container, clean_release, clean_all, ids,
  cleanup_old_releases, to_clean, release_keep_count,
}
use hello_deploy.Deployment.Retention.Safety.Queries.{
  includes-ids, tag_forgotten, digest_forgotten, tag_dropped, digest_dropped,
}

last_test : (a b c d e : Bool) → (a || b || c || d || e) ≡ false → e ≡ false
last_test false false false false e h = h
last_test true b c d e h = cc
last_test _ b c d e h = ground arith

module _ (platform : Text) (records old : List Release) where
  -- Why an action may be taken: it is about a release to be cleaned, and an image that no live
  -- record outside the cleaned ones names.
  pub data Justified : Action → Type 0 where
    of_container :
        (dep : Release) (c : ℕ)
        → Memᴰ dep old
        → dep.active_container_id ≡ some c
        → Justified (stop_container c)
    of_tag :
        (dep : Release) (t : Text)
        → Memᴰ dep old
        → dep.image_tag ≡ some t
        → is_image_tag_in_use records t (ids old) ≡ false
        → Justified (remove_image t)
    of_digest :
        (dep : Release) (t : Text)
        → Memᴰ dep old
        → dep.image_ref ≡ some t
        → is_image_digest_in_use records dep.image_digest (ids old) ≡ false
        → Justified (remove_image t)
    of_manifest :
        (dep : Release) (t : Text)
        → Memᴰ dep old
        → dep.image_ref ≡ some t
        → is_image_digest_in_use records dep.image_digest (ids old) ≡ false
        → is_platform_registry_release platform dep.image_ref dep.image_digest ≡ true
        → Justified (delete_manifest t)
    of_identity : (dep : Release) → Memᴰ dep old → Justified (clear_identity dep.id)
    of_row : (dep : Release) → Memᴰ dep old → Justified (clear_container dep.id)

  -- The queries answer as they did at the start, and all actions so far were justified.
  record Inv (s : State) : Type 0 where
    tags :
        (t : Text)
        → is_image_tag_in_use s.records t (ids old) ≡ is_image_tag_in_use records t (ids old)
    digests :
        (d : Option Text)
        → is_image_digest_in_use s.records d (ids old) ≡ is_image_digest_in_use records d (ids old)
    log : All Justified s.actions

  module _ (manifest : Text → Option Bool) (dep : Release) (m : Memᴰ dep old) where
    clean_container-Inv : (s : State) → Inv s → Inv (clean_container dep s)
    unfolding clean_container
    clean_container-Inv s h = elim (Option-cases dep.active_container_id) [
      | inl e ↦ rw (e, clean_container) h
      | inr (c, e) ↦
          rw (e, clean_container)
            (record { tags = h.tags; digests = h.digests; log = (of_container dep c m e, h.log) })
    ]

    clean_tag-Inv : (s : State) → Inv s → Inv (clean_tag (ids old) dep s)
    unfolding clean_tag
    clean_tag-Inv s h = elim (Option-cases dep.image_tag) [
      | inl e ↦ rw (e, clean_tag) h
      | inr (t, e) ↦
          elim (Bool-cases
            (includes s.removed_tags t || is_image_tag_in_use s.records t (ids old))) [
              | inl kept ↦ rw (e, clean_tag) (rw kept h)
              | inr gone ↦
                  rw (e, clean_tag)
                    (rw gone (record {
                      tags = h.tags;
                      digests = h.digests;
                      log = (of_tag dep t m e (ground (arith, h.tags t)), h.log);
                    }))
            ]
    ]

    clear_identity-Inv : (s : State) → Inv s → Inv (clear_image_identity dep.id s)
    unfolding clear_image_identity
    clear_identity-Inv s h =
        let x = includes-ids dep old m in
        record {
          tags = λ t. tag_forgotten (ids old) dep.id x t s.records ∙ h.tags t;
          digests = λ d. digest_forgotten (ids old) dep.id x d s.records ∙ h.digests d;
          log = (of_identity dep m, h.log);
        }

    forget_container-Inv : (s : State) → Inv s → Inv (forget_container dep.id s)
    unfolding forget_container
    forget_container-Inv s h = record {
      tags = λ t. tag_dropped (ids old) dep.id t s.records ∙ h.tags t;
      digests = λ d. digest_dropped (ids old) dep.id d s.records ∙ h.digests d;
      log = (of_row dep m, h.log);
    }

    logged : (a : Action) (s : State) → Justified a → Inv s → Inv (act a s)
    logged a s j h = record { tags = h.tags; digests = h.digests; log = (j, h.log) }

    -- The sets of removed and deleted digests play no part in the invariant.
    with_sets :
        (removed deleted : List Text) (s : State)
        → Inv s
        → Inv (record s { removed_digests = removed; deleted_digests = deleted })
    with_sets removed deleted s h = record { tags = h.tags; digests = h.digests; log = h.log }

    retire-Inv :
        (image_ref : Text) (s : State)
        → dep.image_ref ≡ some image_ref
        → is_platform_registry_release platform dep.image_ref dep.image_digest ≡ true
        → is_image_digest_in_use records dep.image_digest (ids old) ≡ false
        → Inv s
        → Inv (
            after_retire dep.image_digest
              (retire_registry_image platform manifest dep.id image_ref s))
    unfolding retire_registry_image
    retire-Inv image_ref s e own free h =
        let asked =
          logged (delete_manifest image_ref) s (of_manifest dep image_ref m e free own) h in
        let removed =
          logged (remove_image image_ref) (act (delete_manifest image_ref) s)
            (of_digest dep image_ref m e free) asked in
        elim (Option-cases (manifest image_ref)) [
          | inl threw ↦ rw (threw, retire_registry_image) asked
          | inr (true, done) ↦
              rw (done, retire_registry_image) (with_sets _ _ _ (clear_identity-Inv _ removed))
          | inr (false, left) ↦ rw (left, retire_registry_image) (with_sets _ _ _ removed)
        ]

    clean_manifest-Inv :
        (image_ref : Text) (s : State)
        → dep.image_ref ≡ some image_ref
        → is_platform_registry_release platform dep.image_ref dep.image_digest ≡ true
        → Inv s
        → Inv (clean_manifest platform manifest (ids old) dep image_ref s)
    unfolding clean_manifest
    clean_manifest-Inv image_ref s e own h =
        elim (Bool-cases (has_digest s.deleted_digests dep.image_digest)) [
          | inl again ↦ rw again (clear_identity-Inv s h)
          | inr first ↦
              rw first
                (elim (Bool-cases (
                  has_digest s.removed_digests dep.image_digest
                  || is_image_digest_in_use s.records dep.image_digest (ids old))) [
                    | inl kept ↦ rw kept h
                    | inr gone ↦ rw gone (
                        retire-Inv image_ref s e own (ground (arith, h.digests dep.image_digest)) h)
                  ])
        ]

    clean_owner_copy-Inv :
        (image_ref : Text) (s : State)
        → dep.image_ref ≡ some image_ref
        → Inv s
        → Inv (clean_owner_copy platform manifest (ids old) dep image_ref s)
    unfolding clean_owner_copy
    clean_owner_copy-Inv image_ref s e h =
        elim (Bool-cases (
          has_digest s.removed_digests dep.image_digest
          || not (is_some dep.image_digest)
          || not (is_pinned image_ref)
          || is_platform_registry_release platform dep.image_ref dep.image_digest
          || is_image_digest_in_use s.records dep.image_digest (ids old))) [
            | inl kept ↦ rw kept h
            | inr gone ↦ rw gone (
                with_sets _ s.deleted_digests _ (
                  logged (remove_image image_ref) s
                    (of_digest dep image_ref m e (
                      sym (h.digests dep.image_digest)
                      ∙ last_test (has_digest s.removed_digests dep.image_digest)
                          (not (is_some dep.image_digest)) (not (is_pinned image_ref))
                          (is_platform_registry_release platform dep.image_ref dep.image_digest) _
                          gone))
                    h))
          ]

    clean_registry-Inv :
        (s : State) → Inv s → Inv (clean_registry platform manifest (ids old) dep s)
    unfolding clean_registry
    clean_registry-Inv s h = elim (Option-cases dep.image_ref) [
      | inl e ↦ rw (e, clean_registry) h
      | inr (t, e) ↦
          elim (Bool-cases (is_platform_registry_release platform dep.image_ref dep.image_digest)) [
            | inl own ↦
                simp (e, clean_registry)
                  (simp (rw e at own) (clean_owner_copy-Inv t _ e (clean_manifest-Inv t s e own h)))
            | inr foreign ↦
                simp (e, clean_registry) (simp (rw e at foreign) (clean_owner_copy-Inv t _ e h))
          ]
    ]

    clean_release-Inv : (s : State) → Inv s → Inv (clean_release platform manifest (ids old) dep s)
    unfolding clean_release
    clean_release-Inv s h =
        forget_container-Inv _ (clean_registry-Inv _ (clean_tag-Inv _ (clean_container-Inv s h)))

  clean_all-Inv :
      (manifest : Text → Option Bool) (deps : List Release) (s : State)
      → ((dep : Release) → Memᴰ dep deps → Memᴰ dep old)
      → Inv s
      → Inv (clean_all platform manifest (ids old) deps s)
  unfolding clean_all
  clean_all-Inv manifest [] s sub h = h
  clean_all-Inv manifest (dep ∷ deps) s sub h =
      clean_all-Inv manifest deps (clean_release platform manifest (ids old) dep s)
        (λ d m. sub d (Memᴰ.tail m)) (clean_release-Inv manifest dep (sub dep (Memᴰ.head refl)) s h)

-- Every action of retention is about a release that it cleans: it stops only such a release's
-- container, it removes an image by a tag or a digest that no live record outside the cleaned ones
-- named at the start, and it deletes a manifest only in the platform's own registry and on the
-- same condition.
pub cleanup_old_releases-Justified :
    (platform : Text) (manifest : Text → Option Bool) (project : ℕ) (active : Option ℕ) (quota : ℕ)
    (records : List Release)
    → All
        (Justified platform records (to_clean project active (release_keep_count quota) records))
        (cleanup_old_releases platform manifest project active quota records).actions
unfolding cleanup_old_releases
cleanup_old_releases-Justified platform manifest project active quota records =
    (clean_all-Inv platform records (to_clean project active (release_keep_count quota) records)
      manifest (to_clean project active (release_keep_count quota) records) _ (λ d m. m)
      (record { tags = λ t. refl; digests = λ d. refl; log = tt })).log
