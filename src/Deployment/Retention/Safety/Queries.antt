-- ===== src/Deployment/Retention/Safety/Queries.antt =====
-- The queries of apps/worker/src/deployment/retention.js about who uses an image, after a record of
-- a release to be cleaned was changed.
use mathlib.Core.List.{Memᴰ}
use hello_deploy.Prelude.{
  ℕ, ◌≡◌, refl, arith, true, false, ◌==◌, ==_iff, Bool-cases, inl, inr, Option, none, some, List,
  [], ◌∷◌, map, includes, includes-cons, ℕ_eq, beq_refl, Text, Text-eq,
}
use hello_deploy.Deployment.Retention.{
  Release, uses, is_image_tag_in_use, is_image_digest_in_use, forget_identity, drop_container, ids,
}

pub includes-ids :
    (dep : Release) (old : List Release) → Memᴰ dep old → includes (ids old) dep.id ≡ true
includes-ids dep [] m = elim m [ ]
includes-ids dep (x ∷ xs) (Memᴰ.head e) = ground (arith, beq_refl {A = ℕ} x.id)
includes-ids dep (x ∷ xs) (Memᴰ.tail m) = includes-cons x.id dep.id (ids xs) (includes-ids dep xs m)

uses_excluded :
    (field : Release → Option Text) (exclude : List ℕ) (t : Text) (r : Release)
    → includes exclude r.id ≡ true
    → uses field exclude t r ≡ false
uses_excluded field exclude t r x = rw x

-- Clearing the identity of an excluded record changes no query.
module _ (exclude : List ℕ) (id : ℕ) (x : includes exclude id ≡ true) where
  same_id : (r : Release) → (r.id == id) ≡ true → includes exclude r.id ≡ true
  same_id r e = rw ((==_iff r.id id).0 e) x

  pub tag_forgotten :
      (t : Text) (rs : List Release)
      → is_image_tag_in_use (map (forget_identity id) rs) t exclude
        ≡ is_image_tag_in_use rs t exclude
  unfolding is_image_tag_in_use
  tag_forgotten t [] = refl
  tag_forgotten t (r ∷ rs) = elim (Bool-cases (r.id == id)) [
    | inl e ↦ rw (e, same_id r e) (tag_forgotten t rs)
    | inr e ↦ rw (e, tag_forgotten t rs)
  ]

  pub digest_forgotten :
      (d : Option Text) (rs : List Release)
      → is_image_digest_in_use (map (forget_identity id) rs) d exclude
        ≡ is_image_digest_in_use rs d exclude
  unfolding is_image_digest_in_use
  digest_forgotten none rs = refl
  digest_forgotten (some t) [] = refl
  digest_forgotten (some t) (r ∷ rs) = elim (Bool-cases (r.id == id)) [
    | inl e ↦ rw (e, same_id r e) (digest_forgotten (some t) rs)
    | inr e ↦ rw (e, digest_forgotten (some t) rs)
  ]

-- Nor does clearing a container.
module _ (exclude : List ℕ) (id : ℕ) where
  pub tag_dropped :
      (t : Text) (rs : List Release)
      → is_image_tag_in_use (map (drop_container id) rs) t exclude
        ≡ is_image_tag_in_use rs t exclude
  unfolding is_image_tag_in_use
  tag_dropped t [] = refl
  tag_dropped t (r ∷ rs) = elim (Bool-cases (r.id == id)) [
    | inl e ↦ rw (e, tag_dropped t rs)
    | inr e ↦ rw (e, tag_dropped t rs)
  ]

  pub digest_dropped :
      (d : Option Text) (rs : List Release)
      → is_image_digest_in_use (map (drop_container id) rs) d exclude
        ≡ is_image_digest_in_use rs d exclude
  unfolding is_image_digest_in_use
  digest_dropped none rs = refl
  digest_dropped (some t) [] = refl
  digest_dropped (some t) (r ∷ rs) = elim (Bool-cases (r.id == id)) [
    | inl e ↦ rw (e, digest_dropped (some t) rs)
    | inr e ↦ rw (e, digest_dropped (some t) rs)
  ]
