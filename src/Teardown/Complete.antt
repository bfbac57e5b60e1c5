-- ===== src/Teardown/Complete.antt =====
-- Nothing is lost between the attempts of apps/worker/src/jobs/delete-project.job.js.
use mathlib.Core.Path.{subst}
use mathlib.Core.List.{Memᴰ}
use hello_deploy.Prelude.{
  ◌≡◌, ◌≢◌, refl, sym, ◌∙◌, ap, arith, Bool, true, false, ◌&&◌, if◌then◌else◌, ◌⊎◌, inl, inr,
  Option, none, some, List, [], ◌∷◌, Text,
}
use hello_deploy.Contracts.Subdomains.{is_valid_subdomain_label}
use hello_deploy.Deployment.Registry.{is_platform_image_ref}
use hello_deploy.Teardown.{
  TeardownStatus, Inventory, Resource, Teardown, Settings, Attempt, unique, remove_each,
  platform_refs, hostnames, routed, slugs, has_none, is_done, is_missing, status_after,
  is_final_attempt, tear_down, handle_delete_project, attempt_all, container, image, manifest,
  network, route, domain_route, pending, failed, done,
}
use hello_deploy.Teardown.Loops.{
  keep_if-passing, unique_mem, remove_each_keeps, remove_each_mem, remove_one,
}

-- What the job has to remove of an inventory.
abbrev pub Owed : Settings → Inventory → Resource → Type 0
Owed w i (container x) = Memᴰ x i.container_ids
Owed w i (image x) = Memᴰ x i.image_tags
Owed w i (manifest x) = Memᴰ x i.registry_image_refs × (is_platform_image_ref w.registry x ≡ true)
Owed w i (network x) = ⊥
Owed w i (route x) = (i.subdomain ≡ some x) × (is_valid_subdomain_label x ≡ true)
Owed w i (domain_route x) = Memᴰ x i.custom_domain_hostnames

module _ (w : Settings) (a : Attempt) (t : Teardown) where
  abbrev pub domains_from : List Resource → List Resource
  domains_from l = (remove_each a.removes domain_route (hostnames w t.remaining) l).1

  abbrev pub routes_from : List Resource → List Resource
  routes_from l = domains_from (remove_each a.removes route (routed w t.remaining.subdomain) l).1

  abbrev pub networks_from : List Resource → List Resource
  networks_from l = routes_from (remove_each a.removes network (slugs a.project_slug) l).1

  abbrev pub manifests_from : List Resource → List Resource
  manifests_from l =
      networks_from (remove_each a.removes manifest (platform_refs w t.remaining) l).1

  abbrev pub images_from : List Resource → List Resource
  images_from l = manifests_from (remove_each a.removes image (unique t.remaining.image_tags) l).1

  -- The loops that follow keep what has been removed.
  module _ {r : Resource} (l : List Resource) (m : Memᴰ r l) where
    after_domains : Memᴰ r (domains_from l)
    after_domains = remove_each_keeps a.removes domain_route (hostnames w t.remaining) l m

    after_routes : Memᴰ r (routes_from l)
    after_routes =
        remove_each_keeps a.removes domain_route (hostnames w t.remaining) _
          (remove_each_keeps a.removes route (routed w t.remaining.subdomain) l m)

  after_networks : {r : Resource} (l : List Resource) → Memᴰ r l → Memᴰ r (networks_from l)
  after_networks l m =
      after_routes _ (remove_each_keeps a.removes network (slugs a.project_slug) l m)

  after_manifests : {r : Resource} (l : List Resource) → Memᴰ r l → Memᴰ r (manifests_from l)
  after_manifests l m =
      after_networks _ (remove_each_keeps a.removes manifest (platform_refs w t.remaining) l m)

  after_images : {r : Resource} (l : List Resource) → Memᴰ r l → Memᴰ r (images_from l)
  after_images l m =
      after_manifests _ (remove_each_keeps a.removes image (unique t.remaining.image_tags) l m)

  after_containers : {r : Resource} → Memᴰ r t.removed → Memᴰ r (tear_down w a t).removed
  unfolding tear_down
  after_containers m =
      after_images _
        (remove_each_keeps a.removes container (unique t.remaining.container_ids) t.removed m)

  in_hostnames :
      {x : Text}
      → w.nginx_enabled ≡ true
      → Memᴰ x t.remaining.custom_domain_hostnames
      → Memᴰ x (hostnames w t.remaining)
  in_hostnames n m = rw n (unique_mem t.remaining.custom_domain_hostnames m)

  -- What an attempt had to remove, it has removed, or the next has to.
  tear_down_accounts :
      (r : Resource)
      → w.nginx_enabled ≡ true
      → Owed w t.remaining r
      → Memᴰ r (tear_down w a t).removed ⊎ Owed w (tear_down w a t).remaining r
  unfolding tear_down
  tear_down_accounts (container x) n m =
      elim (remove_each_mem a.removes container _ _ (unique_mem _ m)) [
        | inl k ↦ inl (after_images _ k)
        | inr k ↦ inr k
      ]
  tear_down_accounts (image x) n m = elim (remove_each_mem a.removes image _ _ (unique_mem _ m)) [
    | inl k ↦ inl (after_manifests _ k)
    | inr k ↦ inr k
  ]
  tear_down_accounts (manifest x) n (m, p) =
      elim (remove_each_mem a.removes manifest _ _ (keep_if-passing _ _ (unique_mem _ m) p)) [
        | inl k ↦ inl (after_networks _ k)
        | inr k ↦ inr (k, p)
      ]
  tear_down_accounts (network x) n m = elim m [ ]
  tear_down_accounts (route x) n (e, c) =
      elim (remove_one a.removes route _ _ x (ap (routed w) e ∙ rw (n, c) refl)) [
        | inl k ↦ inl (after_domains _ k)
        | inr k ↦ inr (k, c)
      ]
  tear_down_accounts (domain_route x) n m =
      elim (remove_each_mem a.removes domain_route (hostnames w t.remaining) _ (in_hostnames n m)) [
        | inl k ↦ inl k
        | inr k ↦ inr k
      ]

none_missing : (xs : List Text) {x : Text} → has_none xs ≡ true → Memᴰ x xs → ⊥
none_missing [] e m = elim m [ ]
none_missing (y ∷ ys) e m = cc

all_true :
    (a b c d f g : Bool)
    → (a && b && c && d && f && g) ≡ true
    → (a ≡ true) × (b ≡ true) × (c ≡ true) × (d ≡ true) × (f ≡ true)
all_true a b c d f g e = ground (arith, e)

owes_nothing :
    (w : Settings) (left : Inventory) (networks : List Text) (r : Resource)
    → is_done left networks ≡ true
    → Owed w left r
    → ⊥
owes_nothing w left networks r e m =
    by_kind r
      (all_true (has_none left.container_ids) (has_none left.image_tags)
        (has_none left.registry_image_refs) (is_missing left.subdomain)
        (has_none left.custom_domain_hostnames) (has_none networks) e)
      m
  where
    missing : (o : Option Text) (x : Text) → is_missing o ≡ true → o ≡ some x → ⊥
    missing none x e f = cc
    missing (some y) x e f = cc

    by_kind :
        (r : Resource)
        → (has_none left.container_ids ≡ true)
          × (has_none left.image_tags ≡ true)
          × (has_none left.registry_image_refs ≡ true)
          × (is_missing left.subdomain ≡ true)
          × (has_none left.custom_domain_hostnames ≡ true)
        → Owed w left r
        → ⊥
    by_kind (container x) h m = none_missing left.container_ids h.0 m
    by_kind (image x) h m = none_missing left.image_tags h.1 m
    by_kind (manifest x) h m = none_missing left.registry_image_refs h.2 m.0
    by_kind (network x) h m = m
    by_kind (route x) h m = missing left.subdomain x h.3 m.0
    by_kind (domain_route x) h m = none_missing left.custom_domain_hostnames h.4 m

status_after-done : (a : Attempt) (b : Bool) → status_after a b ≡ done → b ≡ true
status_after-done a true e = refl
status_after-done a false e = by_final (is_final_attempt a) e
  where
    by_final : (f : Bool) → (if f then failed else pending) ≡ done → false ≡ true
    by_final true e = cc
    by_final false e = cc

-- A teardown that is done has nothing left to remove.
abbrev pub IsSettled : Settings → Teardown → Type 0
IsSettled w t = t.status ≡ done → (r : Resource) → Owed w t.remaining r → ⊥

tear_down-IsSettled : (w : Settings) (a : Attempt) (t : Teardown) → IsSettled w (tear_down w a t)
unfolding tear_down
tear_down-IsSettled w a t e r m = owes_nothing w _ _ r (status_after-done a _ e) m

handle_cases :
    (w : Settings) (a : Attempt) (t : Teardown)
    → (handle_delete_project w a t ≡ tear_down w a t) ⊎ (handle_delete_project w a t ≡ t)
unfolding handle_delete_project
handle_cases w a t = by_status t.status
  where
    by_status :
        (st : TeardownStatus)
        → ((elim st [ done ↦ t | _ ↦ tear_down w a t ]) ≡ tear_down w a t)
          ⊎ ((elim st [ done ↦ t | _ ↦ tear_down w a t ]) ≡ t)
    by_status pending = inl refl
    by_status failed = inl refl
    by_status done = inr refl

attempt_all_keeps :
    (w : Settings) (rest : List Attempt) (t : Teardown) (r : Resource)
    → Memᴰ r t.removed
    → Memᴰ r (attempt_all w rest t).removed
unfolding attempt_all
attempt_all_keeps w [] t r m = m
attempt_all_keeps w (a ∷ rest) t r m =
    attempt_all_keeps w rest (handle_delete_project w a t) r (elim (handle_cases w a t) [
      | inl e ↦ subst (λ u. Memᴰ r u.removed) (sym e) (after_containers w a t m)
      | inr e ↦ subst (λ u. Memᴰ r u.removed) (sym e) m
    ])

-- What is owed at the start of attempts that may go on is removed in the end, or still owed by a
-- teardown that is not done.
accounted :
    (w : Settings) (rest : List Attempt) (t : Teardown) (r : Resource)
    → w.nginx_enabled ≡ true
    → IsSettled w t
    → Owed w t.remaining r
    → (let end = attempt_all w rest t in
        Memᴰ r end.removed ⊎ ((end.status ≢ done) × Owed w end.remaining r))
unfolding attempt_all
accounted w [] t r n h m = inr ((λ e. h e r m), m)
accounted w (a ∷ rest) t r n h m =
    let u = handle_delete_project w a t in
    let (settled, k) = step u (handle_cases w a t) in
    elim k [
      | inl k ↦ inl (attempt_all_keeps w rest u r k)
      | inr k ↦ accounted w rest u r n settled k
    ]
  where
    step :
        (u : Teardown)
        → (u ≡ tear_down w a t) ⊎ (u ≡ t)
        → IsSettled w u × (Memᴰ r u.removed ⊎ Owed w u.remaining r)
    step u (inl e) =
        subst (λ u. IsSettled w u × (Memᴰ r u.removed ⊎ Owed w u.remaining r)) (sym e)
          (tear_down-IsSettled w a t, tear_down_accounts w a t r n m)
    step u (inr e) =
        subst (λ u. IsSettled w u × (Memᴰ r u.removed ⊎ Owed w u.remaining r)) (sym e) (h, inr m)

-- For a teardown that is pending, with nginx enabled and one registry throughout: after any attempts,
-- whatever they manage to remove, each container, image, manifest of the platform's registry, route
-- of a valid subdomain and route of a domain in its inventory has been removed, or the teardown is not
-- done and still has it to remove.
pub teardown_loses_nothing :
    (w : Settings) (rest : List Attempt) (t : Teardown) (r : Resource)
    → w.nginx_enabled ≡ true
    → t.status ≡ pending
    → Owed w t.remaining r
    → (let end = attempt_all w rest t in
        Memᴰ r end.removed ⊎ ((end.status ≢ done) × Owed w end.remaining r))
teardown_loses_nothing w rest t r n p m = accounted w rest t r n settled m
  where
    not_done : pending ≡ done → ⊥
    not_done e = cc

    settled : IsSettled w t
    settled e q m = not_done (sym p ∙ e)
