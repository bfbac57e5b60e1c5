-- ===== src/Monitoring/Containers/Active.antt =====
-- Which containers apps/worker/src/monitoring/classify.js takes for a project's active release.
use mathlib.Core.List.{Memᴰ}
use hello_deploy.Prelude.{
  ◌≡◌, ◌≢◌, refl, sym, ap, ◌∙◌, arith, ◌⊎◌, inl, inr, Bool, true, false, Bool-cases, Option, none,
  some, or_else, List, [], ◌∷◌, includes, includes_inv, All, All-at, String, string_eq, ◌=?◌,
}
use hello_deploy.Monitoring.Containers.{
  Container, ProjectRecord, DeploymentRecord, active, find_project, names, is_active_deployment,
  is_live, add_if, active_container_ids, role_of,
}

abbrev pub HasUniqueIds : List DeploymentRecord → Type 0
HasUniqueIds [] = Unit
HasUniqueIds (d ∷ ds) = All (λ x. x.id ≢ d.id) ds × HasUniqueIds ds

same_record :
    (ds : List DeploymentRecord) (d d' : DeploymentRecord)
    → HasUniqueIds ds
    → Memᴰ d ds
    → Memᴰ d' ds
    → d.id ≡ d'.id
    → d ≡ d'
same_record [] d d' u m n e = elim m [ ]
same_record (x ∷ ds) d d' (a, u) (Memᴰ.head p) (Memᴰ.head q) e = p ∙ sym q
same_record (x ∷ ds) d d' (a, u) (Memᴰ.head p) (Memᴰ.tail n) e =
    absurd (All-at (λ y. y.id ≢ x.id) ds a n (sym e ∙ ap (λ y. y.id) p))
same_record (x ∷ ds) d d' (a, u) (Memᴰ.tail m) (Memᴰ.head q) e =
    absurd (All-at (λ y. y.id ≢ x.id) ds a m (e ∙ ap (λ y. y.id) q))
same_record (x ∷ ds) d d' (a, u) (Memᴰ.tail m) (Memᴰ.tail n) e = same_record ds d d' u m n e

-- A deployment that makes a container active.
abbrev pub Serves : List ProjectRecord → List DeploymentRecord → String → DeploymentRecord → Type 0
Serves projects ds id d =
    Memᴰ d ds × (d.active_container_id ≡ some id) × (is_live projects d ≡ true)

includes-active :
    (projects : List ProjectRecord) (ds : List DeploymentRecord) (id : String)
    → includes (active_container_ids projects ds) id ≡ true
    → (d : DeploymentRecord) × Serves projects ds id d
unfolding active_container_ids
includes-active projects [] id h = absurd (ground arith)
includes-active projects (d ∷ ds) id h =
    by_cases (includes-active projects ds id) (is_live projects d) d.active_container_id refl refl h
  where
    by_cases :
        (includes (active_container_ids projects ds) id ≡ true
          → (x : DeploymentRecord) × Serves projects ds id x)
        → (b : Bool) (o : Option String) → is_live projects d ≡ b
        → d.active_container_id ≡ o
        → includes (add_if b o (active_container_ids projects ds)) id ≡ true
        → (x : DeploymentRecord) × Serves projects (d ∷ ds) id x
    by_cases later true (some c) l a k =
        elim (includes_inv c id (active_container_ids projects ds) k) [
          | inl e ↦ (d, (Memᴰ.head refl, a ∙ ap some e, l))
          | inr r ↦ let (x, (m, b, v)) = later r in (x, (Memᴰ.tail m, b, v))
        ]
    by_cases later true none l a k = let (x, (m, b, v)) = later k in (x, (Memᴰ.tail m, b, v))
    by_cases later false o l a k = let (x, (m, b, v)) = later k in (x, (Memᴰ.tail m, b, v))

-- The deployment that a live record names is its project's active one.
live_same :
    (projects : List ProjectRecord) (d d' : DeploymentRecord)
    → d.project_id ≡ d'.project_id
    → is_live projects d ≡ true
    → is_live projects d' ≡ true
    → d.id ≡ d'.id
live_same projects d d' e l l' =
    one_active (find_project d.project_id projects) l
      (ap (λ i. is_active_deployment (find_project i projects) d'.id) e ∙ l')
  where
    one_active :
        (o : Option ProjectRecord)
        → is_active_deployment o d.id ≡ true
        → is_active_deployment o d'.id ≡ true
        → d.id ≡ d'.id
    one_active none a b = absurd (ground arith)
    one_active (some p) a b = named p.active_deployment_id a b
      where
        named : (o : Option String) → names o d.id ≡ true → names o d'.id ≡ true → d.id ≡ d'.id
        named none a b = absurd (ground arith)
        named (some s) a b = sym ((string_eq.beq_iff s d.id).0 a) ∙ (string_eq.beq_iff s d'.id).0 b

role_of-active :
    (projects : List ProjectRecord) (ds : List DeploymentRecord) (c : Container)
    → role_of projects ds c ≡ active
    → (c.is_managed ≡ true) × (includes (active_container_ids projects ds) c.id ≡ true)
unfolding role_of
role_of-active projects ds c h = ground arith

-- With unique deployment ids, an active container is managed and is the container of a deployment
-- that is its project's active one, and no other container is active for the same project.
pub active_container_unique :
    (projects : List ProjectRecord) (ds : List DeploymentRecord) (c c' : Container)
    → HasUniqueIds ds
    → role_of projects ds c ≡ active
    → role_of projects ds c' ≡ active
    → (c.is_managed ≡ true)
      × ((d : DeploymentRecord) × Serves projects ds c.id d
          × ((d' : DeploymentRecord) × Serves projects ds c'.id d'
              × ((d.project_id ≢ d'.project_id) ⊎ (c.id ≡ c'.id))))
active_container_unique projects ds c c' u r r' =
    let (managed, i) = role_of-active projects ds c r in
    let (_, i') = role_of-active projects ds c' r' in
    let (d, s) = includes-active projects ds c.id i in
    let (d', s') = includes-active projects ds c'.id i' in
    (managed, (d, s, (d', s', same_project d d' s s')))
  where
    same_project :
        (d d' : DeploymentRecord)
        → Serves projects ds c.id d
        → Serves projects ds c'.id d'
        → (d.project_id ≢ d'.project_id) ⊎ (c.id ≡ c'.id)
    same_project d d' (m, a, l) (m', a', l') = elim (Bool-cases (d.project_id =? d'.project_id)) [
      | inl e ↦
          let p = (string_eq.beq_iff d.project_id d'.project_id).0 e in
          let same = same_record ds d d' u m m' (live_same projects d d' p l l') in
          let k = sym a ∙ ap (λ x. x.active_container_id) same ∙ a' in
          inr (ap (λ o. or_else o c.id) k)
      | inr e ↦
          inl (λ q. absurd (ground (arith, e, string_eq.beq_iff d.project_id d'.project_id, q)))
    ]
