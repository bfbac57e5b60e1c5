-- ===== src/Quota/Checks.antt =====
-- When the checks of apps/web/src/services/quota.service.js refuse, and what they count.
use mathlib.Core.Path.{subst}
use native.Mathlib.Decide.{ℕ_discrete}
use hello_deploy.Prelude.{
  ◌∙◌, ap, ℕ, suc, ◌<◌, ◌≡◌, ◌≢◌, refl, sym, arith, ◌↔◌, ◌⊎◌, inl, inr, Bool, true, false, ◌&&◌,
  not, ◌==◌, Bool-cases, none, List, [], ◌∷◌, any, keep_if, length, includes, includes-cons,
  beq_refl, ℕ_eq,
}
use hello_deploy.Quota.{
  Limits, Db, ProjectRow, DeploymentRow, Date, is_serving, distinct_serving, owned_ids,
  count_running_apps, count_deployments_this_month, is_running, is_premium, resolve_project_quota,
  resolve_user_quota, check_deployment_quota,
}

-- A deployment is allowed exactly when the owner is premium or the project has deployments of this
-- month left, and the project is already running or the owner has a running app left.
pub deployment_allowed_iff :
    (defaults : Limits) (db : Db) (p : ProjectRow) (now : Date)
    → (check_deployment_quota defaults db p now ≡ none) ↔ (
        ((is_premium db.users p.owner_id ≡ true)
          ⊎ (count_deployments_this_month db p.id now
              < (resolve_project_quota defaults db.quotas p.id p.owner_id).deployments_per_month))
        × ((is_running db p.id ≡ true)
            ⊎ (count_running_apps db p.owner_id
                < (resolve_user_quota defaults db.quotas p.owner_id).max_running_apps)))
unfolding check_deployment_quota
deployment_allowed_iff defaults db p now = ground arith

abbrev serves : List DeploymentRow → ℕ → Bool
serves ds i = any (λ d. d.project_id == i && is_serving d) ds

abbrev Absent : ℕ → List ℕ → Type 0
Absent i xs = includes xs i ≡ false

abbrev pub HasDistinct : List ℕ → Type 0
HasDistinct [] = Unit
HasDistinct (x ∷ xs) = Absent x xs × HasDistinct xs

includes-distinct_serving :
    (ds : List DeploymentRow) (ids : List ℕ) (i : ℕ)
    → includes (distinct_serving ds ids) i ≡ (includes ids i && serves ds i)
unfolding distinct_serving
includes-distinct_serving [] ids i = ground arith
includes-distinct_serving (d ∷ ds) ids i =
    ground
      (arith, includes-distinct_serving ds ids i, includes-distinct_serving ds ids d.project_id)

module _ (p q : ℕ → Bool) where
  length-keep_if_same :
      (xs : List ℕ)
      → ((i : ℕ) → includes xs i ≡ true → p i ≡ q i)
      → length (keep_if p xs) ≡ length (keep_if q xs)
  length-keep_if_same [] h = refl
  length-keep_if_same (x ∷ xs) h =
      ground (
        arith,
        h x,
        length-keep_if_same xs (λ i m. h i (includes-cons x i xs m)),
        beq_refl {A = ℕ} x,
      )

-- One more element passes.
length-keep_if_more :
    (p q : ℕ → Bool) (x : ℕ) (xs : List ℕ)
    → HasDistinct xs
    → includes xs x ≡ true
    → p x ≡ true
    → q x ≡ false
    → ((i : ℕ) → i ≢ x → p i ≡ q i)
    → length (keep_if p xs) ≡ suc (length (keep_if q xs))
length-keep_if_more p q x [] u m px qx other = cc
length-keep_if_more p q x (y ∷ ys) (a, u) m px qx other = elim (ℕ_discrete y x) [
  | yes e ↦
      let py : p y ≡ true = rw e px in
      let qy : q y ≡ false = rw e qx in
      let rest : length (keep_if p ys) ≡ length (keep_if q ys) =
        length-keep_if_same p q ys
          (λ i mi. other i (λ k. let m' : includes ys y ≡ true = rw (k ∙ sym e) at mi in cc)) in
      rw (py, qy) (ap suc rest)
  | no n ↦ ground (arith, other y n, length-keep_if_more p q x ys u (ground arith) px qx other)
]

-- What one more deployment adds to the projects that are served.
serves-cons_other :
    (d : DeploymentRow) (ds : List DeploymentRow) (i : ℕ)
    → i ≢ d.project_id
    → serves (d ∷ ds) i ≡ serves ds i
serves-cons_other d ds i n = ground arith

serves-cons_new :
    (d : DeploymentRow) (ds : List DeploymentRow) (ids : List ℕ)
    → (includes ids d.project_id
        && is_serving d
        && not (includes (distinct_serving ds ids) d.project_id))
      ≡ true
    → (includes ids d.project_id ≡ true)
      × (serves (d ∷ ds) d.project_id ≡ true)
      × (serves ds d.project_id ≡ false)
serves-cons_new d ds ids h = ground (arith, includes-distinct_serving ds ids d.project_id)

serves-cons_same :
    (d : DeploymentRow) (ds : List DeploymentRow) (ids : List ℕ)
    → (includes ids d.project_id
        && is_serving d
        && not (includes (distinct_serving ds ids) d.project_id))
      ≡ false
    → includes ids d.project_id ≡ true
    → serves (d ∷ ds) d.project_id ≡ serves ds d.project_id
serves-cons_same d ds ids h m = ground (arith, includes-distinct_serving ds ids d.project_id)

serves-cons_old :
    (d : DeploymentRow) (ds : List DeploymentRow) (ids : List ℕ) (i : ℕ)
    → (includes ids d.project_id
        && is_serving d
        && not (includes (distinct_serving ds ids) d.project_id))
      ≡ false
    → includes ids i ≡ true
    → serves (d ∷ ds) i ≡ serves ds i
serves-cons_old d ds ids i h m = elim (ℕ_discrete i d.project_id) [
  | yes e ↦
      subst (λ j. serves (d ∷ ds) j ≡ serves ds j) (sym e)
        (serves-cons_same d ds ids h (subst (λ j. includes ids j ≡ true) e m))
  | no n ↦ serves-cons_other d ds i n
]

keep_if_none : (ids : List ℕ) → length (keep_if (serves []) ids) ≡ 0
keep_if_none [] = refl
keep_if_none (i ∷ ids) = keep_if_none ids

distinct_serving-count :
    (ds : List DeploymentRow) (ids : List ℕ)
    → HasDistinct ids
    → length (distinct_serving ds ids) ≡ length (keep_if (serves ds) ids)
unfolding distinct_serving
distinct_serving-count [] ids u = sym (keep_if_none ids)
distinct_serving-count (d ∷ ds) ids u =
    elim (Bool-cases (
      includes ids d.project_id
      && is_serving d
      && not (includes (distinct_serving ds ids) d.project_id))) [
        | inl new ↦
            let (m, px, qx) = serves-cons_new d ds ids new in
            rw new (
              ap suc (distinct_serving-count ds ids u)
              ∙ sym (
                  length-keep_if_more (serves (d ∷ ds)) (serves ds) d.project_id ids u m px qx
                    (serves-cons_other d ds)))
        | inr old ↦ rw old (
            distinct_serving-count ds ids u
            ∙ sym (
                length-keep_if_same (serves (d ∷ ds)) (serves ds) ids
                  (λ i m. serves-cons_old d ds ids i old m)))
      ]

-- With unique project ids, the running apps of an owner are the owner's projects, archived ones
-- left out, that have a healthy deployment with a container: each counts once, however many such
-- deployments it has, and those of other owners' projects do not count.
pub count_running_apps_lem :
    (db : Db) (owner : ℕ)
    → HasDistinct (owned_ids db.projects owner)
    → count_running_apps db owner ≡ length (keep_if (is_running db) (owned_ids db.projects owner))
unfolding count_running_apps is_running
count_running_apps_lem db owner u =
    distinct_serving-count db.deployments (owned_ids db.projects owner) u
