-- ===== src/Deployment/Build/Undisturbed.antt =====
-- Stages of apps/worker/src/jobs/build-deployment.job.js while nobody else changes the documents: each
-- fails with the first of its requirements that does not hold.
use hello_deploy.Prelude.{
  ℕ, ◌≡◌, refl, sym, ◌∙◌, ap, Bool, true, false, not, Option, none, some, is_some, or_else, List,
  [], ◌∷◌, Bool-cases, inl, inr, if◌then◌else◌,
}
use hello_deploy.Contracts.Enums.{
  DeploymentStatus, queued, validating, building, deploying, healthy, failed, cancelled,
  rolled_back,
}
use hello_deploy.Contracts.Strategies.{oci_image_v1, strategy_eq}
use hello_deploy.Deployment.Status.{is_terminal}
use hello_deploy.Jobs.{Stage, goes, ends}
use hello_deploy.Jobs.Requirements.{Fulfils, both}
use hello_deploy.Deployment.Build.Flow.{
  FailureCode, Image, Db, State, Outcome, Project, Point, Call, meanwhile, notify_result,
  update_status, fail_build, or_fail, or_fail_some, or_clean, remove_built_artifact,
  builder_offline, refused, queued_activation, before_failing,
}
use hello_deploy.Deployment.Build.Plans.{
  Plan, snapshot_of, strategy_of, configuration_of, repository_of, is_complete, is_environment,
  uses_on_demand_builder, builder_refusal, refuse_if_some, reference_in, check_call,
}
use hello_deploy.Deployment.Build.Stages.{release}
use hello_deploy.Deployment.Build.Requirements.{
  in_project, named_by_project, check_requirements, reference_of, digest_named,
}

-- The image that a build makes, or that a prebuilt one is locked to.
abbrev pub owner_image : Option ℕ → Option Image
owner_image none = none
owner_image (some digest) = some (record { image_ref = digest; is_in_registry = true })

abbrev pub image_of : Call → Option Image
image_of j =
    if strategy_eq (strategy_of j) oci_image_v1
    then owner_image (digest_named j (reference_of j))
    else j.answers.built

-- What the first requirement that does not hold makes of the build.
abbrev pub Verdict : Call → Option FailureCode → Outcome → State → Type 0
Verdict j none o t = (o ≡ queued_activation) × (t.db.status ≡ deploying) × (t.db.image ≡ image_of j)
Verdict j (some code) o t = (o ≡ refused) × (t.db.status ≡ failed) × (t.db.failure_code ≡ some code)

-- The deployment is not finished and the project as before.
abbrev pub Kept : Db → State → Type 0
Kept before s =
    (is_terminal s.db.status ≡ false)
    × (s.db.environment_version ≡ before.environment_version)
    × (s.db.has_project ≡ before.has_project)

-- A stage that fails with the first of its requirements that does not hold, and else keeps the
-- documents.
abbrev pub Meets :
    {A : Type 0}
    → Call
    → Db
    → List (Bool × FailureCode)
    → (A → Type 0)
    → Stage Outcome State A
    → Type 0
Meets j before reqs P = Fulfils (λ code. Verdict j (some code)) reqs (λ a t. Kept before t × P a)

pub Verdict-same :
    (j : Call) (code : FailureCode) (s t : State)
    → s.db ≡ t.db
    → Verdict j (some code) refused s
    → Verdict j (some code) refused t
Verdict-same j code s t e h =
    (refl, ap (λ db. db.status) (sym e) ∙ h.1, ap (λ db. db.failure_code) (sym e) ∙ h.2)

notify_db : (to : DeploymentStatus) (s : State) → (notify_result to s).db ≡ s.db
notify_db queued s = refl
notify_db validating s = refl
notify_db building s = refl
notify_db deploying s = refl
notify_db healthy s = refl
notify_db failed s = refl
notify_db cancelled s = refl
notify_db rolled_back s = refl

pub update_status_db :
    (to : DeploymentStatus) (extra : Db → Db) (s : State)
    → is_terminal s.db.status ≡ false
    → (update_status to extra s).db ≡ record (extra s.db) { status = to }
unfolding update_status
update_status_db to extra s h =
    simp h (notify_db to (record s { db = record (extra s.db) { status = to } }))

pub release_db : (j : Call) (plan : Plan) (s : State) → (release j plan s).db ≡ s.db
release_db j plan s = elim (Bool-cases (uses_on_demand_builder j plan.strategy)) [
  | inl e ↦ rw e refl
  | inr e ↦ rw e refl
]

pub remove_db : (image : Option Image) (s : State) → (remove_built_artifact image s).db ≡ s.db
remove_db none s = refl
remove_db (some i) s = elim (Bool-cases i.is_in_registry) [ inl e ↦ rw e refl | inr e ↦ rw e refl ]

module _ (j : Call) (quiet : (p : Point) (db : Db) → j.others p db ≡ db) (before : Db) where
  pub fail_build-Verdict :
      (code : FailureCode) (s : State)
      → Kept before s
      → Verdict j (some code) refused (fail_build j code s)
  unfolding fail_build update_status
  fail_build-Verdict code s h =
      let u = ap (λ db. is_terminal db.status) (quiet before_failing s.db) ∙ h.0 in
      simp u (refl, refl, refl)

  pub meanwhile-Kept : (p : Point) (s : State) → Kept before s → Kept before (meanwhile j p s)
  meanwhile-Kept p s h =
      let e = quiet p s.db in
      (
        ap (λ db. is_terminal db.status) e ∙ h.0,
        ap (λ db. db.environment_version) e ∙ h.1,
        ap (λ db. db.has_project) e ∙ h.2,
      )

  pub update_status-Kept :
      (to : DeploymentStatus) (s : State)
      → is_terminal to ≡ false
      → Kept before s
      → Kept before (update_status to (λ db. db) s)
  update_status-Kept to s n h =
      let e = update_status_db to (λ db. db) s h.0 in
      (
        ap (λ db. is_terminal db.status) e ∙ n,
        ap (λ db. db.environment_version) e ∙ h.1,
        ap (λ db. db.has_project) e ∙ h.2,
      )

  pub or_fail-Meets :
      (b b' : Bool) (code : FailureCode) (s : State)
      → b ≡ b'
      → Kept before s
      → Meets j before ((b, code) ∷ []) (λ (_ : Unit {0}). Unit {0}) (or_fail j b' code s)
  or_fail-Meets true true code s e h = goes (refl, (h, tt))
  or_fail-Meets false false code s e h = ends (code, refl, fail_build-Verdict code s h)
  or_fail-Meets true false code s e h = cc
  or_fail-Meets false true code s e h = cc

  pub or_fail_some-Meets :
      {A : Type 0} (o o' : Option A) (code : FailureCode) (s : State)
      → o ≡ o'
      → Kept before s
      → Meets j before ((is_some o, code) ∷ []) (λ a. o ≡ some a) (or_fail_some j o' code s)
  or_fail_some-Meets o (some a) code s e h = rw e (goes (refl, (h, refl)))
  or_fail_some-Meets o none code s e h = rw e (ends (code, refl, fail_build-Verdict code s h))

  pub or_clean-Meets :
      (b : Bool) (code : FailureCode) (s : State)
      → Kept before s
      → Meets j before ((b, code) ∷ []) (λ (_ : Unit {0}). Unit {0}) (or_clean j b code s)
  or_clean-Meets true code s h = goes (refl, (h, tt))
  or_clean-Meets false code s h = ends (code, refl, fail_build-Verdict code s h)

  refuse-Meets :
      (o o' : Option FailureCode) (s : State)
      → o ≡ o'
      → Kept before s
      → Meets j before
          ((not (is_some o), or_else o builder_offline) ∷ [])
          (λ (_ : Unit {0}). Unit {0})
          (refuse_if_some j o' s)
  refuse-Meets o none s e h = rw e (goes (refl, (h, tt)))
  refuse-Meets o (some code) s e h = rw e (ends (code, refl, fail_build-Verdict code s h))

  -- What the first checks pass on.
  abbrev pub Agrees : Plan → Type 0
  Agrees plan =
      (plan.snapshot ≡ snapshot_of j)
      × (plan.strategy ≡ strategy_of j)
      × (named_by_project j (repository_of j) ≡ some plan.repository)
      × (reference_of j ≡ plan.reference)

  pub check_call-Meets :
      (s : State)
      → Kept before s
      → Meets j before (check_requirements j before) Agrees (check_call j s)
  unfolding check_call
  check_call-Meets s h =
      both _ (_ ∷ []) _ _ _ s (or_fail_some-Meets j.project j.project _ s refl h) λ p t (h, e).
        both _ (_ ∷ []) _ _ _ t (or_fail_some-Meets _ _ _ t (named e (repository_of j)) h)
          λ r t (h, f).
            both _ (_ ∷ []) _ _ _ t (or_fail-Meets _ _ _ t (in_it e (is_complete j)) h)
              λ _ t (h, _).
                both _ (_ ∷ []) _ _ _ t
                  (or_fail-Meets _ _ _ t (ap (is_environment (snapshot_of j)) (sym h.1)) h)
                  λ _ t (h, _). both _ (_ ∷ []) _ _ _ t (or_fail-Meets _ _ _ t refl h) λ _ t (h, _).
                    both _ (_ ∷ []) _ _ _ t
                      (refuse-Meets _ _ t (named e (λ p. builder_refusal j p (strategy_of j))) h)
                      λ _ t (h, _).
                        both _ (_ ∷ []) [] _ _ t (or_fail-Meets _ _ _ t refl h) λ _ t (h, _). goes (
                          refl,
                          (h, (refl, refl, f, named e (λ p. reference_in (configuration_of j p)))),
                        )
    where
      named :
          {A : Type 0} {p : Project}
          → j.project ≡ some p
          → (f : Project → Option A) → named_by_project j f ≡ f p
      named e f = ap (λ o. elim o [ none ↦ none | some p ↦ f p ]) e

      in_it : {p : Project} → j.project ≡ some p → (f : Project → Bool) → in_project j f ≡ f p
      in_it e f = ap (λ o. elim o [ none ↦ false | some p ↦ f p ]) e
