-- ===== src/Deployment/Build/Decided.antt =====
-- An undisturbed build of apps/worker/src/jobs/build-deployment.job.js is decided by its requirements.
use hello_deploy.Prelude.{
  ◌≡◌, refl, ◌∙◌, ap, Bool, true, false, ◌&&◌, not, List, [], ◌∷◌, ◌++◌, if◌then◌else◌,
}
use hello_deploy.Contracts.Enums.{queued, validating, building}
use hello_deploy.Contracts.Strategies.{oci_image_v1, strategy_eq}
use hello_deploy.Deployment.Status.{is_terminal}
use hello_deploy.Jobs.{Stage, next, ended, After, goes}
use hello_deploy.Jobs.Requirements.{first_failure, Decides, then-Decides}
use hello_deploy.Deployment.Build.Flow.{
  FailureCode, Db, State, Outcome, Point, Call, meanwhile, update_status, skipped,
  before_validating, before_building,
}
use hello_deploy.Deployment.Build.Plans.{Plan, strategy_of, is_queued, load}
use hello_deploy.Deployment.Build.Stages.{digest_of, deploy_owner_image, build_repository}
use hello_deploy.Deployment.Build.Requirements.{
  after_build_requirements, resolve_requirements, clone_requirements, check_requirements,
  prepare_requirements, build_requirements, finish_requirements, repository_requirements,
  reference_of, is_blocked_reference, digest_named, owner_image_requirements, kind_requirements,
  requirements,
}
use hello_deploy.Deployment.Build.Undisturbed.{
  meanwhile-Kept, update_status-Kept, or_fail-Meets, or_fail_some-Meets, check_call-Meets, Agrees,
  owner_image, Verdict, Kept,
}
use hello_deploy.Deployment.Build.{deploy, outcome, handle_build_deployment}
use hello_deploy.Deployment.Build.Quiet.{
  is_building, is_validating, Step, in_repository, clone-Meets, prepare-Meets,
}
use hello_deploy.Deployment.Build.Scanned.{build-Meets, scan-Meets, scan_build-Meets}
use hello_deploy.Deployment.Build.Queueing.{finish-Decides}

is_open : is_terminal queued ≡ false
unfolding is_terminal
is_open = refl

module _ (j : Call) (quiet : (p : Point) (db : Db) → j.others p db ≡ db) (before : Db) where
  repository-Decides :
      (plan : Plan) (s : State)
      → strategy_eq (strategy_of j) oci_image_v1 ≡ false
      → Agrees j quiet before plan
      → Kept before s
      → Decides (Verdict j) (repository_requirements j before) (build_repository j plan s)
  unfolding build_repository
  repository-Decides plan s o a h =
      then-Decides (Verdict j) (_ ∷ []) _ _ _ s
        (or_fail-Meets j quiet before _ _ _ s
          (in_repository j quiet before plan a (λ r. r.is_active)) h)
        λ _ t (h, _).
          then-Decides (Verdict j) (clone_requirements j) built _ _ t
            (clone-Meets j quiet before plan t a h)
            λ _ t (h, _).
              then-Decides (Verdict j) (prepare_requirements j)
                (build_requirements j ++ after_build_requirements j before) _ _ t
                (prepare-Meets j quiet before plan t a.1 h)
                λ _ t (h, _).
                  then-Decides (Verdict j) (build_requirements j)
                    (after_build_requirements j before) _ _ t
                    (build-Meets j quiet before plan t a.1 h)
                    λ image t (h, b).
                      then-Decides (Verdict j) (_ ∷ []) (finish_requirements j before) _ _ t
                        (scan_build-Meets j quiet before plan image t a.1 h)
                        λ _ t (h, _).
                          finish-Decides j quiet before plan true image t a.0 h (simp o b)
    where
      built : List (Bool × FailureCode)
      built = prepare_requirements j ++ build_requirements j ++ after_build_requirements j before

  owner_image-Decides :
      (plan : Plan) (s : State)
      → strategy_eq (strategy_of j) oci_image_v1 ≡ true
      → Agrees j quiet before plan
      → Kept before s
      → Decides (Verdict j) (owner_image_requirements j before) (deploy_owner_image j plan s)
  unfolding deploy_owner_image
  owner_image-Decides plan s o a h =
      then-Decides (Verdict j) (_ ∷ []) _ _ _ s
        (or_fail_some-Meets j quiet before (reference_of j) plan.reference _ s a.3 h)
        λ r t (h, e).
          then-Decides (Verdict j) (_ ∷ []) _ _ _ t
            (or_fail-Meets j quiet before _ _ _ t (ap (λ x. not (is_blocked_reference x)) e) h)
            λ _ t (h, _).
              then-Decides (Verdict j) [] (resolve_requirements j before) _ _ t (begin-Meets t h)
                λ _ t (h, _).
                  then-Decides (Verdict j) (_ ∷ []) _ _ _ t
                    (or_fail-Meets j quiet before _ _ _ t refl h)
                    λ _ t (h, _).
                      then-Decides (Verdict j) (_ ∷ []) _ _ _ t
                        (or_fail_some-Meets j quiet before _ (digest_of j r) _ t
                          (ap (digest_named j) e) h)
                        λ digest t (h, d).
                          then-Decides (Verdict j) (_ ∷ []) _ _ _ t
                            (or_fail-Meets j quiet before _ _ _ t refl h)
                            λ _ t (h, _).
                              then-Decides (Verdict j) (_ ∷ []) _ _ _ t
                                (scan-Meets j quiet before (λ t. t) t (λ t. refl) h)
                                λ _ t (h, _).
                                  finish-Decides j quiet before plan false _ t a.0 h
                                    (simp o (ap owner_image d))
    where
      begin-Meets :
          (s : State)
          → Kept before s
          → Step j quiet before []
              (λ (_ : Unit {0}). Unit {0})
              (next tt (update_status building (λ db. db) (meanwhile j before_building s)))
      begin-Meets s h = goes (
        refl,
        (
          update_status-Kept j quiet before building (meanwhile j before_building s) is_building
              (meanwhile-Kept j quiet before before_building s h),
          tt,
        ),
      )

  load-Meets :
      (s : State)
      → j.has_deployment ≡ true
      → s.db.status ≡ queued
      → Step j quiet s.db [] (λ (_ : Unit {0}). Unit {0}) (load j s)
  unfolding load
  load-Meets s d q =
      found (j.has_deployment && is_queued s.db.status)
        (ap (λ b. b && is_queued s.db.status) d ∙ ap is_queued q)
    where
      k : Kept s.db (meanwhile j before_validating s)
      k = meanwhile-Kept j quiet s.db before_validating s (ap is_terminal q ∙ is_open, refl, refl)

      found :
          (b : Bool)
          → b ≡ true
          → Step j quiet s.db []
              (λ (_ : Unit {0}). Unit {0})
              (if b
                then next tt (update_status validating (λ db. db) (meanwhile j before_validating s))
                else ended skipped s)
      found true e = goes (
        refl,
        (
          update_status-Kept j quiet s.db validating (meanwhile j before_validating s) is_validating
              k,
          tt,
        ),
      )
      found false e = cc

kind-Decides :
    (j : Call) (quiet : (p : Point) (db : Db) → j.others p db ≡ db) (before : Db) (plan : Plan)
    (s : State)
    → Agrees j quiet before plan
    → Kept before s
    → Decides (Verdict j) (kind_requirements j before) (deploy j plan s)
kind-Decides j quiet before plan s a h =
    by_kind (strategy_eq plan.strategy oci_image_v1) (strategy_eq (strategy_of j) oci_image_v1)
      (ap (λ x. strategy_eq x oci_image_v1) a.1) refl
  where
    by_kind :
        (b b' : Bool)
        → b ≡ b'
        → strategy_eq (strategy_of j) oci_image_v1 ≡ b'
        → Decides
            (Verdict j)
            (if b' then owner_image_requirements j before else repository_requirements j before)
            (if b then deploy_owner_image j plan s else build_repository j plan s)
    by_kind true true e k = owner_image-Decides j quiet before plan s k a h
    by_kind false false e k = repository-Decides j quiet before plan s k a h
    by_kind true false e k = cc
    by_kind false true e k = cc

outcome-Decides :
    (j : Call) (reqs : List (Bool × FailureCode)) (x : Stage Outcome State ⊥)
    → Decides (Verdict j) reqs x
    → (let (o, t) = outcome x in Verdict j (first_failure reqs) o t)
outcome-Decides j reqs (next a s) h = elim a [ ]
outcome-Decides j reqs (ended o s) (After.ends h) = h

-- Where nobody changes the documents meanwhile and the deployment is there and QUEUED: if all
-- requirements hold, the activation is queued, the status is DEPLOYING and the image is recorded that
-- was built, or that the reference of a prebuilt image is locked to; else the build is refused and the
-- deployment FAILED with the code of the first requirement that does not hold.
pub first_unmet_requirement_decides :
    (j : Call) (s : State)
    → ((p : Point) (db : Db) → j.others p db ≡ db)
    → j.has_deployment ≡ true
    → s.db.status ≡ queued
    → (let (o, t) = handle_build_deployment j s in
        Verdict j (first_failure (requirements j s.db)) o t)
unfolding handle_build_deployment
first_unmet_requirement_decides j s quiet d q = outcome-Decides j (requirements j s.db) _ (
    then-Decides (Verdict j) [] (requirements j s.db) _ _ s (load-Meets j quiet s.db s d q)
      λ _ t (h, _).
        then-Decides (Verdict j) (check_requirements j s.db) (kind_requirements j s.db) _ _ t
          (check_call-Meets j quiet s.db t h) λ plan t (h, a). kind-Decides j quiet s.db plan t a h)
