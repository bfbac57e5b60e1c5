-- ===== src/Deployment/Build/Quiet.antt =====
-- The clone and the preparation of an undisturbed build of apps/worker/src/jobs/build-deployment.job.js.
use hello_deploy.Prelude.{
  ◌≡◌, refl, ap, Bool, true, false, ◌||◌, not, Option, none, some, is_some, List, [], ◌∷◌,
  if◌then◌else◌,
}
use hello_deploy.Contracts.Enums.{validating, building}
use hello_deploy.Contracts.Strategies.{dockerfile_v1, strategy_eq}
use hello_deploy.Deployment.Status.{is_terminal}
use hello_deploy.Jobs.{Stage, next, goes, ends}
use hello_deploy.Jobs.Requirements.{both}
use hello_deploy.Deployment.Build.Flow.{
  FailureCode, Db, State, Outcome, Repository, CloneError, Point, Call, act, fail, fail_and_clean,
  github_token_failed, dockerfile_policy_violation, attempt_clone, pass_policy, wait,
}
use hello_deploy.Deployment.Build.Plans.{Plan, strategy_of}
use hello_deploy.Deployment.Build.Stages.{
  clone_with_retry, after_clone, clone, check_policy, prepare,
}
use hello_deploy.Deployment.Build.Requirements.{
  has_repository_with, clone_result, clone_code, prepare_requirements,
}
use hello_deploy.Deployment.Build.Cloning.{clone_with_retry_lem, is_transient}
use hello_deploy.Deployment.Build.Undisturbed.{
  fail_build-Verdict, or_clean-Meets, Agrees, Kept, Meets,
}

pub is_building : is_terminal building ≡ false
unfolding is_terminal
is_building = refl

pub is_validating : is_terminal validating ≡ false
unfolding is_terminal
is_validating = refl

module _ (j : Call) (quiet : (p : Point) (db : Db) → j.others p db ≡ db) (before : Db) where
  abbrev pub Step :
      {A : Type 0} → List (Bool × FailureCode) → (A → Type 0) → Stage Outcome State A → Type 0
  Step reqs P x = Meets j before reqs P x

  pub in_repository :
      (plan : Plan)
      → Agrees j quiet before plan
      → (f : Repository → Bool) → has_repository_with j f ≡ f plan.repository
  in_repository plan a f = ap (λ o. elim o [ none ↦ false | some r ↦ f r ]) a.2

  clone_fails :
      (e : CloneError) (s : State)
      → Kept before s
      → Step
          ((false, clone_code (some e)) ∷ [])
          (λ (_ : Unit {0}). Unit {0})
          (after_clone j (some e, s))
  clone_fails e s h = ends (_, refl, fail_build-Verdict j quiet before _ s h)

  after_clone-Meets :
      (o : Option CloneError) (s : State)
      → Kept before s
      → Step
          ((not (is_some o), clone_code o) ∷ [])
          (λ (_ : Unit {0}). Unit {0})
          (after_clone j (o, s))
  after_clone-Meets none s h = goes (refl, (h, tt))
  after_clone-Meets (some e) s h = clone_fails e s h

  cloned-Meets :
      (s : State)
      → Kept before s
      → Step
          ((not (is_some (clone_result j)), clone_code (clone_result j)) ∷ [])
          (λ (_ : Unit {0}). Unit {0})
          (after_clone j (clone_with_retry j.answers.clone s))
  cloned-Meets s h =
      rw (clone_with_retry_lem j.answers.clone s) (by_first (is_transient (j.answers.clone 1)))
    where
      by_second :
          (b : Bool)
          → (let c = if not b then j.answers.clone 2 else j.answers.clone 3 in
              Step
                ((not (is_some c), clone_code c) ∷ [])
                (λ (_ : Unit {0}). Unit {0})
                (after_clone j (
                  if not b
                  then (
                    j.answers.clone 2,
                    act attempt_clone (act (wait 3000) (act attempt_clone s)),
                  )
                  else (
                    j.answers.clone 3,
                    act attempt_clone (
                        act
                          (wait 9000)
                          (act attempt_clone (act (wait 3000) (act attempt_clone s)))),
                  ))))
      by_second true = after_clone-Meets _ _ h
      by_second false = after_clone-Meets _ _ h

      by_first :
          (b : Bool)
          → (let c =
                if not b
                then j.answers.clone 1
                else if not (is_transient (j.answers.clone 2))
                then j.answers.clone 2
                else j.answers.clone 3 in
              Step
                ((not (is_some c), clone_code c) ∷ [])
                (λ (_ : Unit {0}). Unit {0})
                (after_clone j (
                  if not b
                  then (j.answers.clone 1, act attempt_clone s)
                  else if not (is_transient (j.answers.clone 2))
                  then (
                    j.answers.clone 2,
                    act attempt_clone (act (wait 3000) (act attempt_clone s)),
                  )
                  else (
                    j.answers.clone 3,
                    act attempt_clone (
                        act
                          (wait 9000)
                          (act attempt_clone (act (wait 3000) (act attempt_clone s)))),
                  ))))
      by_first true = by_second (is_transient (j.answers.clone 2))
      by_first false = after_clone-Meets _ _ h

  pub clone-Meets :
      (plan : Plan) (s : State)
      → Agrees j quiet before plan
      → Kept before s
      → Step
          ((has_repository_with j (λ r. r.is_public) || j.answers.has_token, github_token_failed)
            ∷ (not (is_some (clone_result j)), clone_code (clone_result j))
            ∷ [])
          (λ (_ : Unit {0}). Unit {0})
          (clone j plan s)
  unfolding clone
  clone-Meets plan s a h =
      by_token (plan.repository.is_public || j.answers.has_token)
        (ap (λ b. b || j.answers.has_token) (in_repository plan a (λ r. r.is_public)))
    where
      by_token :
          (b : Bool)
          → (has_repository_with j (λ r. r.is_public) || j.answers.has_token) ≡ b
          → Step
              ((
                has_repository_with j (λ r. r.is_public) || j.answers.has_token,
                github_token_failed,
              )
                ∷ (not (is_some (clone_result j)), clone_code (clone_result j))
                ∷ [])
              (λ (_ : Unit {0}). Unit {0})
              (if b
                then after_clone j (clone_with_retry j.answers.clone s)
                else fail j github_token_failed s)
      by_token true e = simp e (cloned-Meets s h)
      by_token false e = simp e (ends (_, refl, fail_build-Verdict j quiet before _ s h))

  check_policy-Meets :
      (plan : Plan) (s : State)
      → plan.strategy ≡ strategy_of j
      → Kept before s
      → Step
          ((
            not (strategy_eq (strategy_of j) dockerfile_v1) || not j.answers.has_violations,
            dockerfile_policy_violation,
          )
            ∷ [])
          (λ (_ : Unit {0}). Unit {0})
          (check_policy j plan s)
  check_policy-Meets plan s e h =
      by_kind (strategy_eq plan.strategy dockerfile_v1) (strategy_eq (strategy_of j) dockerfile_v1)
        j.answers.has_violations (ap (λ x. strategy_eq x dockerfile_v1) e)
    where
      by_kind :
          (b b' v : Bool)
          → b ≡ b'
          → Step
              ((not b' || not v, dockerfile_policy_violation) ∷ [])
              (λ (_ : Unit {0}). Unit {0})
              (if b
                then (if v
                    then fail_and_clean j dockerfile_policy_violation s
                    else next tt (act pass_policy s))
                else next tt s)
      by_kind true true true e = ends (_, refl, fail_build-Verdict j quiet before _ s h)
      by_kind true true false e = goes (refl, (h, tt))
      by_kind false false v e = goes (refl, (h, tt))
      by_kind true false v e = cc
      by_kind false true v e = cc

  pub prepare-Meets :
      (plan : Plan) (s : State)
      → plan.strategy ≡ strategy_of j
      → Kept before s
      → Step (prepare_requirements j) (λ (_ : Unit {0}). Unit {0}) (prepare j plan s)
  unfolding prepare
  prepare-Meets plan s e h =
      both _ (_ ∷ []) _ _ _ s (or_clean-Meets j quiet before _ _ s h) λ _ t (h, _).
        both _ (_ ∷ []) _ _ _ t (check_policy-Meets plan t e h) λ _ t (h, _).
          both _ (_ ∷ []) _ _ _ t (or_clean-Meets j quiet before _ _ t h) λ _ t (h, _).
            both _ (_ ∷ []) _ _ _ t (or_clean-Meets j quiet before _ _ t h)
              λ _ t (h, _). or_clean-Meets j quiet before _ _ t h
