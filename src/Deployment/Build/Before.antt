-- ===== src/Deployment/Build/Before.antt =====
-- The stages of apps/worker/src/jobs/build-deployment.job.js before the image is built: what they leave
-- behind where they end the job.
use hello_deploy.Prelude.{
  ℕ, zero, suc, ◌+◌, ◌==◌, ◌≡◌, refl, ap, arith, Bool, true, false, ◌&&◌, ◌||◌, not, Option, none,
  some, List, [], Bool-cases, inl, inr,
}
use hello_deploy.Contracts.Enums.{validating}
use hello_deploy.Contracts.Strategies.{dockerfile_v1, strategy_eq}
use hello_deploy.Jobs.{After, goes, ends, >>=-After, if-After}
use hello_deploy.Deployment.Build.Flow.{
  FailureCode, Action, State, CloneError, Call, act, meanwhile, fail, or_fail, or_fail_some,
  fail_and_clean, or_clean, github_token_failed, attempt_clone, wait, before_validating,
}
use hello_deploy.Deployment.Build.Plans.{
  Plan, strategy_of, refuse_if_some, is_queued, load, check_call,
}
use hello_deploy.Deployment.Build.Stages.{
  clone_retry_attempts, clone_retry_backoff_ms, clone_from, clone_with_retry, after_clone, clone,
  check_policy, prepare,
}
use hello_deploy.Deployment.Build.Trace.{
  At, Leaves, update_status-At, fail_build-At, fail_build-over, has_passed_policy,
}

module _ (j : Call) where
  abbrev pub Nothing : State → Type 0
  Nothing s = At j false false false s.actions

  abbrev pub Cloned : State → Type 0
  Cloned s = At j true false false s.actions

  pub fail_lem :
      {A : Type 0} {Q : A → State → Type 0} (code : FailureCode) (s : State)
      → Nothing s
      → After (Leaves j) Q (fail j code s)
  fail_lem code s h = ends (fail_build-over j code s, fail_build-At j code s h)

  -- The workspace goes, if there is one.
  pub clean :
      {A : Type 0} {Q : A → State → Type 0} {w : Bool} (code : FailureCode) (s : State)
      → At j w false false s.actions
      → After (Leaves j) Q (fail_and_clean j code s)
  clean code s h =
      let (_, l, a, q, o) = fail_build-At j code s h in
      ends (fail_build-over j code s, (refl, l, a, q, o))

  pub or_fail_lem :
      (b : Bool) (code : FailureCode) (s : State)
      → Nothing s
      → After (Leaves j) (λ _ t. Nothing t × (b ≡ true)) (or_fail j b code s)
  or_fail_lem true code s h = goes (h, refl)
  or_fail_lem false code s h = fail_lem code s h

  pub or_fail_some_lem :
      {A : Type 0} (o : Option A) (code : FailureCode) (s : State)
      → Nothing s
      → After (Leaves j) (λ _ t. Nothing t) (or_fail_some j o code s)
  or_fail_some_lem (some a) code s h = goes h
  or_fail_some_lem none code s h = fail_lem code s h

  or_clean_lem :
      (P : State → Type 0) (b : Bool) (code : FailureCode) (s : State)
      → Cloned s
      → P s
      → After (Leaves j) (λ _ t. Cloned t × P t) (or_clean j b code s)
  or_clean_lem P true code s h p = goes (h, p)
  or_clean_lem P false code s h p = clean code s h

  pub load_lem : (s : State) → s.actions ≡ [] → After (Leaves j) (λ _ t. Nothing t) (load j s)
  unfolding load
  load_lem s h =
      if-After (j.has_deployment && is_queued s.db.status)
        (λ _. goes (
          update_status-At j validating (λ db. db) (meanwhile j before_validating s)
            (rw h (refl, refl, refl, refl, tt))))
        (λ _. ends h)

  refuse_if_some_lem :
      (o : Option FailureCode) (s : State)
      → Nothing s
      → After (Leaves j) (λ _ t. Nothing t) (refuse_if_some j o s)
  refuse_if_some_lem none s h = goes h
  refuse_if_some_lem (some code) s h = fail_lem code s h

  -- What the first checks have found out of the build.
  pub record Planned (plan : Plan) (s : State) : Type 0 where
    pub here : Nothing s
    pub same : plan.strategy ≡ strategy_of j
    pub isolated :
        (not (strategy_eq (strategy_of j) dockerfile_v1) || j.settings.is_remote_executor) ≡ true

  pub check_call_lem : (s : State) → Nothing s → After (Leaves j) Planned (check_call j s)
  unfolding check_call
  check_call_lem s h = >>=-After _ _ s (or_fail_some_lem j.project _ s h) λ p s h.
      >>=-After _ _ s (or_fail_some_lem _ _ s h) λ r s h.
        >>=-After _ _ s (or_fail_lem _ _ s h) λ _ s (h, _).
          >>=-After _ _ s (or_fail_lem _ _ s h) λ _ s (h, _).
            >>=-After _ _ s (or_fail_lem _ _ s h) λ _ s (h, _).
              >>=-After _ _ s (refuse_if_some_lem _ s h) λ _ s h.
                >>=-After _ _ s (or_fail_lem _ _ s h)
                  λ _ s (h, e). goes (record { here = h; same = refl; isolated = e })

  clone_step :
      {w : Bool} (n attempt : ℕ) (s : State)
      → At j w false false s.actions
      → ((t : State) → Cloned t → Cloned (clone_from j.answers.clone n (attempt + 1) t).1)
      → Cloned (clone_from j.answers.clone (suc n) attempt s).1
  unfolding clone_from
  clone_step n attempt s h k = answered (j.answers.clone attempt) refl
    where
      attempted : Cloned (act attempt_clone s)
      attempted = (refl, h.1, h.2, h.3, h.4)

      answered :
          (o : Option CloneError)
          → j.answers.clone attempt ≡ o
          → Cloned (clone_from j.answers.clone (suc n) attempt s).1
      answered none e = rw (e, clone_from) attempted
      answered (some x) e =
          elim (Bool-cases (attempt == clone_retry_attempts || not x.is_retryable)) [
            | inl t ↦ rw (e, clone_from) (rw t attempted)
            | inr t ↦
                rw (e, clone_from)
                  (rw t (
                    k (act (wait (clone_retry_backoff_ms attempt)) (act attempt_clone s))
                      attempted))
          ]

  clone_from-At :
      (n attempt : ℕ) (s : State) → Cloned s → Cloned (clone_from j.answers.clone n attempt s).1
  unfolding clone_from
  clone_from-At zero attempt s h = h
  clone_from-At (suc n) attempt s h = clone_step n attempt s h (clone_from-At n (attempt + 1))

  pub clone_lem :
      (plan : Plan) (s : State) → Nothing s → After (Leaves j) (λ _ t. Cloned t) (clone j plan s)
  unfolding clone
  clone_lem plan s h =
      if-After (plan.repository.is_public || j.answers.has_token)
        (λ _. after (clone_with_retry j.answers.clone s) (clone_step 2 1 s h (clone_from-At 2 2)))
        (λ _. fail_lem github_token_failed s h)
    where
      after :
          (x : Option CloneError × State)
          → Cloned x.1
          → After (Leaves j) (λ _ t. Cloned t) (after_clone j x)
      after (none, t) k = goes k
      after (some e, t) k = clean _ t k

  -- The lines of an owner's Dockerfile have been checked.
  abbrev pub is_checked : List Action → Bool
  is_checked log = not (strategy_eq (strategy_of j) dockerfile_v1) || has_passed_policy log

  check_policy_lem :
      (plan : Plan) (s : State)
      → plan.strategy ≡ strategy_of j
      → Cloned s
      → After (Leaves j) (λ _ t. Cloned t × (is_checked t.actions ≡ true)) (check_policy j plan s)
  check_policy_lem plan s same h =
      if-After (strategy_eq plan.strategy dockerfile_v1)
        (λ e. if-After j.answers.has_violations (λ _. clean _ s h) (λ _. goes (h, ground arith)))
        (λ e. goes (h, ground (arith, ap (λ x. strategy_eq x dockerfile_v1) same, e)))

  pub prepare_lem :
      (plan : Plan) (s : State)
      → plan.strategy ≡ strategy_of j
      → Cloned s
      → After (Leaves j) (λ _ t. Cloned t × (is_checked t.actions ≡ true)) (prepare j plan s)
  unfolding prepare
  prepare_lem plan s same h = >>=-After _ _ s (or_clean_lem (λ _. Unit) _ _ s h tt) λ _ s (h, _).
      >>=-After _ _ s (check_policy_lem plan s same h) λ _ s (h, c).
        >>=-After _ _ s (or_clean_lem (λ t. is_checked t.actions ≡ true) _ _ s h c) λ _ s (h, c).
          >>=-After _ _ s (or_clean_lem (λ t. is_checked t.actions ≡ true) _ _ s h c)
            λ _ s (h, c). or_clean_lem (λ t. is_checked t.actions ≡ true) _ _ s h c
