-- ===== src/Deployment/Build/Cloning.antt =====
-- The retries of `cloneWithRetry` of apps/worker/src/jobs/build-deployment.job.js.
use hello_deploy.Prelude.{
  ◌∙◌, ℕ, suc, ◌+◌, ◌==◌, ◌≡◌, refl, Bool, true, false, not, Option, none, some, if◌then◌else◌,
}
use hello_deploy.Deployment.Build.Flow.{State, CloneError, act, attempt_clone, wait}
use hello_deploy.Deployment.Build.Stages.{
  clone_retry_attempts, clone_retry_backoff_ms, clone_from, clone_with_retry,
}

-- An answer after which another attempt may help.
abbrev pub is_transient : Option CloneError → Bool
is_transient none = false
is_transient (some e) = e.is_retryable

abbrev pub tried : State → State
tried s = act attempt_clone s

abbrev pub waited : ℕ → State → State
waited ms s = act (wait ms) s

clone_from_step :
    (answer_of : ℕ → Option CloneError) (n attempt : ℕ) (s : State)
    → (attempt == clone_retry_attempts) ≡ false
    → clone_from answer_of (suc n) attempt s ≡ (
        if is_transient (answer_of attempt)
        then clone_from answer_of n
            (attempt + 1)
            (waited (clone_retry_backoff_ms attempt) (tried s))
        else (answer_of attempt, tried s))
unfolding clone_from
clone_from_step answer_of n attempt s h = answered (answer_of attempt) refl
  where
    retried :
        (r l : Bool)
        → answer_of attempt ≡ some (record { is_retryable = r; is_local = l })
        → clone_from answer_of (suc n) attempt s ≡ (
            if is_transient (answer_of attempt)
            then clone_from answer_of n
                (attempt + 1)
                (waited (clone_retry_backoff_ms attempt) (tried s))
            else (answer_of attempt, tried s))
    retried true l e = rw (e, clone_from, h) refl
    retried false l e = rw (e, clone_from, h) refl

    answered :
        (o : Option CloneError)
        → answer_of attempt ≡ o
        → clone_from answer_of (suc n) attempt s ≡ (
            if is_transient (answer_of attempt)
            then clone_from answer_of n
                (attempt + 1)
                (waited (clone_retry_backoff_ms attempt) (tried s))
            else (answer_of attempt, tried s))
    answered none e = rw (e, clone_from) refl
    answered (some x) e = retried x.is_retryable x.is_local e

clone_from_last :
    (answer_of : ℕ → Option CloneError) (n : ℕ) (s : State)
    → clone_from answer_of (suc n) 3 s ≡ (answer_of 3, tried s)
unfolding clone_from
clone_from_last answer_of n s = answered (answer_of 3) refl
  where
    answered :
        (o : Option CloneError)
        → answer_of 3 ≡ o
        → clone_from answer_of (suc n) 3 s ≡ (answer_of 3, tried s)
    answered none e = rw (e, clone_from) refl
    answered (some x) e = rw (e, clone_from) refl

-- Whatever the attempts answer, there are at most three, the second 3 seconds after the first and the
-- third 9 seconds after the second; each follows a transient error alone; and the result is the last
-- attempt's.
pub clone_with_retry_lem :
    (answer_of : ℕ → Option CloneError) (s : State)
    → clone_with_retry answer_of s ≡ (
        if not (is_transient (answer_of 1))
        then (answer_of 1, tried s)
        else if not (is_transient (answer_of 2))
        then (answer_of 2, tried (waited 3000 (tried s)))
        else (answer_of 3, tried (waited 9000 (tried (waited 3000 (tried s))))))
clone_with_retry_lem answer_of s =
    rw (clone_from_step answer_of 2 1 s refl) (by_first (is_transient (answer_of 1)))
  where
    by_second :
        (b : Bool)
        → (if b
            then clone_from answer_of 1 3 (waited 9000 (tried (waited 3000 (tried s))))
            else (answer_of 2, tried (waited 3000 (tried s))))
          ≡ (if not b
              then (answer_of 2, tried (waited 3000 (tried s)))
              else (answer_of 3, tried (waited 9000 (tried (waited 3000 (tried s))))))
    by_second true = clone_from_last answer_of 0 (waited 9000 (tried (waited 3000 (tried s))))
    by_second false = refl

    by_first :
        (b : Bool)
        → (if b then clone_from answer_of 2 2 (waited 3000 (tried s)) else (answer_of 1, tried s))
          ≡ (if not b
              then (answer_of 1, tried s)
              else if not (is_transient (answer_of 2))
              then (answer_of 2, tried (waited 3000 (tried s)))
              else (answer_of 3, tried (waited 9000 (tried (waited 3000 (tried s))))))
    by_first true =
        clone_from_step answer_of 1 2 (waited 3000 (tried s)) refl
        ∙ by_second (is_transient (answer_of 2))
    by_first false = refl
