-- ===== src/Deployment/Pipeline/Requirements.antt =====
-- What `runReleasePipeline` of apps/worker/src/deployment/pipeline.js requires, and that the stages up
-- to the health check fail with the first requirement that does not hold.
use hello_deploy.Prelude.{
  ℕ, ◌≡◌, refl, arith, Bool, true, false, ◌&&◌, ◌||◌, not, if◌then◌else◌, Option, none, some,
  is_some, or_else, List, [], ◌∷◌, ◌++◌,
}
use hello_deploy.Contracts.Enums.{ProjectStatus, failed}
use hello_deploy.Jobs.{Stage, ◌>>=◌, next}
use hello_deploy.Deployment.Pipeline.Flow.{
  FailureCode, Db, project_of, is_closed, Action, State, Outcome, M, act, Job, update_status, fail,
  stop_and_fail, or_fail, port_allocation_failed, network_setup_failed, secret_decryption_failed,
  container_start_failed, container_crashed_on_startup, project_not_active, subdomain_invalid,
  nginx_route_failed, route_not_connected, pass_health_check, refused,
}
use hello_deploy.Deployment.Pipeline.Candidate.{
  allocate, clear_stale, start, startup_check, health_check, has_crashed, settle, started,
  unhealthy_code,
}
use hello_deploy.Deployment.Pipeline.Publish.{may_release, is_usable, subdomain_of}
use hello_deploy.Jobs.Requirements.{first_failure}
use hello_deploy.Jobs.Requirements
use hello_deploy.Jobs.{goes, ends}
use hello_deploy.Deployment.Pipeline.{prepare}

abbrev pub is_routable : Job → Bool
is_routable j = is_usable (subdomain_of j)

abbrev pub container_started : Job → Bool × FailureCode
container_started j = (
  is_some j.answers.container && j.answers.is_candidate_saved && j.answers.is_start_logged,
  container_start_failed,
)

abbrev pub startup_survived : Job → Bool × FailureCode
startup_survived j = (
  not (has_crashed (settle j.answers.first_state j.answers.later_states)),
  or_else j.answers.diagnosis container_crashed_on_startup,
)

abbrev pub health_passed : Job → Bool × FailureCode
health_passed j = (j.answers.is_healthy, unhealthy_code j.answers)

abbrev pub routing_requirements : Job → List (Bool × FailureCode)
routing_requirements j =
    (j.options.nginx_enabled || j.options.allow_unrouted_releases, route_not_connected)
    ∷ (
      not j.options.nginx_enabled || is_routable j || not j.options.fail_on_invalid_subdomain,
      subdomain_invalid,
    )
    ∷ (
      not j.options.nginx_enabled || not (is_routable j) || j.answers.are_routes_activated,
      nginx_route_failed,
    )
    ∷ []

abbrev pub candidate_requirements : Job → List (Bool × FailureCode)
candidate_requirements j =
    (is_some j.answers.port, port_allocation_failed)
    ∷ (j.answers.has_network, network_setup_failed)
    ∷ (j.answers.has_secrets, secret_decryption_failed)
    ∷ container_started j
    ∷ startup_survived j
    ∷ health_passed j
    ∷ []

abbrev pub publish_requirements : Job → Option ProjectStatus → List (Bool × FailureCode)
publish_requirements j project = (may_release project, project_not_active) ∷ routing_requirements j

abbrev pub requirements : Job → Option ProjectStatus → List (Bool × FailureCode)
requirements j project = candidate_requirements j ++ publish_requirements j project

-- What a stage leaves where it goes on, and where it fails.
pub record Kept (before : Db) (s : State) : Type 0 where
  pub unfinished : is_closed s.db ≡ false
  pub project : project_of s.db ≡ project_of before
  pub pointer : s.db.active_deployment_id ≡ before.active_deployment_id
  pub previous : s.db.previous ≡ before.previous

pub record Failed (before : Db) (code : FailureCode) (o : Outcome) (s : State) : Type 0 where
  pub refusal : o ≡ refused
  pub status : s.db.status ≡ failed
  pub saved : s.db.failure_code ≡ some code
  pub pointer : s.db.active_deployment_id ≡ before.active_deployment_id
  pub previous : s.db.previous ≡ before.previous

-- A stage fails with the first of its requirements that does not hold.
abbrev pub Fulfils :
    {A : Type 0}
    → Db
    → List (Bool × FailureCode)
    → (A → State → Type 0)
    → Stage Outcome State A
    → Type 0
Fulfils before reqs Q x = Requirements.Fulfils (Failed before) reqs Q x

-- Where it goes on, it keeps the documents.
abbrev pub Meets :
    {A : Type 0} → Db → List (Bool × FailureCode) → (A → Type 0) → Stage Outcome State A → Type 0
Meets before reqs P = Fulfils before reqs (λ a t. Kept before t × P a)

pub both :
    {A B : Type 0} (before : Db) (reqs rest : List (Bool × FailureCode)) {P : A → Type 0}
    {Q : B → State → Type 0} (m : M A) (f : A → M B) (s : State)
    → Meets before reqs P (m s)
    → ((a : A) (t : State) → Kept before t → P a → Fulfils before rest Q (f a t))
    → Fulfils before (reqs ++ rest) Q ((m >>= f) s)
both before reqs rest m f s h k =
    Requirements.both (Failed before) reqs rest m f s h (λ a t (kept, p). k a t kept p)

-- `fail` where the deployment is not finished.
pub fail_lem :
    (j : Job) (before : Db) (code : FailureCode) (s : State)
    → Kept before s
    → Failed before code refused
        (update_status j failed (λ db. record db { failure_code = some code }) s)
unfolding update_status
fail_lem j before code s h = ground arith

pub same_db :
    {before : Db} {s : State} {log : List Action}
    → Kept before s
    → Kept before (record s { actions = log })
same_db h = record {
  unfinished = h.unfinished;
  project = h.project;
  pointer = h.pointer;
  previous = h.previous;
}

or_fail-Meets :
    (j : Job) (before : Db) (b : Bool) (code : FailureCode) (s : State)
    → Kept before s
    → Meets before ((b, code) ∷ []) (λ _. Unit {0}) (or_fail j b code s)
unfolding fail
or_fail-Meets j before true code s h = goes (refl, (h, tt))
or_fail-Meets j before false code s h = ends (code, refl, fail_lem j before code s h)

clear_stale-Meets :
    (j : Job) (before : Db) (s : State)
    → Kept before s
    → Meets before [] (λ _. Unit {0}) (clear_stale j s)
unfolding clear_stale
clear_stale-Meets j before s h = goes (refl, (ground arith, tt))

start-Meets :
    (j : Job) (before : Db) (s : State)
    → Kept before s
    → Meets before (container_started j ∷ []) (λ c. j.answers.container ≡ some c) (start j s)
unfolding start fail
start-Meets j before s h =
    with_container j.answers.container j.answers.is_candidate_saved j.answers.is_start_logged refl
      refl refl
  where
    with_container :
        (o : Option ℕ) (b l : Bool)
        → j.answers.container ≡ o
        → j.answers.is_candidate_saved ≡ b
        → j.answers.is_start_logged ≡ l
        → Meets before
            ((is_some o && b && l, container_start_failed) ∷ [])
            (λ c. j.answers.container ≡ some c)
            (started j o s)
    with_container none b l e f g =
        ends (container_start_failed, refl, fail_lem j before container_start_failed s h)
    with_container (some c) true true e f g =
        simp (f, g, if◌then◌else◌)
          (goes (
            refl,
            (
              record {
                unfinished = h.unfinished;
                project = h.project;
                pointer = h.pointer;
                previous = h.previous;
              },
              e,
            ),
          ))
    with_container (some c) true false e f g =
        simp (f, g, if◌then◌else◌)
          (ends (
            container_start_failed,
            refl,
            fail_lem j before container_start_failed _ (record {
              unfinished = h.unfinished;
              project = h.project;
              pointer = h.pointer;
              previous = h.previous;
            }),
          ))
    with_container (some c) false l e f g =
        simp (f, if◌then◌else◌)
          (ends
            (container_start_failed, refl, fail_lem j before container_start_failed _ (same_db h)))

startup_check-Meets :
    (j : Job) (before : Db) (s : State)
    → Kept before s
    → Meets before
        ((
          not (has_crashed (settle j.answers.first_state j.answers.later_states)),
          or_else j.answers.diagnosis container_crashed_on_startup,
        )
          ∷ [])
        (λ _. Unit {0})
        (startup_check j s)
unfolding startup_check fail
startup_check-Meets j before s h =
    crashed (has_crashed (settle j.answers.first_state j.answers.later_states))
  where
    crashed :
        (b : Bool)
        → Meets before
            ((not b, or_else j.answers.diagnosis container_crashed_on_startup) ∷ [])
            (λ _. Unit {0})
            (if b
              then stop_and_fail j (or_else j.answers.diagnosis container_crashed_on_startup) s
              else next tt s)
    crashed true = ends (_, refl, fail_lem j before _ _ (same_db h))
    crashed false = goes (refl, (h, tt))

health_check-Meets :
    (j : Job) (before : Db) (s : State)
    → Kept before s
    → Meets before
        ((j.answers.is_healthy, unhealthy_code j.answers) ∷ [])
        (λ _. Unit {0})
        (health_check j s)
unfolding health_check fail
health_check-Meets j before s h = checked j.answers.is_healthy
  where
    checked :
        (b : Bool)
        → Meets before
            ((b, unhealthy_code j.answers) ∷ [])
            (λ _. Unit {0})
            (if b
              then next tt (act pass_health_check s)
              else stop_and_fail j (unhealthy_code j.answers) s)
    checked true = goes (refl, (same_db h, tt))
    checked false = ends (_, refl, fail_lem j before _ _ (same_db h))

pub prepare-Meets :
    (j : Job) (before : Db) (s : State)
    → Kept before s
    → Meets before (candidate_requirements j) (λ c. j.answers.container ≡ some c) (prepare j s)
unfolding prepare allocate
prepare-Meets j before s h =
    both before (_ ∷ []) _ _ _ s (or_fail-Meets j before _ _ s h) λ _ t h _.
      both before (_ ∷ []) _ _ _ t (or_fail-Meets j before _ _ t h) λ _ t h _.
        both before (_ ∷ []) candidate _ _ t (or_fail-Meets j before _ _ t h) λ _ t h _.
          both before [] candidate _ _ t (clear_stale-Meets j before t h) λ _ t h _.
            both before (_ ∷ []) (startup_survived j ∷ health_passed j ∷ []) _ _ t
              (start-Meets j before t h)
              λ c t h e.
                both before (_ ∷ []) (health_passed j ∷ []) _ _ t (startup_check-Meets j before t h)
                  λ _ t h _.
                    both before (_ ∷ []) [] _ _ t (health_check-Meets j before t h)
                      λ _ t h _. goes (refl, (h, e))
  where
    candidate : List (Bool × FailureCode)
    candidate = container_started j ∷ startup_survived j ∷ health_passed j ∷ []
