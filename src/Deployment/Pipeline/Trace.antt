-- ===== src/Deployment/Pipeline/Trace.antt =====
-- What the log of `runReleasePipeline` of apps/worker/src/deployment/pipeline.js may hold, and that the
-- stages up to the health check keep to it.
use hello_deploy.Prelude.{
  ℕ, ◌≡◌, refl, ap, arith, Bool, true, false, ◌&&◌, if◌then◌else◌, Option, none, some, is_some,
  List, [], ◌∷◌,
}
use hello_deploy.Contracts.Enums.{DeploymentStatus, failed}
use hello_deploy.Deployment.Status.{is_terminal}
use hello_deploy.Deployment.Pipeline.Flow.{
  FailureCode, Db, Action, State, Outcome, stop, is_closed, Answers, Job, update_status, fail,
  stop_and_fail, or_fail, container_start_failed, start_candidate, stop_candidate,
  pass_health_check, read_status, read_project, activate_routes, stop_previous, done, refused,
  threw,
}
use hello_deploy.Deployment.Pipeline.Candidate.{
  allocate, clear_stale, start, startup_check, health_check, has_crashed, settle, started,
}
use hello_deploy.Deployment.Pipeline.Publish.{is_finished, may_release}
use hello_deploy.Jobs.{After, goes, ends, >>=-After, if-After}
use hello_deploy.Deployment.Pipeline.{prepare}

-- The candidate that runs after the actions.
abbrev pub running : List Action → Option ℕ
running [] = none
running (start_candidate c ∷ log) = some c
running (stop_candidate ∷ log) = none
running (a ∷ log) = running log

abbrev pub has_stopped_previous : List Action → Bool
has_stopped_previous [] = false
has_stopped_previous (stop_previous c ∷ log) = true
has_stopped_previous (a ∷ log) = has_stopped_previous log

-- Before the routes: the project was read as active, or not found, before that the deployment as not
-- finished, or not found, and
-- before that the container that was started passed its health check.
abbrev pub IsReady : List Action → Type 0
IsReady (read_project p ∷ read_status st ∷ pass_health_check ∷ start_candidate c ∷ log) =
    (may_release p ≡ true) × (is_finished st ≡ false)
IsReady _ = ⊥

abbrev pub RoutedWhenReady : List Action → Type 0
RoutedWhenReady [] = Unit
RoutedWhenReady (activate_routes hostnames ∷ log) = IsReady log × RoutedWhenReady log
RoutedWhenReady (a ∷ log) = RoutedWhenReady log

-- The candidate's start and its removal go well.
abbrev pub is_clean : Answers → Bool
is_clean a = a.is_candidate_saved && a.is_start_logged && a.is_candidate_removed

-- A refused release runs nothing, unless its container was started and not recorded, or could not be
-- removed, and it has not touched the previous one.
abbrev pub Leaves : Answers → Outcome → List Action → Type 0
Leaves a refused log = (is_clean a ≡ true → running log ≡ none) × (has_stopped_previous log ≡ false)
Leaves a done log = (running log ≡ a.container) × (is_some a.container ≡ true)
Leaves a threw log = running log ≡ a.container

abbrev pub IsOver : Outcome → Db → Type 0
IsOver threw db = Unit
IsOver _ db = is_closed db ≡ true

pub record Idle (s : State) : Type 0 where
  pub idle : running s.actions ≡ none
  pub before : has_stopped_previous s.actions ≡ false
  pub routed : RoutedWhenReady s.actions

pub record Ends (j : Job) (o : Outcome) (s : State) : Type 0 where
  pub leaves : Leaves j.answers o s.actions
  pub over : IsOver o s.db
  pub routed : RoutedWhenReady s.actions

-- The container of the candidate runs, and its log is that of a release on its way.
pub record Started (j : Job) (c : ℕ) (s : State) : Type 0 where
  pub log : List Action
  pub same : s.actions ≡ start_candidate c ∷ log
  pub own : j.answers.container ≡ some c
  pub before : has_stopped_previous log ≡ false
  pub routed : RoutedWhenReady log

pub record Passed (j : Job) (c : ℕ) (s : State) : Type 0 where
  pub log : List Action
  pub same : s.actions ≡ pass_health_check ∷ start_candidate c ∷ log
  pub own : j.answers.container ≡ some c
  pub before : has_stopped_previous log ≡ false
  pub routed : RoutedWhenReady log

pub record Live (j : Job) (s : State) : Type 0 where
  pub live : running s.actions ≡ j.answers.container
  pub own : is_some j.answers.container ≡ true
  pub before : has_stopped_previous s.actions ≡ false
  pub routed : RoutedWhenReady s.actions

pub update_status-over :
    (j : Job) (to : DeploymentStatus) (extra : Db → Db) (s : State)
    → is_terminal to ≡ true
    → is_closed (update_status j to extra s).db ≡ true
unfolding update_status is_terminal
update_status-over j to extra s t = ground arith

pub fail_lem :
    (j : Job) (code : FailureCode) (s : State)
    → (is_clean j.answers ≡ true → running s.actions ≡ none)
    → has_stopped_previous s.actions ≡ false
    → RoutedWhenReady s.actions
    → Ends j refused (update_status j failed (λ db. record db { failure_code = some code }) s)
unfolding update_status is_terminal
fail_lem j code s i b r = ground arith

or_fail_lem :
    (j : Job) (b : Bool) (code : FailureCode) (s : State)
    → Idle s
    → After (Ends j) (λ _ t. Idle t) (or_fail j b code s)
unfolding fail
or_fail_lem j true code s h = goes h
or_fail_lem j false code s h = ends (fail_lem j code s (λ _. h.idle) h.before h.routed)

clear_stale_lem : (j : Job) (s : State) → Idle s → After (Ends j) (λ _ t. Idle t) (clear_stale j s)
unfolding clear_stale
clear_stale_lem j s h = goes (ground arith)

pub stop-RoutedWhenReady :
    (b : Bool) (log : List Action)
    → RoutedWhenReady log
    → RoutedWhenReady (if b then stop_candidate ∷ log else log)
stop-RoutedWhenReady true log r = r
stop-RoutedWhenReady false log r = r

-- The candidate is stopped, whatever was checked before.
pub stop_lem :
    {Q : Unit {0} → State → Type 0} (j : Job) (code : FailureCode) (s : State)
    → has_stopped_previous s.actions ≡ false
    → RoutedWhenReady s.actions
    → After (Ends j) Q (stop_and_fail j code s)
unfolding fail
stop_lem j code s b r = ends (
    fail_lem j code (stop j s) (λ k. ground (arith, k)) (ground (arith, b))
      (stop-RoutedWhenReady _ s.actions r))

start_lem : (j : Job) (s : State) → Idle s → After (Ends j) (Started j) (start j s)
unfolding start fail
start_lem j s h = with_container j.answers.container refl
  where
    with_container :
        (o : Option ℕ) → j.answers.container ≡ o → After (Ends j) (Started j) (started j o s)
    with_container none e =
        ends (fail_lem j container_start_failed s (λ _. h.idle) h.before h.routed)
    with_container (some c) e =
        if-After j.answers.is_candidate_saved
          (λ _.
            if-After j.answers.is_start_logged
              (λ _. goes (record {
                log = s.actions;
                same = refl;
                own = e;
                before = h.before;
                routed = h.routed;
              }))
              (λ f. ends (
                fail_lem j container_start_failed _ (λ t. absurd (ground (arith, f, t))) h.before
                  h.routed)))
          (λ f. ends (
            fail_lem j container_start_failed _ (λ t. absurd (ground (arith, f, t))) h.before
              h.routed))

startup_check_lem :
    (j : Job) (c : ℕ) (s : State)
    → Started j c s
    → After (Ends j) (λ _ t. Started j c t) (startup_check j s)
unfolding startup_check
startup_check_lem j c s h =
    if-After (has_crashed (settle j.answers.first_state j.answers.later_states))
      (λ _. stop_lem j _ s (ground (arith, h.same, h.before)) (rw (h.same) h.routed)) (λ _. goes h)

health_check_lem :
    (j : Job) (c : ℕ) (s : State)
    → Started j c s
    → After (Ends j) (λ _ t. Passed j c t) (health_check j s)
unfolding health_check
health_check_lem j c s h =
    if-After j.answers.is_healthy
      (λ _. goes (record {
        log = h.log;
        same = ap (λ l. pass_health_check ∷ l) h.same;
        own = h.own;
        before = h.before;
        routed = h.routed;
      }))
      (λ _. stop_lem j _ s (ground (arith, h.same, h.before)) (rw (h.same) h.routed))

pub prepare_lem : (j : Job) (s : State) → Idle s → After (Ends j) (Passed j) (prepare j s)
unfolding prepare allocate
prepare_lem j s h = >>=-After _ _ s (or_fail_lem j _ _ s h) λ _ t h.
    >>=-After _ _ t (or_fail_lem j _ _ t h) λ _ t h.
      >>=-After _ _ t (or_fail_lem j _ _ t h) λ _ t h.
        >>=-After _ _ t (clear_stale_lem j t h) λ _ t h. >>=-After _ _ t (start_lem j t h) λ c t h.
          >>=-After _ _ t (startup_check_lem j c t h)
            λ _ t h. >>=-After _ _ t (health_check_lem j c t h) λ _ t h. goes h
