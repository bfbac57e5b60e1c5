-- ===== src/Deployment/Pipeline/Safety.antt =====
-- What `runReleasePipeline` of apps/worker/src/deployment/pipeline.js leaves behind on every way out,
-- whatever others do to the documents meanwhile.
use hello_deploy.Prelude.{
  ℕ, ◌≡◌, ◌≢◌, refl, ap, arith, Bool, true, false, Option, none, some, is_some, List, [], ◌∷◌, Text,
}
use hello_deploy.Contracts.Enums.{DeploymentStatus}
use hello_deploy.Deployment.Status.{is_terminal}
use hello_deploy.Jobs.{Stage, next, ended}
use hello_deploy.Deployment.Pipeline.Flow.{
  Previous, Db, deployment_of, project_of, is_closed, Action, State, Outcome, Job, update_status,
  meanwhile, start_candidate, pass_health_check, read_status, done, refused, threw,
  before_project_check, before_routing,
}
use hello_deploy.Deployment.Pipeline.Publish.{
  status_check, project_check, route, route_subdomain, publish_routes, persist, commit,
  retire_previous, retire, retire_container, save_healthy, is_finished, may_release, check_status,
  is_usable, subdomain_of,
}
use hello_deploy.Jobs.{After, goes, ends, >>=-After, if-After}
use hello_deploy.Deployment.Pipeline.Trace.{
  running, has_stopped_previous, IsReady, RoutedWhenReady, IsOver, Idle, Ends, Passed, Live,
  stop_lem, stop-RoutedWhenReady, prepare_lem,
}
use hello_deploy.Deployment.Pipeline.{prepare, publish, outcome, run_release_pipeline}

-- A checked release: its log says that it may be routed.
record Checked (j : Job) (s : State) : Type 0 where
  live : Live j s
  ready : IsReady s.actions

record Checking (j : Job) (c : ℕ) (s : State) : Type 0 where
  log : List Action
  status : Option DeploymentStatus
  same : s.actions ≡ read_status status ∷ pass_health_check ∷ start_candidate c ∷ log
  unfinished : is_finished status ≡ false
  own : j.answers.container ≡ some c
  before : has_stopped_previous log ≡ false
  routed : RoutedWhenReady log

check_status_lem :
    (j : Job) (c : ℕ) (s : State)
    → Passed j c s
    → After (Ends j) (λ _ t. Checking j c t) (check_status j s)
check_status_lem j c s h =
    if-After (is_finished (deployment_of s.db))
      (λ e. ends (record {
        leaves = ((λ k. ground (arith, k)), ground (arith, h.same, h.before));
        over = ground (arith, e);
        routed =
            stop-RoutedWhenReady j.answers.is_candidate_removed
              (read_status (deployment_of s.db) ∷ s.actions) (rw (h.same) h.routed);
      }))
      (λ e. goes (record {
        log = h.log;
        status = deployment_of s.db;
        same = ap (λ l. read_status (deployment_of s.db) ∷ l) h.same;
        unfinished = e;
        own = h.own;
        before = h.before;
        routed = h.routed;
      }))

status_check_lem :
    (j : Job) (c : ℕ) (s : State)
    → Passed j c s
    → After (Ends j) (λ _ t. Checking j c t) (status_check j s)
unfolding status_check
status_check_lem j c s h =
    check_status_lem j c _
      (record { log = h.log; same = h.same; own = h.own; before = h.before; routed = h.routed })

project_check_lem :
    (j : Job) (c : ℕ) (s : State)
    → Checking j c s
    → After (Ends j) (λ _ t. Checked j t) (project_check j s)
unfolding project_check
project_check_lem j c s h =
    let p = project_of (j.others before_project_check s.db) in
    if-After (may_release p)
      (λ e. goes (record {
        live = record {
          live = ground (arith, h.same, h.own);
          own = ground (arith, h.own);
          before = ground (arith, h.same, h.before);
          routed = rw (h.same) h.routed;
        };
        ready = rw (h.same) (e, h.unfinished);
      }))
      (λ e. stop_lem j _ _ (ground (arith, h.same, h.before)) (rw (h.same) h.routed))

publish_routes_lem :
    (j : Job) (s : State) → Checked j s → After (Ends j) (λ _ t. Live j t) (publish_routes j s)
publish_routes_lem j s h =
    if-After j.answers.are_routes_activated
      (λ _. goes (record {
        live = h.live.live;
        own = h.live.own;
        before = h.live.before;
        routed = (h.ready, h.live.routed);
      }))
      (λ _. stop_lem j _ s h.live.before h.live.routed)

persist_lem : (j : Job) (o : Option Text) (s : State) → Live j s → Live j (persist j o s)
persist_lem j o s h = ground arith

route_subdomain_lem :
    (j : Job) (b : Bool) (s : State)
    → Checked j s
    → After (Ends j) (λ _ t. Live j t) (route_subdomain j b s)
route_subdomain_lem j true s h =
    >>=-After _ _ s (publish_routes_lem j s h) λ _ t k. goes (persist_lem j _ t k)
route_subdomain_lem j false s h =
    if-After j.options.fail_on_invalid_subdomain (λ _. stop_lem j _ s h.live.before h.live.routed)
      (λ _. goes h.live)

route_lem : (j : Job) (s : State) → Checked j s → After (Ends j) (λ _ t. Live j t) (route j s)
unfolding route
route_lem j s h =
    let t = meanwhile j before_routing s in
    let k : Checked j t = record {
      live = record {
        live = h.live.live;
        own = h.live.own;
        before = h.live.before;
        routed = h.live.routed;
      };
      ready = h.ready;
    } in
    if-After j.options.nginx_enabled (λ _. route_subdomain_lem j (is_usable (subdomain_of j)) t k)
      (λ _.
        if-After j.options.allow_unrouted_releases (λ _. goes k.live)
          (λ _. stop_lem j _ t k.live.before k.live.routed))

-- The release is the project's, whether or not its status could be written.
record Committed (j : Job) (s : State) : Type 0 where
  live : running s.actions ≡ j.answers.container
  own : is_some j.answers.container ≡ true
  over : is_closed s.db ≡ true
  routed : RoutedWhenReady s.actions

save_healthy_lem :
    (j : Job) (c : ℕ) (s : State)
    → Live j s
    → After (Ends j) (λ _ t. Committed j t) (save_healthy j c s)
unfolding update_status is_terminal
save_healthy_lem j c s h =
    if-After j.answers.is_status_saved (λ _. goes (ground arith))
      (λ _. ends (record { leaves = h.live; over = tt; routed = h.routed }))

commit_lem :
    (j : Job) (c : ℕ) (s : State) → Live j s → After (Ends j) (λ _ t. Committed j t) (commit j c s)
unfolding commit
commit_lem j c s h =
    >>=-After {Q = λ _ t. Live j t} _ _ s
      (if-After j.answers.is_pointer_saved
        (λ _. goes (record { live = h.live; own = h.own; before = h.before; routed = h.routed }))
        (λ _. ends (record { leaves = h.live; over = tt; routed = h.routed })))
      λ p t k.
        >>=-After _ _ t
          (save_healthy_lem j c _
            (record { live = k.live; own = k.own; before = k.before; routed = k.routed }))
          λ _ u l. goes l

retire_lem :
    (j : Job) (p : Option Previous) (s : State) → Committed j s → Ends j done (retire j p s)
retire_lem j none s h = record { leaves = (h.live, h.own); over = h.over; routed = h.routed }
retire_lem j (some p) s h = retired p.active_container_id
  where
    retired : (c : Option ℕ) → Ends j done (retire_container j c s)
    retired none = record { leaves = (h.live, h.own); over = h.over; routed = h.routed }
    retired (some c) = ground arith

publish_lem :
    (j : Job) (c : ℕ) (s : State)
    → Passed j c s
    → After (Ends j) (λ _ t. Ends j done t) (publish j c s)
unfolding publish retire_previous
publish_lem j c s h = >>=-After _ _ s (status_check_lem j c s h) λ _ t h.
    >>=-After _ _ t (project_check_lem j c t h) λ _ t h.
      >>=-After _ _ t (route_lem j t h)
        λ _ t h. >>=-After _ _ t (commit_lem j c t h) λ p t h. goes (retire_lem j p t h)

run-Ends :
    (j : Job) (s : State)
    → s.actions ≡ []
    → Ends j (run_release_pipeline j s).0 (run_release_pipeline j s).1
unfolding run_release_pipeline
run-Ends j s e =
    at_outcome _ (>>=-After (prepare j) (publish j) s (prepare_lem j s start) (publish_lem j))
  where
    start : Idle s
    start = record { idle = ground (arith, e); before = ground (arith, e); routed = rw e tt }

    at_outcome :
        (x : Stage Outcome State (Unit {0}))
        → After (Ends j) (λ _ t. Ends j done t) x
        → Ends j (outcome x).0 (outcome x).1
    at_outcome (next a t) (After.goes h) = h
    at_outcome (ended o t) (After.ends h) = h

-- Whatever others do meanwhile, routes are activated only after the project was read, and was active
-- or not found, just before that the deployment, which was not finished or not found, and before
-- that the started container passed its health check.
pub routed_only_when_ready :
    (j : Job) (s : State) → s.actions ≡ [] → RoutedWhenReady (run_release_pipeline j s).1.actions
routed_only_when_ready j s e = (run-Ends j s e).routed

-- Whatever others do meanwhile, a pipeline that does not throw leaves its deployment in a terminal
-- status, unless its document was deleted, so it does not block the project's next deployment.
pub pipeline_ends_terminal :
    (j : Job) (s : State)
    → s.actions ≡ []
    → ((run_release_pipeline j s).0 ≢ threw)
    → (run_release_pipeline j s).1.db.has_deployment ≡ true
    → is_terminal (run_release_pipeline j s).1.db.status ≡ true
pipeline_ends_terminal j s e n has =
    let (o, t) = run_release_pipeline j s in by_outcome o t.db n has (run-Ends j s e).over
  where
    by_outcome :
        (o : Outcome) (db : Db)
        → o ≢ threw
        → db.has_deployment ≡ true
        → IsOver o db
        → is_terminal db.status ≡ true
    by_outcome done db n has h = ground (arith, has, h)
    by_outcome refused db n has h = ground (arith, has, h)
    by_outcome threw db n has h = absurd (n refl)
