-- ===== src/Deployment/Pipeline/Cancelled.antt =====
-- A cancellation between the last checks of `runReleasePipeline` of
-- apps/worker/src/deployment/pipeline.js and its last write.
use hello_deploy.Prelude.{
  ℕ, ◌≡◌, ◌≢◌, refl, ap, ◌∙◌, arith, Bool, true, false, Option, none, some, or_else, List, [],
}
use hello_deploy.Contracts.Enums.{DeploymentStatus, healthy, cancelled}
use hello_deploy.Deployment.Status.{is_terminal}
use hello_deploy.Jobs.{Stage, ◌>>=◌, next, ended}
use hello_deploy.Deployment.Pipeline.Flow.{
  FailureCode, Previous, Db, project_of, State, Outcome, Point, Job, update_status, meanwhile, done,
  before_pointer, before_healthy,
}
use hello_deploy.Deployment.Pipeline.Publish.{
  commit, retire_previous, retire, retire_container, find_previous,
}
use hello_deploy.Deployment.Pipeline.Trace.{has_stopped_previous}
use hello_deploy.Jobs.Requirements.{first_failure}
use hello_deploy.Deployment.Pipeline.Requirements.{
  candidate_requirements, publish_requirements, requirements, Kept, Fulfils, both, prepare-Meets,
}
use hello_deploy.Deployment.Pipeline.Quiet.{publish-Fulfils}
use hello_deploy.Jobs.{After, goes, >>=-After, if-After}
use hello_deploy.Deployment.Pipeline.{prepare, publish, outcome, run_release_pipeline}

-- The only change that others make: `cancelDeployment`, after the routes and before the last write.
abbrev pub CancelledLast : Job → Type 0
CancelledLast j =
    ((p : Point) (db : Db) → p ≢ before_healthy → j.others p db ≡ db)
    × ((db : Db) → j.others before_healthy db ≡ record db { status = cancelled })

record Pointed (j : Job) (r : Option Previous) (c : ℕ) (t : State) : Type 0 where
  found : (p : Previous) × (r ≡ some p) × (p.active_container_id ≡ some c)
  pointer : t.db.active_deployment_id ≡ some j.id

record Replaced (j : Job) (s : State) : Type 0 where
  status : s.db.status ≡ cancelled
  pointer : s.db.active_deployment_id ≡ some j.id
  stopped : has_stopped_previous s.actions ≡ true

found_previous :
    (id : Option ℕ) (i : ℕ) (db : Db) (p : Previous)
    → id ≡ some i
    → db.previous ≡ some p
    → find_previous id db ≡ some p
found_previous none i db p e q = cc
found_previous (some k) i db p e q = q

retire-Replaced :
    (j : Job) (r : Option Previous) (c : ℕ) (s : State)
    → j.answers.is_previous_stopped ≡ true
    → Pointed j r c s
    → s.db.status ≡ cancelled
    → Replaced j (retire j r s)
retire-Replaced j none c s b h e = let (p, q, _) = h.found in cc
retire-Replaced j (some p) c s b h e =
    let (x, q, g) = h.found in
    retired p.active_container_id (ap (λ o. (or_else o p).active_container_id) q ∙ g)
  where
    retired : (o : Option ℕ) → o ≡ some c → Replaced j (retire_container j o s)
    retired none g = cc
    retired (some d) g = ground (arith, b, e, h.pointer)

cancelled_stays :
    (j : Job) (to : DeploymentStatus) (extra : Db → Db) (s : State)
    → s.db.status ≡ cancelled
    → update_status j to extra s ≡ s
unfolding update_status is_terminal
cancelled_stays j to extra s e = ground (arith, e)

commit-Pointed :
    (j : Job) (E : Outcome → State → Type 0) (s : State) (c i : ℕ) (d : ℕ) (p : Previous)
    → CancelledLast j
    → j.answers.is_pointer_saved ≡ true
    → j.answers.is_status_saved ≡ true
    → j.active_deployment_id ≡ some i
    → s.db.previous ≡ some p
    → p.active_container_id ≡ some d
    → After E (λ r t. Pointed j r d t × (t.db.status ≡ cancelled)) (commit j c s)
unfolding commit
commit-Pointed j E s c i d p (quiet, cancel) w v e f g =
    >>=-After {Q = λ r t. Pointed j r d t} _ _ s
      (if-After j.answers.is_pointer_saved
        (λ _. goes (record {
          found = (
            p,
            found_previous j.active_deployment_id i _ p e
                (rw (quiet before_pointer s.db (λ q. cc)) f),
            g,
          );
          pointer = refl;
        }))
        (λ x. absurd (ground (arith, w, x))))
      λ r t k.
        >>=-After _ _ t
          (if-After j.answers.is_status_saved (λ _. goes (cancelled_here c r d t k))
            (λ x. absurd (ground (arith, v, x))))
          λ _ u l. goes l
  where
    cancelled_here :
        (c : ℕ) (r : Option Previous) (d : ℕ) (t : State)
        → Pointed j r d t
        → (let u =
              update_status j healthy
                (λ db. record db { active_container_id = some c })
                (meanwhile j before_healthy t) in
            Pointed j r d u × (u.db.status ≡ cancelled))
    cancelled_here c r d t k =
        let e = ap (λ db. db.status) (cancel t.db) in
        let f = ap (λ db. db.active_deployment_id) (cancel t.db) ∙ k.pointer in
        rw
          (cancelled_stays j healthy (λ db. record db { active_container_id = some c })
            (meanwhile j before_healthy t) e)
          (record { found = k.found; pointer = f }, e)

-- Where nobody changes the documents but for a cancellation just before the last write, the
-- deployment exists and is not finished, all requirements hold and the previous release's container can be stopped: the job reports success,
-- the deployment stays CANCELLED, the project points to it, and the previous container is stopped.
pub cancelled_release_replaces :
    (j : Job) (s : State) (i d : ℕ) (p : Previous)
    → CancelledLast j
    → s.db.has_deployment ≡ true
    → is_terminal s.db.status ≡ false
    → first_failure (requirements j (project_of s.db)) ≡ none
    → j.answers.is_pointer_saved ≡ true
    → j.answers.is_status_saved ≡ true
    → j.answers.is_previous_stopped ≡ true
    → j.active_deployment_id ≡ some i
    → s.db.previous ≡ some p
    → p.active_container_id ≡ some d
    → ((run_release_pipeline j s).0 ≡ done)
      × ((run_release_pipeline j s).1.db.status ≡ cancelled)
      × ((run_release_pipeline j s).1.db.active_deployment_id ≡ some j.id)
      × (has_stopped_previous (run_release_pipeline j s).1.actions ≡ true)
unfolding run_release_pipeline retire_previous
cancelled_release_replaces j s i d p cancel x u met w v b e f g =
    replaced (requirements j (project_of s.db)) _ met (
      both s.db (candidate_requirements j) (publish_requirements j (project_of s.db)) (prepare j)
        (publish j) s (prepare-Meets j s.db s start)
        λ c t h _. publish-Fulfils j s.db c t (cancel.0) h λ t h. last c t h)
  where
    start : Kept s.db s
    start = record {
      unfinished = ground (arith, x, u);
      project = refl;
      pointer = refl;
      previous = refl;
    }

    last :
        (c : ℕ) (t : State)
        → Kept s.db t
        → Fulfils s.db [] (λ _ t. Replaced j t) ((commit j c >>= retire_previous j) t)
    last c t h =
        >>=-After _ _ t (commit-Pointed j _ t c i d p cancel w v e (h.previous ∙ f) g)
          λ r t k. goes (refl, retire-Replaced j r d t b k.0 k.1)

    replaced :
        (reqs : List (Bool × FailureCode)) (x : Stage Outcome State (Unit {0}))
        → first_failure reqs ≡ none
        → Fulfils s.db reqs (λ _ t. Replaced j t) x
        → ((outcome x).0 ≡ done)
          × ((outcome x).1.db.status ≡ cancelled)
          × ((outcome x).1.db.active_deployment_id ≡ some j.id)
          × (has_stopped_previous (outcome x).1.actions ≡ true)
    replaced reqs (next a t) met (After.goes (_, l)) = (refl, l.status, l.pointer, l.stopped)
    replaced reqs (ended o t) met (After.ends (code, q, h)) = cc
