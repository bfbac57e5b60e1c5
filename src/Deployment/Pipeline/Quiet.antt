-- ===== src/Deployment/Pipeline/Quiet.antt =====
-- `runReleasePipeline` of apps/worker/src/deployment/pipeline.js where nobody changes the documents
-- meanwhile: the first requirement that fails decides.
use hello_deploy.Prelude.{
  ℕ, ◌≡◌, ◌≢◌, refl, sym, ap, ◌∙◌, arith, Bool, true, false, ◌||◌, not, if◌then◌else◌, Option, none,
  some, List, [], ◌∷◌, Text,
}
use hello_deploy.Contracts.Enums.{healthy, failed}
use hello_deploy.Deployment.Status.{is_terminal}
use hello_deploy.Jobs.{Stage, ◌>>=◌, next, ended}
use hello_deploy.Deployment.Pipeline.Flow.{
  FailureCode, Previous, Db, deployment_of, project_of, is_closed, State, Outcome, Point, Job,
  update_status, meanwhile, fail, stop_and_fail, project_not_active, subdomain_invalid,
  nginx_route_failed, route_not_connected, done, refused, before_status_check, before_project_check,
  before_routing, before_pointer, before_healthy,
}
use hello_deploy.Deployment.Pipeline.Publish.{
  check_status, check_project, status_check, project_check, route, routing, route_subdomain,
  persist, commit, retire_previous, retire, retire_container, is_finished, may_release,
}
use hello_deploy.Jobs.Requirements.{first_failure}
use hello_deploy.Deployment.Pipeline.Requirements.{
  is_routable, routing_requirements, candidate_requirements, publish_requirements, requirements,
  Kept, Fulfils, Meets, same_db, both, fail_lem, prepare-Meets,
}
use hello_deploy.Jobs.{After, goes, ends, >>=-After, if-After}
use hello_deploy.Deployment.Pipeline.{prepare, publish, outcome, run_release_pipeline}

abbrev pub Decided : Job → Option FailureCode → Db → Outcome × State → Type 0
Decided j none before (o, s) =
    (o ≡ done)
    × (s.db.status ≡ healthy)
    × (s.db.active_deployment_id ≡ some j.id)
    × (s.db.active_container_id ≡ j.answers.container)
Decided j (some code) before (o, s) =
    (o ≡ refused)
    × (s.db.status ≡ failed)
    × (s.db.failure_code ≡ some code)
    × (s.db.active_deployment_id ≡ before.active_deployment_id)
    × (s.db.previous ≡ before.previous)

check_status-Meets :
    (j : Job) (before : Db) (s : State)
    → Kept before s
    → Meets before [] (λ _. Unit {0}) (check_status j s)
check_status-Meets j before s h =
    if-After (is_finished (deployment_of s.db)) (λ e. absurd (ground (arith, e, h.unfinished)))
      (λ _. goes (refl, (same_db h, tt)))

first_failure_single :
    (b c : Bool) (code : FailureCode)
    → b ≡ c
    → first_failure ((b, code) ∷ []) ≡ (if c then none else some code)
first_failure_single true c code e = ground arith
first_failure_single false c code e = ground arith

check_project-Meets :
    (j : Job) (before : Db) (s : State)
    → Kept before s
    → Meets before
        ((may_release (project_of before), project_not_active) ∷ [])
        (λ _. Unit {0})
        (check_project j s)
unfolding fail
check_project-Meets j before s h =
    if-After (may_release (project_of s.db)) (λ e. goes (single ∙ (rw e), (same_db h, tt)))
      (λ e. ends (project_not_active, single ∙ (rw e), fail_lem j before _ _ (same_db h)))
  where
    single :
        first_failure ((may_release (project_of before), project_not_active) ∷ [])
        ≡ (if may_release (project_of s.db) then none else some project_not_active)
    single = first_failure_single _ _ project_not_active (sym (ap may_release h.project))

persist-Kept :
    (j : Job) (before : Db) (o : Option Text) (s : State)
    → Kept before s
    → Kept before (persist j o s)
persist-Kept j before o s h = ground arith

routing-Meets :
    (j : Job) (before : Db) (s : State)
    → Kept before s
    → Meets before (routing_requirements j) (λ _. Unit {0}) (routing j s)
unfolding fail
routing-Meets j before s h =
    cases j.options.nginx_enabled j.options.allow_unrouted_releases (is_routable j)
      j.options.fail_on_invalid_subdomain j.answers.are_routes_activated refl refl
  where
    cases :
        (nginx unrouted usable strict activated : Bool)
        → j.options.fail_on_invalid_subdomain ≡ strict
        → j.answers.are_routes_activated ≡ activated
        → Meets before
            ((nginx || unrouted, route_not_connected)
              ∷ (not nginx || usable || not strict, subdomain_invalid)
              ∷ (not nginx || not usable || activated, nginx_route_failed)
              ∷ [])
            (λ _. Unit {0})
            (if nginx
              then route_subdomain j usable s
              else if unrouted
              then next tt s
              else stop_and_fail j route_not_connected s)
    cases true u true t r d e =
        >>=-After {Q = λ _ t. (r ≡ true) × Kept before t} _ _ s
          (if-After j.answers.are_routes_activated
            (λ f. goes (
              sym e ∙ f,
              record {
                unfinished = h.unfinished;
                project = h.project;
                pointer = h.pointer;
                previous = h.previous;
              },
            ))
            (λ f.
              ends (nginx_route_failed, ground (arith, e, f), fail_lem j before _ _ (same_db h))))
          λ _ t k.
            goes (ground (arith, k.0), (persist-Kept j before j.platform_subdomain t k.1, tt))
    cases true u false true r d e =
        simp (d, if◌then◌else◌) (ends (_, refl, fail_lem j before _ _ (same_db h)))
    cases true u false false r d e = simp (d, if◌then◌else◌) (goes (refl, (h, tt)))
    cases false true v t r d e = goes (refl, (h, tt))
    cases false false v t r d e = ends (_, refl, fail_lem j before _ _ (same_db h))

-- The last writes.
record Landed (j : Job) (s : State) : Type 0 where
  status : s.db.status ≡ healthy
  pointer : s.db.active_deployment_id ≡ some j.id
  container : s.db.active_container_id ≡ j.answers.container

save_healthy_lands :
    (j : Job) (c : ℕ) (s : State)
    → j.answers.container ≡ some c
    → is_closed s.db ≡ false
    → s.db.active_deployment_id ≡ some j.id
    → Landed j (update_status j healthy (λ db. record db { active_container_id = some c }) s)
unfolding update_status
save_healthy_lands j c s e u p = ground arith

retire-Landed : (j : Job) (p : Option Previous) (s : State) → Landed j s → Landed j (retire j p s)
retire-Landed j none s h = h
retire-Landed j (some p) s h = retired p.active_container_id
  where
    retired : (c : Option ℕ) → Landed j (retire_container j c s)
    retired none = h
    retired (some c) = ground arith

commit_lands :
    (j : Job) (E : Outcome → State → Type 0) (c : ℕ) (s : State)
    → ((p : Point) (db : Db) → j.others p db ≡ db)
    → j.answers.is_pointer_saved ≡ true
    → j.answers.is_status_saved ≡ true
    → j.answers.container ≡ some c
    → is_closed s.db ≡ false
    → After E (λ _ t. Landed j t) (commit j c s)
unfolding commit
commit_lands j E c s quiet p q e u =
    >>=-After {Q = λ _ t. (is_closed t.db ≡ false) × (t.db.active_deployment_id ≡ some j.id)} _ _ s
      (if-After j.answers.is_pointer_saved (λ _. goes (rw (quiet before_pointer s.db) u, refl))
        (λ f. absurd (ground (arith, p, f))))
      λ _ t k.
        >>=-After _ _ t
          (if-After j.answers.is_status_saved
            (λ _. goes (
              save_healthy_lands j c _ e (rw (quiet before_healthy t.db) k.0)
                (rw (quiet before_healthy t.db) k.1)))
            (λ f. absurd (ground (arith, q, f))))
          λ _ u l. goes l

meanwhile-Kept :
    (j : Job) (before : Db) (p : Point) (s : State)
    → ((db : Db) → j.others p db ≡ db)
    → Kept before s
    → Kept before (meanwhile j p s)
meanwhile-Kept j before p s quiet h = record {
  unfinished = rw (quiet s.db) h.unfinished;
  project = rw (quiet s.db) h.project;
  pointer = rw (quiet s.db) h.pointer;
  previous = rw (quiet s.db) h.previous;
}

-- The stages up to the last writes, whatever these do.
pub publish-Fulfils :
    (j : Job) (before : Db) (c : ℕ) (s : State) {R : Unit {0} → State → Type 0}
    → ((p : Point) (db : Db) → p ≢ before_healthy → j.others p db ≡ db)
    → Kept before s
    → ((t : State) → Kept before t → Fulfils before [] R ((commit j c >>= retire_previous j) t))
    → Fulfils before (publish_requirements j (project_of before)) R (publish j c s)
unfolding publish status_check project_check route
publish-Fulfils j before c s quiet h last =
    both before [] (publish_requirements j (project_of before)) _ _ s
      (check_status-Meets j before _
        (meanwhile-Kept j before before_status_check s (λ db. quiet _ db (λ e. cc)) h))
      λ _ t h _.
        both before (_ ∷ []) (routing_requirements j) _ _ t
          (check_project-Meets j before _
            (meanwhile-Kept j before before_project_check t (λ db. quiet _ db (λ e. cc)) h))
          λ _ t h _.
            both before (routing_requirements j) [] _ _ t
              (routing-Meets j before _
                (meanwhile-Kept j before before_routing t (λ db. quiet _ db (λ e. cc)) h))
              λ _ t h _. last t h

-- Where nobody changes the documents meanwhile, the deployment exists and is not finished, and the
-- last two writes succeed: if all requirements hold, the release is done, its status is HEALTHY, its container
-- is recorded and the project points to it; else it is refused and FAILED with the code of the first
-- requirement that does not hold, and the project's pointer and the previous release are as before.
pub first_failure_decides :
    (j : Job) (s : State)
    → ((p : Point) (db : Db) → j.others p db ≡ db)
    → s.db.has_deployment ≡ true
    → is_terminal s.db.status ≡ false
    → j.answers.is_pointer_saved ≡ true
    → j.answers.is_status_saved ≡ true
    → Decided j (first_failure (requirements j (project_of s.db))) s.db (run_release_pipeline j s)
unfolding run_release_pipeline retire_previous
first_failure_decides j s quiet x u p q = decided (requirements j (project_of s.db)) _ (
    both s.db (candidate_requirements j) (publish_requirements j (project_of s.db)) (prepare j)
      (publish j) s (prepare-Meets j s.db s start)
      λ c t h e. publish-Fulfils j s.db c t (λ p db _. quiet p db) h λ t h. last c t e h)
  where
    start : Kept s.db s
    start = record {
      unfinished = ground (arith, x, u);
      project = refl;
      pointer = refl;
      previous = refl;
    }

    last :
        (c : ℕ) (t : State)
        → j.answers.container ≡ some c
        → Kept s.db t
        → Fulfils s.db [] (λ _ t. Landed j t) ((commit j c >>= retire_previous j) t)
    last c t e h =
        >>=-After _ _ t (commit_lands j _ c t quiet p q e h.unfinished)
          λ r t l. goes (refl, retire-Landed j r t l)

    decided :
        (reqs : List (Bool × FailureCode)) (x : Stage Outcome State (Unit {0}))
        → Fulfils s.db reqs (λ _ t. Landed j t) x
        → Decided j (first_failure reqs) s.db (outcome x)
    decided reqs (next a t) (After.goes (e, l)) = rw e (refl, l.status, l.pointer, l.container)
    decided reqs (ended o t) (After.ends (code, e, h)) =
        rw e (h.refusal, h.status, h.saved, h.pointer, h.previous)
