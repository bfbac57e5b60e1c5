-- ===== src/Deployment/Build/Scanned.antt =====
-- The build and the scan of an undisturbed build of apps/worker/src/jobs/build-deployment.job.js.
use mathlib.Core.Path.{subst}
use hello_deploy.Prelude.{
  ltb, ◌≡◌, refl, sym, ◌∙◌, ap, Bool, true, false, ◌&&◌, ◌||◌, not, Option, none, some, is_some, [],
  ◌∷◌, if◌then◌else◌,
}
use hello_deploy.Contracts.Enums.{building}
use hello_deploy.Contracts.Strategies.{BuildStrategy, is_container_build_strategy}
use hello_deploy.Deployment.Status.{is_terminal}
use hello_deploy.Jobs.{next, goes, ends}
use hello_deploy.Jobs.Requirements.{both}
use hello_deploy.Deployment.Build.Flow.{
  FailureCode, Image, Db, State, LeaseAnswer, Scan, Point, Call, act, meanwhile, update_status,
  fail_build, remove_built_artifact, build_failed, build_cancelled, image_scan_unavailable,
  image_policy_failed, clean_workspace, build_image, pass_scan, refused, leased, not_leased,
  scanned, scan_unavailable, scan_failed, before_building,
}
use hello_deploy.Deployment.Build.Plans.{Plan, strategy_of, uses_on_demand_builder}
use hello_deploy.Deployment.Build.Stages.{
  take_lease, acquire, release, after_build, build, enforce_image_scan, after_scan, scan_build,
}
use hello_deploy.Deployment.Build.Requirements.{
  is_leased, lease_failure, uses_builder, build_requirements, passes, scan_code, scan_requirement,
}
use hello_deploy.Deployment.Build.Undisturbed.{
  fail_build-Verdict, meanwhile-Kept, update_status-Kept, Verdict, Kept, Verdict-same, release_db,
  remove_db,
}
use hello_deploy.Deployment.Build.Quiet.{is_building, Step}

module _ (j : Call) (quiet : (p : Point) (db : Db) → j.others p db ≡ db) (before : Db) where
  pub Kept-same : (s t : State) → s.db ≡ t.db → Kept before s → Kept before t
  Kept-same s t e h = (
    ap (λ db. is_terminal db.status) (sym e) ∙ h.0,
    ap (λ db. db.environment_version) (sym e) ∙ h.1,
    ap (λ db. db.has_project) (sym e) ∙ h.2,
  )

  acquire-Meets :
      (plan : Plan) (s : State)
      → plan.strategy ≡ strategy_of j
      → Kept before s
      → Step j quiet before
          ((not (uses_builder j) || is_leased j.answers.lease, lease_failure j.answers.lease) ∷ [])
          (λ (_ : Unit {0}). Unit {0})
          (acquire j plan s)
  acquire-Meets plan s e h =
      by_use (uses_on_demand_builder j plan.strategy) (uses_builder j) j.answers.lease
        (ap (uses_on_demand_builder j) e)
    where
      by_use :
          (b b' : Bool) (a : LeaseAnswer)
          → b ≡ b'
          → Step j quiet before
              ((not b' || is_leased a, lease_failure a) ∷ [])
              (λ (_ : Unit {0}). Unit {0})
              (if b then take_lease j a s else next tt s)
      by_use true true leased e = goes (refl, (h, tt))
      by_use true true (not_leased c) e = ends (_, refl, fail_build-Verdict j quiet before _ s h)
      by_use false false a e = goes (refl, (h, tt))
      by_use true false a e = cc
      by_use false true a e = cc

  build_code : BuildStrategy → FailureCode
  build_code strategy =
      if uses_on_demand_builder j strategy && j.answers.is_aborted
      then build_cancelled
      else build_failed

  after_build-Meets :
      (plan : Plan) (o : Option Image) (s : State)
      → plan.strategy ≡ strategy_of j
      → Kept before s
      → Step j quiet before
          ((is_some o, build_code (strategy_of j)) ∷ [])
          (λ i. o ≡ some i)
          (after_build j plan o s)
  unfolding build_code
  after_build-Meets plan (some image) s e h =
      let t = act (build_image image) s in
      goes (refl, (Kept-same t (release j plan t) (sym (release_db j plan t)) h, refl))
  after_build-Meets plan none s e h =
      let f = fail_build j (build_code plan.strategy) s in
      let t = act clean_workspace (remove_built_artifact none f) in
      ends (
        build_code (strategy_of j),
        refl,
        subst (λ c. Verdict j (some c) refused (release j plan t)) (ap build_code e)
            (Verdict-same j _ f (release j plan t) (sym (release_db j plan t))
              (fail_build-Verdict j quiet before _ s h)),
      )

  pub build-Meets :
      (plan : Plan) (s : State)
      → plan.strategy ≡ strategy_of j
      → Kept before s
      → Step j quiet before (build_requirements j) (λ i. j.answers.built ≡ some i) (build j plan s)
  unfolding build build_code
  build-Meets plan s e h =
      let t = meanwhile j before_building s in
      let k =
        update_status-Kept j quiet before building t is_building
          (meanwhile-Kept j quiet before before_building s h) in
      both _ (_ ∷ []) _ _ _ (update_status building (λ db. db) t) (acquire-Meets plan _ e k)
        λ _ t (h, _). after_build-Meets plan j.answers.built t e h

  pub scan-Meets :
      (undo : State → State) (s : State)
      → ((t : State) → (undo t).db ≡ t.db)
      → Kept before s
      → Step j quiet before
          (scan_requirement j true ∷ [])
          (λ (_ : Unit {0}). Unit {0})
          (after_scan undo (enforce_image_scan j s))
  unfolding enforce_image_scan
  scan-Meets undo s k h = by_scanner j.settings.has_scanner j.answers.scan
    where
      fails : (code : FailureCode) → Verdict j (some code) refused (undo (fail_build j code s))
      fails code =
          Verdict-same j code (fail_build j code s) (undo (fail_build j code s))
            (sym (k (fail_build j code s))) (fail_build-Verdict j quiet before code s h)

      by_count :
          (l : Bool)
          → Step j quiet before
              ((not l, image_policy_failed) ∷ [])
              (λ (_ : Unit {0}). Unit {0})
              (after_scan undo (
                if l then (false, fail_build j image_policy_failed s) else (true, act pass_scan s)))
      by_count true = ends (_, refl, fails _)
      by_count false = goes (refl, (h, tt))

      by_scanner :
          (b : Bool) (x : Scan)
          → Step j quiet before
              ((not (true && b) || passes x, scan_code x) ∷ [])
              (λ (_ : Unit {0}). Unit {0})
              (after_scan undo (
                if b
                then elim x [
                  | scanned critical ↦
                      if ltb 0 critical
                      then (false, fail_build j image_policy_failed s)
                      else (true, act pass_scan s)
                  | scan_unavailable ↦ (false, fail_build j image_scan_unavailable s)
                  | scan_failed ↦ (false, fail_build j image_policy_failed s)
                ]
                else (true, s)))
      by_scanner false x = goes (refl, (h, tt))
      by_scanner true scan_unavailable = ends (_, refl, fails _)
      by_scanner true scan_failed = ends (_, refl, fails _)
      by_scanner true (scanned critical) = by_count (ltb 0 critical)

  pub scan_build-Meets :
      (plan : Plan) (image : Image) (s : State)
      → plan.strategy ≡ strategy_of j
      → Kept before s
      → Step j quiet before
          (scan_requirement j (is_container_build_strategy (strategy_of j)) ∷ [])
          (λ (_ : Unit {0}). Unit {0})
          (scan_build j plan image s)
  scan_build-Meets plan image s e h =
      by_kind (is_container_build_strategy plan.strategy)
        (is_container_build_strategy (strategy_of j)) (ap is_container_build_strategy e)
    where
      undo : State → State
      undo t = act clean_workspace (remove_built_artifact (some image) t)

      by_kind :
          (b b' : Bool)
          → b ≡ b'
          → Step j quiet before
              (scan_requirement j b' ∷ [])
              (λ (_ : Unit {0}). Unit {0})
              (if b
                then after_scan
                    (λ t. act clean_workspace (remove_built_artifact (some image) t))
                    (enforce_image_scan j s)
                else next tt s)
      by_kind true true e = scan-Meets _ s (λ t. remove_db (some image) t) h
      by_kind false false e = goes (refl, (h, tt))
      by_kind true false e = cc
      by_kind false true e = cc
