-- ===== src/Deployment/Build/Building.antt =====
-- The build itself, of apps/worker/src/jobs/build-deployment.job.js, under the lease of the builder.
use hello_deploy.Prelude.{
  ◌≡◌, refl, sym, ◌∙◌, ap, arith, Bool, true, false, ◌&&◌, ◌||◌, not, Option, none, some,
  Bool-cases, inl, inr,
}
use hello_deploy.Contracts.Enums.{building}
use hello_deploy.Contracts.Strategies.{dockerfile_v1, strategy_eq}
use hello_deploy.Deployment.Status.{is_terminal}
use hello_deploy.Jobs.{After, goes, ends, >>=-After, if-After}
use hello_deploy.Deployment.Build.Flow.{
  Image, State, LeaseAnswer, Call, act, meanwhile, update_status, fail_build, remove_built_artifact,
  clean_workspace, build_image, leased, not_leased, before_building,
}
use hello_deploy.Deployment.Build.Plans.{Plan, strategy_of, uses_on_demand_builder}
use hello_deploy.Deployment.Build.Stages.{take_lease, acquire, release, after_build, build}
use hello_deploy.Deployment.Build.Trace.{
  update_status-keeps, At, Leaves, may_build, update_status-At, fail_build-At, fail_build-over,
  holds_lease, has_passed_policy,
}
use hello_deploy.Deployment.Build.Before.{Cloned, clean, is_checked}

abbrev pub Over : State → Type 0
Over s = is_terminal s.db.status ≡ true

may_build_when :
    (uses holds is_dockerfile is_remote passed : Bool)
    → holds ≡ uses
    → (not is_dockerfile || is_remote) ≡ true
    → (not is_dockerfile || passed) ≡ true
    → ((not uses || holds) && (not is_dockerfile || (is_remote && passed))) ≡ true
may_build_when uses holds is_dockerfile is_remote passed e i c = ground (arith, e, i, c)

module _ (j : Call) where
  -- A built image whose lease has been returned.
  abbrev pub Built : State → Type 0
  Built s = At j true false true s.actions

  acquire_lem :
      (plan : Plan) (s : State)
      → plan.strategy ≡ strategy_of j
      → Cloned j s
      → is_checked j s.actions ≡ true
      → After
          (Leaves j)
          (λ _ t.
            At j true (uses_on_demand_builder j plan.strategy) false t.actions
            × (is_checked j t.actions ≡ true))
          (acquire j plan s)
  acquire_lem plan s same h c =
      if-After (uses_on_demand_builder j plan.strategy) (λ e. taken e j.answers.lease)
        (λ e. goes ((h.0, h.1 ∙ sym e, h.2, h.3, h.4), c))
    where
      taken :
          uses_on_demand_builder j plan.strategy ≡ true
          → (a : LeaseAnswer)
          → After
              (Leaves j)
              (λ _ t.
                At j true (uses_on_demand_builder j plan.strategy) false t.actions
                × (is_checked j t.actions ≡ true))
              (take_lease j a s)
      taken e leased = goes ((h.0, sym e, h.2, h.3, h.4), c)
      taken e (not_leased code) = clean j _ s h

  release-At :
      {w a : Bool} (plan : Plan) (s : State)
      → At j w (uses_on_demand_builder j plan.strategy) a s.actions
      → At j w false a (release j plan s).actions
  release-At plan s h = elim (Bool-cases (uses_on_demand_builder j plan.strategy)) [
    | inl e ↦ rw e (h.0, refl, h.2, h.3, h.4)
    | inr e ↦ rw e (h.0, h.1 ∙ e, h.2, h.3, h.4)
  ]

  release-Over : (plan : Plan) (s : State) → Over s → Over (release j plan s)
  release-Over plan s h = elim (Bool-cases (uses_on_demand_builder j plan.strategy)) [
    | inl e ↦ rw e h
    | inr e ↦ rw e h
  ]

  after_build_lem :
      (plan : Plan) (o : Option Image) (s : State)
      → plan.strategy ≡ strategy_of j
      → (not (strategy_eq (strategy_of j) dockerfile_v1) || j.settings.is_remote_executor) ≡ true
      → At j true (uses_on_demand_builder j plan.strategy) false s.actions
      → is_checked j s.actions ≡ true
      → After (Leaves j) (λ _ t. Built t) (after_build j plan o s)
  after_build_lem plan none s same i h c =
      let f = fail_build-At j _ s h in
      ends (
        release-Over plan _ (fail_build-over j _ s),
        release-At plan (act clean_workspace (remove_built_artifact none (fail_build j _ s)))
            (refl, f.1, refl, f.3, f.4),
      )
  after_build_lem plan (some image) s same i h c =
      goes (release-At plan (act (build_image image) s) (h.0, h.1, refl, h.3, (allowed, h.4)))
    where
      allowed : may_build j s.actions ≡ true
      allowed =
          may_build_when (uses_on_demand_builder j (strategy_of j)) (holds_lease s.actions)
            (strategy_eq (strategy_of j) dockerfile_v1) j.settings.is_remote_executor
            (has_passed_policy s.actions) (h.1 ∙ ap (uses_on_demand_builder j) same) i c

  pub build_lem :
      (plan : Plan) (s : State)
      → plan.strategy ≡ strategy_of j
      → (not (strategy_eq (strategy_of j) dockerfile_v1) || j.settings.is_remote_executor) ≡ true
      → Cloned j s
      → is_checked j s.actions ≡ true
      → After (Leaves j) (λ _ t. Built t) (build j plan s)
  unfolding build
  build_lem plan s same i h c =
      let t = meanwhile j before_building s in
      let u = update_status building (λ db. db) t in
      >>=-After _ _ u
        (acquire_lem plan u same (update_status-At j building (λ db. db) t h) (
          update_status-keeps j (λ log. is_checked j log ≡ true) (λ st log h. h) building (λ db. db)
            t c))
        (λ _ t (h, c). after_build_lem plan j.answers.built t same i h c)
