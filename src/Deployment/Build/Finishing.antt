-- ===== src/Deployment/Build/Finishing.antt =====
-- The scan of an image and the queueing of its activation, of
-- apps/worker/src/jobs/build-deployment.job.js.
use hello_deploy.Prelude.{
  ltb, ◌≡◌, refl, ◌∙◌, ap, arith, Bool, true, false, not, Option, none, some, Bool-cases, inl, inr,
  if◌then◌else◌,
}
use hello_deploy.Contracts.Enums.{deploying}
use hello_deploy.Contracts.Strategies.{oci_image_v1, strategy_eq, is_container_build_strategy}
use hello_deploy.Jobs.{After, goes, ends, if-After}
use hello_deploy.Deployment.Build.Flow.{
  FailureCode, Image, Db, State, Scan, Call, act, meanwhile, update_status, fail_build,
  remove_built_artifact, configuration_changed, image_scan_unavailable, image_policy_failed,
  clean_workspace, pass_scan, refused, scanned, scan_unavailable, scan_failed,
  before_environment_check, before_deploying,
}
use hello_deploy.Deployment.Build.Plans.{Plan, strategy_of}
use hello_deploy.Deployment.Build.Stages.{
  enforce_image_scan, after_scan, scan_build, is_unchanged, remove_platform_image,
  enqueue_activation_of, finish_build,
}
use hello_deploy.Deployment.Build.Trace.{
  update_status-keeps, At, Leaves, may_enqueue, update_status-At, fail_build-At, fail_build-over,
  remove_built_artifact-At,
}
use hello_deploy.Deployment.Build.Building.{Over, Built}

module _ (j : Call) where
  -- What a scan's answer means.
  pub data ScanLeaves (w l a : Bool) : Bool × State → Type 0 where
    passes_scan :
        {s : State}
        → At j w l a s.actions
        → may_enqueue j s.actions ≡ true
        → ScanLeaves w l a (true, s)
    fails_scan : {s : State} → Over s → At j w l a s.actions → ScanLeaves w l a (false, s)

  scan_fails :
      {w l a : Bool} (code : FailureCode) (s : State)
      → At j w l a s.actions
      → ScanLeaves w l a (false, fail_build j code s)
  scan_fails code s h = ScanLeaves.fails_scan (fail_build-over j code s) (fail_build-At j code s h)

  if-ScanLeaves :
      {w l a : Bool} (b : Bool) {x y : Bool × State}
      → (b ≡ true → ScanLeaves w l a x)
      → (b ≡ false → ScanLeaves w l a y)
      → ScanLeaves w l a (if b then x else y)
  if-ScanLeaves true p q = p refl
  if-ScanLeaves false p q = q refl

  pub enforce_image_scan_lem :
      {w l a : Bool} (s : State) → At j w l a s.actions → ScanLeaves w l a (enforce_image_scan j s)
  unfolding enforce_image_scan
  enforce_image_scan_lem {w} {l} {a} s h =
      if-ScanLeaves j.settings.has_scanner (λ _. answered j.answers.scan)
        (λ e. ScanLeaves.passes_scan h (ground (arith, e)))
    where
      answered :
          (x : Scan)
          → ScanLeaves w l a (elim x [
            | scanned critical ↦
                if ltb 0 critical
                then (false, fail_build j image_policy_failed s)
                else (true, act pass_scan s)
            | scan_unavailable ↦ (false, fail_build j image_scan_unavailable s)
            | scan_failed ↦ (false, fail_build j image_policy_failed s)
          ])
      answered scan_unavailable = scan_fails _ s h
      answered scan_failed = scan_fails _ s h
      answered (scanned critical) =
          if-ScanLeaves (ltb 0 critical) (λ _. scan_fails _ s h)
            (λ _. ScanLeaves.passes_scan h (ground arith))

  pub after_scan_lem :
      {w l a : Bool} (undo : State → State) (x : Bool × State)
      → ((t : State) → Over t → At j w l a t.actions → Leaves j refused (undo t))
      → ScanLeaves w l a x
      → After
          (Leaves j)
          (λ _ t. At j w l a t.actions × (may_enqueue j t.actions ≡ true))
          (after_scan undo x)
  after_scan_lem undo (true, s) k (ScanLeaves.passes_scan h q) = goes (h, q)
  after_scan_lem undo (false, s) k (ScanLeaves.fails_scan o h) = ends (k s o h)

  remove-Over : (image : Option Image) (s : State) → Over s → Over (remove_built_artifact image s)
  remove-Over none s h = h
  remove-Over (some i) s h = elim (Bool-cases i.is_in_registry) [ inl e ↦ rw e h | inr e ↦ rw e h ]

  pub scan_build_lem :
      (plan : Plan) (image : Image) (s : State)
      → plan.strategy ≡ strategy_of j
      → Built j s
      → After
          (Leaves j)
          (λ _ t. Built j t × (may_enqueue j t.actions ≡ true))
          (scan_build j plan image s)
  scan_build_lem plan image s same h =
      if-After (is_container_build_strategy plan.strategy)
        (λ _.
          after_scan_lem (λ t. act clean_workspace (remove_built_artifact (some image) t)) _ undone
            (enforce_image_scan_lem s h))
        (λ e. goes (h, ground (arith, ap is_container_build_strategy same, e)))
    where
      undone :
          (t : State)
          → Over t
          → At j true false true t.actions
          → Leaves j refused (act clean_workspace (remove_built_artifact (some image) t))
      undone t o h =
          let r = remove_built_artifact-At j (some image) t h in
          (remove-Over (some image) t o, (refl, r.1, r.2, r.3, r.4))

  remove_platform-At :
      {w : Bool} (b : Bool) (image : Image) (s : State)
      → At j w false b s.actions
      → At j w false false (remove_platform_image b image s).actions
  remove_platform-At true image s h = remove_built_artifact-At j (some image) s h
  remove_platform-At false image s h = h

  remove_platform-Over :
      (b : Bool) (image : Image) (s : State) → Over s → Over (remove_platform_image b image s)
  remove_platform-Over true image s h = remove-Over (some image) s h
  remove_platform-Over false image s h = h

  enqueue_lem :
      (b : Bool) (image : Image) (s : State)
      → At j false false b s.actions
      → may_enqueue j s.actions ≡ true
      → b ≡ not (strategy_eq (strategy_of j) oci_image_v1)
      → After (Leaves j) (λ _ _. ⊥) (enqueue_activation_of j b image s)
  enqueue_lem b image s h q e =
      if-After j.answers.is_enqueued (λ _. ends (h.0, h.1, h.2 ∙ e, refl, (q, h.4)))
        (λ _. ends (
          remove_platform-Over b image _ (fail_build-over j _ s),
          remove_platform-At b image _ (fail_build-At j _ s h),
        ))

  pub finish_build_lem :
      {w : Bool} (plan : Plan) (is_platform_image : Bool) (image : Image) (s : State)
      → At j w false is_platform_image s.actions
      → may_enqueue j s.actions ≡ true
      → is_platform_image ≡ not (strategy_eq (strategy_of j) oci_image_v1)
      → After (Leaves j) (λ _ _. ⊥) (finish_build j plan is_platform_image image s)
  unfolding finish_build
  finish_build_lem plan is_platform_image image s h q e =
      if-After (is_unchanged plan.snapshot (j.others before_environment_check s.db))
        (λ _.
          let (_, l, a, n, o) = update_status-At j deploying save u h in
          enqueue_lem is_platform_image image (act clean_workspace (update_status deploying save u))
            (refl, l, a, n, o)
            (update_status-keeps j (λ log. may_enqueue j log ≡ true) (λ st log h. h) deploying save
              u q)
            e)
        (λ _.
          let r =
            remove_platform-At is_platform_image image _
              (fail_build-At j configuration_changed t h) in
          ends (
            remove_platform-Over is_platform_image image _
                (fail_build-over j configuration_changed t),
            (refl, r.1, r.2, r.3, r.4),
          ))
    where
      t : State
      t = meanwhile j before_environment_check s

      u : State
      u = meanwhile j before_deploying t

      save : Db → Db
      save db = record db { image = some image }
