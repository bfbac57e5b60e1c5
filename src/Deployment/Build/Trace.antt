-- ===== src/Deployment/Build/Trace.antt =====
-- What the log of apps/worker/src/jobs/build-deployment.job.js says, and what its stages keep of it.
use hello_deploy.Prelude.{
  ◌≡◌, refl, arith, Bool, true, false, ◌&&◌, ◌||◌, not, Option, none, some, List, [], ◌∷◌,
  Bool-cases, inl, inr,
}
use hello_deploy.Contracts.Enums.{
  DeploymentStatus, queued, validating, building, deploying, healthy, failed, cancelled,
  rolled_back,
}
use hello_deploy.Contracts.Strategies.{
  dockerfile_v1, oci_image_v1, strategy_eq, is_container_build_strategy,
}
use hello_deploy.Deployment.Status.{is_terminal}
use hello_deploy.Deployment.Build.Plans.{strategy_of, uses_on_demand_builder}
use hello_deploy.Deployment.Build.Flow.{
  FailureCode, Image, Db, Action, State, Outcome, Call, meanwhile, notify_result, update_status,
  fail_build, delete_from_registry, remove_built_artifact, attempt_clone, clean_workspace,
  pass_policy, acquire_lease, release_lease, build_image, remove_image, pass_scan,
  enqueue_activation, notify, skipped, refused, queued_activation, before_failing,
}

-- Whether something was made and is still there, or is held.
abbrev pub has_workspace : List Action → Bool
has_workspace [] = false
has_workspace (attempt_clone ∷ log) = true
has_workspace (clean_workspace ∷ log) = false
has_workspace (a ∷ log) = has_workspace log

abbrev pub holds_lease : List Action → Bool
holds_lease [] = false
holds_lease (acquire_lease ∷ log) = true
holds_lease (release_lease ∷ log) = false
holds_lease (a ∷ log) = holds_lease log

abbrev pub has_artifact : List Action → Bool
has_artifact [] = false
has_artifact (build_image i ∷ log) = true
has_artifact (remove_image ∷ log) = false
has_artifact (a ∷ log) = has_artifact log

-- Whether something was done.
abbrev pub has_enqueued : List Action → Bool
has_enqueued [] = false
has_enqueued (enqueue_activation ∷ log) = true
has_enqueued (a ∷ log) = has_enqueued log

abbrev pub has_passed_policy : List Action → Bool
has_passed_policy [] = false
has_passed_policy (pass_policy ∷ log) = true
has_passed_policy (a ∷ log) = has_passed_policy log

abbrev pub has_passed_scan : List Action → Bool
has_passed_scan [] = false
has_passed_scan (pass_scan ∷ log) = true
has_passed_scan (a ∷ log) = has_passed_scan log

module _ (j : Call) where
  abbrev pub may_build : List Action → Bool
  may_build log =
      (not (uses_on_demand_builder j (strategy_of j)) || holds_lease log)
      && (not (strategy_eq (strategy_of j) dockerfile_v1)
          || (j.settings.is_remote_executor && has_passed_policy log))

  abbrev pub may_enqueue : List Action → Bool
  may_enqueue log =
      not (is_container_build_strategy (strategy_of j) && j.settings.has_scanner)
      || has_passed_scan log

  -- An image is built while the lease that it needs is held, and an owner's Dockerfile on the isolated
  -- builder only, after its lines have been checked; the activation of an owner's image is queued
  -- after a scan has passed it, where there is a scanner.
  abbrev pub Allowed : List Action → Type 0
  Allowed [] = Unit
  Allowed (build_image i ∷ log) = (may_build log ≡ true) × Allowed log
  Allowed (enqueue_activation ∷ log) = (may_enqueue log ≡ true) × Allowed log
  Allowed (a ∷ log) = Allowed log

  -- The workspace, the lease and the artifact, before anything is queued.
  abbrev pub At : Bool → Bool → Bool → List Action → Type 0
  At workspace lease artifact log =
      (has_workspace log ≡ workspace)
      × (holds_lease log ≡ lease)
      × (has_artifact log ≡ artifact)
      × (has_enqueued log ≡ false)
      × Allowed log

  -- How the job leaves things.
  abbrev pub Leaves : Outcome → State → Type 0
  Leaves skipped s = s.actions ≡ []
  Leaves refused s = (is_terminal s.db.status ≡ true) × At false false false s.actions
  Leaves queued_activation s =
      (has_workspace s.actions ≡ false)
      × (holds_lease s.actions ≡ false)
      × (has_artifact s.actions ≡ not (strategy_eq (strategy_of j) oci_image_v1))
      × (has_enqueued s.actions ≡ true)
      × Allowed s.actions

  -- A condition on the log that a notification keeps is kept by a status write.
  module _ (P : List Action → Type 0)
      (keeps : (st : DeploymentStatus) (log : List Action) → P log → P (notify st ∷ log)) where
    notified : (to : DeploymentStatus) (s : State) → P s.actions → P (notify_result to s).actions
    notified queued s h = h
    notified validating s h = h
    notified building s h = h
    notified deploying s h = h
    notified healthy s h = keeps healthy s.actions h
    notified failed s h = keeps failed s.actions h
    notified cancelled s h = h
    notified rolled_back s h = h

    pub update_status-keeps :
        (to : DeploymentStatus) (extra : Db → Db) (s : State)
        → P s.actions
        → P (update_status to extra s).actions
    unfolding update_status
    update_status-keeps to extra s h = elim (Bool-cases (is_terminal s.db.status)) [
      | inl e ↦ rw e h
      | inr e ↦ rw e (notified to _ h)
    ]

  module _ {w l a : Bool} where
    pub update_status-At :
        (to : DeploymentStatus) (extra : Db → Db) (s : State)
        → At w l a s.actions
        → At w l a (update_status to extra s).actions
    update_status-At = update_status-keeps (At w l a) (λ st log h. h)

    pub fail_build-At :
        (code : FailureCode) (s : State)
        → At w l a s.actions
        → At w l a (fail_build j code s).actions
    unfolding fail_build
    fail_build-At code s h =
        update_status-At failed (λ db. record db { failure_code = some code })
          (meanwhile j before_failing s) h

  pub fail_build-over :
      (code : FailureCode) (s : State) → is_terminal (fail_build j code s).db.status ≡ true
  unfolding fail_build update_status is_terminal
  fail_build-over code s = ground arith

  pub delete_from_registry-At :
      {w l a : Bool} (image : Option Image) (s : State)
      → At w l a s.actions
      → At w l a (delete_from_registry image s).actions
  delete_from_registry-At none s h = h
  delete_from_registry-At (some i) s h = elim (Bool-cases i.is_in_registry) [
    | inl e ↦ rw e h
    | inr e ↦ rw e h
  ]

  pub remove_built_artifact-At :
      {w l a : Bool} (image : Option Image) (s : State)
      → At w l a s.actions
      → At w l false (remove_built_artifact image s).actions
  remove_built_artifact-At image s h =
      let (w, l, _, q, o) = delete_from_registry-At image s h in (w, l, refl, q, o)
