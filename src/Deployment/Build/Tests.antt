-- ===== src/Deployment/Build/Tests.antt =====
-- Builds of one deployment.
use hello_deploy.Prelude.{
  ◌≡◌, refl, true, false, ◌==◌, if◌then◌else◌, none, some, [], ◌∷◌, Text, codes,
}
use hello_deploy.Contracts.Enums.{RuntimeType, PlatformRole, queued, deploying}
use hello_deploy.Contracts.Strategies.{
  python_flask_v1, is_python_build_strategy, is_next_build_strategy, is_container_build_strategy,
}
use hello_deploy.Contracts.Builder.{
  get_builder_runtime_family, is_owner_image_strategy, evaluate_builder_eligibility,
}
use hello_deploy.Deployment.Status.{is_terminal}
use hello_deploy.Requests.{is_full_commit_sha}
use hello_deploy.Jobs.{◌>>=◌}
use hello_deploy.Deployment.Build.Flow.{
  configuration_changed, Image, Db, State, Answers, Point, Call, update_status, fail_build,
  attempt_clone, clean_workspace, acquire_lease, release_lease, wait, build_image,
  enqueue_activation, queued_activation, leased, scanned,
}
use hello_deploy.Deployment.Build.Plans.{is_complete, load, check_call}
use hello_deploy.Deployment.Build.Stages.{
  clone_from, clone, prepare, build, environment_version_filter, finish_build, build_repository,
}
use hello_deploy.Jobs.Requirements.{first_failure}
use hello_deploy.Deployment.Build.Requirements.{requirements}
use hello_deploy.Deployment.Build.Undisturbed.{Verdict}
use hello_deploy.Deployment.Build.Decided.{first_unmet_requirement_decides}
use hello_deploy.Deployment.Build.{handle_build_deployment}

abbrev sha : Text
sha = codes "0123456789abcdef0123456789abcdef01234567"

abbrev image : Image
image = record { image_ref = 9; is_in_registry = true }

abbrev answers : Answers
answers = record {
  is_builder_ready = true;
  has_token = true;
  clone = λ attempt.
      if attempt == 1 then some (record { is_retryable = true; is_local = false }) else none;
  has_context = true;
  has_violations = false;
  has_profile = true;
  has_public_env = true;
  has_build_spec = true;
  lease = leased;
  built = some image;
  is_aborted = false;
  scan = scanned 0;
  has_credential = true;
  resolved_digest = none;
  is_scan_prepared = true;
  is_enqueued = true;
}

abbrev undisturbed : Point → Db → Db
undisturbed p db = db

abbrev flask : Answers → (Point → Db → Db) → Call
flask a others = record {
  payload = record {
    version = 2;
    project_id = 3;
    commit_sha = none;
    repository_id = none;
    runtime_type = none;
    image_tag = none;
  };
  has_deployment = true;
  stored_snapshot = some (record {
    source_commit = some sha;
    runtime_type = some RuntimeType.python;
    build_strategy = some python_flask_v1;
    build_configuration = some (record { image_reference = none });
    source_repository_id = some 4;
    environment_version = none;
  });
  project = some (record {
    repository_id = none;
    build_configuration = none;
    image_tag_of = λ commit. commit;
    owner_role = some PlatformRole.admin;
  });
  repository = λ id. some (record { is_public = false; is_active = true });
  settings = record {
    is_strategy_enabled = λ s. true;
    builder_control_enabled = true;
    builder_settings = record { runtimes = λ f. record { enabled = true; project_ids = 3 ∷ [] } };
    is_remote_executor = true;
    has_scanner = true;
  };
  answers = a;
  others = others;
}

abbrev waiting : State
waiting = record {
  db = record {
    status = queued;
    failure_code = none;
    image = none;
    has_project = true;
    environment_version = some 1;
  };
  actions = [];
}

builds : handle_build_deployment (flask answers undisturbed) waiting ≡ (
  queued_activation,
  record {
    db = record waiting.db { status = deploying; image = some image };
    actions =
        enqueue_activation
        ∷ clean_workspace
        ∷ release_lease
        ∷ build_image image
        ∷ acquire_lease
        ∷ attempt_clone
        ∷ wait 3000
        ∷ attempt_clone
        ∷ [];
  },
)
unfolding handle_build_deployment load check_call build_repository clone clone_from prepare build
    finish_build update_status fail_build environment_version_filter is_complete is_terminal
    is_full_commit_sha get_builder_runtime_family is_next_build_strategy is_python_build_strategy
    is_owner_image_strategy evaluate_builder_eligibility is_container_build_strategy ◌>>=◌
builds = refl

first_unmet_requirement_decides_example :
    (let (o, t) = handle_build_deployment (flask answers undisturbed) waiting in
      Verdict
        (flask answers undisturbed)
        (first_failure (requirements (flask answers undisturbed) waiting.db))
        o
        t)
first_unmet_requirement_decides_example =
    first_unmet_requirement_decides (flask answers undisturbed) waiting (λ p db. refl) refl refl

-- A build that is refused because the environment has changed.
changed_environment :
    first_failure (
      requirements (flask answers undisturbed) (record waiting.db { environment_version = some 2 }))
    ≡ some configuration_changed
unfolding is_complete is_full_commit_sha
changed_environment = refl
