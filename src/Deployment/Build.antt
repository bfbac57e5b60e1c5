-- ===== src/Deployment/Build.antt =====
-- `handleBuildDeployment` of apps/worker/src/jobs/build-deployment.job.js, for any answers of its
-- dependencies, while other actors change the documents between its steps.
pub mod Flow
pub mod Plans
pub mod Stages
pub mod Trace
pub mod Before
pub mod Building
pub mod Finishing
pub mod Safety
pub mod Cloning
pub mod Requirements
pub mod Undisturbed
pub mod Quiet
pub mod Scanned
pub mod Queueing
pub mod Decided
mod Tests
use hello_deploy.Prelude.{if◌then◌else◌}
use hello_deploy.Contracts.Strategies.{BuildStrategy, oci_image_v1, strategy_eq}
use hello_deploy.Jobs.{Stage, next, ended, ◌>>=◌, ◌>>◌}
use hello_deploy.Deployment.Build.Flow.{State, Outcome, M, Call}
use hello_deploy.Deployment.Build.Plans.{Plan, load, check_call}
use hello_deploy.Deployment.Build.Stages.{deploy_owner_image, build_repository}

abbrev pub deploy : Call → Plan → M ⊥
deploy j plan s =
    if strategy_eq plan.strategy oci_image_v1
    then deploy_owner_image j plan s
    else build_repository j plan s

abbrev pub outcome : Stage Outcome State ⊥ → Outcome × State
outcome (next a s) = elim a [ ]
outcome (ended o s) = (o, s)

unfoldable pub handle_build_deployment : Call → State → Outcome × State
unfolding load check_call deploy_owner_image build_repository
handle_build_deployment j s = outcome ((load j >> (check_call j >>= deploy j)) s)
