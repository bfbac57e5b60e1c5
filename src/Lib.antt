-- ===== src/Lib.antt =====
-- HelloDeploy: the decisions of the web application and of its worker, as functions.
--
-- Users deploy projects. The web application (apps/web) checks the quotas of a project and queues a
-- deployment; the worker (apps/worker) builds it, claims a loopback port, starts its container, writes
-- the status of the deployment record as it goes, retires old releases, and watches the live ones: it
-- probes them, derives their health, and opens and resolves incidents, which administrators
-- acknowledge in the web application. Both share the packages, and MongoDB holds their state.
--
-- A collection is a list of records, a query is a function on it, and one write is one function from
-- the collection to the collection, because MongoDB applies each write to a document at once. What
-- another actor may do between two awaits of a function is a parameter (Deployment.Ports) or a step of
-- its own (Deployment.Ports.Race, Monitoring.Alerts.Unique, Streams, Builder). Time is a number of milliseconds that the
-- caller passes. Errors that the code throws or returns are constructors.
--
-- Files and the code that they model:
--   Prelude, Prelude/*       lists, maps as association lists, text as code units, Boolean tests
--   Contracts/Enums          packages/contracts/src/enums.js
--   Contracts/Subdomains     packages/contracts/src/subdomains.js; what a label looks like (Shape)
--   Contracts/Strategies     packages/contracts/src/build-strategies.js; application roots (Roots)
--   Contracts/Builder        packages/contracts/src/builder-control.js; its decisions (Rules)
--   Deployment/Status        packages/deployment-core/src/index.js: canTransition is can_transition,
--                            isTerminal is is_terminal, nextSequenceNumber is next_sequence_number;
--                            updateStatus of apps/worker/src/deployment/pipeline.js is update_status
--   Deployment/Status/*      chains of changes (Paths), writes to the collection (Updates)
--   Deployment/Ports         apps/worker/src/deployment/port-allocator.js: findFreePort is
--                            find_free_port, allocatePort is allocate_port
--   Deployment/Ports/*       what one allocation gives (Claims), two at the same time (Race)
--   Deployment/Registry      isPlatformImageRef and isPlatformRegistryRelease of
--                            apps/worker/src/deployment/registry.js
--   Deployment/Retention     apps/worker/src/deployment/retention.js: cleanupOldReleases is
--                            cleanup_old_releases, its loop is clean_all
--   Deployment/Retention/*   its actions (Safety), its choice (Kept), the records it leaves (Rows)
--   Deployment/Pipeline      runReleasePipeline of apps/worker/src/deployment/pipeline.js is
--                            run_release_pipeline, its stages in order prepare and publish
--   Deployment/Pipeline/*    the stages (Flow, Candidate, Publish); what any run keeps to
--                            (Trace, Safety), undisturbed runs (Requirements, Quiet), a
--                            late cancellation (Cancelled)
--   Requests                 apps/web/src/services/deployment.service.js: create_deployment,
--                            retry_deployment, rollback_deployment and cancel_deployment on the
--                            collection of records; each check_ is what the request reads and decides,
--                            launch is Deployment.create and the queue
--   Requests/Readiness       the checks of a project there and in builder-control.service.js
--   Requests/Checks          what holds when the checks pass, from chains (Passing) and single checks
--                            (Conditions); what is answered (Answers), how many are in flight (InFlight),
--                            what becomes of finished records (Finished), requests whose pieces interleave (Race)
--   Requests/Pages           getDeploymentsPaginated, on what the query finds
--   Deployment/Build         handleBuildDeployment of apps/worker/src/jobs/build-deployment.job.js is
--                            handle_build_deployment; what it reads and does is in Flow, its first
--                            checks in Plans, the other stages in Stages, the log in Trace; what it leaves behind (Before,
--                            Building, Finishing, Safety), retries of the clone (Cloning), what an
--                            undisturbed build requires (Requirements) and that it decides (Undisturbed,
--                            Quiet, Scanned, Queueing, Decided)
--   Teardown                 handleDeleteProject of apps/worker/src/jobs/delete-project.job.js is
--                            handle_delete_project; its loops (Loops), sequences of attempts (Complete)
--   Jobs                     a job as a chain of stages that may end it, and rules for chains; what a
--                            job requires, in order (Requirements)
--   Deployment/Cleanup       handleCleanupReleases of apps/worker/src/jobs/cleanup-releases.job.js: a round
--                            of its loop over projects is sweep_project; the active release
--                            (Cleanup/Active)
--   Quota                    packages/database/src/quota.js and
--                            apps/web/src/services/quota.service.js
--   Quota/*                  the limits that apply (Rules), when a check refuses (Checks)
--   Monitoring/Probes        apps/worker/src/monitoring/probes.js: the tracker's run is run,
--                            deriveAppHealth is derive_app_health
--   Monitoring/Probes/*      the counters (Streaks), the health (Health)
--   Monitoring/Containers    apps/worker/src/monitoring/classify.js: role_of is classifyContainers; which
--                            containers are active (Containers/Active)
--   Monitoring/Policy        normalizeMonitoringPolicy of packages/contracts/src/monitoring.js, for
--                            the alert rules
--   Monitoring/Rules         observe of apps/worker/src/monitoring/alert-engine.js; what holds of every
--                            observation (Rules/Consistent)
--   Monitoring/Incidents     the incidents' collection, its queries and its writes; acknowledgeIncident
--                            of apps/web/src/services/admin-ops/incidents.service.js (acknowledge)
--   Monitoring/Alerts        createAlertEngine of apps/worker/src/monitoring/alert-engine.js: evaluate,
--                            step, recordDeployment (record_deployment)
--   Monitoring/Alerts/*      one open incident (Unique), sustained levels (Timers, Sustained), one step (Steps,
--                            Recovery),
--                            outcomes of deployments (Deployments)
--   Builder                  apps/worker/src/builder/builder-controller.js: a call's first piece is begin,
--                            the pieces after its awaits are resume, handleControlJob is
--                            handle_control_job
--   Builder/System           calls of it, interleaved
--   Builder/*                one build at a time (Exclusive), what an Emergency Stop ends (Halted,
--                            Cancelled), a check
--                            that outlives its start (Stale)
--   Streams                  apps/web/src/services/sse-limiter.js: the counts in memory, and the commands
--                            of Redis as steps
--   Streams/*                counts in memory (Memory), concurrent commands (Race)
--   */Tests                  each theorem applied to a small input
--
-- Bounds and fuel: the loop of allocatePort runs at most five times in the source (max_claim_attempts),
-- and the model's recursion is on that number, as it is for the three attempts of
-- cloneWithRetry (clone_retry_attempts); the scan for a port is on the length of the range. All
-- other recursion is on a list. Numbers are natural numbers: ports, times, counters and sizes of the
-- source are never negative, and none comes near the limit of a double. The cores of a quota are
-- counted in thousandths.
--
-- Not modelled: Docker, the registry, sockets, HTTP and the database server are parameters or logs of
-- actions; log lines and the wording of messages and reasons are left out. The controllers, views, mail and
-- framework detection are not modelled.
pub mod Prelude
pub mod Contracts
pub mod Deployment
pub mod Jobs
pub mod Teardown
pub mod Requests
pub mod Quota
pub mod Monitoring
pub mod Streams
pub mod Builder
