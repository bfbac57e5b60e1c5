-- ===== src/Deployment/Pipeline/Candidate.antt =====
-- The first half of `runReleasePipeline` of apps/worker/src/deployment/pipeline.js: a container for the
-- release, until it has passed the check of its health.
use hello_deploy.Prelude.{
  ℕ, Bool, ◌&&◌, ◌||◌, not, ltb, if◌then◌else◌, Option, none, some, is_some, or_else, List, [], ◌∷◌,
}
use hello_deploy.Jobs.{next}
use hello_deploy.Deployment.Pipeline.Flow.{
  FailureCode, M, act, ContainerState, Answers, Job, fail, stop_and_fail, or_fail,
  port_allocation_failed, container_start_failed, container_crashed_on_startup, health_check_failed,
  start_candidate, stop_candidate, pass_health_check,
}

-- `hasCrashed`
unfoldable pub has_crashed : ContainerState → Bool
has_crashed state = not state.running || state.restarting || ltb 0 state.restart_count

-- The loop of the startup check: `later` are the inspections that the deadline leaves time for.
unfoldable pub settle : ContainerState → List ContainerState → ContainerState
settle state [] = state
settle state (s ∷ later) = let rest = settle s later in if has_crashed state then state else rest

-- The stages up to the check of the container's health.
unfoldable pub allocate : Job → M (Unit {0})
allocate j = or_fail j (is_some j.answers.port) port_allocation_failed

unfoldable pub clear_stale : Job → M (Unit {0})
clear_stale j s = next tt (record s {
  actions =
      if j.answers.has_stale_container && j.answers.is_stale_removed
      then stop_candidate ∷ s.actions
      else s.actions;
})

-- The log's entry after the start, inside the same `try`.
abbrev pub log_start : Job → ℕ → M ℕ
log_start j c s = if j.answers.is_start_logged then next c s else fail j container_start_failed s

abbrev pub save_candidate : Job → ℕ → M ℕ
save_candidate j c s =
    if j.answers.is_candidate_saved
    then log_start j c (record s { db = record s.db { candidate_container_id = some c } })
    else fail j container_start_failed s

abbrev pub started : Job → Option ℕ → M ℕ
started j none s = fail j container_start_failed s
started j (some c) s = save_candidate j c (act (start_candidate c) s)

unfoldable pub start : Job → M ℕ
start j = started j j.answers.container

unfoldable pub startup_check : Job → M (Unit {0})
startup_check j s =
    if has_crashed (settle j.answers.first_state j.answers.later_states)
    then stop_and_fail j (or_else j.answers.diagnosis container_crashed_on_startup) s
    else next tt s

abbrev pub unhealthy_code : Answers → FailureCode
unhealthy_code a =
    or_else a.diagnosis (
      if has_crashed a.state_after_check then container_crashed_on_startup else health_check_failed)

unfoldable pub health_check : Job → M (Unit {0})
health_check j s =
    if j.answers.is_healthy
    then next tt (act pass_health_check s)
    else stop_and_fail j (unhealthy_code j.answers) s
