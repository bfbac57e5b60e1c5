-- ===== src/Monitoring/Probes/Health.antt =====
-- `deriveAppHealth` of apps/worker/src/monitoring/probes.js: when an app is healthy, and what one
-- answer can change.
use hello_deploy.Prelude.{ℕ, ◌≤◌, ◌<◌, ◌≡◌, ◌≢◌, arith, ◌↔◌, Bool, true, false, some, is_some}
use hello_deploy.Monitoring.Probes.{
  Answer, History, record_answer, healthy, unhealthy, AppProject, AppContainer, ProbePolicy,
  is_suspended, health_of_history, derive_app_health,
}

-- An app is healthy exactly when it is not in maintenance or suspended, has a live release whose
-- container runs and is not restarting, is probed, and its newest answers are enough passes.
pub healthy_iff :
    (p : AppProject) (c : AppContainer) (h : History) (policy : ProbePolicy) (probes_enabled : Bool)
    (now_ms : ℕ)
    → (derive_app_health p (some c) (some h) policy probes_enabled now_ms ≡ healthy) ↔ (
        (p.maintenance ≡ false)
        × (is_suspended p.status ≡ false)
        × (is_some p.active_deployment_id ≡ true)
        × (c.restarting ≡ false)
        × (c.running ≡ true)
        × (probes_enabled ≡ true)
        × (is_some h.last ≡ true)
        × (h.consecutive_failures ≡ 0)
        × (0 < policy.failures_before_unhealthy)
        × (policy.successes_before_healthy ≤ h.consecutive_successes))
unfolding derive_app_health
healthy_iff p c h policy probes_enabled now_ms = ground arith

-- If the policy wants more than one failure, no single answer turns a healthy app unhealthy.
pub one_failure_not_unhealthy :
    (policy : ProbePolicy) (started_ms now_ms at : ℕ) (a : Answer) (h : History)
    → 1 < policy.failures_before_unhealthy
    → health_of_history policy started_ms now_ms h ≡ healthy
    → health_of_history policy started_ms now_ms (record_answer at a h) ≢ unhealthy
unfolding health_of_history record_answer
one_failure_not_unhealthy policy started_ms now_ms at a h f before now = ground arith
