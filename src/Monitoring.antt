-- ===== src/Monitoring.antt =====
-- The monitoring of the worker (apps/worker/src/monitoring): probes, health and incidents.
pub mod Probes
pub mod Incidents
pub mod Alerts
pub mod Policy
pub mod Rules
pub mod Containers
mod Tests
