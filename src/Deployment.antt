-- ===== src/Deployment.antt =====
-- The worker's deployment records: their status, ports and retention.
pub mod Status
mod Tests
pub mod Ports
pub mod Registry
pub mod Retention
pub mod Cleanup
pub mod Pipeline
pub mod Build
