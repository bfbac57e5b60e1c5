-- ===== src/Contracts.antt =====
-- packages/contracts: the values and rules that the web app and the worker share.
pub mod Enums
pub mod Subdomains
pub mod Strategies
pub mod Builder
mod Tests
