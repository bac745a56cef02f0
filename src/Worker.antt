-- ===== src/Worker.antt =====
-- The scan worker (bevoac-worker-enterprise).
pub mod Errors
pub mod Store
pub mod Lifecycle
pub mod Providers
pub mod Processor
pub mod Statuses
pub mod NetworkGuard
pub mod Retry
pub mod ResourceGraph
pub mod Scores
