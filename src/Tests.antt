-- ===== src/Tests.antt =====
-- A small database, messages and answers, and the theorems at them.
pub mod Data
pub mod Store
pub mod Process
pub mod Processed
pub mod Statuses
pub mod Outbox
pub mod Billing
pub mod Scans
pub mod Targets
pub mod NetworkGuard
pub mod Onboarding
pub mod ResourceGraph
pub mod Snapshots
pub mod Providers
