-- ===== src/Api.antt =====
-- The API (bevoac-api-enterprise).
pub mod Errors
pub mod Hosts
pub mod CanonicalJson
pub mod Targets
pub mod Contract
pub mod OnboardingState
pub mod Outbox
pub mod Scans
pub mod Billing
pub mod Snapshots
pub mod Providers
pub mod RuntimeModes
