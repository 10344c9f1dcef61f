-- ===== src/Tests.antt =====
-- Runs of the theorems at concrete inputs.
pub mod Names
pub mod Ledger
pub mod Delete
pub mod Attachment
pub mod Provision
pub mod Placement
pub mod Rebalance
pub mod ZoneStorage
pub mod Tenants
pub mod Snapshots
pub mod Drift
pub mod Catalog
