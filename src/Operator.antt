-- ===== src/Operator.antt =====
-- The volume operator: pkg/operator/controller/{volume,attachment} over pkg/apis/csi/v1alpha1.
pub mod Types
pub mod Action
pub mod Tenancy
pub mod Claim
pub mod Quota
pub mod Record
pub mod Phase
pub mod Adopt
pub mod Source
pub mod Ready
pub mod Provision
pub mod Delete
pub mod Attachment
pub mod Usage
pub mod Register
pub mod Resolve
pub mod Tenants
pub mod Snapshots
pub mod Drift
pub mod StorageName
pub mod VmLock
pub mod Publisher
