-- ===== src/Operator/Types.antt =====
-- pkg/apis/csi/v1alpha1: the custom resources that the operator reads and writes. VM ids, sizes and
-- counters are numbers that are not negative; messages and time stamps are left out.
use proxmox_csi_plugin.Prelude.{ℕ, Bool, List, Option, none, ℤ}
use proxmox_csi_plugin.Text.{Text}

pub data Reason : Type 0 where
  accepted storage_not_allowed vmid_not_owned quota_exceeded namespace_quota : Reason
  parameter_rejected duplicate_claim tenant_unknown tenant_suspended tenant_observe_only : Reason
  invalid_spec source_not_found adopt_disk_not_found volume_id_mismatch proxmox_error : Reason
  missing_claim_ref reconciling : Reason

pub data TenantMode : Type 0 where
  observe enforce suspended decommission : TenantMode

-- `unset` is the phase of a record that no reconciler has written.
pub data VolumePhase : Type 0 where
  unset pending ready migrating rejected failed deleting : VolumePhase

-- A condition's status and reason; the type is the field of `Conditions` that holds it.
pub record Condition : Type 0 where
  pub holds : Bool
  pub reason : Reason

pub record Conditions : Type 0 where
  pub admitted : Option Condition
  pub ready : Option Condition
  pub degraded : Option Condition

abbrev pub no_conditions : Conditions
no_conditions = record { admitted = none; ready = none; degraded = none }

-- The three labels that the operator sets; a label that is not there is the empty text, as a
-- lookup of a missing key is in Go.
pub record Labels : Type 0 where
  pub tenant : Text
  pub region : Text
  pub storage : Text

pub record VolumeSource : Type 0 where
  pub volume_name : Text
  pub snapshot_name : Text

pub record VolumeSpec : Type 0 where
  pub region : Text
  pub zone : Text
  pub storage : Text
  pub capacity_bytes : ℕ
  pub parameters : List (Text × Text)
  pub source : Option VolumeSource
  pub mutable_parameters : List (Text × Text)
  pub claim_namespace : Text
  pub adopt : Bool
  pub adopt_volume_id : Text

pub record VolumeStatus : Type 0 where
  pub volume_id : Text
  pub disk_name : Text
  pub owner_vmid : ℕ
  pub capacity_bytes : ℕ
  pub accessible_topology : List Text
  pub adopted : Bool
  pub phase : VolumePhase
  pub observed_generation : ℕ
  pub conditions : Conditions

-- `ProxmoxVolume`
pub record VolumeRecord : Type 0 where
  pub namespace : Text
  pub name : Text
  pub created : ℕ
  pub generation : ℕ
  pub deleting : Bool
  pub finalizer : Bool
  pub labels : Labels
  pub applied_params : Text
  pub spec : VolumeSpec
  pub status : VolumeStatus

pub record AttachmentSpec : Type 0 where
  pub volume_name : Text
  pub volume_id : Text
  pub vmid : ℕ
  pub readonly : Bool

pub record AttachmentStatus : Type 0 where
  pub attached : Bool
  pub device_path : Text
  pub lun : Text
  pub observed_generation : ℕ
  pub conditions : Conditions

-- `ProxmoxVolumeAttachment`
pub record Attachment : Type 0 where
  pub namespace : Text
  pub name : Text
  pub generation : ℕ
  pub deleting : Bool
  pub finalizer : Bool
  pub tenant_label : Text
  pub spec : AttachmentSpec
  pub status : AttachmentStatus

-- `ParameterPolicy`, without `Forced`, which no reconciler reads.
pub record ParameterPolicy : Type 0 where
  pub allowed : Option (List Text)
  pub max_int : List (Text × ℤ)
  pub max_volume_bytes : Option ℕ

pub record TenantQuota : Type 0 where
  pub max_volumes : Option ℕ
  pub max_capacity : List (Text × ℕ)

pub record NamespaceQuota : Type 0 where
  pub namespace : Text
  pub max_volumes : Option ℕ
  pub max_capacity : List (Text × ℕ)

-- `QuotaUsage`, and with the namespace `NamespaceUsage`.
pub record NamespaceUsage : Type 0 where
  pub namespace : Text
  pub volumes : ℕ
  pub capacity : List (Text × ℕ)

-- `TenantCluster`
pub record Tenant : Type 0 where
  pub name : Text
  pub created : ℕ
  pub generation : ℕ
  pub deleting : Bool
  pub finalizer : Bool
  pub namespace : Text
  pub region : Text
  pub subject : Text
  pub pool : Text
  pub vmids : List ℕ
  pub placeholder_vmid : ℕ
  pub mode : TenantMode
  pub legacy_controller_vmids : List ℕ
  pub allowed_storages : List Text
  pub parameter_policy : Option ParameterPolicy
  pub quota : Option TenantQuota
  pub namespace_quotas : List NamespaceQuota
  pub resolved_vmids : List ℕ
  pub used_volumes : ℕ
  pub used_capacity : List (Text × ℕ)
  pub namespace_used : List NamespaceUsage
  pub vmids_observed_at : Option ℕ
  pub observed_generation : ℕ
  pub conditions : Conditions

-- `ProxmoxStorage`
pub record StorageRecord : Type 0 where
  pub region : Text
  pub zone : Text
  pub storage : Text
  pub shared : Bool
  pub plugin_type : Text

-- `proxmox.Storage`: a storage that a region lists.
pub record ListedStorage : Type 0 where
  pub region : Text
  pub zone : Text
  pub name : Text
  pub shared : Bool
  pub plugin_type : Text
  pub types : List Text
  pub active : Bool
  pub total_bytes : ℕ
  pub available_bytes : ℕ
  pub used_bytes : ℕ
  pub status_read : Bool

-- `ProxmoxStorage`, as it is published.
pub record CatalogEntry : Type 0 where
  pub name : Text
  pub region_label : Text
  pub storage_label : Text
  pub spec : StorageRecord
  pub types : List Text
  pub active : Bool
  pub total_bytes : ℕ
  pub available_bytes : ℕ
  pub used_bytes : ℕ
  pub ready : Condition

-- `ProxmoxVolumeSnapshot`
pub record SnapshotRecord : Type 0 where
  pub namespace : Text
  pub name : Text
  pub generation : ℕ
  pub deleting : Bool
  pub finalizer : Bool
  pub tenant_label : Text
  pub source_volume_name : Text
  pub zone : Text
  pub snapshot_id : Text
  pub ready_to_use : Bool
  pub restore_size_bytes : ℕ
  pub observed_generation : ℕ
  pub conditions : Conditions

-- `proxmox.Disk`: a disk that a storage lists.
pub record Disk : Type 0 where
  pub region : Text
  pub storage : Text
  pub name : Text
  pub vmid : ℕ
  pub size_bytes : ℕ

-- `proxmox.VM`: a VM that a region lists.
pub record Vm : Type 0 where
  pub vmid : ℕ
  pub pool : Text

-- `proxmox.AttachResult`
pub record AttachResult : Type 0 where
  pub device_path : Text
  pub lun : ℕ
