-- ===== src/Operator/Provision.antt =====
-- `reconcileProvision` and `storagePluginType` of pkg/operator/controller/volume/provision.go.
pub mod Refusal
pub mod Safety
pub mod Complete
use proxmox_csi_plugin.Prelude.{
  ℕ, Bool, true, false, not, ◌&&◌, ◌||◌, List, [], ◌∷◌, ◌++◌, Option, none, some, if◌then◌else◌,
}
use proxmox_csi_plugin.Text.{Text, codes, text_eq, is_empty, contains_text, lookup, itoa}
use proxmox_csi_plugin.Volume.{Volume, new_volume, volume_id, disk_base_name}
use proxmox_csi_plugin.Sizes.{disk_size}
use proxmox_csi_plugin.Storage.{disk_format}
use proxmox_csi_plugin.Operator.Types.{
  Reason, accepted, storage_not_allowed, quota_exceeded, namespace_quota, parameter_rejected,
  tenant_unknown, tenant_suspended, tenant_observe_only, invalid_spec, missing_claim_ref,
  proxmox_error, VolumePhase, ready, failed, VolumeSource, VolumeRecord, NamespaceQuota, Tenant,
  StorageRecord, Disk,
}
use proxmox_csi_plugin.Operator.Action.{
  Env, Effect, create_disk, Action, Fault, listing, proxmox, pure, exit, ask, ask_or_fail, perform,
  ◌>>=◌,
}
use proxmox_csi_plugin.Operator.Phase.{is_ready, is_suspended, is_observe}
use proxmox_csi_plugin.Operator.Tenancy.{admitted_tenant}
use proxmox_csi_plugin.Operator.Quota.{check_parameter_policy, check_quota, check_namespace_quota}
use proxmox_csi_plugin.Operator.Record.{
  set_admitted, set_ready, report, reject, reject_duplicate, duplicate, hold,
}
use proxmox_csi_plugin.Operator.Source.{provision_from_source}
use proxmox_csi_plugin.Operator.Ready.{Modify, reconcile_ready_volume}

abbrev pub some_quotas : List NamespaceQuota → Bool
some_quotas [] = false
some_quotas (q ∷ qs) = true

-- The refusals, in order, up to the search for a duplicate.
unfoldable pub refusal : Tenant → VolumeRecord → Option Reason
refusal tenant vol =
    if is_suspended tenant.mode
    then some tenant_suspended
    else if is_observe tenant.mode
    then some tenant_observe_only
    else if not (text_eq vol.spec.region tenant.region)
    then some invalid_spec
    else if not (contains_text tenant.allowed_storages vol.spec.storage)
    then some storage_not_allowed
    else if not
        (check_parameter_policy tenant.parameter_policy vol.spec.parameters vol.spec.capacity_bytes)
    then some parameter_rejected
    else if not (check_quota tenant vol)
    then some quota_exceeded
    else if some_quotas tenant.namespace_quotas && is_empty vol.spec.claim_namespace
    then some missing_claim_ref
    else if not (check_namespace_quota tenant vol)
    then some namespace_quota
    else none

named_plugin : Text → Option Text
named_plugin [] = none
named_plugin (c ∷ plugin_type) = some (c ∷ plugin_type)

-- The loop of `storagePluginType`.
unfoldable pub storage_plugin_type : Text → Text → Text → List StorageRecord → Option Text
unfolding named_plugin
storage_plugin_type region zone storage [] = none
storage_plugin_type region zone storage (ps ∷ more) =
    if not (text_eq ps.region region) || not (text_eq ps.storage storage)
    then storage_plugin_type region zone storage more
    else if not ps.shared && (not (is_empty zone) && not (text_eq ps.zone zone))
    then storage_plugin_type region zone storage more
    else named_plugin ps.plugin_type

-- `storagePluginType`
abbrev pub plugin_of : VolumeRecord → Option (List StorageRecord) → Option Text
plugin_of vol none = none
plugin_of vol (some catalog) =
    storage_plugin_type vol.spec.region vol.spec.zone vol.spec.storage catalog

abbrev pub or_empty : Option Text → Text
or_empty none = []
or_empty (some text) = text

-- The volume to provision: named for the placeholder VM and the record, with the storage's format.
unfoldable pub disk_volume : Tenant → VolumeRecord → Text → Volume
disk_volume tenant vol plugin_type =
    new_volume vol.spec.region vol.spec.zone vol.spec.storage
      (codes "vm-" ++ (itoa tenant.placeholder_vmid ++ b'-' ∷ vol.name))
      (disk_format plugin_type (or_empty (lookup (codes "storageFormat") vol.spec.parameters)) ∷ [])

-- The loop that looks for the disk in the content of the storage.
unfoldable pub disk_exists : Volume → List Disk → Bool
disk_exists volume [] = false
disk_exists volume (d ∷ disks) =
    (text_eq d.name volume.disk || text_eq d.name (disk_base_name volume))
    || disk_exists volume disks

abbrev pub size_of : VolumeRecord → ℕ
size_of vol = disk_size vol.spec.capacity_bytes

abbrev pub provisioned : VolumeRecord → Tenant → Volume → VolumeRecord
provisioned vol tenant volume = record vol {
  status = set_ready true accepted (
      set_admitted true accepted (record (vol.status) {
        volume_id = volume_id volume;
        disk_name = volume.disk;
        owner_vmid = tenant.placeholder_vmid;
        capacity_bytes = size_of vol;
        accessible_topology = vol.spec.zone ∷ [];
        adopted = false;
        phase = ready;
      }));
}

created : Env → VolumeRecord → Bool → Action VolumeRecord
created env vol true = pure vol
created env vol false = do
  done ←
      report env false (some proxmox) (record vol {
        status = record (set_ready false proxmox_error vol.status) { phase = failed };
      })
  pure vol

create_listed : Env → VolumeRecord → Volume → Option (List Disk) → Action VolumeRecord
unfolding created
create_listed env vol volume none = do
  done ←
      report env false (some proxmox)
        (record vol { status = set_ready false proxmox_error vol.status })
  pure vol
create_listed env vol volume (some disks) = if disk_exists volume disks then pure vol else do
  done ←
      perform env
        (create_disk vol.spec.region vol.spec.zone vol.spec.storage volume.disk (size_of vol))
  created env vol done

make_disk : Env → VolumeRecord → Volume → Option VolumeSource → Action VolumeRecord
unfolding create_listed
make_disk env vol volume (some source) = provision_from_source env vol volume source
make_disk env vol volume none = do
  disks ← ask (λ t. env.list_disks t vol.spec.region vol.spec.zone vol.spec.storage)
  create_listed env vol volume disks

provision_held : Env → Tenant → Volume → VolumeRecord → Action (Unit {0})
unfolding make_disk
provision_held env tenant volume held = do
  made ← make_disk env held volume held.spec.source
  report env true none (provisioned made tenant volume)

provision_on : Env → VolumeRecord → Tenant → Option Text → Action (Unit {0})
unfolding provision_held
provision_on env vol tenant none = reject env vol invalid_spec
provision_on env vol tenant (some plugin_type) = do
  held ← hold env vol tenant
  provision_held env tenant (disk_volume tenant vol plugin_type) held

provision_unclaimed : Env → VolumeRecord → Tenant → Option VolumeRecord → Action (Unit {0})
unfolding provision_on
provision_unclaimed env vol tenant (some other) = reject_duplicate env vol
provision_unclaimed env vol tenant none = do
  plugin_type ← ask (λ t. plugin_of vol (env.list_storages t))
  provision_on env vol tenant plugin_type

provision_admitted : Env → VolumeRecord → Tenant → Option Reason → Action (Unit {0})
unfolding provision_unclaimed
provision_admitted env vol tenant (some reason) = reject env vol reason
provision_admitted env vol tenant none = do
  other ← duplicate env vol
  provision_unclaimed env vol tenant other

provision_for : Env → VolumeRecord → Option Tenant → Action (Unit {0})
unfolding provision_admitted
provision_for env vol none = reject env vol tenant_unknown
provision_for env vol (some tenant) = provision_admitted env vol tenant (refusal tenant vol)

-- `reconcileProvision`, of a record that is not ready.
unfoldable pub provision : Env → VolumeRecord → Action (Unit {0})
unfolding provision_for
provision env vol = do
  tenants ← ask_or_fail listing env.list_tenants
  provision_for env vol (admitted_tenant vol.namespace tenants)

-- `reconcileProvision`
unfoldable pub reconcile_provision : Env → Modify → VolumeRecord → Action (Unit {0})
reconcile_provision env modify vol =
    if is_ready vol.status.phase && not (is_empty vol.status.volume_id)
    then reconcile_ready_volume env modify vol
    else provision env vol
