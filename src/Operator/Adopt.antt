-- ===== src/Operator/Adopt.antt =====
-- `reconcileAdopt` and `adopt` of pkg/operator/controller/volume/reconciler.go.
pub mod Safety
use proxmox_csi_plugin.Prelude.{
  Bool, true, false, not, ◌&&◌, List, [], ◌∷◌, Option, none, some, Result, ok, err, if◌then◌else◌,
}
use proxmox_csi_plugin.Text.{Text, text_eq, is_empty, contains_text}
use proxmox_csi_plugin.Volume.{Volume, VolumeError, parse_volume_id, new_volume, vmid}
use proxmox_csi_plugin.Operator.Types.{
  Reason, accepted, storage_not_allowed, vmid_not_owned, tenant_unknown, tenant_suspended,
  invalid_spec, adopt_disk_not_found, volume_id_mismatch, proxmox_error, TenantMode, suspended,
  VolumeRecord, VolumeStatus, ready, failed, Tenant, Disk,
}
use proxmox_csi_plugin.Operator.Action.{Env, Action, listing, proxmox, ask, ask_or_fail, ◌>>=◌}
use proxmox_csi_plugin.Operator.Phase.{is_suspended}
use proxmox_csi_plugin.Operator.Tenancy.{
  admitted_tenant, owned_vmid, embedded_vmid, find_disk, describes,
}
use proxmox_csi_plugin.Operator.Record.{
  set_admitted, set_ready, set_degraded, report, reject, reject_duplicate, duplicate, hold,
}

-- The condition Degraded of an adopted record.
abbrev pub storage_allowed : Bool → VolumeStatus → VolumeStatus
storage_allowed true s = set_degraded false accepted s
storage_allowed false s = set_degraded true storage_not_allowed s

-- What an adoption writes into the status.
abbrev pub adopted_status : VolumeRecord → Tenant → Volume → Disk → VolumeStatus
adopted_status vol tenant handle disk =
    storage_allowed (contains_text tenant.allowed_storages handle.storage) (
      set_ready true accepted (
        set_admitted true accepted (record (vol.status) {
          volume_id = vol.spec.adopt_volume_id;
          disk_name = disk.name;
          owner_vmid =
              embedded_vmid (new_volume handle.region handle.zone handle.storage disk.name []);
          capacity_bytes = disk.size_bytes;
          adopted = true;
          phase = ready;
        })))

-- The part of `adopt` behind the search for the disk.
unfoldable pub adopt_disk : Env → VolumeRecord → Tenant → Volume → Option Disk → Action (Unit {0})
adopt_disk env vol tenant handle none = report env true none (record vol {
  status =
      record (set_ready false adopt_disk_not_found
        (set_admitted false adopt_disk_not_found vol.status)) { phase = failed };
})
adopt_disk env vol tenant handle (some disk) =
    if not
      (owned_vmid tenant (vmid (new_volume handle.region handle.zone handle.storage disk.name [])))
    then reject env vol vmid_not_owned
    else do
      held ← hold env vol tenant
      report env true none (record held { status = adopted_status held tenant handle disk })

adopt_listed : Env → VolumeRecord → Tenant → Volume → Option (List Disk) → Action (Unit {0})
unfolding adopt_disk
adopt_listed env vol tenant handle none =
    report env false (some proxmox)
      (record vol { status = set_ready false proxmox_error vol.status })
adopt_listed env vol tenant handle (some disks) =
    adopt_disk env vol tenant handle (find_disk disks handle)

-- `adopt`
unfoldable pub adopt : Env → VolumeRecord → Tenant → Volume → Action (Unit {0})
unfolding adopt_listed
adopt env vol tenant handle = do
  disks ← ask (λ t. env.list_disks t handle.region handle.zone handle.storage)
  adopt_listed env vol tenant handle disks

adopt_unclaimed : Env → VolumeRecord → Tenant → Volume → Option VolumeRecord → Action (Unit {0})
unfolding adopt
adopt_unclaimed env vol tenant handle (some other) = reject_duplicate env vol
adopt_unclaimed env vol tenant handle none = adopt env vol tenant handle

adopt_handle : Env → VolumeRecord → Tenant → Result VolumeError Volume → Action (Unit {0})
unfolding adopt_unclaimed
adopt_handle env vol tenant (err e) = reject env vol invalid_spec
adopt_handle env vol tenant (ok handle) =
    if not (describes vol handle)
    then reject env vol volume_id_mismatch
    else if not (text_eq handle.region tenant.region)
    then reject env vol invalid_spec
    else if not (owned_vmid tenant (vmid handle))
    then reject env vol vmid_not_owned
    else do other ← duplicate env vol; adopt_unclaimed env vol tenant handle other

adopt_for : Env → VolumeRecord → Option Tenant → Action (Unit {0})
unfolding adopt_handle
adopt_for env vol none = reject env vol tenant_unknown
adopt_for env vol (some tenant) =
    if is_suspended tenant.mode
    then reject env vol tenant_suspended
    else if is_empty vol.spec.adopt_volume_id
    then reject env vol invalid_spec
    else adopt_handle env vol tenant (parse_volume_id vol.spec.adopt_volume_id)

-- `reconcileAdopt`
unfoldable pub reconcile_adopt : Env → VolumeRecord → Action (Unit {0})
unfolding adopt_for
reconcile_adopt env vol = do
  tenants ← ask_or_fail listing env.list_tenants
  adopt_for env vol (admitted_tenant vol.namespace tenants)
