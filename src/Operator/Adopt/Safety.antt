-- ===== src/Operator/Adopt/Safety.antt =====
-- The effects that an adoption may have, for pkg/operator/controller/volume/reconciler.go.
use proxmox_csi_plugin.Prelude.{[], ◌≡◌, Bool, true, false, not, List, Option, none, some, ok, ◌⊎◌}
use proxmox_csi_plugin.Volume.{Volume, parse_volume_id, new_volume, vmid}
use proxmox_csi_plugin.Operator.Types.{VolumeRecord, Condition, Tenant, Disk}
use proxmox_csi_plugin.Operator.Action.{Env, Effect, write_volume_status, update_volume, Trace}
use proxmox_csi_plugin.Operator.Phase.{is_suspended}
use proxmox_csi_plugin.Operator.Tenancy.{owned_vmid, describes, find_disk}
use proxmox_csi_plugin.Operator.Record.Rules.{Registered, Unique}

abbrev pub is_false : Option Condition → Bool
is_false none = false
is_false (some c) = not c.holds

-- The status is not granted: the record has the handle that it had, and says that it is not ready.
pub record Refused (vol w : VolumeRecord) : Type 0 where
  pub volume_id : w.status.volume_id ≡ vol.status.volume_id
  pub not_ready : is_false w.status.conditions.ready ≡ true

-- A tenant that may have the handle that `vol` asks for.
pub record Entitled (env : Env) (vol : VolumeRecord) (tenant : Tenant) (handle : Volume)
    : Type 0 where
  pub listed : Registered env vol tenant
  pub active : is_suspended tenant.mode ≡ false
  pub parsed : parse_volume_id vol.spec.adopt_volume_id ≡ ok handle
  pub described : describes vol handle ≡ true
  pub region : handle.region ≡ tenant.region
  pub owned : owned_vmid tenant (vmid handle) ≡ true
  pub unique : Unique env vol none

-- The disk is on the storage that the handle names, at some time of asking.
abbrev pub Found : Env → Volume → Disk → Type 0
Found env handle disk =
    (ds : List Disk) × (t : Trace) × (env.list_disks t handle.region handle.zone handle.storage
      ≡ some ds)
    × (find_disk ds handle ≡ some disk)

abbrev OwnsDisk : Tenant → Volume → Disk → Type 0
OwnsDisk tenant handle disk =
    owned_vmid tenant (vmid (new_volume handle.region handle.zone handle.storage disk.name []))
    ≡ true

-- The status that an adoption grants, for a disk that is there and has a VM id of the tenant.
pub record Granted (env : Env) (vol w : VolumeRecord) : Type 0 where
  pub tenant : Tenant
  pub handle : Volume
  pub disk : Disk
  pub entitled : Entitled env vol tenant handle
  pub found : Found env handle disk
  pub owned : OwnsDisk tenant handle disk
  pub volume_id : w.status.volume_id ≡ vol.spec.adopt_volume_id
  pub disk_name : w.status.disk_name ≡ disk.name
  pub capacity : w.status.capacity_bytes ≡ disk.size_bytes

-- The effects that an adoption of `vol` may have.
abbrev pub AdoptEffect : Env → VolumeRecord → Effect → Type 0
AdoptEffect env vol (write_volume_status w) = Refused vol w ⊎ Granted env vol w
AdoptEffect env vol (update_volume w) = (w.status ≡ vol.status) × (w.finalizer ≡ true)
AdoptEffect env vol e = ⊥
