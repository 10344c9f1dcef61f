-- ===== src/Operator/Tenancy.antt =====
-- Who owns what: `tenant`, `ownedVMID`, `embeddedVMID`, `findDisk` and `describes` of
-- pkg/operator/controller/volume/reconciler.go. The attachment reconciler has the same `tenant`.
use proxmox_csi_plugin.Prelude.{
  ℕ, Bool, true, false, ◌&&◌, ◌||◌, List, [], ◌∷◌, Option, none, some, ◌==◌, if◌then◌else◌,
  contains_number, ℤ, pos, negsuc,
}
use proxmox_csi_plugin.Text.{Text, text_eq, parse_int}
use proxmox_csi_plugin.Volume.{Volume, new_volume, vmid, disk_suffix}
use proxmox_csi_plugin.Operator.Types.{Condition, Tenant, Disk, VolumeRecord}

-- `IsStatusConditionTrue`
abbrev pub condition_true : Option Condition → Bool
condition_true none = false
condition_true (some c) = c.holds

-- The loop of `tenant`: the first admitted registration of the namespace.
unfoldable pub admitted_tenant : Text → List Tenant → Option Tenant
admitted_tenant namespace [] = none
admitted_tenant namespace (t ∷ ts) =
    if text_eq t.namespace namespace && condition_true t.conditions.admitted
    then some t
    else admitted_tenant namespace ts

owned_id : Tenant → Option ℤ → Bool
owned_id tenant none = false
owned_id tenant (some (negsuc n)) = false
owned_id tenant (some (pos id)) =
    id == tenant.placeholder_vmid
    || contains_number tenant.legacy_controller_vmids id
    || contains_number tenant.resolved_vmids id

-- `ownedVMID`: a name without a VM id is not refused. The ids of a tenant are not negative.
unfoldable pub owned_vmid : Tenant → Text → Bool
unfolding owned_id
owned_vmid tenant [] = true
owned_vmid tenant (c ∷ digits) = owned_id tenant (parse_int 32 (c ∷ digits))

or_zero : Option ℤ → ℕ
or_zero none = 0
or_zero (some (negsuc n)) = 0
or_zero (some (pos n)) = n

-- `embeddedVMID`; the id that `VMID` returns has no sign.
unfoldable pub embedded_vmid : Volume → ℕ
unfolding or_zero
embedded_vmid vol = or_zero (parse_int 32 (vmid vol))

named : Text → List Disk → Option Disk
named name [] = none
named name (d ∷ disks) = if text_eq d.name name then some d else named name disks

with_suffix : Volume → Text → List Disk → Option Disk
with_suffix handle suffix [] = none
with_suffix handle suffix (d ∷ disks) =
    if text_eq (disk_suffix (new_volume handle.region handle.zone handle.storage d.name [])) suffix
    then some d
    else with_suffix handle suffix disks

by_suffix : Volume → Text → List Disk → Option Disk
unfolding with_suffix
by_suffix handle [] disks = none
by_suffix handle (c ∷ suffix) disks = with_suffix handle (c ∷ suffix) disks

first_of_two : Option Disk → Option Disk → Option Disk
first_of_two (some d) o = some d
first_of_two none o = o

-- `findDisk`: by the exact name, then by the part that a rename keeps.
unfoldable pub find_disk : List Disk → Volume → Option Disk
unfolding named by_suffix first_of_two
find_disk disks handle =
    first_of_two (named handle.disk disks) (by_suffix handle (disk_suffix handle) disks)

-- `describes` finds no disagreement between the spec and the handle.
unfoldable pub describes : VolumeRecord → Volume → Bool
describes vol handle =
    text_eq vol.spec.region handle.region
    && text_eq vol.spec.zone handle.zone
    && text_eq vol.spec.storage handle.storage
