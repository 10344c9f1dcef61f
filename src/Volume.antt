-- ===== src/Volume.antt =====
-- pkg/utils/volume/volume.go: volume ids and the disk names in them. The getters `Region`, `Zone`,
-- `Node`, `Storage`, `Disk` and `Cluster` (the region) are the fields; a setter returns the new
-- record. A VM id is a number that is not negative.
pub mod Identity
pub mod Rename
pub mod Naming
use proxmox_csi_plugin.Prelude.{
  ℕ, suc, ◌≡◌, refl, Bool, true, false, ◌||◌, List, [], ◌∷◌, ◌++◌, Option, none, some, Result, ok,
  err, if◌then◌else◌,
}
use proxmox_csi_plugin.Text.{Text, codes, text_eq, is_empty, split_n, after_last, itoa}
use proxmox_csi_plugin.DiskName.{DiskMatch, vmidre, diskre, file_name}

pub record Volume : Type 0 where
  pub region : Text
  pub zone : Text
  pub node : Text
  pub storage : Text
  pub disk : Text

-- The only error: the id does not have four parts.
pub data VolumeError : Type 0 where
  bad_volume_id : VolumeError

-- The directory `<vmid>/` of a disk that is split as `vm-<vmid>-<name>`.
vm_dir : List Text → Text
vm_dir (vm ∷ vmid ∷ name ∷ []) = vmid ++ b'/' ∷ []
vm_dir parts = []

formatted : Text → Text → Text
unfolding vm_dir
formatted disk [] = disk
formatted disk (c ∷ fmt) = vm_dir (split_n b'-' 3 disk) ++ (disk ++ b'.' ∷ (c ∷ fmt))

first_format : List Text → Text
first_format [] = []
first_format (fmt ∷ more) = fmt

-- `NewVolume`; `format` is the variadic argument, of which only the first counts.
unfoldable pub new_volume : Text → Text → Text → Text → List Text → Volume
unfolding formatted first_format
new_volume region zone storage disk format = record {
  region = region;
  zone = zone;
  node = zone;
  storage = storage;
  disk = formatted disk (first_format format);
}

from_parts : List Text → Result VolumeError Volume
from_parts (region ∷ zone ∷ storage ∷ disk ∷ []) =
    ok (record { region = region; zone = zone; node = zone; storage = storage; disk = disk })
from_parts parts = err bad_volume_id

-- `NewVolumeFromVolumeID`, `parseVolumeID`
unfoldable pub parse_volume_id : Text → Result VolumeError Volume
unfolding from_parts
parse_volume_id vol = from_parts (split_n b'/' 4 vol)

-- `VolumeID`
unfoldable pub volume_id : Volume → Text
volume_id v = v.region ++ b'/' ∷ (v.zone ++ b'/' ∷ (v.storage ++ b'/' ∷ v.disk))

-- `VolumeSharedID`
unfoldable pub volume_shared_id : Volume → Text
volume_shared_id v = v.region ++ b'/' ∷ b'/' ∷ (v.storage ++ b'/' ∷ v.disk)

-- `VolID`
unfoldable pub vol_id : Volume → Text
vol_id v = v.storage ++ b':' ∷ v.disk

or_empty : Option Text → Text
or_empty none = []
or_empty (some t) = t

-- `VMID`
unfoldable pub vmid : Volume → Text
unfolding or_empty
vmid v = or_empty (vmidre v.disk)

copied : Volume → Text → Option Text → Text
copied v volume none = volume
copied v volume (some extension) = vmid v ++ b'/' ∷ (volume ++ b'.' ∷ extension)

-- `CopyVolume`
unfoldable pub copy_volume : Volume → Text → Volume
unfolding copied
copy_volume v volume = record v { disk = copied v volume (after_last b'.' v.disk) }

base_name : Text → Option Text → Text
base_name disk none = disk
base_name disk (some name) = name

-- `DiskName`
unfoldable pub disk_base_name : Volume → Text
unfolding base_name
disk_base_name v = base_name v.disk (after_last b'/' v.disk)

suffix_of : Option DiskMatch → Text
suffix_of none = []
suffix_of (some m) = m.suffix

-- `DiskSuffix`
unfoldable pub disk_suffix : Volume → Text
unfolding suffix_of
disk_suffix v = suffix_of (diskre v.disk)

pub renamed_disk : ℕ → Text → Text → Text
renamed_disk n [] suffix = file_name (itoa n) suffix
renamed_disk n (c ∷ dir) suffix = itoa n ++ b'/' ∷ file_name (itoa n) suffix

renamed : ℕ → Volume → Option DiskMatch → Option Volume
unfolding renamed_disk
renamed n v none = none
renamed n v (some m) = some (record v { disk = renamed_disk n m.dir m.suffix })

-- `WithVMID`; nil is `none`.
unfoldable pub with_vmid : ℕ → Volume → Option Volume
unfolding renamed
with_vmid n v = renamed n v (diskre v.disk)

first_part : List Text → Text
first_part [] = []
first_part (p ∷ parts) = p

name_part : List Text → Text
unfolding first_part
name_part (vm ∷ id ∷ name ∷ []) = first_part (split_n b'.' 2 name)
name_part parts = []

-- `PV`
unfoldable pub pv : Volume → Text
unfolding name_part
pv v = name_part (split_n b'-' 3 v.disk)

-- `SetZone`
unfoldable pub set_zone : Volume → Text → Volume
set_zone v zone =
    if text_eq v.node v.zone || is_empty v.node
    then record v { node = zone; zone = zone }
    else record v { zone = zone }

-- `SetNode`
abbrev pub set_node : Volume → Text → Volume
set_node v node = record v { node = node }

-- `SetStorage`
abbrev pub set_storage : Volume → Text → Volume
set_storage v storage = record v { storage = storage }

-- `SetDisk`
abbrev pub set_disk : Volume → Text → Volume
set_disk v disk = record v { disk = disk }
