-- ===== src/Tests/Names.antt =====
-- The theorems on disk names and volume ids, at the names that the CSI controller and the operator give.
use proxmox_csi_plugin.Prelude.{◌*◌, ◌≡◌, ◌↔◌, refl, [], some, ok, arith, negsuc, int64}
use proxmox_csi_plugin.Text.{codes, itoa, is_digit}
use proxmox_csi_plugin.DiskName.{DiskMatch, diskre, disk_name, is_vmid, is_suffix}
use proxmox_csi_plugin.DiskName.Grammar.{IsDiskMatch, diskre-iff-disk_name}
use proxmox_csi_plugin.Volume.{Volume, volume_id, parse_volume_id, vmid, with_vmid}
use proxmox_csi_plugin.Volume.Identity.{IsPrintable, parse_volume_id-iff-volume_id}
use proxmox_csi_plugin.Volume.Rename.{
  IsVmNumber, SameVolume, IsNamedFor, dir_for, with_vmid_names, with_vmid_back,
}
use proxmox_csi_plugin.Sizes.{mib, min_chunk_size_bytes, whole_units, round_up_size_bytes}
use proxmox_csi_plugin.Sizes.Rounding.{RoundsUp, round_up_size_bytes-RoundsUp}

abbrev on_file : DiskMatch
on_file = record { dir = codes "9999"; vmid = codes "9999"; suffix = codes "pvc-1.raw" }

on_file-IsDiskMatch : IsDiskMatch on_file
unfolding is_vmid is_suffix is_digit
on_file-IsDiskMatch = record {
  dir = record { digits = (refl, (refl, (refl, (refl, tt)))); shape = refl };
  vmid = record { digits = (refl, (refl, (refl, (refl, tt)))); shape = refl };
  suffix = refl;
}

abbrev at_rest : Volume
at_rest = record {
  region = codes "r1";
  zone = codes "pve1";
  node = codes "pve1";
  storage = codes "lvm";
  disk = codes "vm-9999-pvc-1";
}

abbrev published : Volume
published = record at_rest { disk = codes "vm-105-pvc-1" }

number_105 : IsVmNumber 105
number_105 = record { low = omega arith; high = omega arith }

renamed_105 : with_vmid 105 at_rest ≡ some published
unfolding with_vmid diskre itoa
renamed_105 = refl

with_vmid_names_example : (vmid published ≡ itoa 105) × SameVolume at_rest published
with_vmid_names_example = with_vmid_names 105 at_rest published number_105 renamed_105

at_rest-IsNamedFor : IsNamedFor 9999 at_rest
at_rest-IsNamedFor = record {
  parts = record { dir = []; vmid = codes "9999"; suffix = codes "pvc-1" };
  found = unfold diskre in refl;
  same_vmid = unfold itoa in refl;
  same_dir = unfold dir_for in refl;
}

with_vmid_back_example : with_vmid 9999 published ≡ some at_rest
with_vmid_back_example =
    with_vmid_back 105 9999 at_rest published number_105 at_rest-IsNamedFor renamed_105

round_up_size_bytes-RoundsUp_example :
    RoundsUp
      (1500 * mib)
      min_chunk_size_bytes
      (round_up_size_bytes (1500 * mib) min_chunk_size_bytes)
round_up_size_bytes-RoundsUp_example =
    round_up_size_bytes-RoundsUp (1500 * mib) min_chunk_size_bytes (omega arith) (omega arith)

-- A size near the greatest number wraps around.
round_up_size_bytes_wraps :
    round_up_size_bytes 9223372036854775807 min_chunk_size_bytes ≡ negsuc 9223372036317904895
unfolding round_up_size_bytes whole_units int64
round_up_size_bytes_wraps = refl

diskre-iff-disk_name_example :
    (diskre (codes "9999/vm-9999-pvc-1.raw") ≡ some on_file)
    ↔ ((codes "9999/vm-9999-pvc-1.raw" ≡ disk_name on_file) × IsDiskMatch on_file)
diskre-iff-disk_name_example = diskre-iff-disk_name (codes "9999/vm-9999-pvc-1.raw") on_file

parse_volume_id-iff-volume_id_example :
    (parse_volume_id (codes "r1/pve1/lvm/vm-9999-pvc-1") ≡ ok at_rest)
    ↔ ((volume_id at_rest ≡ codes "r1/pve1/lvm/vm-9999-pvc-1") × IsPrintable at_rest)
parse_volume_id-iff-volume_id_example =
    parse_volume_id-iff-volume_id (codes "r1/pve1/lvm/vm-9999-pvc-1") at_rest
