-- ===== src/Tests/Drift.antt =====
-- The theorems on a sweep, where a volume is attached to a VM and its disk is renamed.
use mathlib.Core.List.{Memᴰ}
use proxmox_csi_plugin.Prelude.{refl, [], ◌∷◌}
use proxmox_csi_plugin.Text.{codes, is_empty, split_n, cut}
use proxmox_csi_plugin.DiskName.{diskre}
use proxmox_csi_plugin.Volume.{Volume, parse_volume_id, disk_suffix, new_volume}
use proxmox_csi_plugin.Operator.Drift.{Listing, Target, listed, Orphan}
use proxmox_csi_plugin.Operator.Drift.Keys.{Claims}
use proxmox_csi_plugin.Operator.Drift.Exact.{sweep-IsExact}
use proxmox_csi_plugin.Operator.Drift.Reports.{sweep_spares_claimed}
use proxmox_csi_plugin.Tests.Ledger.{tenant, made}

abbrev renamed_disks : Target → Listing
renamed_disks t = listed (
    record {
      region = codes "r1";
      storage = codes "lvm";
      name = codes "vm-105-pvc-1";
      vmid = 105;
      size_bytes = 0;
    }
    ∷ [])

abbrev handle : Volume
handle = record {
  region = codes "r1";
  zone = codes "pve1";
  node = codes "pve1";
  storage = codes "lvm";
  disk = codes "vm-9999-pvc-1";
}

made-Claims : Claims made handle
made-Claims = record {
  has_id = unfold is_empty in refl;
  parsed = unfold parse_volume_id split_n cut in refl;
  named = unfold disk_suffix diskre is_empty in refl;
}

abbrev attached_disk : Orphan
attached_disk = record {
  region = codes "r1";
  storage = codes "lvm";
  name = codes "vm-105-pvc-1";
  vmid = 105;
  size_bytes = 0;
}

sweep_spares_claimed_example :
    ¬ (Memᴰ attached_disk (sweep-IsExact renamed_disks (made ∷ []) (tenant ∷ [])).0.orphans)
sweep_spares_claimed_example =
    sweep_spares_claimed renamed_disks (made ∷ []) (tenant ∷ []) made handle
      (sweep-IsExact renamed_disks (made ∷ []) (tenant ∷ [])).0 attached_disk (Memᴰ.head refl)
      made-Claims (sweep-IsExact renamed_disks (made ∷ []) (tenant ∷ [])).1 refl refl
      (unfold disk_suffix new_volume diskre in refl)
