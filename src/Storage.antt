-- ===== src/Storage.antt =====
-- The format of a disk by the type of its storage: `StorageLevel` and `DiskFormat` of
-- pkg/tools/proxmox/csi_helpers.go.
use proxmox_csi_plugin.Prelude.{◌&&◌, [], ◌∷◌, if◌then◌else◌}
use proxmox_csi_plugin.Text.{Text, codes, text_eq, contains_text}

pub data Level : Type 0 where
  file_level block_level : Level

-- `StorageLevel`
unfoldable pub storage_level : Text → Level
storage_level plugin_type =
    if contains_text
      (codes "dir" ∷ codes "nfs" ∷ codes "cifs" ∷ codes "cephfs" ∷ codes "btrfs" ∷ []) plugin_type
    then file_level
    else block_level

by_level : Level → Text → Text
by_level block_level requested = []
by_level file_level requested =
    if text_eq requested (codes "qcow2") then codes "qcow2" else codes "raw"

-- `DiskFormat`
unfoldable pub disk_format : Text → Text → Text
unfolding by_level
disk_format plugin_type requested =
    if text_eq plugin_type (codes "lvm") && text_eq requested (codes "qcow2")
    then codes "qcow2"
    else by_level (storage_level plugin_type) requested
