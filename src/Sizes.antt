-- ===== src/Sizes.antt =====
-- Sizes of volumes: `RoundUpSizeBytes` of pkg/csi/helper.go and the units of pkg/csi/helper.go and
-- pkg/csi/driver.go. The sizes are 64-bit numbers,
-- of which those that are given are not negative.
pub mod Rounding
use proxmox_csi_plugin.Prelude.{
  ℕ, suc, ◌+◌, ◌-◌, ◌*◌, ◌/◌, ◌==◌, if◌then◌else◌, ℤ, pos, negsuc, opposite, int64,
}

abbrev pub mib : ℕ
mib = 1024 * 1024

-- `MinChunkSizeBytes`
abbrev pub min_chunk_size_bytes : ℕ
min_chunk_size_bytes = 512 * mib

-- The allocation unit times a quotient, which is rounded towards 0.
unfoldable pub whole_units : ℕ → ℤ → ℤ
whole_units unit (pos n) = pos (unit * (n / unit))
whole_units unit (negsuc n) = opposite (unit * (suc n / unit))

-- `RoundUpSizeBytes`; the sum may wrap around.
unfoldable pub round_up_size_bytes : ℕ → ℕ → ℤ
unfolding whole_units
round_up_size_bytes volume_size allocation_unit =
    if volume_size == 0
    then pos allocation_unit
    else whole_units allocation_unit (int64 (volume_size + allocation_unit - 1))

-- The sizes of records and disks are not negative here: one that wrapped to a negative number counts
-- as 0, which like that number is above no capacity of a record.
abbrev pub size_or_zero : ℤ → ℕ
size_or_zero (pos n) = n
size_or_zero (negsuc n) = 0

-- The size of the disk of a volume.
unfoldable pub disk_size : ℕ → ℕ
disk_size capacity = size_or_zero (round_up_size_bytes capacity min_chunk_size_bytes)
