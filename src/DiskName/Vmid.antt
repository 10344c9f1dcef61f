-- ===== src/DiskName/Vmid.antt =====
-- `vmidre` and `diskre` of pkg/utils/volume/volume.go, on the VM id of a disk name.
use proxmox_csi_plugin.Prelude.{
  ℕ, ◌≡◌, refl, true, false, [], ◌∷◌, ◌++◌, none, some, arith, ◌==◌, ◌||◌, if◌then◌else◌,
}
use proxmox_csi_plugin.Text.{Text, is_digit, AreDigits}
use proxmox_csi_plugin.DiskName.{
  DiskMatch, diskre, vmidre, vmid_at, vmid_behind, or_else, in_dir, disk_name, file_name,
}
use proxmox_csi_plugin.DiskName.Parts.{vm_part-append}
use proxmox_csi_plugin.DiskName.Grammar.{IsVmid, IsDir, IsDiskMatch, diskre_sound}

vmid_at-file_name : (ds suf : Text) → IsVmid ds → vmid_at (file_name ds suf) ≡ some ds
unfolding vmid_at
vmid_at-file_name ds suf v =
    rw (vm_part-append ds (b'-' ∷ suf) v.digits v.shape (unfold is_digit in refl)) refl

-- No match begins with a digit.
vmid_at_digit : (c : ℕ) (s : Text) → is_digit c ≡ true → vmid_at (c ∷ s) ≡ none
unfolding vmid_at is_digit
vmid_at_digit c [] h = refl
vmid_at_digit c (m ∷ []) h = refl
vmid_at_digit c (m ∷ h' ∷ s) h = ground arith

vmid_behind_cons :
    (c : ℕ) (s : Text)
    → vmid_behind (c ∷ s)
      ≡ (if c == b'-' || c == b'/' then or_else (vmid_at s) (vmid_behind s) else vmid_behind s)
unfolding vmid_behind
vmid_behind_cons c s = refl

not_boundary : (c : ℕ) → is_digit c ≡ true → (c == b'-' || c == b'/') ≡ false
unfolding is_digit
not_boundary c h = ground arith

-- Nor does one stand behind a digit.
vmid_behind_digits : (ds rest : Text) → AreDigits ds → vmid_behind (ds ++ rest) ≡ vmid_behind rest
vmid_behind_digits [] rest h = refl
vmid_behind_digits (c ∷ ds) rest h =
    rw (vmid_behind_cons c (ds ++ rest), not_boundary c h.0) (vmid_behind_digits ds rest h.1)

vmidre_lem : (s : Text) → vmidre s ≡ or_else (vmid_at s) (vmid_behind s)
unfolding vmidre
vmidre_lem s = refl

vmidre-in_dir :
    (dir ds suf : Text) → IsDir dir → IsVmid ds → vmidre (in_dir dir (file_name ds suf)) ≡ some ds
unfolding in_dir or_else
vmidre-in_dir [] ds suf d v = rw (vmidre_lem (file_name ds suf), vmid_at-file_name ds suf v)
vmidre-in_dir (c ∷ dir) ds suf d v = rw (
  vmidre_lem ((c ∷ dir) ++ b'/' ∷ file_name ds suf),
  vmid_at_digit c (dir ++ b'/' ∷ file_name ds suf) d.digits.0,
  vmid_behind_digits (c ∷ dir) (b'/' ∷ file_name ds suf) d.digits,
  vmid_behind_cons b'/' (file_name ds suf),
  vmid_at-file_name ds suf v,
)

-- On a name that `diskre` accepts, `vmidre` finds the VM id in the file name, not the one in the
-- directory.
pub vmidre-disk_name : (m : DiskMatch) → IsDiskMatch m → vmidre (disk_name m) ≡ some m.vmid
vmidre-disk_name m h = vmidre-in_dir m.dir m.vmid m.suffix h.dir h.vmid

pub vmidre_of_diskre : (s : Text) (m : DiskMatch) → diskre s ≡ some m → vmidre s ≡ some m.vmid
vmidre_of_diskre s m h = let (name, good) = diskre_sound s m h in rw name (vmidre-disk_name m good)
