-- ===== src/DiskName.antt =====
-- The two regular expressions of pkg/utils/volume/volume.go over disk names. Both use leftmost-first
-- matching, and the class behind the repeated digits holds no digit, so that a match takes the whole
-- run of digits.
pub mod Parts
pub mod Grammar
pub mod Vmid
use proxmox_csi_plugin.Prelude.{
  ℕ, zero, suc, ◌≡◌, refl, Bool, true, false, not, ◌&&◌, ◌||◌, List, [], ◌∷◌, ◌++◌, Option, none,
  some, arith, ◌==◌, leb, if◌then◌else◌, length,
}
use proxmox_csi_plugin.Text.{Text, codes, is_digit}

cons_digit : ℕ → Text × Text → Text × Text
cons_digit c (ds, rest) = (c ∷ ds, rest)

-- The longest run of digits at the front, and the rest.
unfoldable pub span_digits : Text → Text × Text
unfolding is_digit cons_digit
span_digits [] = ([], [])
span_digits (c ∷ s) =
    let longer = cons_digit c (span_digits s) in if is_digit c then longer else ([], c ∷ s)

-- `[1-9][0-9]{2,8}` on a run of digits.
unfoldable pub is_vmid : Text → Bool
is_vmid [] = false
is_vmid (c ∷ s) = leb b'1' c && leb c b'9' && leb 2 (length s) && leb (length s) 8

-- `vm-[1-9][0-9]{2,8}` at the front: the digits, and the rest.
unfoldable pub vm_part : Text → Option (Text × Text)
unfolding span_digits is_vmid
vm_part [] = none
vm_part (v ∷ []) = none
vm_part (v ∷ m ∷ []) = none
vm_part (v ∷ m ∷ h ∷ s) =
    let (ds, rest) = span_digits s in
    if v == b'v' && m == b'm' && h == b'-' && is_vmid ds then some (ds, rest) else none

-- `(-|$)`
unfoldable pub ends_vmid : Text → Bool
ends_vmid [] = true
ends_vmid (c ∷ s) = c == b'-'

checked_end : Option (Text × Text) → Option Text
unfolding ends_vmid
checked_end none = none
checked_end (some (ds, rest)) = if ends_vmid rest then some ds else none

vmid_at : Text → Option Text
unfolding checked_end vm_part
vmid_at s = checked_end (vm_part s)

or_else : Option Text → Option Text → Option Text
or_else (some a) o = some a
or_else none o = o

-- The match behind the first `-` or `/` that has one.
vmid_behind : Text → Option Text
unfolding vmid_at or_else
vmid_behind [] = none
vmid_behind (c ∷ s) =
    let later = vmid_behind s in if c == b'-' || c == b'/' then or_else (vmid_at s) later else later

-- `vmidre.FindStringSubmatch(disk)`: group 2.
unfoldable pub vmidre : Text → Option Text
unfolding vmid_behind
vmidre s = or_else (vmid_at s) (vmid_behind s)

-- The groups of `diskre`; `dir` is empty where the optional directory is not there.
pub record DiskMatch : Type 0 where
  pub dir : Text
  pub vmid : Text
  pub suffix : Text

unfoldable pub has_newline : Text → Bool
has_newline [] = false
has_newline (c ∷ s) = c == b'\n' || has_newline s

-- `.+` up to the end of the text
unfoldable pub is_suffix : Text → Bool
unfolding has_newline
is_suffix [] = false
is_suffix (c ∷ s) = not (has_newline (c ∷ s))

with_suffix : Text → Text → Text → Option DiskMatch
unfolding is_suffix
with_suffix dir ds [] = none
with_suffix dir ds (c ∷ s) =
    if c == b'-' && is_suffix s then some (record { dir = dir; vmid = ds; suffix = s }) else none

with_vm : Text → Option (Text × Text) → Option DiskMatch
unfolding with_suffix
with_vm dir none = none
with_vm dir (some (ds, rest)) = with_suffix dir ds rest

-- `vm-([1-9][0-9]{2,8})-(.+)$`
file_part : Text → Text → Option DiskMatch
unfolding with_vm vm_part
file_part dir s = with_vm dir (vm_part s)

behind_dir : Text → Text → Text → Option DiskMatch
unfolding file_part
behind_dir s ds [] = file_part [] s
behind_dir s ds (c ∷ r) = if is_vmid ds && c == b'/' then file_part ds r else file_part [] s

-- `diskre.FindStringSubmatch(disk)`. A text that begins with a directory begins with a digit, so
-- the alternative without a directory cannot match it.
unfoldable pub diskre : Text → Option DiskMatch
unfolding behind_dir span_digits
diskre s = let (ds, rest) = span_digits s in behind_dir s ds rest

-- The file name that a match stands for.
abbrev pub file_name : Text → Text → Text
file_name vmid suffix = codes "vm-" ++ (vmid ++ b'-' ∷ suffix)

-- The file name behind the directory, if there is one.
unfoldable pub in_dir : Text → Text → Text
in_dir [] file = file
in_dir (c ∷ d) file = (c ∷ d) ++ b'/' ∷ file

abbrev pub disk_name : DiskMatch → Text
disk_name m = in_dir m.dir (file_name m.vmid m.suffix)

parts_of_name :
    diskre (codes "9999/vm-9999-pvc-1.raw")
    ≡ some (record { dir = codes "9999"; vmid = codes "9999"; suffix = codes "pvc-1.raw" })
unfolding diskre
parts_of_name = refl

vmid_of_name : vmidre (codes "base-x/vm-9999-pvc-1.raw") ≡ some (codes "9999")
unfolding vmidre
vmid_of_name = refl
