-- ===== src/DiskName/Grammar.antt =====
-- `diskre` of pkg/utils/volume/volume.go, against the grammar of disk names.
use proxmox_csi_plugin.Prelude.{
  ℕ, ◌≡◌, ◌↔◌, refl, ap, sym, ◌∙◌, true, ◌&&◌, [], ◌∷◌, ◌++◌, none, some, arith, ◌==◌,
  if◌then◌else◌, Bool-cases, Option-cases, inl, inr, ◌⊎◌,
}
use proxmox_csi_plugin.Text.{Text, is_digit, AreDigits}
use proxmox_csi_plugin.DiskName.{
  span_digits, is_vmid, vm_part, file_name, diskre, DiskMatch, disk_name, in_dir, is_suffix,
  with_vm, with_suffix, file_part, behind_dir,
}
use proxmox_csi_plugin.DiskName.Parts.{
  span_digits-append, span_digits-eq, span_digits-AreDigits, vm_part-append, vm_part_sound,
}

-- A run of digits that the expressions take for a VM id.
pub record IsVmid (ds : Text) : Type 0 where
  pub digits : AreDigits ds
  pub shape : is_vmid ds ≡ true

abbrev pub IsDir : Text → Type 0
IsDir [] = Unit
IsDir (c ∷ s) = IsVmid (c ∷ s)

-- The parts that a disk name may have.
pub record IsDiskMatch (m : DiskMatch) : Type 0 where
  pub dir : IsDir m.dir
  pub vmid : IsVmid m.vmid
  pub suffix : is_suffix m.suffix ≡ true

file_part-file_name :
    (dir ds suf : Text)
    → IsVmid ds
    → is_suffix suf ≡ true
    → file_part dir (file_name ds suf) ≡ some (record { dir = dir; vmid = ds; suffix = suf })
file_part-file_name dir ds suf v h =
    unfold file_part in
    rw (vm_part-append ds (b'-' ∷ suf) v.digits v.shape (unfold is_digit in refl)) (rw h)

diskre_dir :
    (c : ℕ) (d r : Text) → IsVmid (c ∷ d) → diskre ((c ∷ d) ++ b'/' ∷ r) ≡ file_part (c ∷ d) r
diskre_dir c d r v =
    unfold diskre in
    rw (span_digits-append (c ∷ d) (b'/' ∷ r) v.digits (unfold is_digit in refl)) (rw v.shape)

diskre_file : (ds suf : Text) → diskre (file_name ds suf) ≡ file_part [] (file_name ds suf)
diskre_file ds suf = unfold diskre in unfold span_digits in unfold is_digit in refl

-- Every name of the grammar is read as its parts.
pub diskre-disk_name : (m : DiskMatch) → IsDiskMatch m → diskre (disk_name m) ≡ some m
unfolding in_dir
diskre-disk_name m h =
    elim (m.dir)
        as (λ d.
          IsDir d → diskre (disk_name (record m { dir = d })) ≡ some (record m { dir = d })) [
            | [] ↦ λ _.
                diskre_file m.vmid m.suffix ∙ file_part-file_name [] m.vmid m.suffix h.vmid h.suffix
            | c ∷ d ↦ λ v.
                diskre_dir c d (file_name m.vmid m.suffix) v
                ∙ file_part-file_name (c ∷ d) m.vmid m.suffix h.vmid h.suffix
          ]
      h.dir

with_suffix_sound :
    (dir ds rest : Text) (m : DiskMatch)
    → with_suffix dir ds rest ≡ some m
    → (rest ≡ b'-' ∷ m.suffix) × (m.dir ≡ dir) × (m.vmid ≡ ds) × (is_suffix m.suffix ≡ true)
unfolding with_suffix
with_suffix_sound dir ds [] m e = ground arith
with_suffix_sound dir ds (c ∷ s) m e = ground arith

-- A file part is the file name of the parts that it is read as.
pub record IsFile (dir s : Text) (m : DiskMatch) : Type 0 where
  pub name : s ≡ file_name m.vmid m.suffix
  pub same_dir : m.dir ≡ dir
  pub vmid : IsVmid m.vmid
  pub suffix : is_suffix m.suffix ≡ true

file_part_lem : (dir s : Text) → file_part dir s ≡ with_vm dir (vm_part s)
unfolding file_part
file_part_lem dir s = refl

with_vm-none : (dir : Text) → with_vm dir none ≡ none
unfolding with_vm
with_vm-none dir = refl

with_vm-some : (dir ds rest : Text) → with_vm dir (some (ds, rest)) ≡ with_suffix dir ds rest
unfolding with_vm
with_vm-some dir ds rest = refl

file_part_sound : (dir s : Text) (m : DiskMatch) → file_part dir s ≡ some m → IsFile dir s m
file_part_sound dir s m e = elim (Option-cases (vm_part s)) [
  | inl nothing ↦ cc (file_part_lem dir s, with_vm-none dir, nothing)
  | inr ((ds, rest), found) ↦
      let (r, d, v, suf) =
        with_suffix_sound dir ds rest m
          (cc (file_part_lem dir s, with_vm-some dir ds rest, found)) in
      let (name, shape, digits) = vm_part_sound s ds rest found in
      record {
        name = rw (name, r, v);
        same_dir = d;
        vmid = rw v (record { digits = digits; shape = shape });
        suffix = suf;
      }
]

behind_dir_cons :
    (s ds r : Text) (c : ℕ)
    → behind_dir s ds (c ∷ r) ≡ (if is_vmid ds && c == b'/' then file_part ds r else file_part [] s)
unfolding behind_dir
behind_dir_cons s ds r c = refl

behind_dir_sound :
    (s ds rest : Text) (m : DiskMatch)
    → behind_dir s ds rest ≡ some m
    → ((r : Text) × (rest ≡ b'/' ∷ r) × (is_vmid ds ≡ true) × (file_part ds r ≡ some m))
      ⊎ (file_part [] s ≡ some m)
behind_dir_sound s ds [] m e = inr (unfold behind_dir in e)
behind_dir_sound s ds (c ∷ r) m e = elim (Bool-cases (is_vmid ds && c == b'/')) [
  | inl here ↦ inl (
    r,
    ground (arith, here),
    ground (arith, here),
    rw here at (rw (behind_dir_cons s ds r c) at e),
  )
  | inr other ↦ inr (rw other at (rw (behind_dir_cons s ds r c) at e))
]

disk_name_of_file : (s : Text) (m : DiskMatch) → IsFile [] s m → (s ≡ disk_name m) × IsDiskMatch m
unfolding in_dir
disk_name_of_file s m f =
    (rw f.same_dir f.name, record { dir = rw f.same_dir tt; vmid = f.vmid; suffix = f.suffix })

disk_name_of_dir :
    (ds r : Text) (m : DiskMatch)
    → IsVmid ds
    → IsFile ds r m
    → (ds ++ b'/' ∷ r ≡ disk_name m) × IsDiskMatch m
unfolding in_dir
disk_name_of_dir [] r m v f = absurd (no_empty v)
  where
    no_empty : IsVmid [] → ⊥
    no_empty w = unfold is_vmid in cc (w.shape)
disk_name_of_dir (c ∷ d) r m v f = (
  rw (f.same_dir, f.name) refl,
  record { dir = rw f.same_dir v; vmid = f.vmid; suffix = f.suffix },
)

-- Whatever is read is the name of its parts, and they are those of the grammar.
pub diskre_sound :
    (s : Text) (m : DiskMatch) → diskre s ≡ some m → (s ≡ disk_name m) × IsDiskMatch m
diskre_sound s m e =
    elim (behind_dir_sound s (span_digits s).0 (span_digits s).1 m (unfold diskre in e)) [
      | inl (r, rest, shape, file) ↦
          let v : IsVmid (span_digits s).0 = record {
            digits = span_digits-AreDigits s;
            shape = shape;
          } in
          let (name, ok) = disk_name_of_dir (span_digits s).0 r m v (file_part_sound _ r m file) in
          (sym (span_digits-eq s) ∙ ap (λ t. (span_digits s).0 ++ t) rest ∙ name, ok)
      | inr file ↦ disk_name_of_file s m (file_part_sound [] s m file)
    ]

-- A disk name is read as parts exactly if it is the name of the parts, and they are those of the
-- grammar.
pub diskre-iff-disk_name :
    (s : Text) (m : DiskMatch) → (diskre s ≡ some m) ↔ ((s ≡ disk_name m) × IsDiskMatch m)
diskre-iff-disk_name s m = (diskre_sound s m, (λ h. ap diskre h.0 ∙ diskre-disk_name m h.1))
