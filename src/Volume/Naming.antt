-- ===== src/Volume/Naming.antt =====
-- `NewVolume`, `PV` and `VMID` of pkg/utils/volume/volume.go, at the name that a new disk is given.
use proxmox_csi_plugin.Prelude.{
  ℕ, ◌≡◌, refl, ap, sym, ◌∙◌, true, false, [], ◌∷◌, ◌++◌, some, arith, append_assoc,
}
use proxmox_csi_plugin.Text.{
  Text, codes, itoa, itoa-AreDigits, is_digit, Lacks, Lacks-append, Lacks-digits, split_n,
  split_n-append, split_n-none, cut-eq-none,
}
use proxmox_csi_plugin.DiskName.{DiskMatch, diskre, file_name, is_suffix, has_newline}
use proxmox_csi_plugin.Volume.{
  new_volume, vm_dir, name_part, first_part, vmid, disk_suffix, pv, renamed_disk,
}
use proxmox_csi_plugin.Volume.Rename.{
  IsVmNumber, match_for, diskre-match_for, vmid-some, disk_suffix-some, match_for_vmid,
  match_for_suffix,
}

-- The name of a persistent volume, and a disk format, as they go into a disk name.
pub record IsPvName (name : Text) : Type 0 where
  pub shape : is_suffix name ≡ true
  pub dots : Lacks b'.' name

-- The part of a disk name behind the VM id.
abbrev pub with_format : Text → Text → Text
with_format name [] = name
with_format name (c ∷ fmt) = name ++ b'.' ∷ (c ∷ fmt)

newline-append :
    (s t : Text) → has_newline s ≡ false → has_newline t ≡ false → has_newline (s ++ t) ≡ false
unfolding has_newline
newline-append [] t h k = k
newline-append (c ∷ s) t h k = ground (arith, newline-append s t)

is_suffix-append :
    (s t : Text) → is_suffix s ≡ true → has_newline t ≡ false → is_suffix (s ++ t) ≡ true
unfolding is_suffix has_newline
is_suffix-append [] t h k = cc h
is_suffix-append (c ∷ s) t h k = ground (arith, newline-append s t)

with_format-is_suffix :
    (name fmt : Text)
    → is_suffix name ≡ true
    → has_newline fmt ≡ false
    → is_suffix (with_format name fmt) ≡ true
with_format-is_suffix name [] h k = h
with_format-is_suffix name (c ∷ fmt) h k =
    is_suffix-append name (b'.' ∷ (c ∷ fmt)) h (unfold has_newline in k)

dash_free : (n : ℕ) → Lacks b'-' (itoa n)
dash_free n = Lacks-digits b'-' (itoa n) (unfold is_digit in refl) (itoa-AreDigits n)

split_file_name :
    (n : ℕ) (rest : Text)
    → split_n b'-' 3 (file_name (itoa n) rest) ≡ codes "vm" ∷ itoa n ∷ rest ∷ []
split_file_name n rest =
    split_n-append b'-' 1 (codes "vm") (itoa n ++ b'-' ∷ rest) (refl, (refl, tt))
    ∙ ap (λ l. codes "vm" ∷ l) (split_n-append b'-' 0 (itoa n) rest (dash_free n))
    ∙ (unfold split_n in refl)

split_dir_name :
    (n : ℕ) (rest : Text)
    → split_n b'-' 3 (itoa n ++ b'/' ∷ file_name (itoa n) rest)
      ≡ (itoa n ++ codes "/vm") ∷ itoa n ∷ rest ∷ []
split_dir_name n rest =
    ap (split_n b'-' 3) (sym (append_assoc (itoa n) (codes "/vm") (b'-' ∷ (itoa n ++ b'-' ∷ rest))))
    ∙ split_n-append b'-' 1 (itoa n ++ codes "/vm") (itoa n ++ b'-' ∷ rest)
        (Lacks-append b'-' (itoa n) (codes "/vm") (dash_free n) (refl, (refl, (refl, tt))))
    ∙ ap (λ l. (itoa n ++ codes "/vm") ∷ l) (split_n-append b'-' 0 (itoa n) rest (dash_free n))
    ∙ (unfold split_n in refl)

new_volume_disk :
    (region zone storage name fmt : Text) (n : ℕ)
    → (new_volume region zone storage (file_name (itoa n) name) (fmt ∷ [])).disk
      ≡ renamed_disk n fmt (with_format name fmt)
unfolding new_volume renamed_disk vm_dir
new_volume_disk region zone storage name [] n = refl
new_volume_disk region zone storage name (c ∷ fmt) n =
    rw (split_file_name n name) (simp append_assoc)

first_part-append :
    (name fmt : Text) → Lacks b'.' name → first_part (split_n b'.' 2 (with_format name fmt)) ≡ name
unfolding first_part
first_part-append name [] h = rw (split_n-none b'.' 0 name (cut-eq-none b'.' name h))
first_part-append name (c ∷ fmt) h = rw (split_n-append b'.' 0 name (c ∷ fmt) h)

split_renamed :
    (n : ℕ) (dir rest : Text)
    → name_part (split_n b'-' 3 (renamed_disk n dir rest)) ≡ first_part (split_n b'.' 2 rest)
unfolding renamed_disk name_part
split_renamed n [] rest = rw (split_file_name n rest)
split_renamed n (c ∷ dir) rest = rw (split_dir_name n rest)

-- A disk created for VM `n` and the persistent volume `name` carries both in its name, with or
-- without a format: `VMID` and `PV` give them back, and the suffix that a rename keeps is the name
-- with the extension. The name holds no dot and no line break, the format no line break.
pub new_volume_names :
    (region zone storage name fmt : Text) (n : ℕ)
    → IsVmNumber n
    → IsPvName name
    → has_newline fmt ≡ false
    → let v = new_volume region zone storage (file_name (itoa n) name) (fmt ∷ []) in
      (vmid v ≡ itoa n) × (disk_suffix v ≡ with_format name fmt) × (pv v ≡ name)
new_volume_names region zone storage name fmt n h p l =
    let v = new_volume region zone storage (file_name (itoa n) name) (fmt ∷ []) in
    let disk : v.disk ≡ renamed_disk n fmt (with_format name fmt) =
      new_volume_disk region zone storage name fmt n in
    let m : DiskMatch = record { dir = fmt; vmid = []; suffix = with_format name fmt } in
    let reads : diskre v.disk ≡ some (match_for n m) =
      rw disk (diskre-match_for n m h (with_format-is_suffix name fmt p.shape l)) in
    (
      vmid-some v (match_for n m) reads ∙ match_for_vmid n m,
      disk_suffix-some v (match_for n m) reads ∙ match_for_suffix n m,
      unfold pv in
          ap (λ d. name_part (split_n b'-' 3 d)) disk
          ∙ split_renamed n fmt (with_format name fmt)
          ∙ first_part-append name fmt p.dots,
    )
