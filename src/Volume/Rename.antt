-- ===== src/Volume/Rename.antt =====
-- `WithVMID` of pkg/utils/volume/volume.go: a volume renamed for another VM.
use proxmox_csi_plugin.Prelude.{
  ℕ, ◌≤◌, ◌<◌, ◌≡◌, ◌↔◌, refl, ap, sym, ◌∙◌, subst, true, [], ◌∷◌, ◌++◌, none, some, inl, inr,
  Option-cases, ◌≢◌,
}
use proxmox_csi_plugin.Text.{Text, itoa, itoa-AreDigits, itoa-ne-nil}
use proxmox_csi_plugin.DiskName.{DiskMatch, diskre, in_dir, file_name, is_suffix}
use proxmox_csi_plugin.DiskName.Parts.{is_vmid-itoa}
use proxmox_csi_plugin.DiskName.Grammar.{IsVmid, IsDir, diskre-disk_name, diskre_sound}
use proxmox_csi_plugin.DiskName.Vmid.{vmidre_of_diskre}
use proxmox_csi_plugin.Volume.{Volume, with_vmid, renamed_disk, disk_suffix, vmid}

-- The VM ids that a disk name can carry.
pub record IsVmNumber (n : ℕ) : Type 0 where
  pub low : 100 ≤ n
  pub high : n < 1000000000

IsVmid-itoa : (n : ℕ) → IsVmNumber n → IsVmid (itoa n)
IsVmid-itoa n h = record { digits = itoa-AreDigits n; shape = is_vmid-itoa n h.low h.high }

unfoldable pub dir_for : ℕ → Text → Text
dir_for n [] = []
dir_for n (c ∷ d) = itoa n

-- The parts of the name that a rename gives.
unfoldable pub match_for : ℕ → DiskMatch → DiskMatch
match_for n m = record { dir = dir_for n m.dir; vmid = itoa n; suffix = m.suffix }

in_dir-itoa : (n : ℕ) (file : Text) → in_dir (itoa n) file ≡ itoa n ++ b'/' ∷ file
in_dir-itoa n file = at_text (itoa n) (itoa-ne-nil n)
  where
    at_text : (d : Text) → d ≢ [] → in_dir d file ≡ d ++ b'/' ∷ file
    at_text [] h = absurd (h refl)
    at_text (c ∷ d) h = unfold in_dir in refl

renamed_disk_lem :
    (n : ℕ) (dir suf : Text)
    → renamed_disk n dir suf ≡ in_dir (dir_for n dir) (file_name (itoa n) suf)
unfolding renamed_disk dir_for
renamed_disk_lem n [] suf = unfold in_dir in refl
renamed_disk_lem n (c ∷ d) suf = sym (in_dir-itoa n (file_name (itoa n) suf))

dir_for-IsDir : (n : ℕ) (dir : Text) → IsVmNumber n → IsDir (dir_for n dir)
unfolding dir_for
dir_for-IsDir n [] h = tt
dir_for-IsDir n (c ∷ d) h = at_text (itoa n) (IsVmid-itoa n h)
  where
    at_text : (t : Text) → IsVmid t → IsDir t
    at_text [] v = tt
    at_text (c ∷ t) v = v

pub diskre-match_for :
    (n : ℕ) (m : DiskMatch)
    → IsVmNumber n
    → is_suffix m.suffix ≡ true
    → diskre (renamed_disk n m.dir m.suffix) ≡ some (match_for n m)
unfolding match_for
diskre-match_for n m h s = rw renamed_disk_lem (
    diskre-disk_name (record { dir = dir_for n m.dir; vmid = itoa n; suffix = m.suffix })
      (record { dir = dir_for-IsDir n m.dir h; vmid = IsVmid-itoa n h; suffix = s }))

with_vmid-none : (n : ℕ) (v : Volume) → diskre v.disk ≡ none → with_vmid n v ≡ none
with_vmid-none n v h = unfold with_vmid in rw h

with_vmid-some :
    (n : ℕ) (v : Volume) (m : DiskMatch)
    → diskre v.disk ≡ some m
    → with_vmid n v ≡ some (record v { disk = renamed_disk n m.dir m.suffix })
with_vmid-some n v m h = unfold with_vmid in rw h

pub disk_suffix-some :
    (v : Volume) (m : DiskMatch) → diskre v.disk ≡ some m → disk_suffix v ≡ m.suffix
disk_suffix-some v m h = unfold disk_suffix in rw h

suffix-ne-nil : (s : Text) → is_suffix s ≡ true → s ≢ []
suffix-ne-nil [] h e = unfold is_suffix in cc h
suffix-ne-nil (c ∷ s) h e = cc

-- A volume cannot be renamed exactly when its disk name has no stable suffix.
pub with_vmid-eq-none : (n : ℕ) (v : Volume) → (with_vmid n v ≡ none) ↔ (disk_suffix v ≡ [])
with_vmid-eq-none n v = elim (Option-cases (diskre v.disk)) [
  | inl nothing ↦ (λ _. unfold disk_suffix in rw nothing, λ _. with_vmid-none n v nothing)
  | inr (m, found) ↦
      let good = (diskre_sound v.disk m found).1 in
      (
        λ e. cc (with_vmid-some n v m found),
        λ e. absurd (suffix-ne-nil m.suffix good.suffix (sym (disk_suffix-some v m found) ∙ e)),
      )
]

-- Everything about a volume that a rename has to keep.
pub record SameVolume (v w : Volume) : Type 0 where
  pub region : w.region ≡ v.region
  pub zone : w.zone ≡ v.zone
  pub node : w.node ≡ v.node
  pub storage : w.storage ≡ v.storage
  pub suffix : disk_suffix w ≡ disk_suffix v

record Renamed (n : ℕ) (v w : Volume) : Type 0 where
  parts : DiskMatch
  found : diskre v.disk ≡ some parts
  moved : record v { disk = renamed_disk n parts.dir parts.suffix } ≡ w
  reads : diskre w.disk ≡ some (match_for n parts)

rename_parts : (n : ℕ) (v w : Volume) → IsVmNumber n → with_vmid n v ≡ some w → Renamed n v w
rename_parts n v w h e = elim (Option-cases (diskre v.disk)) [
  | inl nothing ↦ cc (with_vmid-none n v nothing)
  | inr (m, found) ↦
      let moved : record v { disk = renamed_disk n m.dir m.suffix } ≡ w =
        cc (with_vmid-some n v m found) in
      record {
        parts = m;
        found = found;
        moved = moved;
        reads =
            subst (λ (x : Volume). diskre x.disk ≡ some (match_for n m)) moved
              (diskre-match_for n m h (diskre_sound v.disk m found).1.suffix);
      }
]

pub vmid-some : (v : Volume) (m : DiskMatch) → diskre v.disk ≡ some m → vmid v ≡ m.vmid
vmid-some v m h = unfold vmid in rw (vmidre_of_diskre v.disk m h)

pub match_for_vmid : (n : ℕ) (m : DiskMatch) → (match_for n m).vmid ≡ itoa n
unfolding match_for
match_for_vmid n m = refl

pub match_for_suffix : (n : ℕ) (m : DiskMatch) → (match_for n m).suffix ≡ m.suffix
unfolding match_for
match_for_suffix n m = refl

renamed_disk-dir_for :
    (n k : ℕ) (dir suf : Text) → renamed_disk k (dir_for n dir) suf ≡ renamed_disk k dir suf
unfolding renamed_disk dir_for
renamed_disk-dir_for n k [] suf = refl
renamed_disk-dir_for n k (c ∷ dir) suf = at_text (itoa n) (itoa-ne-nil n)
  where
    at_text : (d : Text) → d ≢ [] → renamed_disk k d suf ≡ renamed_disk k (c ∷ dir) suf
    at_text [] h = absurd (h refl)
    at_text (x ∷ d) h = refl

renamed_disk-match_for :
    (n k : ℕ) (m : DiskMatch)
    → renamed_disk k (match_for n m).dir (match_for n m).suffix ≡ renamed_disk k m.dir m.suffix
unfolding match_for
renamed_disk-match_for n k m = renamed_disk-dir_for n k m.dir m.suffix

-- A volume renamed for VM `n`, from 100 to 999999999, carries `n` in its name and keeps the rest of
-- its identity.
pub with_vmid_names :
    (n : ℕ) (v w : Volume)
    → IsVmNumber n
    → with_vmid n v ≡ some w
    → (vmid w ≡ itoa n) × SameVolume v w
with_vmid_names n v w h e =
    let r = rename_parts n v w h e in
    (
      rw (vmid-some w (match_for n r.parts) r.reads) (match_for_vmid n r.parts),
      record {
        region = sym (ap (λ (x : Volume). x.region) r.moved);
        zone = sym (ap (λ (x : Volume). x.zone) r.moved);
        node = sym (ap (λ (x : Volume). x.node) r.moved);
        storage = sym (ap (λ (x : Volume). x.storage) r.moved);
        suffix =
            rw
              (disk_suffix-some w (match_for n r.parts) r.reads, disk_suffix-some v r.parts r.found)
              (match_for_suffix n r.parts);
      },
    )

-- Renaming twice is renaming once: the second name counts.
pub with_vmid-with_vmid :
    (n k : ℕ) (v w : Volume) → IsVmNumber n → with_vmid n v ≡ some w → with_vmid k w ≡ with_vmid k v
with_vmid-with_vmid n k v w h e =
    let r = rename_parts n v w h e in
    with_vmid-some k w (match_for n r.parts) r.reads
    ∙ ap some (
        subst
          (λ x.
            record x {
              disk = renamed_disk k (match_for n r.parts).dir (match_for n r.parts).suffix;
            }
            ≡ record v { disk = renamed_disk k r.parts.dir r.parts.suffix })
          r.moved (ap (λ d. record v { disk = d }) (renamed_disk-match_for n k r.parts)))
    ∙ sym (with_vmid-some k v r.parts r.found)

-- The name that a volume has while VM `n` owns it: `n` in the file name, and in the directory if
-- there is one.
pub record IsNamedFor (n : ℕ) (v : Volume) : Type 0 where
  pub parts : DiskMatch
  pub found : diskre v.disk ≡ some parts
  pub same_vmid : parts.vmid ≡ itoa n
  pub same_dir : parts.dir ≡ dir_for n parts.dir

-- A volume that VM `p` owns, renamed for VM `n` and renamed back, is the volume that it was.
pub with_vmid_back :
    (n p : ℕ) (v w : Volume)
    → IsVmNumber n
    → IsNamedFor p v
    → with_vmid n v ≡ some w
    → with_vmid p w ≡ some v
with_vmid_back n p v w h o e =
    let (name, good) = diskre_sound v.disk o.parts o.found in
    let owned : renamed_disk p o.parts.dir o.parts.suffix ≡ v.disk =
      rw (renamed_disk_lem, ← o.same_dir, ← o.same_vmid) (sym name) in
    with_vmid-with_vmid n p v w h e
    ∙ with_vmid-some p v o.parts o.found
    ∙ ap (λ d. some (record v { disk = d })) owned
