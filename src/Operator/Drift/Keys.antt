-- ===== src/Operator/Drift/Keys.antt =====
-- `index`, `orphansIn` and `missingIn` of pkg/operator/controller/drift/detector.go, by their members.
use mathlib.Core.List.{Memᴰ}
use proxmox_csi_plugin.Prelude.{
  ◌≡◌, ◌↔◌, refl, sym, ap, subst, ◌∙◌, Bool, true, false, not, ◌&&◌, List, [], ◌∷◌, Result, ok, err,
  inl, inr, Bool-cases, if◌then◌else◌, arith,
}
use proxmox_csi_plugin.Text.{Text, text_eq_refl, is_empty, has_prefix, contains_text}
use proxmox_csi_plugin.Volume.{Volume, VolumeError, parse_volume_id, disk_suffix}
use proxmox_csi_plugin.Operator.Types.{VolumeRecord, Disk}
use proxmox_csi_plugin.Operator.Drift.{
  driver_disk_prefix, Orphan, Missing, claim_key, Index, target_of, index_handle, index,
  suffix_of_disk, disk_target, orphan_of, orphans_in, suffixes, missing_handle, missing_from,
  missing_in,
}

-- A record claims a disk: it has a handle that parses and whose disk has the name of a volume.
pub record Claims (vol : VolumeRecord) (handle : Volume) : Type 0 where
  pub has_id : is_empty vol.status.volume_id ≡ false
  pub parsed : parse_volume_id vol.status.volume_id ≡ ok handle
  pub named : is_empty (disk_suffix handle) ≡ false

contains_head : (x : Text) (xs : List Text) → contains_text (x ∷ xs) x ≡ true
unfolding contains_text
contains_head x xs = ground (arith, text_eq_refl x)

contains_tail :
    (x y : Text) (xs : List Text) → contains_text xs y ≡ true → contains_text (x ∷ xs) y ≡ true
unfolding contains_text
contains_tail x y xs h = ground (arith, h)

index_handle_keeps :
    (key : Text) (vol : VolumeRecord) (parsed : Result VolumeError Volume) (rest : Index)
    → contains_text rest.claimed key ≡ true
    → contains_text (index_handle vol parsed rest).claimed key ≡ true
unfolding index_handle
index_handle_keeps key vol (err e) rest h = h
index_handle_keeps key vol (ok handle) rest h = elim (Bool-cases (is_empty (disk_suffix handle))) [
  | inl unnamed ↦ rw unnamed h
  | inr named ↦ rw named (contains_tail _ key rest.claimed h)
]

-- The key of a disk that a record of the ledger claims is claimed.
pub index-Claims :
    (vol : VolumeRecord) (vols : List VolumeRecord) (handle : Volume)
    → Memᴰ vol vols
    → Claims vol handle
    → contains_text (index vols).claimed (claim_key (target_of handle) (disk_suffix handle)) ≡ true
unfolding index
index-Claims vol [] handle m c = elim m [ ]
index-Claims vol (v ∷ vols) handle (Memᴰ.head p) c =
    subst
      (λ w.
        contains_text
          (let rest = index vols in
            if is_empty w.status.volume_id
            then rest
            else index_handle w (parse_volume_id w.status.volume_id) rest).claimed
          (claim_key (target_of handle) (disk_suffix handle))
        ≡ true)
      p (rw (c.has_id, c.parsed) (unfold index_handle in rw c.named (contains_head _ _)))
index-Claims vol (v ∷ vols) handle (Memᴰ.tail m) c =
    elim (Bool-cases (is_empty v.status.volume_id)) [
      | inl unset ↦ rw unset (index-Claims vol vols handle m c)
      | inr set ↦ rw set (
          index_handle_keeps (claim_key (target_of handle) (disk_suffix handle)) v
            (parse_volume_id v.status.volume_id) (index vols) (index-Claims vol vols handle m c))
    ]

-- A listed disk is shaped like the driver's and no key claims it.
abbrev pub is_orphan : List Text → Disk → Bool
is_orphan claimed disk =
    has_prefix (suffix_of_disk disk) driver_disk_prefix
    && not (contains_text claimed (claim_key (disk_target disk) (suffix_of_disk disk)))

orphans_in_cons :
    (disk : Disk) (disks : List Disk) (claimed : List Text)
    → orphans_in (disk ∷ disks) claimed ≡ (
        if is_orphan claimed disk
        then orphan_of disk ∷ orphans_in disks claimed
        else orphans_in disks claimed)
unfolding orphans_in
orphans_in_cons disk disks claimed =
    by_tests (has_prefix (suffix_of_disk disk) driver_disk_prefix)
      (contains_text claimed (claim_key (disk_target disk) (suffix_of_disk disk)))
      (orphan_of disk ∷ orphans_in disks claimed) (orphans_in disks claimed)
  where
    by_tests :
        (a b : Bool) (x y : List Orphan)
        → (if not a then y else if b then y else x) ≡ (if a && not b then x else y)
    by_tests true true x y = refl
    by_tests true false x y = refl
    by_tests false b x y = refl

-- A disk of the listing that is an orphan.
abbrev pub OrphanIn : List Disk → List Text → Orphan → Type 0
OrphanIn disks claimed o =
    (disk : Disk) × Memᴰ disk disks × (is_orphan claimed disk ≡ true) × (o ≡ orphan_of disk)

pub orphans_in-OrphanIn :
    (disks : List Disk) (claimed : List Text) (o : Orphan)
    → Memᴰ o (orphans_in disks claimed)
    → OrphanIn disks claimed o
orphans_in-OrphanIn [] claimed o m = unfold orphans_in in elim m [ ]
orphans_in-OrphanIn (disk ∷ disks) claimed o m =
    branch (is_orphan claimed disk) refl (orphans_in-OrphanIn disks claimed o)
      (subst (Memᴰ o) (orphans_in_cons disk disks claimed) m)
  where
    branch :
        (b : Bool)
        → is_orphan claimed disk ≡ b
        → (Memᴰ o (orphans_in disks claimed) → OrphanIn disks claimed o)
        → Memᴰ o (if b then orphan_of disk ∷ orphans_in disks claimed else orphans_in disks claimed)
        → OrphanIn (disk ∷ disks) claimed o
    branch false e rest k = (let r = rest k in (r.0, Memᴰ.tail r.1, r.2, r.3))
    branch true e rest (Memᴰ.head p) = (disk, Memᴰ.head refl, e, p)
    branch true e rest (Memᴰ.tail k) = (let r = rest k in (r.0, Memᴰ.tail r.1, r.2, r.3))

pub OrphanIn-orphans_in :
    (disks : List Disk) (claimed : List Text) (disk : Disk)
    → Memᴰ disk disks
    → is_orphan claimed disk ≡ true
    → Memᴰ (orphan_of disk) (orphans_in disks claimed)
OrphanIn-orphans_in [] claimed disk m h = elim m [ ]
OrphanIn-orphans_in (d ∷ disks) claimed disk (Memᴰ.head p) h =
    rw (orphans_in_cons d disks claimed, ap (is_orphan claimed) (sym p) ∙ h)
      (Memᴰ.head (ap orphan_of p))
OrphanIn-orphans_in (d ∷ disks) claimed disk (Memᴰ.tail m) h =
    rw (orphans_in_cons d disks claimed)
      (branch (is_orphan claimed d) (OrphanIn-orphans_in disks claimed disk m h))
  where
    branch :
        (b : Bool)
        → Memᴰ (orphan_of disk) (orphans_in disks claimed)
        → Memᴰ
            (orphan_of disk)
            (if b then orphan_of d ∷ orphans_in disks claimed else orphans_in disks claimed)
    branch true k = Memᴰ.tail k
    branch false k = k

-- A recorded volume whose disk is not among those of the names.
abbrev pub MissingFrom : List Text → List Missing → Missing → Type 0
MissingFrom present volumes w =
    (handle : Volume) × Memᴰ w volumes
    × (parse_volume_id w.volume_id ≡ ok handle)
    × (contains_text present (disk_suffix handle) ≡ false)

later_missing :
    (present : List Text) (v : Missing) (volumes : List Missing) (w : Missing)
    → MissingFrom present volumes w
    → MissingFrom present (v ∷ volumes) w
later_missing present v volumes w k = (k.0, Memᴰ.tail k.1, k.2, k.3)

missing_handle_sound :
    (present : List Text) (v : Missing) (volumes : List Missing) (w : Missing)
    (parsed : Result VolumeError Volume)
    → parse_volume_id v.volume_id ≡ parsed
    → (Memᴰ w (missing_from present volumes) → MissingFrom present volumes w)
    → Memᴰ w (missing_handle v present parsed (missing_from present volumes))
    → MissingFrom present (v ∷ volumes) w
unfolding missing_handle
missing_handle_sound present v volumes w (err e) p rest m =
    later_missing present v volumes w (rest m)
missing_handle_sound present v volumes w (ok handle) p rest m =
    branch (contains_text present (disk_suffix handle)) refl rest m
  where
    branch :
        (b : Bool)
        → contains_text present (disk_suffix handle) ≡ b
        → (Memᴰ w (missing_from present volumes) → MissingFrom present volumes w)
        → Memᴰ w (if b then missing_from present volumes else v ∷ missing_from present volumes)
        → MissingFrom present (v ∷ volumes) w
    branch true e rest k = later_missing present v volumes w (rest k)
    branch false e rest (Memᴰ.tail k) = later_missing present v volumes w (rest k)
    branch false e rest (Memᴰ.head q) =
        (handle, Memᴰ.head q, ap (λ u. parse_volume_id u.volume_id) q ∙ p, e)

missing_from_sound :
    (present : List Text) (volumes : List Missing) (w : Missing)
    → Memᴰ w (missing_from present volumes)
    → MissingFrom present volumes w
unfolding missing_from
missing_from_sound present [] w m = elim m [ ]
missing_from_sound present (v ∷ volumes) w m =
    missing_handle_sound present v volumes w (parse_volume_id v.volume_id) refl
      (missing_from_sound present volumes w) m

missing_handle_keeps :
    (present : List Text) (v w : Missing) (parsed : Result VolumeError Volume) (rest : List Missing)
    → Memᴰ w rest
    → Memᴰ w (missing_handle v present parsed rest)
unfolding missing_handle
missing_handle_keeps present v w (err e) rest m = m
missing_handle_keeps present v w (ok handle) rest m =
    branch (contains_text present (disk_suffix handle))
  where
    branch : (b : Bool) → Memᴰ w (if b then rest else v ∷ rest)
    branch true = m
    branch false = Memᴰ.tail m

missing_from_complete :
    (present : List Text) (volumes : List Missing) (w : Missing)
    → MissingFrom present volumes w
    → Memᴰ w (missing_from present volumes)
unfolding missing_from
missing_from_complete present [] w (handle, m, p, e) = elim m [ ]
missing_from_complete present (v ∷ volumes) w (handle, Memᴰ.head q, p, e) =
    rw (ap (λ u. parse_volume_id u.volume_id) (sym q) ∙ p)
      (unfold missing_handle in rw e (Memᴰ.head q))
missing_from_complete present (v ∷ volumes) w (handle, Memᴰ.tail m, p, e) =
    missing_handle_keeps present v w (parse_volume_id v.volume_id) (missing_from present volumes)
      (missing_from_complete present volumes w (handle, m, p, e))

-- A volume is missing from a listing exactly if it is one of those expected, with a handle that parses,
-- and no listed disk has the rename-stable name of its disk.
abbrev pub MissingIn : List Disk → List Missing → Missing → Type 0
MissingIn disks volumes w = MissingFrom (suffixes disks) volumes w

pub missing_in_iff :
    (disks : List Disk) (volumes : List Missing) (w : Missing)
    → Memᴰ w (missing_in disks volumes) ↔ MissingIn disks volumes w
unfolding missing_in
missing_in_iff disks volumes w = (
  missing_from_sound (suffixes disks) volumes w,
  missing_from_complete (suffixes disks) volumes w,
)
