-- ===== src/Operator/Drift/Exact.antt =====
-- `Sweep` of pkg/operator/controller/drift/detector.go: what a report says of the registrations, the
-- records and the listings.
use mathlib.Core.List.{Memᴰ}
use proxmox_csi_plugin.Prelude.{
  ◌≡◌, ◌↔◌, refl, sym, ap, subst, ◌∙◌, Bool, true, false, not, ◌&&◌, List, some, ◌⊎◌, ok, arith,
}
use proxmox_csi_plugin.Text.{Text, codes, has_prefix, contains_text}
use proxmox_csi_plugin.Volume.{Volume, parse_volume_id, disk_suffix}
use proxmox_csi_plugin.Operator.Types.{VolumeRecord, Tenant, Disk}
use proxmox_csi_plugin.Operator.Drift.{
  Orphan, Missing, Report, Target, target_string, claim_key, target_of, missing_of, index,
  suffix_of_disk, disk_target, orphan_of, suffixes, expected_at, Listing, listed, failed, sweep,
}
use proxmox_csi_plugin.Operator.Drift.Keys.{OrphanIn, MissingIn}
use proxmox_csi_plugin.Operator.Drift.Ledger.{
  Claimant, Claimed, claimed_iff, Expects, expected_iff, Present, suffixes_iff,
}
use proxmox_csi_plugin.Operator.Drift.Swept.{Allows, Names, targets_iff}
use proxmox_csi_plugin.Operator.Drift.Reports.{
  Read, OrphanGathered, MissingGathered, sweep-IsGathered,
}

-- A disk of the listing, in the shape of the driver's, that no record claims.
abbrev pub Stray : List VolumeRecord → List Disk → Orphan → Type 0
Stray vols disks o =
    (disk : Disk) × Memᴰ disk disks
    × (has_prefix (suffix_of_disk disk) (codes "pvc-") ≡ true)
    × (Claimed vols (claim_key (disk_target disk) (suffix_of_disk disk)) → ⊥)
    × (o ≡ orphan_of disk)

-- A record with a handle on the storage, whose name no disk of the listing has.
abbrev pub Gone : List VolumeRecord → Target → List Disk → Missing → Type 0
Gone vols t disks w =
    (c : Claimant vols) × (target_of c.handle ≡ t)
    × (w ≡ missing_of c.vol)
    × (Present disks (disk_suffix c.handle) → ⊥)

false_of_not : (b : Bool) → (b ≡ true → ⊥) → b ≡ false
false_of_not true h = absurd (h refl)
false_of_not false h = refl

not_of_false : (b : Bool) → b ≡ false → b ≡ true → ⊥
not_of_false b h k = ground (arith, h, k)

Stray-iff :
    (vols : List VolumeRecord) (disks : List Disk) (o : Orphan)
    → OrphanIn disks (index vols).claimed o ↔ Stray vols disks o
Stray-iff vols disks o = (
  (λ k.
      (let key = claim_key (disk_target k.0) (suffix_of_disk k.0) in
        (
          k.0,
          k.1,
          shaped _ _ k.2,
          (λ c. not_of_false _ (unclaimed _ _ k.2) ((claimed_iff vols key).1 c)),
          k.3,
        ))),
  (λ k.
      (let key = claim_key (disk_target k.0) (suffix_of_disk k.0) in
        let e =
          false_of_not (contains_text (index vols).claimed key)
            (λ h. k.3 ((claimed_iff vols key).0 h)) in
        (k.0, k.1, stray _ _ k.2 e, k.4))),
)
  where
    shaped : (a b : Bool) → (a && not b) ≡ true → a ≡ true
    shaped a b h = ground (arith, h)

    unclaimed : (a b : Bool) → (a && not b) ≡ true → b ≡ false
    unclaimed a b h = ground (arith, h)

    stray : (a b : Bool) → a ≡ true → b ≡ false → (a && not b) ≡ true
    stray a b h k = ground (arith, h, k)

Gone-iff :
    (vols : List VolumeRecord) (t : Target) (disks : List Disk) (w : Missing)
    → MissingIn disks (expected_at t (index vols).ledger) w ↔ Gone vols t disks w
Gone-iff vols t disks w =
    ((λ k. forward k.0 ((expected_iff vols t w).0 k.1) k.2 k.3), (λ k. backward k.0 k.1 k.2 k.3))
  where
    forward :
        (handle : Volume)
        → Expects vols t w
        → parse_volume_id w.volume_id ≡ ok handle
        → contains_text (suffixes disks) (disk_suffix handle) ≡ false
        → Gone vols t disks w
    forward handle x p e =
        (let c = x.0 in
          let q : parse_volume_id w.volume_id ≡ ok (c.handle) =
            ap (λ v. parse_volume_id v.volume_id) x.2 ∙ (c.claims).parsed in
          let same : handle ≡ c.handle = cc (sym p ∙ q) in
          let none_left =
            subst (λ h. contains_text (suffixes disks) (disk_suffix h) ≡ false) same e in
          (
            c,
            x.1,
            x.2,
            (λ pr.
                not_of_false _ none_left
                  ((suffixes_iff disks (disk_suffix c.handle) (c.claims).named).1 pr)),
          ))

    backward :
        (c : Claimant vols)
        → target_of c.handle ≡ t
        → w ≡ missing_of c.vol
        → (Present disks (disk_suffix c.handle) → ⊥)
        → MissingIn disks (expected_at t (index vols).ledger) w
    backward c e q absent = (
      c.handle,
      (expected_iff vols t w).1 (c, e, q),
      ap (λ v. parse_volume_id v.volume_id) q ∙ (c.claims).parsed,
      false_of_not (contains_text (suffixes disks) (disk_suffix c.handle))
          (λ h. absent ((suffixes_iff disks (disk_suffix c.handle) (c.claims).named).0 h)),
    )

module _ (list_disks : Target → Listing) (vols : List VolumeRecord) (tenants : List Tenant) where
  -- A storage that a registration allows, or that a record names.
  abbrev pub Swept : Target → Type 0
  Swept t = Allows tenants t ⊎ Names vols t

  -- A stray disk of a storage that was read.
  abbrev pub Orphaned : Orphan → Type 0
  Orphaned o =
      (t : Target) × Swept t
      × ((disks : List Disk) × (list_disks t ≡ listed disks) × Stray vols disks o)

  -- A record of a storage that was read, or that is not there, whose disk is gone.
  abbrev pub Lost : Missing → Type 0
  Lost w =
      (t : Target) × Swept t
      × ((disks : List Disk) × Read list_disks vols tenants t disks × Gone vols t disks w)

  -- The name of a storage that was not read.
  abbrev pub Unread : Text → Type 0
  Unread name = (t : Target) × Swept t × (list_disks t ≡ failed) × (name ≡ target_string t)

  pub record IsExact (r : Report) : Type 0 where
    pub orphans : (o : Orphan) → Memᴰ o r.orphans ↔ Orphaned o
    pub missing : (w : Missing) → Memᴰ w r.missing ↔ Lost w
    pub unreadable : (name : Text) → Memᴰ name r.unreadable ↔ Unread name

  Orphaned-iff : (o : Orphan) → OrphanGathered list_disks vols tenants o ↔ Orphaned o
  Orphaned-iff o = (
    (λ k.
        (let d = k.2 in
          (k.0, (targets_iff tenants vols k.0).0 k.1, (d.0, d.1, (Stray-iff vols d.0 o).0 d.2)))),
    (λ k.
        (let d = k.2 in
          (k.0, (targets_iff tenants vols k.0).1 k.1, (d.0, d.1, (Stray-iff vols d.0 o).1 d.2)))),
  )

  Lost-iff : (w : Missing) → MissingGathered list_disks vols tenants w ↔ Lost w
  Lost-iff w = (
    (λ k.
        (let d = k.2 in
          (
            k.0,
            (targets_iff tenants vols k.0).0 k.1,
            (d.0, d.1, (Gone-iff vols k.0 d.0 w).0 d.2),
          ))),
    (λ k.
        (let d = k.2 in
          (
            k.0,
            (targets_iff tenants vols k.0).1 k.1,
            (d.0, d.1, (Gone-iff vols k.0 d.0 w).1 d.2),
          ))),
  )

  pub sweep-IsExact :
      (r : Report) × (sweep list_disks (some vols) (some tenants) ≡ some r) × IsExact r
  sweep-IsExact =
      (let g = sweep-IsGathered list_disks vols tenants in
        (
          g.0,
          g.1,
          record {
            orphans = λ o. (
              (λ m. (Orphaned-iff o).0 ((g.2.orphans o).0 m)),
              (λ k. (g.2.orphans o).1 ((Orphaned-iff o).1 k)),
            );
            missing = λ w. (
              (λ m. (Lost-iff w).0 ((g.2.missing w).0 m)),
              (λ k. (g.2.missing w).1 ((Lost-iff w).1 k)),
            );
            unreadable = λ name. (
              (λ m.
                  (let k = (g.2.unreadable name).0 m in
                    (k.0, (targets_iff tenants vols k.0).0 k.1, k.2, k.3))),
              (λ k. (g.2.unreadable name).1 (k.0, (targets_iff tenants vols k.0).1 k.1, k.2, k.3)),
            );
          },
        ))
