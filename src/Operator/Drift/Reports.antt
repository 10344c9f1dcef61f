-- ===== src/Operator/Drift/Reports.antt =====
-- `Sweep` of pkg/operator/controller/drift/detector.go: what a report says, by the index and the targets,
-- and the disks that it spares.
use mathlib.Core.List.{Memᴰ}
use proxmox_csi_plugin.Prelude.{
  ◌≡◌, ◌↔◌, refl, sym, subst, ◌∙◌, Bool, true, not, ◌&&◌, List, [], ◌∷◌, some, ◌⊎◌, inl, inr, arith,
}
use proxmox_csi_plugin.Text.{Text, contains_text, text_lt}
use proxmox_csi_plugin.Volume.{Volume, new_volume, disk_suffix}
use proxmox_csi_plugin.Operator.Types.{VolumeRecord, Tenant, Disk}
use proxmox_csi_plugin.Operator.Drift.{
  Orphan, Missing, Report, Target, target_string, targets, claim_key, index, suffix_of_disk,
  disk_target, orphan_of, orphans_in, expected_at, Listing, listed, no_storage, failed, no_report,
  sweep_targets, orphan_lt, missing_lt, sort_report, report_of, sweep_listed, sweep,
}
use proxmox_csi_plugin.Operator.Drift.Keys.{
  Claims, index-Claims, OrphanIn, orphans_in-OrphanIn, OrphanIn-orphans_in, MissingIn,
  missing_in_iff,
}
use proxmox_csi_plugin.Operator.Drift.Gather.{
  sorted_iff, orphans_by, missing_by, unreadable_by, gathered,
}

module _ (list_disks : Target → Listing) (vols : List VolumeRecord) (tenants : List Tenant) where
  abbrev pub swept : List Target
  swept = targets tenants vols

  -- A disk of a storage that was read, in the shape of the driver's, that no record claims.
  abbrev pub OrphanGathered : Orphan → Type 0
  OrphanGathered o =
      (t : Target) × Memᴰ t swept
      × ((disks : List Disk) × (list_disks t ≡ listed disks)
          × OrphanIn disks (index vols).claimed o)

  -- The disks of a storage that was read; a storage that is not there has none.
  abbrev pub Read : Target → List Disk → Type 0
  Read t disks = (list_disks t ≡ listed disks) ⊎ ((list_disks t ≡ no_storage) × (disks ≡ []))

  -- A record of a storage that was read, whose disk was not there.
  abbrev pub MissingGathered : Missing → Type 0
  MissingGathered w =
      (t : Target) × Memᴰ t swept
      × ((disks : List Disk) × Read t disks × MissingIn disks (expected_at t (index vols).ledger) w)

  -- The name of a storage that was not read.
  abbrev pub UnreadGathered : Text → Type 0
  UnreadGathered name =
      (t : Target) × Memᴰ t swept × (list_disks t ≡ failed) × (name ≡ target_string t)

  pub record IsGathered (r : Report) : Type 0 where
    pub orphans : (o : Orphan) → Memᴰ o r.orphans ↔ OrphanGathered o
    pub missing : (w : Missing) → Memᴰ w r.missing ↔ MissingGathered w
    pub unreadable : (name : Text) → Memᴰ name r.unreadable ↔ UnreadGathered name

  orphans_by_iff :
      (t : Target) (l : Listing) (o : Orphan)
      → Memᴰ o (orphans_by list_disks (index vols) l)
        ↔ ((disks : List Disk) × (l ≡ listed disks) × OrphanIn disks (index vols).claimed o)
  orphans_by_iff t (listed disks) o = (
    (λ m. (disks, refl, orphans_in-OrphanIn disks (index vols).claimed o m)),
    (λ k.
        (let q = subst (λ ds. OrphanIn ds (index vols).claimed o) (sym (cc k.1)) k.2 in
          subst (λ x. Memᴰ x (orphans_in disks (index vols).claimed)) (sym q.3)
            (OrphanIn-orphans_in disks (index vols).claimed q.0 q.1 q.2))),
  )
  orphans_by_iff t no_storage o = ((λ m. elim m [ ]), (λ k. cc k.1))
  orphans_by_iff t failed o = ((λ m. elim m [ ]), (λ k. cc k.1))

  abbrev Expected : Target → Missing → List Disk → Type 0
  Expected t w disks = MissingIn disks (expected_at t (index vols).ledger) w

  listed_only :
      (t : Target) (w : Missing) (disks ds : List Disk)
      → (listed disks ≡ listed ds) ⊎ ((listed disks ≡ no_storage) × (ds ≡ []))
      → Expected t w ds
      → Expected t w disks
  listed_only t w disks ds (inl e) k = subst (Expected t w) (sym (cc e)) k
  listed_only t w disks ds (inr e) k = cc e.0

  nothing_only :
      (t : Target) (w : Missing) (ds : List Disk)
      → (no_storage ≡ listed ds) ⊎ ((no_storage ≡ no_storage) × (ds ≡ []))
      → Expected t w ds
      → Expected t w []
  nothing_only t w ds (inl e) k = cc e
  nothing_only t w ds (inr e) k = subst (Expected t w) e.1 k

  missing_by_iff :
      (t : Target) (l : Listing) (w : Missing)
      → Memᴰ w (missing_by list_disks (index vols) t l) ↔ (
          (disks : List Disk) × ((l ≡ listed disks) ⊎ ((l ≡ no_storage) × (disks ≡ [])))
          × MissingIn disks (expected_at t (index vols).ledger) w)
  missing_by_iff t (listed disks) w = (
    (λ m. (disks, inl refl, (missing_in_iff disks _ w).0 m)),
    (λ k. (missing_in_iff disks _ w).1 (listed_only t w disks k.0 k.1 k.2)),
  )
  missing_by_iff t no_storage w = (
    (λ m. ([], inr (refl, refl), (missing_in_iff [] _ w).0 m)),
    (λ k. (missing_in_iff [] _ w).1 (nothing_only t w k.0 k.1 k.2)),
  )
  missing_by_iff t failed w = ((λ m. elim m [ ]), (λ k. neither k.0 k.1))
    where
      neither :
          (ds : List Disk) → (failed ≡ listed ds) ⊎ ((failed ≡ no_storage) × (ds ≡ [])) → Memᴰ w []
      neither ds (inl e) = cc e
      neither ds (inr e) = cc e.0

  unreadable_by_iff :
      (t : Target) (l : Listing) (name : Text)
      → Memᴰ name (unreadable_by list_disks (index vols) t l)
        ↔ ((l ≡ failed) × (name ≡ target_string t))
  unreadable_by_iff t (listed disks) name = ((λ m. elim m [ ]), (λ k. cc k.0))
  unreadable_by_iff t no_storage name = ((λ m. elim m [ ]), (λ k. cc k.0))
  unreadable_by_iff t failed name = (only, (λ k. Memᴰ.head k.1))
    where
      only : Memᴰ name (target_string t ∷ []) → (failed ≡ failed) × (name ≡ target_string t)
      only (Memᴰ.head p) = (refl, p)
      only (Memᴰ.tail m) = elim m [ ]

  abbrev found : Report
  found = sweep_targets list_disks (index vols) swept no_report

  report-IsGathered : IsGathered (report_of list_disks vols tenants)
  unfolding report_of sort_report
  report-IsGathered = record {
    orphans = λ o.
        (let all =
            sorted_iff orphan_lt (λ t. orphans_by list_disks (index vols) (list_disks t)) swept
              found.orphans (gathered list_disks (index vols) swept no_report).0 o in
          (
            (λ m. (let k = all.0 m in (k.0, k.1, (orphans_by_iff k.0 (list_disks k.0) o).0 k.2))),
            (λ k. all.1 (k.0, k.1, (orphans_by_iff k.0 (list_disks k.0) o).1 k.2)),
          ));
    missing = λ w.
        (let all =
            sorted_iff missing_lt (λ t. missing_by list_disks (index vols) t (list_disks t)) swept
              found.missing (gathered list_disks (index vols) swept no_report).1 w in
          (
            (λ m. (let k = all.0 m in (k.0, k.1, (missing_by_iff k.0 (list_disks k.0) w).0 k.2))),
            (λ k. all.1 (k.0, k.1, (missing_by_iff k.0 (list_disks k.0) w).1 k.2)),
          ));
    unreadable = λ name.
        (let all =
            sorted_iff text_lt (λ t. unreadable_by list_disks (index vols) t (list_disks t)) swept
              found.unreadable (gathered list_disks (index vols) swept no_report).2 name in
          (
            (λ m.
                (let k = all.0 m in
                  (let e = (unreadable_by_iff k.0 (list_disks k.0) name).0 k.2 in
                    (k.0, k.1, e.0, e.1)))),
            (λ k. all.1 (k.0, k.1, (unreadable_by_iff k.0 (list_disks k.0) name).1 (k.2, k.3))),
          ));
  }

  -- A sweep whose records are listed answers a report of what its index and its targets gather.
  pub sweep-IsGathered :
      (r : Report) × (sweep list_disks (some vols) (some tenants) ≡ some r) × IsGathered r
  unfolding sweep sweep_listed
  sweep-IsGathered = (report_of list_disks vols tenants, refl, report-IsGathered)

  same_shape : (a b : Bool) → b ≡ true → (a && not b) ≡ true → ⊥
  same_shape a b h k = ground (arith, h, k)

  -- No orphan of a report has the region, the storage and the rename-stable name of a disk that a
  -- record claims, whatever VM the disk is named for.
  pub sweep_spares_claimed :
      (vol : VolumeRecord) (handle : Volume) (r : Report) (o : Orphan)
      → Memᴰ vol vols
      → Claims vol handle
      → sweep list_disks (some vols) (some tenants) ≡ some r
      → o.region ≡ handle.region
      → o.storage ≡ handle.storage
      → disk_suffix (new_volume o.region [] o.storage o.name []) ≡ disk_suffix handle
      → ¬ (Memᴰ o r.orphans)
  sweep_spares_claimed vol handle r o m c s er es en k =
      (let e = sweep-IsGathered in
        let same = injected (sym s ∙ e.1) in
        let found = (e.2.orphans o).0 (subst (λ x. Memᴰ o x.orphans) same k) in
        let d = found.2.2 in same_shape _ _ (claimed_key d.0 d.3) d.2)
    where
      injected : {a b : Report} → some a ≡ some b → a ≡ b
      injected h = cc h

      claimed_key :
          (disk : Disk)
          → o ≡ orphan_of disk
          → contains_text (index vols).claimed (claim_key (disk_target disk) (suffix_of_disk disk))
            ≡ true
      claimed_key disk p =
          subst
            (λ x.
              contains_text (index vols).claimed (
                claim_key (record { region = x.region; storage = x.storage })
                  (disk_suffix (new_volume x.region [] x.storage x.name [])))
              ≡ true)
            p (rw (en, er, es) (index-Claims vol vols handle m c))
