-- ===== src/Operator/Snapshots/Effects.antt =====
-- What a reconcile of a snapshot asks and writes, and its deletion, in
-- pkg/operator/controller/snapshot/reconciler.go.
use proxmox_csi_plugin.Prelude.{
  ◌≡◌, refl, Bool, true, false, not, List, Option, some, Result, ok, err, ◌⊎◌, inl, inr,
  if◌then◌else◌,
}
use proxmox_csi_plugin.Text.{is_empty, contains_text}
use proxmox_csi_plugin.Volume.{Volume, VolumeError, parse_volume_id, volume_id}
use proxmox_csi_plugin.Operator.Types.{
  proxmox_error, VolumeRecord, Tenant, StorageRecord, SnapshotRecord,
}
use proxmox_csi_plugin.Operator.Action.{
  Env, Effect, write_snapshot_status, update_snapshot, copy_disk, delete_disk, Trace, Fault,
  writing, proxmox, finished, failed_by, exit, ask, perform,
}
use proxmox_csi_plugin.Operator.Action.Rules.{
  Emits, Ensures-exit, Ensures-if, Ensures-ask, Ensures-perform, Emits-perform, Ensures-bind,
}
use proxmox_csi_plugin.Operator.Phase.{is_ready, acts}
use proxmox_csi_plugin.Operator.Record.{errors2, fault_unless}
use proxmox_csi_plugin.Operator.Attachment.Rules.{TenantListed}
use proxmox_csi_plugin.Operator.Snapshots.{
  is_not_found, storage_copies, snap_ready, seen_snapshot, report_snapshot, held_snapshot,
  snapshot_volume, source_disk, release_snapshot, after_failed_delete, delete_answered,
  delete_parsed, reconcile_snapshot_delete,
}

module _ (env : Env) (snap : SnapshotRecord) where
  -- A copy is of a ready source, for a tenant that acts, on a storage that it may use and that copies.
  pub record Admissible (vol : VolumeRecord) (tenant : Tenant) (src : Volume) : Type 0 where
    pub found : (t : Trace) × (env.get_volume t snap.namespace snap.source_volume_name ≡ some vol)
    pub source_ready : is_ready vol.status.phase ≡ true
    pub registered : TenantListed env snap.namespace (some tenant)
    pub acting : acts tenant.mode ≡ true
    pub allowed : contains_text tenant.allowed_storages vol.spec.storage ≡ true
    pub copies :
        (storages : List StorageRecord) × (t : Trace) × (env.list_storages t ≡ some storages)
        × (storage_copies vol.spec.region vol.spec.storage storages ≡ true)
    pub parsed : parse_volume_id vol.status.volume_id ≡ ok src

  -- The copy of the source's disk, under the name that its status has if there is one.
  abbrev pub copy_for : VolumeRecord → Tenant → Volume → Effect
  copy_for vol tenant src =
      copy_disk vol.spec.region src.zone vol.spec.storage (source_disk vol.status.disk_name src)
        (snapshot_volume snap tenant src).zone vol.spec.storage
        (snapshot_volume snap tenant src).disk

  abbrev pub CopyOf : Effect → Type 0
  CopyOf e =
      (vol : VolumeRecord) × (tenant : Tenant) × (src : Volume) × Admissible vol tenant src
      × (e ≡ copy_for vol tenant src)

  abbrev pub deletion_of : Volume → Effect
  deletion_of v = delete_disk v.region v.zone v.storage v.disk

  -- There is no disk of the snapshot to delete, or Proxmox deleted it or said that it is not there.
  abbrev pub IsGone : Type 0
  IsGone =
      (is_empty snap.snapshot_id ≡ true)
      ⊎ (((e : VolumeError) × (parse_volume_id snap.snapshot_id ≡ err e))
          ⊎ ((v : Volume) × (t : Trace) × (parse_volume_id snap.snapshot_id ≡ ok v)
              × ((env.succeeds t (deletion_of v) ≡ true)
                  ⊎ (is_not_found (env.error_message t (deletion_of v)) ≡ true))))

  -- The snapshot is complete in Proxmox.
  abbrev pub Copied : SnapshotRecord → Type 0
  Copied w =
      (vol : VolumeRecord) × (tenant : Tenant) × (src : Volume) × (t : Trace) × Admissible vol
        tenant src
      × (env.succeeds t (copy_for vol tenant src) ≡ true)
      × (w.snapshot_id ≡ volume_id (snapshot_volume snap tenant src))
      × (w.restore_size_bytes ≡ vol.status.capacity_bytes)

  -- The effects that a reconcile may have.
  abbrev pub SnapshotEffect : Effect → Type 0
  SnapshotEffect (copy_disk r z s d tz ts td) =
      (snap.deleting ≡ false) × (snap.ready_to_use ≡ false) × CopyOf (copy_disk r z s d tz ts td)
  SnapshotEffect (delete_disk r z s d) =
      (snap.deleting ≡ true)
      × ((v : Volume) × (parse_volume_id snap.snapshot_id ≡ ok v)
          × (delete_disk r z s d ≡ deletion_of v))
  SnapshotEffect (update_snapshot w) =
      ((snap.deleting ≡ false)
        × ((tenant : Tenant) × TenantListed env snap.namespace (some tenant)
            × (w ≡ held_snapshot snap tenant)))
      ⊎ ((snap.deleting ≡ true) × IsGone × (w ≡ record snap { finalizer = false }))
  SnapshotEffect (write_snapshot_status w) = (w.ready_to_use ≡ snap.ready_to_use) ⊎ Copied w
  SnapshotEffect e = ⊥

  pub Emits-report_snapshot :
      (requeue : Bool) (cause : Option Fault) (w : SnapshotRecord)
      → SnapshotEffect (write_snapshot_status (seen_snapshot w))
      → Emits SnapshotEffect (report_snapshot env requeue cause w)
  unfolding report_snapshot
  Emits-report_snapshot requeue cause w h =
      Ensures-bind (perform env (write_snapshot_status (seen_snapshot w)))
        (λ written.
          exit (record { requeue = requeue; error = errors2 (fault_unless written) cause }))
        (Emits-perform env _ h) (λ written q. Ensures-exit _)

  module _ (going : snap.deleting ≡ true) where
    Emits-release_snapshot : IsGone → Emits SnapshotEffect (release_snapshot env snap)
    unfolding release_snapshot
    Emits-release_snapshot gone =
        Ensures-bind (perform env (update_snapshot (record snap { finalizer = false })))
          (λ updated. if updated then exit finished else exit (failed_by writing))
          (Emits-perform env _ (inr (going, gone, refl)))
          (λ updated q.
            Ensures-if updated _ _ (λ e. Ensures-exit finished)
              (λ e. Ensures-exit (failed_by writing)))

    Emits-delete_answered :
        (v : Volume)
        → parse_volume_id snap.snapshot_id ≡ ok v
        → (b : Bool) (t : Trace) → env.succeeds t (deletion_of v) ≡ b
        → Emits SnapshotEffect (delete_answered env snap (deletion_of v) b)
    unfolding delete_answered after_failed_delete
    Emits-delete_answered v p true t e = Emits-release_snapshot (inr (inr (v, t, p, inl e)))
    Emits-delete_answered v p false t e =
        Ensures-bind (ask (λ u. is_not_found (env.error_message u (deletion_of v))))
          (after_failed_delete env snap)
          (Ensures-ask
            {Q = λ b. (u : Trace) × (is_not_found (env.error_message u (deletion_of v)) ≡ b)} _
            (λ u. (u, refl)))
          (λ b k. branch b k.0 k.1)
      where
        branch :
            (b : Bool) (u : Trace)
            → is_not_found (env.error_message u (deletion_of v)) ≡ b
            → Emits SnapshotEffect (after_failed_delete env snap b)
        branch true u h = Emits-release_snapshot (inr (inr (v, u, p, inr h)))
        branch false u h =
            Emits-report_snapshot true (some proxmox) (snap_ready false proxmox_error snap)
              (inl refl)

    Emits-delete_parsed :
        (parsed : Result VolumeError Volume)
        → parse_volume_id snap.snapshot_id ≡ parsed
        → Emits SnapshotEffect (delete_parsed env snap parsed)
    unfolding delete_parsed
    Emits-delete_parsed (err x) p = Emits-release_snapshot (inr (inl (x, p)))
    Emits-delete_parsed (ok v) p =
        Ensures-bind (perform env (deletion_of v)) (delete_answered env snap (deletion_of v))
          (Ensures-perform env (deletion_of v) (going, (v, p, refl)))
          (λ b k. Emits-delete_answered v p b k.0 k.1)

    pub Emits-reconcile_snapshot_delete : Emits SnapshotEffect (reconcile_snapshot_delete env snap)
    unfolding reconcile_snapshot_delete
    Emits-reconcile_snapshot_delete =
        Ensures-if (not snap.finalizer) _ _ (λ e. Ensures-exit finished)
          (λ e.
            Ensures-if (is_empty snap.snapshot_id) _ _ (λ k. Emits-release_snapshot (inl k))
              (λ k. Emits-delete_parsed (parse_volume_id snap.snapshot_id) refl))
