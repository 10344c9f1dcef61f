-- ===== src/Operator/Source/Rules.antt =====
-- The rules for the provisioning from a source: it copies to the destination, or writes a status.
use proxmox_csi_plugin.Prelude.{
  ◌≡◌, refl, Bool, true, false, not, Option, none, some, Result, ok, err,
}
use proxmox_csi_plugin.Text.{Text, is_empty}
use proxmox_csi_plugin.Volume.{Volume, VolumeError, parse_volume_id}
use proxmox_csi_plugin.Operator.Types.{
  source_not_found, invalid_spec, VolumeSource, VolumeRecord, VolumeStatus, SnapshotRecord,
}
use proxmox_csi_plugin.Operator.Action.{
  Env, Effect, copy_disk, write_volume_status, Fault, proxmox, source_missing, failed_by, ask,
  perform,
}
use proxmox_csi_plugin.Operator.Action.Rules.{
  Ensures, Ensures-pure, Ensures-exit, Ensures-if, Emits-ask, Emits-perform, Ensures-bind,
}
use proxmox_csi_plugin.Operator.Phase.{is_ready}
use proxmox_csi_plugin.Operator.Record.{observed, update_status}
use proxmox_csi_plugin.Operator.Record.Rules.{Emits-update_status}
use proxmox_csi_plugin.Operator.Source.{
  unless, noted, source_refused, source_pending, copied, copy_to, from_found_volume,
  provision_from_volume, listed_snapshot, from_snapshot_handle, from_snapshot, from_listed_snapshot,
  from_named_snapshot, provision_from_snapshot, provision_from_source,
}

-- The record, with another status.
abbrev pub InStatus : VolumeRecord → VolumeRecord → Type 0
InStatus v m = (s : VolumeStatus) × (m ≡ record v { status = s })

module _ {P : Effect → Type 0} (env : Env) (v : VolumeRecord) (dest : Volume)
    (writes : (s : VolumeStatus)
      → s.volume_id ≡ v.status.volume_id
      → P (write_volume_status (record v { status = s })))
    (copies : (region zone storage disk : Text)
      → P (copy_disk region zone storage disk v.spec.zone v.spec.storage dest.disk)) where
  Ensures-noted :
      (s : VolumeStatus)
      → s.volume_id ≡ v.status.volume_id
      → Ensures P (InStatus v) (noted env (record v { status = s }))
  unfolding noted unless
  Ensures-noted s e =
      Ensures-bind (update_status env (record v { status = s }))
        (unless (observed (record v { status = s })))
        (Emits-update_status env (record v { status = s })
          (writes (record s { observed_generation = v.generation }) e))
        (λ fault q. branch fault)
    where
      branch :
          (fault : Option Fault)
          → Ensures P (InStatus v) (unless (observed (record v { status = s })) fault)
      branch none =
          Ensures-pure (observed (record v { status = s }))
            (record s { observed_generation = v.generation }, refl)
      branch (some f) = Ensures-exit (failed_by f)

  Ensures-copy_to :
      (region zone storage disk : Text)
      → Ensures P (InStatus v) (copy_to env v dest region zone storage disk)
  unfolding copy_to copied
  Ensures-copy_to region zone storage disk =
      Ensures-bind
        (perform env (copy_disk region zone storage disk v.spec.zone v.spec.storage dest.disk))
        (copied v) (Emits-perform env _ (copies region zone storage disk)) (λ b q. branch b)
    where
      branch : (b : Bool) → Ensures P (InStatus v) (copied v b)
      branch true = Ensures-pure v (v.status, refl)
      branch false = Ensures-exit (failed_by proxmox)

  Ensures-from_found_volume :
      (src : Option VolumeRecord) → Ensures P (InStatus v) (from_found_volume env v dest src)
  unfolding from_found_volume
  Ensures-from_found_volume none = Ensures-noted (source_refused source_not_found v).status refl
  Ensures-from_found_volume (some src) =
      Ensures-if (not (is_ready src.status.phase)) _ _
        (λ e. Ensures-noted (source_pending v).status refl)
        (λ e. Ensures-copy_to src.spec.region src.spec.zone src.spec.storage src.status.disk_name)

  Ensures-from_snapshot : (s : SnapshotRecord) → Ensures P (InStatus v) (from_snapshot env v dest s)
  unfolding from_snapshot from_snapshot_handle
  Ensures-from_snapshot s =
      Ensures-if (not s.ready_to_use) _ _ (λ e. Ensures-noted (source_pending v).status refl)
        (λ e. handled (parse_volume_id s.snapshot_id))
    where
      handled :
          (parsed : Result VolumeError Volume)
          → Ensures P (InStatus v) (from_snapshot_handle env v dest parsed)
      handled (err x) = Ensures-noted (source_refused invalid_spec v).status refl
      handled (ok snap) = Ensures-copy_to snap.region snap.zone snap.storage snap.disk

  Ensures-from_named_snapshot :
      (name : Text) (s : Option SnapshotRecord)
      → Ensures P (InStatus v) (from_named_snapshot env v dest name s)
  unfolding from_named_snapshot from_listed_snapshot
  Ensures-from_named_snapshot name (some s) = Ensures-from_snapshot s
  Ensures-from_named_snapshot name none =
      Ensures-bind (ask (λ t. listed_snapshot name (env.list_snapshots t v.namespace)))
        (from_listed_snapshot env v dest) (Emits-ask _) (λ s q. branch s)
    where
      branch :
          (s : Option SnapshotRecord) → Ensures P (InStatus v) (from_listed_snapshot env v dest s)
      branch none = Ensures-noted (source_refused source_not_found v).status refl
      branch (some s) = Ensures-from_snapshot s

  pub Ensures-provision_from_source :
      (source : VolumeSource) → Ensures P (InStatus v) (provision_from_source env v dest source)
  unfolding provision_from_source provision_from_volume provision_from_snapshot
  Ensures-provision_from_source source =
      Ensures-if (not (is_empty source.volume_name)) _ _
        (λ e.
          Ensures-bind (ask (λ t. env.get_volume t v.namespace source.volume_name))
            (from_found_volume env v dest) (Emits-ask _) (λ s q. Ensures-from_found_volume s))
        (λ e.
          Ensures-if (not (is_empty source.snapshot_name)) _ _
            (λ e.
              Ensures-bind (ask (λ t. env.get_snapshot t v.namespace source.snapshot_name))
                (from_named_snapshot env v dest source.snapshot_name) (Emits-ask _)
                (λ s q. Ensures-from_named_snapshot source.snapshot_name s))
            (λ e. Ensures-exit (failed_by source_missing)))
