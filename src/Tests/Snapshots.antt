-- ===== src/Tests/Snapshots.antt =====
-- The theorems on snapshots, for a snapshot of a volume that is ready.
use proxmox_csi_plugin.Prelude.{◌≡◌, refl, Bool, ok, true, false, [], ◌∷◌, inr}
use proxmox_csi_plugin.Text.{codes, text_eq, is_empty, contains_text, split_n, cut}
use proxmox_csi_plugin.Volume.{Volume, parse_volume_id}
use proxmox_csi_plugin.Operator.Types.{no_conditions, SnapshotRecord}
use proxmox_csi_plugin.Operator.Action.{
  Env, Effect, return, requeued, finished, write_snapshot_status, update_snapshot, copy_disk,
  delete_disk,
}
use proxmox_csi_plugin.Operator.Action.Rules.{Emits}
use proxmox_csi_plugin.Operator.Tenancy.{admitted_tenant}
use proxmox_csi_plugin.Operator.Snapshots.{
  storage_copies, reconcile_snapshot, seen_snapshot, complete_snapshot, held_snapshot,
  snapshot_volume,
}
use proxmox_csi_plugin.Operator.Snapshots.Effects.{SnapshotEffect}
use proxmox_csi_plugin.Operator.Snapshots.Safety.{reconcile_snapshot_safe}
use proxmox_csi_plugin.Operator.Snapshots.Complete.{reconcile_snapshot_works}
use proxmox_csi_plugin.Operator.Snapshots.Released.{region_message, reconcile_snapshot_releases}
use proxmox_csi_plugin.Tests.Ledger.{tenant, made, answering}

abbrev snapshot : SnapshotRecord
snapshot = record {
  namespace = codes "a";
  name = codes "snap-1";
  generation = 1;
  deleting = false;
  finalizer = false;
  tenant_label = [];
  source_volume_name = codes "pvc-1";
  zone = [];
  snapshot_id = [];
  ready_to_use = false;
  restore_size_bytes = 0;
  observed_generation = 0;
  conditions = no_conditions;
}

reconcile_snapshot_safe_example :
    Emits (SnapshotEffect answering snapshot) (reconcile_snapshot answering snapshot)
reconcile_snapshot_safe_example = reconcile_snapshot_safe answering snapshot

abbrev source : Volume
source = record {
  region = codes "r1";
  zone = codes "pve1";
  node = codes "pve1";
  storage = codes "lvm";
  disk = codes "vm-9999-pvc-1";
}

source_read : parse_volume_id (codes "r1/pve1/lvm/vm-9999-pvc-1") ≡ ok source
source_read = unfold parse_volume_id split_n cut in refl

reconcile_snapshot_works_example : reconcile_snapshot answering snapshot [] ≡ (
  return requeued,
  write_snapshot_status (
        seen_snapshot (
          complete_snapshot
            (held_snapshot snapshot tenant)
            made
            (snapshot_volume snapshot tenant source)))
      ∷ copy_disk
          (codes "r1")
          (codes "pve1")
          (codes "lvm")
          (codes "vm-9999-pvc-1")
          (snapshot_volume snapshot tenant source).zone
          (codes "lvm")
          (snapshot_volume snapshot tenant source).disk
      ∷ update_snapshot (held_snapshot snapshot tenant)
      ∷ [],
)
reconcile_snapshot_works_example =
    reconcile_snapshot_works answering (λ t e. refl) snapshot made tenant source (tenant ∷ [])
      (record {
        region = codes "r1";
        zone = codes "pve1";
        storage = codes "lvm";
        shared = false;
        plugin_type = codes "lvmthin";
      }
        ∷ [])
      (record {
        found = λ t. refl;
        source_ready = refl;
        listed = λ t. refl;
        registered = unfold admitted_tenant text_eq in refl;
        acting = refl;
        allowed = unfold contains_text text_eq in refl;
        catalogued = λ t. refl;
        copies = unfold storage_copies text_eq in refl;
        parsed = source_read;
      })
      refl refl refl []

abbrev lost : Env
lost = record answering {
  succeeds = λ t e. still_updates e;
  error_message = λ t e. region_message (codes "r1");
}
  where
    still_updates : Effect → Bool
    still_updates (update_snapshot w) = true
    still_updates e = false

abbrev deleted_snapshot : SnapshotRecord
deleted_snapshot = record snapshot {
  deleting = true;
  finalizer = true;
  snapshot_id = codes "r1/pve1/lvm/vm-9999-pvc-1";
}

reconcile_snapshot_releases_example : reconcile_snapshot lost deleted_snapshot [] ≡ (
  return finished,
  update_snapshot (record deleted_snapshot { finalizer = false })
      ∷ delete_disk (codes "r1") (codes "pve1") (codes "lvm") (codes "vm-9999-pvc-1")
      ∷ [],
)
reconcile_snapshot_releases_example =
    reconcile_snapshot_releases lost deleted_snapshot source [] refl refl refl
      (unfold is_empty in refl) source_read (inr refl)
