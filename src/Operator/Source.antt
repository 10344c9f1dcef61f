-- ===== src/Operator/Source.antt =====
-- `provisionFromSource`, `provisionFromVolume` and `provisionFromSnapshot` of
-- pkg/operator/controller/volume/provision.go. Each goes on with the record whose status it may have
-- written, as the caller then does.
pub mod Rules
pub mod Runs
use proxmox_csi_plugin.Prelude.{
  Bool, true, false, not, List, [], ◌∷◌, Option, none, some, Result, ok, err, if◌then◌else◌,
}
use proxmox_csi_plugin.Text.{Text, text_eq, is_empty}
use proxmox_csi_plugin.Volume.{Volume, VolumeError, parse_volume_id}
use proxmox_csi_plugin.Operator.Types.{
  Reason, source_not_found, reconciling, invalid_spec, VolumePhase, ready, pending, rejected,
  VolumeSource, VolumeRecord, VolumeStatus, SnapshotRecord,
}
use proxmox_csi_plugin.Operator.Action.{
  Env, Effect, copy_disk, Action, Fault, proxmox, source_missing, failed_by, pure, exit, ask,
  perform, ◌>>=◌,
}
use proxmox_csi_plugin.Operator.Record.{set_admitted, set_ready, observed, update_status}
use proxmox_csi_plugin.Operator.Phase.{is_ready}

unless : VolumeRecord → Option Fault → Action VolumeRecord
unless vol none = pure vol
unless vol (some fault) = exit (failed_by fault)

-- `return r.updateStatus(ctx, vol)`: no error, unless the write fails.
unfoldable pub noted : Env → VolumeRecord → Action VolumeRecord
unfolding unless
noted env vol = do fault ← update_status env vol; unless (observed vol) fault

abbrev pub source_refused : Reason → VolumeRecord → VolumeRecord
source_refused reason vol = record vol {
  status = record (set_admitted false reason vol.status) { phase = rejected };
}

abbrev pub source_pending : VolumeRecord → VolumeRecord
source_pending vol = record vol {
  status = record (set_ready false reconciling vol.status) { phase = pending };
}

copied : VolumeRecord → Bool → Action VolumeRecord
copied vol true = pure vol
copied vol false = exit (failed_by proxmox)

copy_to : Env → VolumeRecord → Volume → (region zone storage disk : Text) → Action VolumeRecord
unfolding copied
copy_to env vol dest region zone storage disk = do
  done ← perform env (copy_disk region zone storage disk vol.spec.zone vol.spec.storage dest.disk)
  copied vol done

from_found_volume : Env → VolumeRecord → Volume → Option VolumeRecord → Action VolumeRecord
unfolding copy_to
from_found_volume env vol dest none = noted env (source_refused source_not_found vol)
from_found_volume env vol dest (some src) =
    if not (is_ready src.status.phase)
    then noted env (source_pending vol)
    else copy_to env vol dest src.spec.region src.spec.zone src.spec.storage src.status.disk_name

-- `provisionFromVolume`
unfoldable pub provision_from_volume : Env → VolumeRecord → Volume → Text → Action VolumeRecord
unfolding from_found_volume
provision_from_volume env vol dest name = do
  src ← ask (λ t. env.get_volume t vol.namespace name)
  from_found_volume env vol dest src

snapshot_by_id : Text → List SnapshotRecord → Option SnapshotRecord
snapshot_by_id id [] = none
snapshot_by_id id (s ∷ ss) = if text_eq s.snapshot_id id then some s else snapshot_by_id id ss

listed_snapshot : Text → Option (List SnapshotRecord) → Option SnapshotRecord
unfolding snapshot_by_id
listed_snapshot id none = none
listed_snapshot id (some snapshots) = snapshot_by_id id snapshots

from_snapshot_handle : Env → VolumeRecord → Volume → Result VolumeError Volume → Action VolumeRecord
unfolding copy_to
from_snapshot_handle env vol dest (err e) = noted env (source_refused invalid_spec vol)
from_snapshot_handle env vol dest (ok snap) =
    copy_to env vol dest snap.region snap.zone snap.storage snap.disk

from_snapshot : Env → VolumeRecord → Volume → SnapshotRecord → Action VolumeRecord
unfolding from_snapshot_handle
from_snapshot env vol dest snapshot =
    if not snapshot.ready_to_use
    then noted env (source_pending vol)
    else from_snapshot_handle env vol dest (parse_volume_id snapshot.snapshot_id)

from_listed_snapshot : Env → VolumeRecord → Volume → Option SnapshotRecord → Action VolumeRecord
unfolding from_snapshot
from_listed_snapshot env vol dest none = noted env (source_refused source_not_found vol)
from_listed_snapshot env vol dest (some snapshot) = from_snapshot env vol dest snapshot

-- The name may be a handle: a failed lookup by the name is followed by one in the list.
from_named_snapshot :
    Env → VolumeRecord → Volume → Text → Option SnapshotRecord → Action VolumeRecord
unfolding from_snapshot listed_snapshot from_listed_snapshot
from_named_snapshot env vol dest name (some snapshot) = from_snapshot env vol dest snapshot
from_named_snapshot env vol dest name none = do
  snapshot ← ask (λ t. listed_snapshot name (env.list_snapshots t vol.namespace))
  from_listed_snapshot env vol dest snapshot

-- `provisionFromSnapshot`
unfoldable pub provision_from_snapshot : Env → VolumeRecord → Volume → Text → Action VolumeRecord
unfolding from_named_snapshot
provision_from_snapshot env vol dest name = do
  snapshot ← ask (λ t. env.get_snapshot t vol.namespace name)
  from_named_snapshot env vol dest name snapshot

-- `provisionFromSource`
unfoldable pub provision_from_source :
    Env → VolumeRecord → Volume → VolumeSource → Action VolumeRecord
provision_from_source env vol dest source =
    if not (is_empty source.volume_name)
    then provision_from_volume env vol dest source.volume_name
    else if not (is_empty source.snapshot_name)
    then provision_from_snapshot env vol dest source.snapshot_name
    else exit (failed_by source_missing)
