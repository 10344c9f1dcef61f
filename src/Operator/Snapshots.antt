-- ===== src/Operator/Snapshots.antt =====
-- pkg/operator/controller/snapshot/reconciler.go: a snapshot is a full copy of the disk of its source.
-- Messages and times are left out; `r.SyncPeriod` is the period of every requeue.
pub mod Effects
pub mod Safety
pub mod Complete
pub mod Released
use proxmox_csi_plugin.Prelude.{
  ℕ, Bool, true, false, not, ◌&&◌, ◌||◌, List, [], ◌∷◌, ◌++◌, Option, none, some, Result, ok, err,
  if◌then◌else◌,
}
use proxmox_csi_plugin.Text.{Text, codes, text_eq, is_empty, contains, contains_text, itoa}
use proxmox_csi_plugin.Volume.{
  Volume, VolumeError, parse_volume_id, volume_id, copy_volume, set_zone,
}
use proxmox_csi_plugin.Operator.Types.{
  Reason, accepted, source_not_found, reconciling, tenant_unknown, tenant_observe_only,
  storage_not_allowed, invalid_spec, proxmox_error, Condition, VolumeRecord, Tenant, StorageRecord,
  SnapshotRecord,
}
use proxmox_csi_plugin.Operator.Action.{
  Env, Effect, write_snapshot_status, update_snapshot, copy_disk, delete_disk, Action, Fault,
  listing, writing, proxmox, finished, requeued, failed_by, pure, exit, ask, ask_or_fail, perform,
  ◌>>=◌,
}
use proxmox_csi_plugin.Operator.Phase.{is_ready, acts}
use proxmox_csi_plugin.Operator.Tenancy.{admitted_tenant}
use proxmox_csi_plugin.Operator.Record.{errors2, fault_unless}

-- `isNotFound`, on the message of an error.
unfoldable pub is_not_found : Text → Bool
is_not_found msg =
    contains msg (codes "does not exist")
    || contains msg (codes "not found")
    || contains msg (codes "no such")

copyable : StorageRecord → Bool
copyable storage =
    not (text_eq storage.plugin_type (codes "cifs"))
    && not (text_eq storage.plugin_type (codes "pbs"))
    && not (text_eq storage.plugin_type (codes "rbd"))
    && not storage.shared

-- The loop of `checkStorageForSnapshot`: the first storage of the region with the name decides.
unfoldable pub storage_copies : Text → Text → List StorageRecord → Bool
unfolding copyable
storage_copies region storage [] = false
storage_copies region storage (s ∷ ss) =
    let rest = storage_copies region storage ss in
    if not (text_eq s.region region) || not (text_eq s.storage storage) then rest else copyable s

copies_listed : Text → Text → Option (List StorageRecord) → Bool
copies_listed region storage none = false
copies_listed region storage (some storages) = storage_copies region storage storages

-- `checkStorageForSnapshot` returns no error.
unfoldable pub check_storage : Env → Text → Text → Action Bool
unfolding copies_listed
check_storage env region storage = ask (λ t. copies_listed region storage (env.list_storages t))

abbrev pub snap_admitted : Bool → Reason → SnapshotRecord → SnapshotRecord
snap_admitted holds reason snap = record snap {
  conditions = record (snap.conditions) {
    admitted = some (record { holds = holds; reason = reason });
  };
}

abbrev pub snap_ready : Bool → Reason → SnapshotRecord → SnapshotRecord
snap_ready holds reason snap = record snap {
  conditions = record (snap.conditions) {
    ready = some (record { holds = holds; reason = reason });
  };
}

abbrev pub seen_snapshot : SnapshotRecord → SnapshotRecord
seen_snapshot snap = record snap { observed_generation = snap.generation }

-- `return ctrl.Result{…}, r.updateStatus(ctx, snap)`, with the cause that `errors2` joins to it.
unfoldable pub report_snapshot : Env → Bool → Option Fault → SnapshotRecord → Action (Unit {0})
report_snapshot env requeue cause snap = do
  written ← perform env (write_snapshot_status (seen_snapshot snap))
  exit (record { requeue = requeue; error = errors2 (fault_unless written) cause })

abbrev pub held_snapshot : SnapshotRecord → Tenant → SnapshotRecord
held_snapshot snap tenant = record snap { finalizer = true; tenant_label = tenant.name }

held_or_fail : SnapshotRecord → Bool → Action SnapshotRecord
held_or_fail snap true = pure snap
held_or_fail snap false = exit (failed_by writing)

-- `hold`
unfoldable pub hold_snapshot : Env → SnapshotRecord → Tenant → Action SnapshotRecord
unfolding held_or_fail
hold_snapshot env snap tenant =
    if snap.finalizer && text_eq snap.tenant_label tenant.name then pure snap else do
      updated ← perform env (update_snapshot (held_snapshot snap tenant))
      held_or_fail (held_snapshot snap tenant) updated

abbrev pub in_zone : Text → Volume → Volume
in_zone [] v = v
in_zone (c ∷ zone) v = set_zone v (c ∷ zone)

-- The volume of the snapshot: the name of its disk, in the zone of the spec if there is one.
unfoldable pub snapshot_volume : SnapshotRecord → Tenant → Volume → Volume
snapshot_volume snap tenant src =
    in_zone snap.zone
      (copy_volume src (codes "vm-" ++ (itoa tenant.placeholder_vmid ++ b'-' ∷ snap.name)))

abbrev pub source_disk : Text → Volume → Text
source_disk [] src = src.disk
source_disk (c ∷ name) src = c ∷ name

abbrev pub partial_snapshot : SnapshotRecord → Volume → SnapshotRecord
partial_snapshot snap target =
    snap_ready false proxmox_error (record snap { snapshot_id = volume_id target })

abbrev pub complete_snapshot : SnapshotRecord → VolumeRecord → Volume → SnapshotRecord
complete_snapshot snap vol target = snap_ready true accepted (
    snap_admitted true accepted (record snap {
      snapshot_id = volume_id target;
      ready_to_use = true;
      restore_size_bytes = vol.status.capacity_bytes;
    }))

copy_answered : Env → SnapshotRecord → VolumeRecord → Volume → Bool → Action (Unit {0})
copy_answered env snap vol target false =
    report_snapshot env false (some proxmox) (partial_snapshot snap target)
copy_answered env snap vol target true =
    report_snapshot env true none (complete_snapshot snap vol target)

copy_held : Env → VolumeRecord → Volume → Volume → SnapshotRecord → Action (Unit {0})
unfolding copy_answered
copy_held env vol src target held = do
  done ← perform env (
      copy_disk vol.spec.region src.zone vol.spec.storage (source_disk vol.status.disk_name src)
        target.zone vol.spec.storage target.disk)
  copy_answered env held vol target done

snapshot_of_handle :
    Env → SnapshotRecord → VolumeRecord → Tenant → Result VolumeError Volume → Action (Unit {0})
unfolding copy_held
snapshot_of_handle env snap vol tenant (err e) =
    report_snapshot env false none (snap_ready false invalid_spec snap)
snapshot_of_handle env snap vol tenant (ok src) = do
  held ← hold_snapshot env snap tenant
  copy_held env vol src (snapshot_volume snap tenant src) held

snapshot_on : Env → SnapshotRecord → VolumeRecord → Tenant → Bool → Action (Unit {0})
unfolding snapshot_of_handle
snapshot_on env snap vol tenant false =
    report_snapshot env false none (snap_admitted false invalid_spec snap)
snapshot_on env snap vol tenant true =
    snapshot_of_handle env snap vol tenant (parse_volume_id vol.status.volume_id)

snapshot_for : Env → SnapshotRecord → VolumeRecord → Option Tenant → Action (Unit {0})
unfolding snapshot_on
snapshot_for env snap vol none =
    report_snapshot env false none (snap_admitted false tenant_unknown snap)
snapshot_for env snap vol (some tenant) =
    if not (acts tenant.mode)
    then report_snapshot env false none (snap_admitted false tenant_observe_only snap)
    else if not (contains_text tenant.allowed_storages vol.spec.storage)
    then report_snapshot env false none (snap_admitted false storage_not_allowed snap)
    else do
      copies ← check_storage env vol.spec.region vol.spec.storage
      snapshot_on env snap vol tenant copies

snapshot_of : Env → SnapshotRecord → Option VolumeRecord → Action (Unit {0})
unfolding snapshot_for
snapshot_of env snap none =
    report_snapshot env false none (snap_admitted false source_not_found snap)
snapshot_of env snap (some vol) =
    if not (is_ready vol.status.phase)
    then report_snapshot env true none (snap_ready false reconciling snap)
    else do
      tenants ← ask_or_fail listing env.list_tenants
      snapshot_for env snap vol (admitted_tenant snap.namespace tenants)

-- `reconcileCreate`
unfoldable pub reconcile_create : Env → SnapshotRecord → Action (Unit {0})
unfolding snapshot_of
reconcile_create env snap = if snap.ready_to_use then exit requeued else do
  vol ← ask (λ t. env.get_volume t snap.namespace snap.source_volume_name)
  snapshot_of env snap vol

-- The release; its error is that of the update.
unfoldable pub release_snapshot : Env → SnapshotRecord → Action (Unit {0})
release_snapshot env snap = do
  updated ← perform env (update_snapshot (record snap { finalizer = false }))
  if updated then exit finished else exit (failed_by writing)

after_failed_delete : Env → SnapshotRecord → Bool → Action (Unit {0})
after_failed_delete env snap true = release_snapshot env snap
after_failed_delete env snap false =
    report_snapshot env true (some proxmox) (snap_ready false proxmox_error snap)

delete_answered : Env → SnapshotRecord → Effect → Bool → Action (Unit {0})
unfolding after_failed_delete
delete_answered env snap deletion true = release_snapshot env snap
delete_answered env snap deletion false = do
  gone ← ask (λ t. is_not_found (env.error_message t deletion))
  after_failed_delete env snap gone

delete_parsed : Env → SnapshotRecord → Result VolumeError Volume → Action (Unit {0})
unfolding delete_answered
delete_parsed env snap (err e) = release_snapshot env snap
delete_parsed env snap (ok v) = do
  done ← perform env (delete_disk v.region v.zone v.storage v.disk)
  delete_answered env snap (delete_disk v.region v.zone v.storage v.disk) done

-- `reconcileDelete`
unfoldable pub reconcile_snapshot_delete : Env → SnapshotRecord → Action (Unit {0})
unfolding delete_parsed
reconcile_snapshot_delete env snap =
    if not snap.finalizer
    then exit finished
    else if is_empty snap.snapshot_id
    then release_snapshot env snap
    else delete_parsed env snap (parse_volume_id snap.snapshot_id)

-- `Reconcile`, of a record that was read.
unfoldable pub reconcile_snapshot : Env → SnapshotRecord → Action (Unit {0})
reconcile_snapshot env snap =
    if snap.deleting then reconcile_snapshot_delete env snap else reconcile_create env snap
