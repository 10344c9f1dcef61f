-- ===== src/Operator/Snapshots/Complete.antt =====
-- Runs of `reconcileCreate`, in pkg/operator/controller/snapshot/reconciler.go, where the API server
-- and Proxmox answer.
use proxmox_csi_plugin.Prelude.{◌≡◌, ap, ◌∙◌, true, false, not, ◌&&◌, List, ◌∷◌, none, some, ok}
use proxmox_csi_plugin.Text.{text_eq, contains_text}
use proxmox_csi_plugin.Volume.{Volume, volume_id, parse_volume_id}
use proxmox_csi_plugin.Operator.Types.{
  accepted, reconciling, tenant_observe_only, storage_not_allowed, VolumeRecord, Tenant,
  StorageRecord, SnapshotRecord,
}
use proxmox_csi_plugin.Operator.Action.{
  Env, Effect, write_snapshot_status, update_snapshot, copy_disk, Trace, go, return, listing,
  requeued, pure, exit, ask, ask_or_fail, perform,
}
use proxmox_csi_plugin.Operator.Action.Runs.{
  bind_go, pure_go, exit_return, ask_go, ask_or_fail_go, if_false,
}
use proxmox_csi_plugin.Operator.Phase.{is_ready, acts}
use proxmox_csi_plugin.Operator.Tenancy.{admitted_tenant}
use proxmox_csi_plugin.Operator.Record.{errors2, fault_unless}
use proxmox_csi_plugin.Operator.Record.Runs.{perform_works}
use proxmox_csi_plugin.Operator.Snapshots.{
  storage_copies, copies_listed, check_storage, snap_admitted, snap_ready, report_snapshot,
  held_or_fail, hold_snapshot, snapshot_volume, source_disk, copy_answered, copy_held,
  snapshot_of_handle, snapshot_on, snapshot_for, snapshot_of, reconcile_create,
  reconcile_snapshot_delete, reconcile_snapshot,
}

module _ (env : Env) (works : (t : Trace) (e : Effect) → env.succeeds t e ≡ true)
    (snap : SnapshotRecord) (vol : VolumeRecord) (tenant : Tenant) (src : Volume)
    (tenants : List Tenant) (storages : List StorageRecord) where
  abbrev target : Volume
  target = snapshot_volume snap tenant src

  abbrev held : SnapshotRecord
  held = record snap { finalizer = true; tenant_label = tenant.name }

  abbrev copy : Effect
  copy =
      copy_disk vol.spec.region src.zone vol.spec.storage (source_disk vol.status.disk_name src)
        target.zone vol.spec.storage target.disk

  abbrev publication : Effect
  publication = write_snapshot_status (record snap {
    finalizer = true;
    tenant_label = tenant.name;
    snapshot_id = volume_id target;
    ready_to_use = true;
    restore_size_bytes = vol.status.capacity_bytes;
    observed_generation = snap.generation;
    conditions = record (snap.conditions) {
      admitted = some (record { holds = true; reason = accepted });
      ready = some (record { holds = true; reason = accepted });
    };
  })

  copy_held_works :
      (t : Trace) → copy_held env vol src target held t ≡ (return requeued, publication ∷ copy ∷ t)
  unfolding copy_held copy_answered report_snapshot
  copy_held_works t =
      bind_go (perform env copy) (copy_answered env held vol target) t (copy ∷ t) true
        (perform_works env works copy t)
      ∙ bind_go (perform env publication)
          (λ written. exit (record { requeue = true; error = errors2 (fault_unless written) none }))
          (copy ∷ t) (publication ∷ copy ∷ t) true (perform_works env works publication (copy ∷ t))
      ∙ exit_return requeued _

  hold_snapshot_works :
      snap.finalizer ≡ false
      → (t : Trace) → hold_snapshot env snap tenant t ≡ (go held, update_snapshot held ∷ t)
  unfolding hold_snapshot held_or_fail
  hold_snapshot_works fresh t =
      if_false (snap.finalizer && text_eq snap.tenant_label tenant.name) (pure snap) _ t
        (ap (λ b. b && text_eq snap.tenant_label tenant.name) fresh)
      ∙ bind_go (perform env (update_snapshot held)) (held_or_fail held) t
          (update_snapshot held ∷ t) true (perform_works env works (update_snapshot held) t)
      ∙ pure_go held _

  -- What the API server answers for a snapshot that may be made.
  pub record Answers : Type 0 where
    pub found : (t : Trace) → env.get_volume t snap.namespace snap.source_volume_name ≡ some vol
    pub source_ready : is_ready vol.status.phase ≡ true
    pub listed : (t : Trace) → env.list_tenants t ≡ some tenants
    pub registered : admitted_tenant snap.namespace tenants ≡ some tenant
    pub acting : acts tenant.mode ≡ true
    pub allowed : contains_text tenant.allowed_storages vol.spec.storage ≡ true
    pub catalogued : (t : Trace) → env.list_storages t ≡ some storages
    pub copies : storage_copies vol.spec.region vol.spec.storage storages ≡ true
    pub parsed : parse_volume_id vol.status.volume_id ≡ ok src

  module _ (a : Answers) where
    check_storage_works :
        (t : Trace) → check_storage env vol.spec.region vol.spec.storage t ≡ (go true, t)
    unfolding check_storage copies_listed
    check_storage_works t =
        ask_go (λ u. copies_listed vol.spec.region vol.spec.storage (env.list_storages u)) t
        ∙ ap (λ o. (go (copies_listed vol.spec.region vol.spec.storage o), t)) (a.catalogued t)
        ∙ ap (λ b. (go b, t)) a.copies

    snapshot_for_works :
        snap.finalizer ≡ false
        → (t : Trace)
        → snapshot_for env snap vol (some tenant) t
          ≡ (return requeued, publication ∷ copy ∷ update_snapshot held ∷ t)
    unfolding snapshot_for snapshot_on snapshot_of_handle
    snapshot_for_works fresh t =
        if_false (not (acts tenant.mode))
          (report_snapshot env false none (snap_admitted false tenant_observe_only snap)) _ t
          (ap not a.acting)
        ∙ if_false (not (contains_text tenant.allowed_storages vol.spec.storage))
            (report_snapshot env false none (snap_admitted false storage_not_allowed snap)) _ t
            (ap not a.allowed)
        ∙ bind_go (check_storage env vol.spec.region vol.spec.storage)
            (snapshot_on env snap vol tenant) t t true (check_storage_works t)
        ∙ ap (λ p. snapshot_of_handle env snap vol tenant p t) a.parsed
        ∙ bind_go (hold_snapshot env snap tenant) (copy_held env vol src target) t
            (update_snapshot held ∷ t) held (hold_snapshot_works fresh t)
        ∙ copy_held_works (update_snapshot held ∷ t)

    -- A snapshot that is not deleted, not complete and not held, of a ready source, for an admitted
    -- registration whose mode acts, on a storage that is allowed and copies, is held first, then copied,
    -- and then published, if the API server answers and every call succeeds: its status says that it is
    -- ready to use and accepted, and has the handle of the copy and the size of the source's disk.
    pub reconcile_snapshot_works :
        snap.deleting ≡ false
        → snap.ready_to_use ≡ false
        → snap.finalizer ≡ false
        → (t : Trace)
        → reconcile_snapshot env snap t
          ≡ (return requeued, publication ∷ copy ∷ update_snapshot held ∷ t)
    unfolding reconcile_snapshot reconcile_create snapshot_of
    reconcile_snapshot_works live incomplete fresh t =
        if_false snap.deleting (reconcile_snapshot_delete env snap) (reconcile_create env snap) t
          live
        ∙ if_false snap.ready_to_use (exit requeued) _ t incomplete
        ∙ bind_go (ask (λ u. env.get_volume u snap.namespace snap.source_volume_name))
            (snapshot_of env snap) t t (some vol)
            (ask_go (λ u. env.get_volume u snap.namespace snap.source_volume_name) t
              ∙ ap (λ o. (go o, t)) (a.found t))
        ∙ if_false (not (is_ready vol.status.phase))
            (report_snapshot env true none (snap_ready false reconciling snap)) _ t
            (ap not a.source_ready)
        ∙ bind_go (ask_or_fail listing env.list_tenants)
            (λ ts. snapshot_for env snap vol (admitted_tenant snap.namespace ts)) t t tenants
            (ask_or_fail_go listing env.list_tenants t tenants (a.listed t))
        ∙ ap (λ o. snapshot_for env snap vol o t) a.registered
        ∙ snapshot_for_works fresh t
