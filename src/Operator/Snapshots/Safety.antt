-- ===== src/Operator/Snapshots/Safety.antt =====
-- The effects that a reconcile of a snapshot may have, for
-- pkg/operator/controller/snapshot/reconciler.go.
use proxmox_csi_plugin.Prelude.{
  ◌≡◌, refl, Bool, true, false, not, ◌&&◌, List, Option, none, some, Result, ok, err, inl, inr,
  arith,
}
use proxmox_csi_plugin.Text.{Text, text_eq, contains_text}
use proxmox_csi_plugin.Volume.{Volume, VolumeError, parse_volume_id}
use proxmox_csi_plugin.Operator.Types.{
  source_not_found, reconciling, tenant_unknown, tenant_observe_only, storage_not_allowed,
  invalid_spec, VolumeRecord, Tenant, StorageRecord, SnapshotRecord,
}
use proxmox_csi_plugin.Operator.Action.{
  Env, Effect, update_snapshot, Trace, listing, writing, proxmox, requeued, failed_by, ask,
  ask_or_fail, perform,
}
use proxmox_csi_plugin.Operator.Action.Rules.{
  Ensures, Emits, Ensures-pure, Ensures-exit, Ensures-if, Ensures-ask, Ensures-ask_or_fail,
  Ensures-perform, Emits-perform, Ensures-bind,
}
use proxmox_csi_plugin.Operator.Phase.{is_ready, acts}
use proxmox_csi_plugin.Operator.Tenancy.{admitted_tenant}
use proxmox_csi_plugin.Operator.Attachment.Rules.{TenantListed}
use proxmox_csi_plugin.Operator.Snapshots.{
  storage_copies, copies_listed, check_storage, snap_admitted, snap_ready, report_snapshot,
  held_snapshot, held_or_fail, hold_snapshot, snapshot_volume, partial_snapshot, complete_snapshot,
  copy_answered, copy_held, snapshot_of_handle, snapshot_on, snapshot_for, snapshot_of,
  reconcile_create, reconcile_snapshot,
}
use proxmox_csi_plugin.Operator.Snapshots.Effects.{
  Admissible, copy_for, SnapshotEffect, Emits-report_snapshot, Emits-reconcile_snapshot_delete,
}

negated : {b : Bool} → not b ≡ false → b ≡ true
negated {b} h = ground (arith, h)

module _ (env : Env) (snap : SnapshotRecord) where
  -- The answer of the catalog, at some time of asking; no answer counts as a refusal.
  abbrev CopiesListed : Text → Text → Bool → Type 0
  CopiesListed region storage b =
      (t : Trace) × (copies_listed region storage (env.list_storages t) ≡ b)

  Ensures-check_storage :
      {P : Effect → Type 0} (region storage : Text)
      → Ensures P (CopiesListed region storage) (check_storage env region storage)
  unfolding check_storage
  Ensures-check_storage region storage = Ensures-ask _ (λ t. (t, refl))

  copies_of :
      (region storage : Text)
      → CopiesListed region storage true
      → (storages : List StorageRecord) × (t : Trace) × (env.list_storages t ≡ some storages)
        × (storage_copies region storage storages ≡ true)
  copies_of region storage k = answered (env.list_storages k.0) refl k.1
    where
      answered :
          (o : Option (List StorageRecord))
          → env.list_storages k.0 ≡ o
          → copies_listed region storage o ≡ true
          → (storages : List StorageRecord) × (t : Trace) × (env.list_storages t ≡ some storages)
            × (storage_copies region storage storages ≡ true)
      answered none e h = unfold copies_listed in cc h
      answered (some storages) e h = unfold copies_listed in (storages, k.0, e, h)

  module _ (live : snap.deleting ≡ false) (fresh : snap.ready_to_use ≡ false) where
    Emits-note :
        (requeue : Bool) (w : SnapshotRecord)
        → w.ready_to_use ≡ snap.ready_to_use
        → Emits (SnapshotEffect env snap) (report_snapshot env requeue none w)
    Emits-note requeue w h = Emits-report_snapshot env snap requeue none w (inl h)

    Ensures-hold_snapshot :
        (tenant : Tenant)
        → TenantListed env snap.namespace (some tenant)
        → Ensures
            (SnapshotEffect env snap)
            (λ w. w.ready_to_use ≡ snap.ready_to_use)
            (hold_snapshot env snap tenant)
    unfolding hold_snapshot
    Ensures-hold_snapshot tenant r =
        Ensures-if (snap.finalizer && text_eq snap.tenant_label tenant.name) _ _
          (λ e. Ensures-pure snap refl)
          (λ e.
            Ensures-bind (perform env (update_snapshot (held_snapshot snap tenant)))
              (held_or_fail (held_snapshot snap tenant))
              (Emits-perform env _ (inl (live, (tenant, r, refl)))) (λ b q. branch b))
      where
        branch :
            (b : Bool)
            → Ensures
                (SnapshotEffect env snap)
                (λ w. w.ready_to_use ≡ snap.ready_to_use)
                (held_or_fail (held_snapshot snap tenant) b)
        branch true = unfold held_or_fail in Ensures-pure (held_snapshot snap tenant) refl
        branch false = unfold held_or_fail in Ensures-exit (failed_by writing)

    Emits-copy_held :
        (vol : VolumeRecord) (tenant : Tenant) (src : Volume)
        → Admissible env snap vol tenant src
        → (held : SnapshotRecord) → held.ready_to_use ≡ snap.ready_to_use
        → Emits
            (SnapshotEffect env snap)
            (copy_held env vol src (snapshot_volume snap tenant src) held)
    unfolding copy_held copy_answered
    Emits-copy_held vol tenant src a held h =
        Ensures-bind (perform env (copy_for env snap vol tenant src))
          (copy_answered env held vol (snapshot_volume snap tenant src))
          (Ensures-perform env (copy_for env snap vol tenant src)
            (live, fresh, (vol, tenant, src, a, refl)))
          (λ b k. branch b k.0 k.1)
      where
        branch :
            (b : Bool) (t : Trace)
            → env.succeeds t (copy_for env snap vol tenant src) ≡ b
            → Emits
                (SnapshotEffect env snap)
                (copy_answered env held vol (snapshot_volume snap tenant src) b)
        branch true t e =
            Emits-report_snapshot env snap true none
              (complete_snapshot held vol (snapshot_volume snap tenant src))
              (inr (vol, tenant, src, t, a, e, refl, refl))
        branch false t e =
            Emits-report_snapshot env snap false (some proxmox)
              (partial_snapshot held (snapshot_volume snap tenant src)) (inl h)

    module _ (vol : VolumeRecord)
        (found : (t : Trace) × (env.get_volume t snap.namespace snap.source_volume_name ≡ some vol))
        (source_ready : is_ready vol.status.phase ≡ true) where
      Emits-snapshot_of_handle :
          (tenant : Tenant) (parsed : Result VolumeError Volume)
          → ((src : Volume) → parsed ≡ ok src → Admissible env snap vol tenant src)
          → TenantListed env snap.namespace (some tenant)
          → Emits (SnapshotEffect env snap) (snapshot_of_handle env snap vol tenant parsed)
      unfolding snapshot_of_handle
      Emits-snapshot_of_handle tenant (err e) a r =
          Emits-note false (snap_ready false invalid_spec snap) refl
      Emits-snapshot_of_handle tenant (ok src) a r =
          Ensures-bind (hold_snapshot env snap tenant)
            (copy_held env vol src (snapshot_volume snap tenant src))
            (Ensures-hold_snapshot tenant r)
            (λ held h. Emits-copy_held vol tenant src (a src refl) held h)

      Emits-snapshot_for :
          (tenant : Option Tenant)
          → TenantListed env snap.namespace tenant
          → Emits (SnapshotEffect env snap) (snapshot_for env snap vol tenant)
      unfolding snapshot_for
      Emits-snapshot_for none r = Emits-note false (snap_admitted false tenant_unknown snap) refl
      Emits-snapshot_for (some tenant) r =
          Ensures-if (not (acts tenant.mode)) _ _
            (λ e. Emits-note false (snap_admitted false tenant_observe_only snap) refl)
            (λ acting.
              Ensures-if (not (contains_text tenant.allowed_storages vol.spec.storage)) _ _
                (λ e. Emits-note false (snap_admitted false storage_not_allowed snap) refl)
                (λ allowed.
                  Ensures-bind (check_storage env vol.spec.region vol.spec.storage)
                    (snapshot_on env snap vol tenant)
                    (Ensures-check_storage vol.spec.region vol.spec.storage)
                    (λ b k. on_storage b (negated acting) (negated allowed) k)))
        where
          on_storage :
              (b : Bool)
              → acts tenant.mode ≡ true
              → contains_text tenant.allowed_storages vol.spec.storage ≡ true
              → CopiesListed vol.spec.region vol.spec.storage b
              → Emits (SnapshotEffect env snap) (snapshot_on env snap vol tenant b)
          on_storage false acting allowed k =
              unfold snapshot_on in Emits-note false (snap_admitted false invalid_spec snap) refl
          on_storage true acting allowed k =
              unfold snapshot_on in
              Emits-snapshot_of_handle tenant (parse_volume_id vol.status.volume_id)
                (λ src p. record {
                  found = found;
                  source_ready = source_ready;
                  registered = r;
                  acting = acting;
                  allowed = allowed;
                  copies = copies_of vol.spec.region vol.spec.storage k;
                  parsed = p;
                })
                r

    Emits-snapshot_of :
        (found : Option VolumeRecord)
        → (t : Trace) × (env.get_volume t snap.namespace snap.source_volume_name ≡ found)
        → Emits (SnapshotEffect env snap) (snapshot_of env snap found)
    unfolding snapshot_of
    Emits-snapshot_of none k = Emits-note false (snap_admitted false source_not_found snap) refl
    Emits-snapshot_of (some vol) k =
        Ensures-if (not (is_ready vol.status.phase)) _ _
          (λ e. Emits-note true (snap_ready false reconciling snap) refl)
          (λ e.
            Ensures-bind (ask_or_fail listing env.list_tenants)
              (λ ts. snapshot_for env snap vol (admitted_tenant snap.namespace ts))
              (Ensures-ask_or_fail listing env.list_tenants)
              (λ ts l.
                Emits-snapshot_for vol k (negated e) (admitted_tenant snap.namespace ts)
                  (ts, l.0, l.1, refl)))

  Emits-reconcile_create :
      snap.deleting ≡ false → Emits (SnapshotEffect env snap) (reconcile_create env snap)
  unfolding reconcile_create
  Emits-reconcile_create live =
      Ensures-if snap.ready_to_use _ _ (λ e. Ensures-exit requeued)
        (λ fresh.
          Ensures-bind (ask (λ t. env.get_volume t snap.namespace snap.source_volume_name))
            (snapshot_of env snap)
            (Ensures-ask
              {Q = λ o. (t : Trace) × (env.get_volume t snap.namespace snap.source_volume_name ≡ o)}
              _ (λ t. (t, refl)))
            (λ found k. Emits-snapshot_of live fresh found k))

  -- A reconcile of a snapshot copies a disk only for a record that is not deleted and not complete,
  -- and then the disk of a source that is ready, for a registration of the namespace that is admitted
  -- and in a mode that acts, on a storage that the registration allows and that the catalog lists as
  -- one that copies. It says that a snapshot is ready only after Proxmox made the copy that the record
  -- then names, or if it was ready. It deletes a disk only for a record that is deleted, and the one
  -- that the record names, and takes the finalizer off, which is all that it then changes, only after
  -- that, or if the record names no disk or one that does not parse, or if the message of the error
  -- reads as that there is no such disk.
  pub reconcile_snapshot_safe : Emits (SnapshotEffect env snap) (reconcile_snapshot env snap)
  unfolding reconcile_snapshot
  reconcile_snapshot_safe =
      Ensures-if snap.deleting _ _ (λ e. Emits-reconcile_snapshot_delete env snap e)
        Emits-reconcile_create
