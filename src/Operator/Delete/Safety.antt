-- ===== src/Operator/Delete/Safety.antt =====
-- The effects that a deletion may have, for pkg/operator/controller/volume/reconciler.go.
use proxmox_csi_plugin.Prelude.{
  ◌≡◌, refl, Bool, true, false, not, ◌&&◌, List, none, some, ◌⊎◌, inl, inr, if◌then◌else◌, arith,
}
use proxmox_csi_plugin.Text.{is_empty}
use proxmox_csi_plugin.Operator.Types.{
  reconciling, proxmox_error, deleting, VolumeRecord, Attachment, Tenant,
}
use proxmox_csi_plugin.Operator.Action.{
  Env, Effect, write_volume_status, update_volume, delete_disk, Trace, listing, writing, proxmox,
  finished, failed_by, exit, ask_or_fail, perform,
}
use proxmox_csi_plugin.Operator.Action.Rules.{
  Emits, Ensures-exit, Ensures-if, Ensures-ask_or_fail, Ensures-perform, Emits-perform,
  Ensures-bind,
}
use proxmox_csi_plugin.Operator.Tenancy.{admitted_tenant}
use proxmox_csi_plugin.Operator.Record.Rules.{Ensures-report}
use proxmox_csi_plugin.Operator.Delete.{
  release_volume, deleting_with, referenced, deleted, delete_unreferenced, delete_listed,
  delete_provisioned, decommissions, delete_in_mode, release_in_mode, reconcile_delete,
}

module _ (env : Env) (writer : Bool) (vol : VolumeRecord) where
  -- The operator made the disk, and can delete it.
  abbrev pub IsOwn : Type 0
  IsOwn = (vol.status.adopted ≡ false) × (vol.spec.adopt ≡ false) × (writer ≡ true)

  -- The attachments of the namespace, at some time of asking, do not name the volume.
  abbrev pub Unreferenced : Type 0
  Unreferenced =
      (attachments : List Attachment) × (t : Trace) × (env.list_attachments t vol.namespace
        ≡ some attachments)
      × (referenced vol.name attachments ≡ false)

  abbrev pub deletion : Effect
  deletion = delete_disk vol.spec.region vol.spec.zone vol.spec.storage vol.status.disk_name

  -- The disk of the record is gone: it has none, or Proxmox deleted it.
  abbrev pub IsGone : Type 0
  IsGone = (is_empty vol.status.disk_name ≡ true) ⊎ ((t : Trace) × (env.succeeds t deletion ≡ true))

  -- The record is released as it is: it is of an adopted volume, or there is no writer, and no tenant is
  -- decommissioned.
  abbrev pub IsLeft : Type 0
  IsLeft =
      ((not vol.status.adopted && not vol.spec.adopt && writer) ≡ false)
      × ((ts : List Tenant) × (t : Trace) × (env.list_tenants t ≡ some ts)
          × (decommissions (admitted_tenant vol.namespace ts) ≡ false))

  -- The effects that a deletion may have.
  abbrev pub DeleteEffect : Effect → Type 0
  DeleteEffect (delete_disk region zone storage disk) =
      IsOwn
      × Unreferenced
      × (is_empty vol.status.disk_name ≡ false)
      × (delete_disk region zone storage disk ≡ deletion)
  DeleteEffect (update_volume w) =
      (w ≡ record vol { finalizer = false }) × ((IsOwn × Unreferenced × IsGone) ⊎ IsLeft)
  DeleteEffect (write_volume_status w) =
      (w.finalizer ≡ vol.finalizer)
      × (w.status.disk_name ≡ vol.status.disk_name)
      × (w.status.phase ≡ deleting)
  DeleteEffect e = ⊥

  Emits-release_volume :
      (IsOwn × Unreferenced × IsGone) ⊎ IsLeft → Emits DeleteEffect (release_volume env vol)
  unfolding release_volume
  Emits-release_volume h =
      Ensures-bind (perform env (update_volume (record vol { finalizer = false })))
        (λ updated. if updated then exit finished else exit (failed_by writing))
        (Emits-perform env _ (refl, h))
        (λ updated q.
          Ensures-if updated _ _ (λ e. Ensures-exit finished)
            (λ e. Ensures-exit (failed_by writing)))

  module _ (own : IsOwn) where
    Emits-delete_unreferenced : Unreferenced → Emits DeleteEffect (delete_unreferenced env vol)
    unfolding delete_unreferenced deleted
    Emits-delete_unreferenced u =
        Ensures-if (is_empty vol.status.disk_name) _ _
          (λ none_left. Emits-release_volume (inl (own, u, inl none_left)))
          (λ e.
            Ensures-bind (perform env deletion) (deleted env vol)
              (Ensures-perform env deletion (own, u, e, refl)) (λ b k. branch b k.0 k.1))
      where
        branch :
            (b : Bool) (t : Trace)
            → env.succeeds t deletion ≡ b
            → Emits DeleteEffect (deleted env vol b)
        branch true t e = Emits-release_volume (inl (own, u, inr (t, e)))
        branch false t e =
            Ensures-report env true (some proxmox) (deleting_with proxmox_error vol)
              (refl, refl, refl)

    Emits-delete_provisioned : Emits DeleteEffect (delete_provisioned env vol)
    unfolding delete_provisioned delete_listed
    Emits-delete_provisioned =
        Ensures-bind (ask_or_fail listing (λ t. env.list_attachments t vol.namespace))
          (delete_listed env vol)
          (Ensures-ask_or_fail listing (λ t. env.list_attachments t vol.namespace))
          (λ attachments k.
            Ensures-if (referenced vol.name attachments) _ _
              (λ e. Ensures-report env true none (deleting_with reconciling vol) (refl, refl, refl))
              (λ e. Emits-delete_unreferenced (attachments, k.0, k.1, e)))

  IsOwn-of : (not vol.status.adopted && not vol.spec.adopt && writer) ≡ true → IsOwn
  IsOwn-of e = (ground (arith, e), ground (arith, e), ground (arith, e))

  -- A deletion destroys a disk only if the record is of a provisioned volume, the reconciler has a
  -- writer, and the attachments listed in the namespace do not name the volume; and then the disk that
  -- the record names. It removes the finalizer, which is all that it changes of the record, only after
  -- that, or if such a record names no disk, or, whatever disk there is, if the volume is adopted or is
  -- to be adopted or the reconciler has no writer, and the first admitted registration of the namespace,
  -- if any, is not in mode Decommission. A status that it writes says
  -- that the record is being deleted.
  pub reconcile_delete_safe : Emits DeleteEffect (reconcile_delete env writer vol)
  unfolding reconcile_delete delete_in_mode release_in_mode
  reconcile_delete_safe =
      Ensures-if (not vol.finalizer) _ _ (λ e. Ensures-exit finished)
        (λ e.
          Ensures-if (not vol.status.adopted && not vol.spec.adopt && writer) _ _
            (λ own.
              Ensures-bind (ask_or_fail listing env.list_tenants)
                (λ ts. delete_in_mode env vol (admitted_tenant vol.namespace ts))
                (Ensures-ask_or_fail listing env.list_tenants)
                (λ ts k.
                  Ensures-if (decommissions (admitted_tenant vol.namespace ts)) _ _
                    (λ d. Emits-delete_provisioned (IsOwn-of own))
                    (λ d. Emits-delete_provisioned (IsOwn-of own))))
            (λ other.
              Ensures-bind (ask_or_fail listing env.list_tenants)
                (λ ts. release_in_mode env vol (admitted_tenant vol.namespace ts))
                (Ensures-ask_or_fail listing env.list_tenants)
                (λ ts k.
                  Ensures-if (decommissions (admitted_tenant vol.namespace ts)) _ _
                    (λ d.
                      Ensures-report env true none (deleting_with reconciling vol)
                        (refl, refl, refl))
                    (λ d. Emits-release_volume (inr (other, (ts, k.0, k.1, d)))))))
