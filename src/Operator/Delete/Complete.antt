-- ===== src/Operator/Delete/Complete.antt =====
-- Runs of `reconcileDelete`, in pkg/operator/controller/volume/reconciler.go, where the API server and
-- Proxmox answer.
use proxmox_csi_plugin.Prelude.{
  ◌≡◌, ap, ap₂, ◌∙◌, Bool, true, false, not, ◌&&◌, List, ◌∷◌, none, some, if◌then◌else◌,
}
use proxmox_csi_plugin.Text.{is_empty}
use proxmox_csi_plugin.Operator.Types.{reconciling, VolumeRecord, Attachment, Tenant}
use proxmox_csi_plugin.Operator.Action.{
  Env, Effect, update_volume, delete_disk, Trace, return, listing, writing, finished, failed_by,
  exit, ask_or_fail, perform,
}
use proxmox_csi_plugin.Operator.Action.Runs.{
  bind_go, exit_return, ask_or_fail_go, if_true, if_false,
}
use proxmox_csi_plugin.Operator.Tenancy.{admitted_tenant}
use proxmox_csi_plugin.Operator.Record.{report}
use proxmox_csi_plugin.Operator.Record.Runs.{perform_works}
use proxmox_csi_plugin.Operator.Delete.{
  release_volume, deleting_with, referenced, deleted, delete_unreferenced, delete_listed,
  delete_provisioned, decommissions, delete_in_mode, reconcile_delete,
}

module _ (env : Env) (works : (t : Trace) (e : Effect) → env.succeeds t e ≡ true)
    (vol : VolumeRecord) where
  abbrev released : Effect
  released = update_volume (record vol { finalizer = false })

  abbrev deletion : Effect
  deletion = delete_disk vol.spec.region vol.spec.zone vol.spec.storage vol.status.disk_name

  release_volume_works : (t : Trace) → release_volume env vol t ≡ (return finished, released ∷ t)
  unfolding release_volume
  release_volume_works t =
      bind_go (perform env released) (λ b. if b then exit finished else exit (failed_by writing)) t
        (released ∷ t) true (perform_works env works released t)
      ∙ exit_return finished (released ∷ t)

  module _ (attachments : List Attachment)
      (listed : (t : Trace) → env.list_attachments t vol.namespace ≡ some attachments)
      (unreferenced : referenced vol.name attachments ≡ false)
      (named : is_empty vol.status.disk_name ≡ false) where
    delete_provisioned_works :
        (t : Trace) → delete_provisioned env vol t ≡ (return finished, released ∷ deletion ∷ t)
    unfolding delete_provisioned delete_listed delete_unreferenced deleted
    delete_provisioned_works t =
        bind_go (ask_or_fail listing (λ t. env.list_attachments t vol.namespace))
          (delete_listed env vol) t t attachments
          (ask_or_fail_go listing (λ t. env.list_attachments t vol.namespace) t attachments
            (listed t))
        ∙ if_false (referenced vol.name attachments)
            (report env true none (deleting_with reconciling vol)) _ t unreferenced
        ∙ if_false (is_empty vol.status.disk_name) (release_volume env vol) _ t named
        ∙ bind_go (perform env deletion) (deleted env vol) t (deletion ∷ t) true
            (perform_works env works deletion t)
        ∙ release_volume_works (deletion ∷ t)

    delete_in_mode_works :
        (b : Bool) (t : Trace)
        → (if b then delete_provisioned env vol else delete_provisioned env vol) t
          ≡ (return finished, released ∷ deletion ∷ t)
    delete_in_mode_works true t = delete_provisioned_works t
    delete_in_mode_works false t = delete_provisioned_works t

    -- A held record of a provisioned volume that no attachment names loses its disk and is then released,
    -- if the listings are answered and every call succeeds; whatever registrations are listed, that is in
    -- every mode of the namespace's registration, and also without one.
    pub reconcile_delete_works :
        (tenants : List Tenant)
        → ((t : Trace) → env.list_tenants t ≡ some tenants)
        → vol.finalizer ≡ true
        → vol.status.adopted ≡ false
        → vol.spec.adopt ≡ false
        → (t : Trace) → reconcile_delete env true vol t ≡ (return finished, released ∷ deletion ∷ t)
    unfolding reconcile_delete delete_in_mode
    reconcile_delete_works tenants known held made own t =
        if_false (not vol.finalizer) (exit finished) _ t (ap not held)
        ∙ if_true (not vol.status.adopted && not vol.spec.adopt && true) _ _ t
            (ap₂ (λ a b. not a && not b && true) made own)
        ∙ bind_go (ask_or_fail listing env.list_tenants)
            (λ ts. delete_in_mode env vol (admitted_tenant vol.namespace ts)) t t tenants
            (ask_or_fail_go listing env.list_tenants t tenants (known t))
        ∙ delete_in_mode_works (decommissions (admitted_tenant vol.namespace tenants)) t
