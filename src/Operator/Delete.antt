-- ===== src/Operator/Delete.antt =====
-- `reconcileDelete` of pkg/operator/controller/volume/reconciler.go, and `reconcileDeleteProvisioned`
-- of pkg/operator/controller/volume/provision.go, with `Reconcile`, of a record that was read.
pub mod Safety
pub mod Complete
use proxmox_csi_plugin.Prelude.{
  Bool, true, false, not, ◌&&◌, List, [], ◌∷◌, Option, none, some, if◌then◌else◌,
}
use proxmox_csi_plugin.Text.{Text, text_eq, is_empty}
use proxmox_csi_plugin.Operator.Types.{
  Reason, reconciling, proxmox_error, VolumePhase, deleting, TenantMode, decommission, VolumeRecord,
  VolumeStatus, Attachment, Tenant,
}
use proxmox_csi_plugin.Operator.Action.{
  Env, Effect, update_volume, delete_disk, Action, listing, writing, proxmox, finished, failed_by,
  exit, ask_or_fail, perform, ◌>>=◌,
}
use proxmox_csi_plugin.Operator.Phase.{is_decommission}
use proxmox_csi_plugin.Operator.Tenancy.{admitted_tenant}
use proxmox_csi_plugin.Operator.Record.{set_ready, report}
use proxmox_csi_plugin.Operator.Adopt.{reconcile_adopt}
use proxmox_csi_plugin.Operator.Ready.{Modify}
use proxmox_csi_plugin.Operator.Provision.{reconcile_provision}

-- The release: the finalizer is removed, and an error of the update is the reconcile's.
unfoldable pub release_volume : Env → VolumeRecord → Action (Unit {0})
release_volume env vol = do
  updated ← perform env (update_volume (record vol { finalizer = false }))
  if updated then exit finished else exit (failed_by writing)

abbrev pub deleting_with : Reason → VolumeRecord → VolumeRecord
deleting_with reason vol = record vol {
  status = record (set_ready false reason vol.status) { phase = deleting };
}

-- The loop that looks for an attachment that names the volume.
unfoldable pub referenced : Text → List Attachment → Bool
referenced name [] = false
referenced name (a ∷ attachments) =
    if text_eq a.spec.volume_name name then true else referenced name attachments

deleted : Env → VolumeRecord → Bool → Action (Unit {0})
deleted env vol true = release_volume env vol
deleted env vol false = report env true (some proxmox) (deleting_with proxmox_error vol)

delete_unreferenced : Env → VolumeRecord → Action (Unit {0})
unfolding deleted
delete_unreferenced env vol = if is_empty vol.status.disk_name then release_volume env vol else do
  done ←
      perform env (delete_disk vol.spec.region vol.spec.zone vol.spec.storage vol.status.disk_name)
  deleted env vol done

delete_listed : Env → VolumeRecord → List Attachment → Action (Unit {0})
unfolding delete_unreferenced
delete_listed env vol attachments =
    if referenced vol.name attachments
    then report env true none (deleting_with reconciling vol)
    else delete_unreferenced env vol

-- `reconcileDeleteProvisioned`
unfoldable pub delete_provisioned : Env → VolumeRecord → Action (Unit {0})
unfolding delete_listed
delete_provisioned env vol = do
  attachments ← ask_or_fail listing (λ t. env.list_attachments t vol.namespace)
  delete_listed env vol attachments

abbrev pub decommissions : Option Tenant → Bool
decommissions none = false
decommissions (some tenant) = is_decommission tenant.mode

-- Both branches of the source: the mode of the tenant makes no difference.
delete_in_mode : Env → VolumeRecord → Option Tenant → Action (Unit {0})
delete_in_mode env vol tenant =
    if decommissions tenant then delete_provisioned env vol else delete_provisioned env vol

release_in_mode : Env → VolumeRecord → Option Tenant → Action (Unit {0})
release_in_mode env vol tenant =
    if decommissions tenant
    then report env true none (deleting_with reconciling vol)
    else release_volume env vol

-- `reconcileDelete`; `writer` is whether the reconciler has one.
unfoldable pub reconcile_delete : Env → (writer : Bool) → VolumeRecord → Action (Unit {0})
unfolding delete_in_mode release_in_mode
reconcile_delete env writer vol =
    if not vol.finalizer
    then exit finished
    else if not vol.status.adopted && not vol.spec.adopt && writer
    then (do
      tenants ← ask_or_fail listing env.list_tenants
      delete_in_mode env vol (admitted_tenant vol.namespace tenants))
    else do
      tenants ← ask_or_fail listing env.list_tenants
      release_in_mode env vol (admitted_tenant vol.namespace tenants)

-- `Reconcile`
unfoldable pub reconcile_volume : Env → Modify → (writer : Bool) → VolumeRecord → Action (Unit {0})
reconcile_volume env modify writer vol =
    if vol.deleting
    then reconcile_delete env writer vol
    else if not vol.spec.adopt
    then reconcile_provision env modify vol
    else reconcile_adopt env vol
