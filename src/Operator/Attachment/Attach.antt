-- ===== src/Operator/Attachment/Attach.antt =====
-- `reconcileAttach` of pkg/operator/controller/attachment/reconciler.go. The options of the drive are
-- a parameter: `diskOptions` computes them from the record of the volume.
pub mod Effects
pub mod Safety
pub mod Complete
use proxmox_csi_plugin.Prelude.{
  ℕ, Bool, true, false, not, ◌&&◌, ◌||◌, Option, none, some, Result, ok, err, if◌then◌else◌,
  contains_number,
}
use proxmox_csi_plugin.Text.{Text, text_eq, is_empty, itoa}
use proxmox_csi_plugin.Volume.{Volume, VolumeError, parse_volume_id, vmid}
use proxmox_csi_plugin.Operator.Types.{
  accepted, vmid_not_owned, parameter_rejected, tenant_unknown, tenant_observe_only, invalid_spec,
  volume_id_mismatch, proxmox_error, reconciling, VolumeRecord, Attachment, Tenant, AttachResult,
}
use proxmox_csi_plugin.Operator.Action.{
  Options, Env, Effect, write_volume_status, attach_disk, rename_disk, Action, requeued, pure, exit,
  ask, perform, call, ◌>>=◌,
}
use proxmox_csi_plugin.Operator.Phase.{is_ready, acts}
use proxmox_csi_plugin.Operator.Attachment.{
  att_admitted, att_ready, report_attachment, hold_attachment, tenant_of,
}

abbrev pub attached_as : Attachment → AttachResult → Attachment
attached_as att result = record att {
  status = att_ready true accepted (
      att_admitted true accepted (record (att.status) {
        attached = true;
        device_path = result.device_path;
        lun = itoa result.lun;
        observed_generation = att.generation;
      }));
}

abbrev pub renamed_to : VolumeRecord → Volume → ℕ → VolumeRecord
renamed_to vol renamed owner = record vol {
  status = record (vol.status) { disk_name = renamed.disk; owner_vmid = owner };
}

abbrev pub DiskOptions : Type 0
DiskOptions = VolumeRecord → Bool → Option Options

-- The name to attach under, and the record of the volume: a rename that fails is not an error, nor
-- is a failure to write the new name.
after_rename :
    Env → Attachment → VolumeRecord → Volume → Option Volume → Action (VolumeRecord × Volume)
after_rename env att vol handle none = pure (vol, handle)
after_rename env att vol handle (some renamed) = do
  written ← perform env (write_volume_status (renamed_to vol renamed att.spec.vmid))
  pure (renamed_to vol renamed att.spec.vmid, renamed)

reassign_on_attach :
    Env → Bool → Attachment → VolumeRecord → Volume → Action (VolumeRecord × Volume)
unfolding after_rename
reassign_on_attach env reassign att vol handle =
    if reassign && not (is_empty handle.zone) && not (text_eq (vmid handle) (itoa att.spec.vmid))
    then (do
      renamed ←
          call (rename_disk handle.region handle att.spec.vmid)
            (λ t. env.renamed t handle.region handle att.spec.vmid)
      after_rename env att vol handle renamed)
    else pure (vol, handle)

attach_answered : Env → Attachment → Option AttachResult → Action (Unit {0})
attach_answered env att none =
    report_attachment env true none
      (record att { status = att_ready false proxmox_error att.status })
attach_answered env att (some result) = report_attachment env true none (attached_as att result)

attach_with : Env → Attachment → (region : Text) → Volume → Option Options → Action (Unit {0})
unfolding attach_answered
attach_with env att region volume none =
    report_attachment env false none
      (record att { status = att_ready false parameter_rejected att.status })
attach_with env att region volume (some options) = do
  result ←
      call (attach_disk region att.spec.vmid volume options)
        (λ t. env.attach_result t region att.spec.vmid volume options)
  attach_answered env att result

attach_handle :
    Env
    → Bool
    → DiskOptions
    → Attachment
    → VolumeRecord
    → Result VolumeError Volume
    → Action (Unit {0})
unfolding reassign_on_attach attach_with
attach_handle env reassign disk_options att vol (err e) =
    report_attachment env false none
      (record att { status = att_ready false invalid_spec att.status })
attach_handle env reassign disk_options att vol (ok handle) = do
  current ← reassign_on_attach env reassign att vol handle
  attach_with env att handle.region current.1 (disk_options current.0 att.spec.readonly)

attach_for :
    Env → Bool → DiskOptions → Attachment → VolumeRecord → Option Tenant → Action (Unit {0})
unfolding attach_handle
attach_for env reassign disk_options att vol none =
    report_attachment env false none
      (record att { status = att_admitted false tenant_unknown att.status })
attach_for env reassign disk_options att vol (some tenant) =
    if not (acts tenant.mode)
    then report_attachment env false none
        (record att { status = att_admitted false tenant_observe_only att.status })
    else if not (contains_number tenant.resolved_vmids att.spec.vmid)
    then report_attachment env false none
        (record att { status = att_admitted false vmid_not_owned att.status })
    else do
      held ← hold_attachment env att tenant
      attach_handle env reassign disk_options held vol (parse_volume_id vol.status.volume_id)

attach_volume : Env → Bool → DiskOptions → Attachment → Option VolumeRecord → Action (Unit {0})
unfolding attach_for
attach_volume env reassign disk_options att none =
    report_attachment env false none
      (record att { status = att_ready false invalid_spec att.status })
attach_volume env reassign disk_options att (some vol) =
    if not (text_eq vol.status.volume_id att.spec.volume_id)
    then report_attachment env false none
        (record att { status = att_admitted false volume_id_mismatch att.status })
    else if not (is_ready vol.status.phase)
    then report_attachment env true none
        (record att { status = att_ready false reconciling att.status })
    else do
      tenant ← tenant_of env att.namespace
      attach_for env reassign disk_options att vol tenant

-- `reconcileAttach`
unfoldable pub reconcile_attach : Env → Bool → DiskOptions → Attachment → Action (Unit {0})
unfolding attach_volume
reconcile_attach env reassign disk_options att = if att.status.attached then exit requeued else do
  vol ← ask (λ t. env.get_volume t att.namespace att.spec.volume_name)
  attach_volume env reassign disk_options att vol
