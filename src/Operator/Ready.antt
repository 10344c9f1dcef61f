-- ===== src/Operator/Ready.antt =====
-- `reconcileReadyVolume`, `reconcileExpand`, `reconcileModify` and `recordAppliedParams` of
-- pkg/operator/controller/volume/provision.go. `MutableParamsHash`, and the options that
-- `ExtractModifyVolumeParameters` and `ToCFG` make of the mutable parameters, are parameters.
pub mod Safety
use proxmox_csi_plugin.Prelude.{
  ℕ, ◌/◌, Bool, true, false, not, ◌&&◌, List, [], ◌∷◌, ◌++◌, Option, none, some, Result, ok, err,
  ltb, if◌then◌else◌,
}
use proxmox_csi_plugin.Text.{Text, codes, text_eq}
use proxmox_csi_plugin.Volume.{Volume, VolumeError, parse_volume_id}
use proxmox_csi_plugin.Sizes.{mib, disk_size}
use proxmox_csi_plugin.Operator.Types.{
  accepted, invalid_spec, parameter_rejected, proxmox_error, VolumeRecord, Attachment,
}
use proxmox_csi_plugin.Operator.Action.{
  Options, Env, resize_disk, update_disk, update_volume, Action, listing, writing, proxmox,
  requeued, failed_by, exit, ask_or_fail, perform, ◌>>=◌,
}
use proxmox_csi_plugin.Operator.Record.{set_ready, report}

-- The loop that looks for an attachment of the volume that is attached.
unfoldable pub attached_of : Text → List Attachment → Option Attachment
attached_of name [] = none
attached_of name (a ∷ attachments) =
    if text_eq a.spec.volume_name name && a.status.attached
    then some a
    else attached_of name attachments

abbrev pub expanded : VolumeRecord → ℕ → VolumeRecord
expanded vol size = record vol {
  status = set_ready true accepted (record (vol.status) { capacity_bytes = size });
}

expand_answered : Env → VolumeRecord → ℕ → Bool → Action (Unit {0})
expand_answered env vol size false =
    report env true (some proxmox)
      (record vol { status = set_ready false proxmox_error vol.status })
expand_answered env vol size true = report env true none (expanded vol size)

expand_attached : Env → VolumeRecord → ℕ → Volume → Option Attachment → Action (Unit {0})
unfolding expand_answered
expand_attached env vol size volume none = exit requeued
expand_attached env vol size volume (some att) = do
  resized ← perform env (
      resize_disk volume.region att.spec.vmid volume.zone (codes "scsi" ++ att.status.lun)
        (size / mib))
  expand_answered env vol size resized

expand_handle : Env → VolumeRecord → ℕ → Result VolumeError Volume → Action (Unit {0})
unfolding expand_attached
expand_handle env vol size (err e) =
    report env false none (record vol { status = set_ready false invalid_spec vol.status })
expand_handle env vol size (ok volume) = do
  attachments ← ask_or_fail listing (λ t. env.list_attachments t vol.namespace)
  expand_attached env vol size volume (attached_of vol.name attachments)

-- `reconcileExpand`
unfoldable pub reconcile_expand : Env → VolumeRecord → ℕ → Action (Unit {0})
unfolding expand_handle
reconcile_expand env vol size = expand_handle env vol size (parse_volume_id vol.status.volume_id)

recorded : Bool → Action (Unit {0})
recorded true = exit requeued
recorded false = exit (failed_by writing)

-- `recordAppliedParams`
unfoldable pub record_applied_params : Env → VolumeRecord → Text → Action (Unit {0})
unfolding recorded
record_applied_params env vol hash = do
  updated ← perform env (update_volume (record vol { applied_params = hash }))
  recorded updated

modify_answered : Env → VolumeRecord → Text → Bool → Action (Unit {0})
modify_answered env vol hash false =
    report env true (some proxmox)
      (record vol { status = set_ready false proxmox_error vol.status })
modify_answered env vol hash true = record_applied_params env vol hash

modify_options :
    Env → VolumeRecord → Text → Attachment → Volume → Option Options → Action (Unit {0})
unfolding modify_answered
modify_options env vol hash att volume none =
    report env false none (record vol { status = set_ready false parameter_rejected vol.status })
modify_options env vol hash att volume (some options) = do
  updated ← perform env (update_disk volume.region att.spec.vmid volume options)
  modify_answered env vol hash updated

modify_handle :
    Env
    → VolumeRecord
    → Text
    → Attachment
    → Option Options
    → Result VolumeError Volume
    → Action (Unit {0})
unfolding modify_options
modify_handle env vol hash att options (err e) =
    report env false none (record vol { status = set_ready false invalid_spec vol.status })
modify_handle env vol hash att options (ok volume) = modify_options env vol hash att volume options

modify_attached : Env → VolumeRecord → Text → Option Options → Option Attachment → Action (Unit {0})
unfolding modify_handle
modify_attached env vol hash options none = record_applied_params env vol hash
modify_attached env vol hash options (some att) =
    modify_handle env vol hash att options (parse_volume_id vol.status.volume_id)

-- `reconcileModify`
unfoldable pub reconcile_modify : Env → VolumeRecord → Text → Option Options → Action (Unit {0})
unfolding modify_attached
reconcile_modify env vol hash options = do
  attachments ← ask_or_fail listing (λ t. env.list_attachments t vol.namespace)
  modify_attached env vol hash options (attached_of vol.name attachments)

-- What the code reads of the mutable parameters: their hash, and the options of the drive, if they are
-- valid.
pub record Modify : Type 0 where
  pub hash : List (Text × Text) → Text
  pub options : List (Text × Text) → Option Options

abbrev pub no_parameters : List (Text × Text) → Bool
no_parameters [] = true
no_parameters (p ∷ ps) = false

-- `reconcileReadyVolume`
unfoldable pub reconcile_ready_volume : Env → Modify → VolumeRecord → Action (Unit {0})
reconcile_ready_volume env modify vol =
    let size = disk_size vol.spec.capacity_bytes in
    let parameters = vol.spec.mutable_parameters in
    if ltb vol.status.capacity_bytes size
    then reconcile_expand env vol size
    else if not (no_parameters parameters)
        && not (text_eq (modify.hash parameters) vol.applied_params)
    then reconcile_modify env vol (modify.hash parameters) (modify.options parameters)
    else exit requeued
