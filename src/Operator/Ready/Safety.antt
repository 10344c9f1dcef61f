-- ===== src/Operator/Ready/Safety.antt =====
-- The effects that the reconcile of a ready record may have, for
-- pkg/operator/controller/volume/provision.go.
use proxmox_csi_plugin.Prelude.{
  ℕ, ◌<◌, ◌/◌, ◌≡◌, refl, Bool, true, false, not, ◌&&◌, List, ◌++◌, Option, none, some, Result, ok,
  err, ◌⊎◌, inl, inr, ltb, ltb→lt, arith,
}
use proxmox_csi_plugin.Text.{Text, codes, text_eq}
use proxmox_csi_plugin.Volume.{Volume, VolumeError, parse_volume_id}
use proxmox_csi_plugin.Sizes.{mib, disk_size}
use proxmox_csi_plugin.Operator.Types.{
  invalid_spec, parameter_rejected, proxmox_error, VolumeRecord, VolumeStatus, Attachment,
}
use proxmox_csi_plugin.Operator.Action.{
  Options, Env, Effect, resize_disk, update_disk, write_volume_status, update_volume, Trace,
  listing, writing, proxmox, requeued, failed_by, ask_or_fail, perform,
}
use proxmox_csi_plugin.Operator.Action.Rules.{
  Emits, Ensures-exit, Ensures-if, Ensures-ask_or_fail, Ensures-perform, Emits-perform,
  Ensures-bind,
}
use proxmox_csi_plugin.Operator.Record.{report, set_ready}
use proxmox_csi_plugin.Operator.Record.Rules.{Ensures-report}
use proxmox_csi_plugin.Operator.Ready.{
  Modify, no_parameters, attached_of, expanded, expand_answered, expand_attached, expand_handle,
  reconcile_expand, recorded, record_applied_params, modify_answered, modify_options, modify_handle,
  modify_attached, reconcile_modify, reconcile_ready_volume,
}

module _ (env : Env) (modify : Modify) (vol : VolumeRecord) where
  -- The size that the record asks for, in whole chunks.
  abbrev pub wanted : ℕ
  wanted = disk_size vol.spec.capacity_bytes

  -- What the search for an attachment that is attached answers, at some time of asking.
  abbrev pub AttachedAnswer : Option Attachment → Type 0
  AttachedAnswer found =
      (attachments : List Attachment) × (t : Trace) × (env.list_attachments t vol.namespace
        ≡ some attachments)
      × (attached_of vol.name attachments ≡ found)

  -- The disk is attached to the VM of the attachment, and the handle of the record is the volume.
  abbrev pub IsOnVm : Attachment → Volume → Type 0
  IsOnVm att volume = AttachedAnswer (some att) × (parse_volume_id vol.status.volume_id ≡ ok volume)

  abbrev pub resize : Attachment → Volume → Effect
  resize att volume =
      resize_disk volume.region att.spec.vmid volume.zone (codes "scsi" ++ att.status.lun)
        (wanted / mib)

  -- The size of the record grew with a call of Proxmox that succeeded.
  abbrev pub Grown : VolumeRecord → Type 0
  Grown w =
      (vol.status.capacity_bytes < wanted)
      × (w.status.capacity_bytes ≡ wanted)
      × ((att : Attachment) × (volume : Volume) × IsOnVm att volume
          × ((t : Trace) × (env.succeeds t (resize att volume) ≡ true)))

  -- The mutable parameters differ from those that were applied.
  abbrev pub IsChanged : Type 0
  IsChanged = text_eq (modify.hash vol.spec.mutable_parameters) vol.applied_params ≡ false

  abbrev pub update : Attachment → Volume → Options → Effect
  update att volume options = update_disk volume.region att.spec.vmid volume options

  -- The options need no change of a running VM, or were changed by a call that succeeded.
  abbrev pub Applied : Type 0
  Applied =
      AttachedAnswer none
      ⊎ ((att : Attachment) × (volume : Volume) × (options : Options) × IsOnVm att volume
          × (modify.options vol.spec.mutable_parameters ≡ some options)
          × ((t : Trace) × (env.succeeds t (update att volume options) ≡ true)))

  -- The effects that the reconcile of a ready record may have.
  abbrev pub ReadyEffect : Effect → Type 0
  ReadyEffect (resize_disk region vm zone device size) =
      (vol.status.capacity_bytes < wanted)
      × ((att : Attachment) × (volume : Volume) × IsOnVm att volume
          × (resize_disk region vm zone device size ≡ resize att volume))
  ReadyEffect (update_disk region vm volume options) =
      IsChanged
      × ((att : Attachment) × IsOnVm att volume
          × (modify.options vol.spec.mutable_parameters ≡ some options)
          × (update_disk region vm volume options ≡ update att volume options))
  ReadyEffect (write_volume_status w) =
      (w.status.volume_id ≡ vol.status.volume_id)
      × ((w.status.capacity_bytes ≡ vol.status.capacity_bytes) ⊎ Grown w)
  ReadyEffect (update_volume w) =
      (w ≡ record vol { applied_params = modify.hash vol.spec.mutable_parameters })
      × IsChanged
      × Applied
  ReadyEffect e = ⊥

  unchanged :
      (requeue : Bool) (cause : _) (s : VolumeStatus)
      → s.volume_id ≡ vol.status.volume_id
      → s.capacity_bytes ≡ vol.status.capacity_bytes
      → Emits ReadyEffect (report env requeue cause (record vol { status = s }))
  unchanged requeue cause s i c =
      Ensures-report env requeue cause (record vol { status = s }) (i, inl c)

  module _ (grows : vol.status.capacity_bytes < wanted) where
    Emits-expand_answered :
        (att : Attachment) (volume : Volume) (b : Bool) (t : Trace)
        → IsOnVm att volume
        → env.succeeds t (resize att volume) ≡ b
        → Emits ReadyEffect (expand_answered env vol wanted b)
    unfolding expand_answered
    Emits-expand_answered att volume false t on e =
        unchanged true (some proxmox) (set_ready false proxmox_error vol.status) refl refl
    Emits-expand_answered att volume true t on e =
        Ensures-report env true none (expanded vol wanted)
          (refl, inr (grows, refl, (att, volume, on, (t, e))))

    Emits-expand_attached :
        (volume : Volume) (found : Option Attachment)
        → AttachedAnswer found
        → parse_volume_id vol.status.volume_id ≡ ok volume
        → Emits ReadyEffect (expand_attached env vol wanted volume found)
    unfolding expand_attached
    Emits-expand_attached volume none k p = Ensures-exit requeued
    Emits-expand_attached volume (some att) k p =
        Ensures-bind (perform env (resize att volume)) (expand_answered env vol wanted)
          (Ensures-perform env (resize att volume) (grows, (att, volume, (k, p), refl)))
          (λ b q. Emits-expand_answered att volume b q.0 (k, p) q.1)

    Emits-expand_handle :
        (parsed : Result VolumeError Volume)
        → parse_volume_id vol.status.volume_id ≡ parsed
        → Emits ReadyEffect (expand_handle env vol wanted parsed)
    unfolding expand_handle
    Emits-expand_handle (err x) p =
        unchanged false none (set_ready false invalid_spec vol.status) refl refl
    Emits-expand_handle (ok volume) p =
        Ensures-bind (ask_or_fail listing (λ t. env.list_attachments t vol.namespace))
          (λ attachments. expand_attached env vol wanted volume (attached_of vol.name attachments))
          (Ensures-ask_or_fail listing (λ t. env.list_attachments t vol.namespace))
          (λ attachments k.
            Emits-expand_attached volume (attached_of vol.name attachments)
              (attachments, k.0, k.1, refl) p)

  module _ (changed : IsChanged) where
    abbrev hash : Text
    hash = modify.hash vol.spec.mutable_parameters

    Emits-record_applied_params : Applied → Emits ReadyEffect (record_applied_params env vol hash)
    unfolding record_applied_params recorded
    Emits-record_applied_params h =
        Ensures-bind (perform env (update_volume (record vol { applied_params = hash }))) recorded
          (Emits-perform env _ (refl, changed, h)) (λ b q. branch b)
      where
        branch : (b : Bool) → Emits ReadyEffect (recorded b)
        branch true = Ensures-exit requeued
        branch false = Ensures-exit (failed_by writing)

    module _ (att : Attachment) (volume : Volume) (on : IsOnVm att volume) where
      Emits-modify_answered :
          (options : Options) (b : Bool) (t : Trace)
          → modify.options vol.spec.mutable_parameters ≡ some options
          → env.succeeds t (update att volume options) ≡ b
          → Emits ReadyEffect (modify_answered env vol hash b)
      unfolding modify_answered
      Emits-modify_answered options false t o e =
          unchanged true (some proxmox) (set_ready false proxmox_error vol.status) refl refl
      Emits-modify_answered options true t o e =
          Emits-record_applied_params (inr (att, volume, options, on, o, (t, e)))

      Emits-modify_options :
          (options : Option Options)
          → modify.options vol.spec.mutable_parameters ≡ options
          → Emits ReadyEffect (modify_options env vol hash att volume options)
      unfolding modify_options
      Emits-modify_options none o =
          unchanged false none (set_ready false parameter_rejected vol.status) refl refl
      Emits-modify_options (some options) o =
          Ensures-bind (perform env (update att volume options)) (modify_answered env vol hash)
            (Ensures-perform env (update att volume options) (changed, (att, on, o, refl)))
            (λ b q. Emits-modify_answered options b q.0 o q.1)

    Emits-modify_attached :
        (found : Option Attachment)
        → AttachedAnswer found
        → Emits ReadyEffect
            (modify_attached env vol hash (modify.options vol.spec.mutable_parameters) found)
    unfolding modify_attached modify_handle
    Emits-modify_attached none k = Emits-record_applied_params (inl k)
    Emits-modify_attached (some att) k = handled (parse_volume_id vol.status.volume_id) refl
      where
        handled :
            (parsed : Result VolumeError Volume)
            → parse_volume_id vol.status.volume_id ≡ parsed
            → Emits ReadyEffect
                (modify_handle env vol hash att (modify.options vol.spec.mutable_parameters) parsed)
        handled (err x) p = unchanged false none (set_ready false invalid_spec vol.status) refl refl
        handled (ok volume) p =
            Emits-modify_options att volume (k, p) (modify.options vol.spec.mutable_parameters) refl

    Emits-reconcile_modify :
        Emits ReadyEffect
          (reconcile_modify env vol hash (modify.options vol.spec.mutable_parameters))
    unfolding reconcile_modify
    Emits-reconcile_modify =
        Ensures-bind (ask_or_fail listing (λ t. env.list_attachments t vol.namespace))
          (λ attachments.
            modify_attached env vol hash (modify.options vol.spec.mutable_parameters)
              (attached_of vol.name attachments))
          (Ensures-ask_or_fail listing (λ t. env.list_attachments t vol.namespace))
          (λ attachments k.
            Emits-modify_attached (attached_of vol.name attachments) (attachments, k.0, k.1, refl))

  differs : (a b : Bool) → (not a && not b) ≡ true → b ≡ false
  differs a b e = ground (arith, e)

  -- The reconcile of a ready record resizes a disk only to grow it, to the size that the record asks
  -- for in whole chunks, and changes its options only if the parameters differ from those applied; both
  -- on the VM of an attachment that names the record and that is attached. The record's size grows only
  -- with such a call that succeeded. The parameters are noted as applied only after such a call that
  -- succeeded, or if no attachment is attached.
  pub reconcile_ready_volume_safe : Emits ReadyEffect (reconcile_ready_volume env modify vol)
  unfolding reconcile_ready_volume reconcile_expand
  reconcile_ready_volume_safe =
      Ensures-if (ltb vol.status.capacity_bytes wanted) _ _
        (λ grows. Emits-expand_handle (ltb→lt vol.status.capacity_bytes wanted grows) _ refl)
        (λ e.
          Ensures-if
            (not (no_parameters vol.spec.mutable_parameters)
              && not (text_eq (modify.hash vol.spec.mutable_parameters) vol.applied_params))
            _ _ (λ d. Emits-reconcile_modify (differs _ _ d)) (λ d. Ensures-exit requeued))
