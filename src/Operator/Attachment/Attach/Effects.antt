-- ===== src/Operator/Attachment/Attach/Effects.antt =====
-- The effects that an attach may have, for pkg/operator/controller/attachment/reconciler.go.
use proxmox_csi_plugin.Prelude.{ℕ, ◌≡◌, Bool, true, false, some, ok, ◌⊎◌, contains_number}
use proxmox_csi_plugin.Text.{Text, text_eq, itoa}
use proxmox_csi_plugin.Volume.{Volume, parse_volume_id, vmid}
use proxmox_csi_plugin.Operator.Types.{VolumeRecord, Attachment, Tenant, AttachResult}
use proxmox_csi_plugin.Operator.Action.{
  Options, Env, Effect, write_volume_status, write_attachment_status, update_attachment,
  attach_disk, rename_disk, Trace,
}
use proxmox_csi_plugin.Operator.Phase.{is_ready, acts}
use proxmox_csi_plugin.Operator.Attachment.Rules.{TenantListed}
use proxmox_csi_plugin.Operator.Attachment.Attach.{renamed_to, DiskOptions}

module _ (env : Env) (reassign : Bool) (disk_options : DiskOptions) (att : Attachment) where
  -- A volume and a tenant for which the attachment may be acted on.
  pub record Permitted (vol : VolumeRecord) (tenant : Tenant) : Type 0 where
    pub found : (t : Trace) × (env.get_volume t att.namespace att.spec.volume_name ≡ some vol)
    pub same_id : vol.status.volume_id ≡ att.spec.volume_id
    pub volume_ready : is_ready vol.status.phase ≡ true
    pub listed : TenantListed env att.namespace (some tenant)
    pub active : acts tenant.mode ≡ true
    pub vm : contains_number tenant.resolved_vmids att.spec.vmid ≡ true

  -- The volume that `current` is at the attach: the one of the handle, or what a rename answered.
  abbrev pub Current : Volume → Volume → Type 0
  Current handle current =
      (current ≡ handle)
      ⊎ ((reassign ≡ true)
          × ((t : Trace) × (env.renamed t handle.region handle att.spec.vmid ≡ some current)))

  -- The call that attaches: for the VM of the attachment, in the region of the handle.
  pub record Attaches (region : Text) (vm : ℕ) (volume : Volume) : Type 0 where
    pub vol : VolumeRecord
    pub tenant : Tenant
    pub handle : Volume
    pub permitted : Permitted vol tenant
    pub parsed : parse_volume_id vol.status.volume_id ≡ ok handle
    pub region_of : region ≡ handle.region
    pub vm_of : vm ≡ att.spec.vmid
    pub current : Current handle volume

  -- The rename before it: of the volume of the handle, to the VM, which the name does not carry.
  pub record Renames (region : Text) (volume : Volume) (vm : ℕ) : Type 0 where
    pub attaches : Attaches region vm volume
    pub enabled : reassign ≡ true
    pub foreign : text_eq (vmid volume) (itoa att.spec.vmid) ≡ false

  -- The status says attached only if it did before, or an attach was answered with what it says.
  pub record Answered (a : Attachment) : Type 0 where
    pub region : Text
    pub volume : Volume
    pub options : Options
    pub result : AttachResult
    pub attaches : Attaches region att.spec.vmid volume
    pub held : a.finalizer ≡ true
    pub answered :
        (t : Trace) × (env.attach_result t region att.spec.vmid volume options ≡ some result)
    pub device : a.status.device_path ≡ result.device_path
    pub lun : a.status.lun ≡ itoa result.lun

  -- The record of the volume changes in its disk name and its owner.
  abbrev pub RenamedRecord : VolumeRecord → Type 0
  RenamedRecord w =
      (vol : VolumeRecord) × (tenant : Tenant) × (renamed : Volume) × Permitted vol tenant
      × (w ≡ renamed_to vol renamed att.spec.vmid)

  -- The effects that an attach may have.
  abbrev pub AttachEffect : Effect → Type 0
  AttachEffect (attach_disk region vm volume options) = Attaches region vm volume
  AttachEffect (rename_disk region volume vm) = Renames region volume vm
  AttachEffect (write_attachment_status a) = (a.status.attached ≡ false) ⊎ Answered a
  AttachEffect (write_volume_status w) = RenamedRecord w
  AttachEffect (update_attachment a) = (a.finalizer ≡ true) × (a.status ≡ att.status)
  AttachEffect e = ⊥
