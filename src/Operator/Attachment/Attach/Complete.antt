-- ===== src/Operator/Attachment/Attach/Complete.antt =====
-- Runs of `reconcileAttach`, in pkg/operator/controller/attachment/reconciler.go, where the API
-- server and Proxmox answer.
use proxmox_csi_plugin.Prelude.{
  ◌≡◌, ap, ◌∙◌, true, false, not, List, ◌∷◌, some, ok, contains_number,
}
use proxmox_csi_plugin.Text.{text_eq, itoa}
use proxmox_csi_plugin.Volume.{Volume, parse_volume_id}
use proxmox_csi_plugin.Operator.Types.{accepted, VolumeRecord, Attachment, Tenant, AttachResult}
use proxmox_csi_plugin.Operator.Action.{
  Options, Env, Effect, write_attachment_status, update_attachment, attach_disk, Trace, go, return,
  requeued, exit, ask, call,
}
use proxmox_csi_plugin.Operator.Action.Runs.{bind_go, pure_go, ask_go, call_go, if_false}
use proxmox_csi_plugin.Operator.Phase.{is_ready, acts}
use proxmox_csi_plugin.Operator.Tenancy.{admitted_tenant}
use proxmox_csi_plugin.Operator.Attachment.{held_attachment, hold_attachment, tenant_of}
use proxmox_csi_plugin.Operator.Attachment.Runs.{
  report_attachment_works, hold_attachment_works, tenant_of_go,
}
use proxmox_csi_plugin.Operator.Attachment.Attach.{
  attached_as, DiskOptions, reassign_on_attach, attach_answered, attach_with, attach_handle,
  attach_for, attach_volume, reconcile_attach,
}

module _ (env : Env) (disk_options : DiskOptions) (att : Attachment) (vol : VolumeRecord)
    (tenant : Tenant) where
  -- An API server and a Proxmox that answer, for an attachment that is permitted.
  pub record AttachAnswers (handle : Volume) (options : Options) (result : AttachResult)
      : Type 0 where
    pub works : (t : Trace) (e : Effect) → env.succeeds t e ≡ true
    pub get_volume : (t : Trace) → env.get_volume t att.namespace att.spec.volume_name ≡ some vol
    pub tenants : List Tenant
    pub list_tenants : (t : Trace) → env.list_tenants t ≡ some tenants
    pub registered : admitted_tenant att.namespace tenants ≡ some tenant
    pub active : acts tenant.mode ≡ true
    pub vm : contains_number tenant.resolved_vmids att.spec.vmid ≡ true
    pub same_id : text_eq vol.status.volume_id att.spec.volume_id ≡ true
    pub volume_ready : is_ready vol.status.phase ≡ true
    pub parsed : parse_volume_id vol.status.volume_id ≡ ok handle
    pub valid : disk_options vol att.spec.readonly ≡ some options
    pub attach_result :
        (t : Trace) → env.attach_result t handle.region att.spec.vmid handle options ≡ some result

  module _ (handle : Volume) (options : Options) (result : AttachResult)
      (a : AttachAnswers handle options result) where
    abbrev kept : Attachment
    kept = held_attachment att tenant

    abbrev attaching : Effect
    attaching = attach_disk handle.region att.spec.vmid handle options

    abbrev published : Effect
    published = write_attachment_status (record kept {
      status = record (att.status) {
        attached = true;
        device_path = result.device_path;
        lun = itoa result.lun;
        observed_generation = att.generation;
        conditions = record (att.status.conditions) {
          admitted = some (record { holds = true; reason = accepted });
          ready = some (record { holds = true; reason = accepted });
        };
      };
    })

    attach_with_works :
        (t : Trace)
        → attach_with env kept handle.region handle (some options) t
          ≡ (return requeued, published ∷ attaching ∷ t)
    unfolding attach_with attach_answered
    attach_with_works t =
        bind_go
          (call attaching (λ t. env.attach_result t handle.region att.spec.vmid handle options))
          (attach_answered env kept) t (attaching ∷ t) (some result)
          (call_go attaching (λ t. env.attach_result t handle.region att.spec.vmid handle options) t
            ∙ ap (λ o. (go o, attaching ∷ t)) (a.attach_result t))
        ∙ report_attachment_works env a.works true (attached_as kept result) (attaching ∷ t)

    attach_handle_works :
        (t : Trace)
        → attach_handle env false disk_options kept vol (ok handle) t
          ≡ (return requeued, published ∷ attaching ∷ t)
    unfolding attach_handle reassign_on_attach
    attach_handle_works t =
        bind_go (reassign_on_attach env false kept vol handle)
          (λ current.
            attach_with env kept handle.region current.1 (disk_options current.0 att.spec.readonly))
          t t (vol, handle) (pure_go (vol, handle) t)
        ∙ ap (λ o. attach_with env kept handle.region handle o t) a.valid
        ∙ attach_with_works t

    module _ (fresh : att.finalizer ≡ false) where
      attach_for_works :
          (t : Trace)
          → attach_for env false disk_options att vol (some tenant) t
            ≡ (return requeued, published ∷ attaching ∷ update_attachment kept ∷ t)
      unfolding attach_for
      attach_for_works t =
          if_false (not (acts tenant.mode)) _ _ t (ap not a.active)
          ∙ if_false (not (contains_number tenant.resolved_vmids att.spec.vmid)) _ _ t (ap not a.vm)
          ∙ bind_go (hold_attachment env att tenant)
              (λ held.
                attach_handle env false disk_options held vol
                  (parse_volume_id vol.status.volume_id))
              t (update_attachment kept ∷ t) kept
              (hold_attachment_works env a.works att tenant t fresh)
          ∙ ap (λ o. attach_handle env false disk_options kept vol o (update_attachment kept ∷ t))
              a.parsed
          ∙ attach_handle_works (update_attachment kept ∷ t)

      attach_volume_works :
          (t : Trace)
          → attach_volume env false disk_options att (some vol) t
            ≡ (return requeued, published ∷ attaching ∷ update_attachment kept ∷ t)
      unfolding attach_volume
      attach_volume_works t =
          if_false (not (text_eq vol.status.volume_id att.spec.volume_id)) _ _ t (ap not a.same_id)
          ∙ if_false (not (is_ready vol.status.phase)) _ _ t (ap not a.volume_ready)
          ∙ bind_go (tenant_of env att.namespace) (attach_for env false disk_options att vol) t t
              (admitted_tenant att.namespace a.tenants)
              (tenant_of_go env att.namespace a.tenants t (a.list_tenants t))
          ∙ ap (λ o. attach_for env false disk_options att vol o t) a.registered
          ∙ attach_for_works t

      -- A new attachment that is permitted is attached, where disks keep their names, if every question
      -- is answered and every call succeeds: the record is held, then the disk is attached, then the
      -- device is published, and the reconcile ends without an error. Permitted is what the ids of VMs that
      -- the registration last resolved permit, however long ago that was.
      pub reconcile_attach_works :
          att.status.attached ≡ false
          → (t : Trace)
          → reconcile_attach env false disk_options att t
            ≡ (return requeued, published ∷ attaching ∷ update_attachment kept ∷ t)
      unfolding reconcile_attach
      reconcile_attach_works idle t =
          if_false att.status.attached (exit requeued) _ t idle
          ∙ bind_go (ask (λ t. env.get_volume t att.namespace att.spec.volume_name))
              (attach_volume env false disk_options att) t t (some vol)
              (ask_go (λ t. env.get_volume t att.namespace att.spec.volume_name) t
                ∙ ap (λ o. (go o, t)) (a.get_volume t))
          ∙ attach_volume_works t
