-- ===== src/Operator/Attachment/Attach/Safety.antt =====
-- An attach against the effects that it may have, for pkg/operator/controller/attachment/reconciler.go.
use proxmox_csi_plugin.Prelude.{
  ◌≡◌, refl, ap, ◌∙◌, subst, arith, Bool, true, false, not, ◌&&◌, Option, none, some, Result, ok,
  err, inl, inr, Bool-cases, contains_number,
}
use proxmox_csi_plugin.Text.{text_eq, is_empty, itoa, eq_of_text_eq}
use proxmox_csi_plugin.Volume.{Volume, VolumeError, parse_volume_id, vmid}
use proxmox_csi_plugin.Operator.Types.{
  parameter_rejected, tenant_unknown, tenant_observe_only, vmid_not_owned, invalid_spec,
  volume_id_mismatch, proxmox_error, reconciling, VolumeRecord, Attachment, Tenant, AttachResult,
}
use proxmox_csi_plugin.Operator.Action.{
  Options, Env, write_volume_status, attach_disk, rename_disk, Trace, requeued, exit, pure, ask,
  call, perform, ◌>>=◌,
}
use proxmox_csi_plugin.Operator.Action.Rules.{
  Ensures, Emits, Ensures-pure, Ensures-exit, Ensures-ask, Ensures-call, Emits-perform,
  Ensures-bind, Ensures-if,
}
use proxmox_csi_plugin.Operator.Phase.{is_ready, acts}
use proxmox_csi_plugin.Operator.Attachment.{
  att_admitted, att_ready, report_attachment, hold_attachment, tenant_of,
}
use proxmox_csi_plugin.Operator.Attachment.Rules.{
  TenantListed, IsHeld, Emits-report_attachment, Ensures-tenant_of, Ensures-hold_attachment,
}
use proxmox_csi_plugin.Operator.Attachment.Attach.Effects.{
  AttachEffect, Permitted, Current, Attaches, Renames,
}
use proxmox_csi_plugin.Operator.Attachment.Attach.{
  attached_as, renamed_to, DiskOptions, after_rename, reassign_on_attach, attach_answered,
  attach_with, attach_handle, attach_for, attach_volume, reconcile_attach,
}

tested : (a b c : Bool) → (a && not b && not c) ≡ true → (a ≡ true) × (c ≡ false)
tested a b c e = (ground (arith, e), ground (arith, e))

module _ (env : Env) (reassign : Bool) (disk_options : DiskOptions) (att : Attachment) where
  module _ (idle : att.status.attached ≡ false) where
    refuses :
        (requeue : Bool) (a : Attachment)
        → a.status.attached ≡ false
        → Emits (AttachEffect env reassign disk_options att) (report_attachment env requeue none a)
    refuses requeue a h = Emits-report_attachment env requeue none a (inl h)

    module _ (vol : VolumeRecord) (tenant : Tenant)
        (p : (Permitted env reassign disk_options att) vol tenant) where
      module _ (handle : Volume) (parsed : parse_volume_id vol.status.volume_id ≡ ok handle) where
        Attaches-Current :
            (volume : Volume)
            → (Current env reassign disk_options att) handle volume
            → (Attaches env reassign disk_options att) handle.region att.spec.vmid volume
        Attaches-Current volume c = record {
          vol = vol;
          tenant = tenant;
          handle = handle;
          permitted = p;
          parsed = parsed;
          region_of = refl;
          vm_of = refl;
          current = c;
        }

        Renames-handle :
            (a : Attachment)
            → a.spec ≡ att.spec
            → (reassign
                && not (is_empty handle.zone)
                && not (text_eq (vmid handle) (itoa a.spec.vmid)))
              ≡ true
            → (Renames env reassign disk_options att) handle.region handle a.spec.vmid
        Renames-handle a s e =
            (let on =
                tested reassign (is_empty handle.zone) (text_eq (vmid handle) (itoa a.spec.vmid))
                  e in
              rw (ap (λ x. x.vmid) s) (record {
                attaches = Attaches-Current handle (inl refl);
                enabled = on.0;
                foreign = (rw (ap (λ x. x.vmid) s) at on.1);
              }))

        Ensures-after_rename :
            (a : Attachment)
            → a.spec ≡ att.spec
            → (renamed : Option Volume) (t : Trace) → reassign ≡ true
            → env.renamed t handle.region handle a.spec.vmid ≡ renamed
            → Ensures
                (AttachEffect env reassign disk_options att)
                (λ c. (Current env reassign disk_options att) handle c.1)
                (after_rename env a vol handle renamed)
        unfolding after_rename
        Ensures-after_rename a s none t on e = Ensures-pure (vol, handle) (inl refl)
        Ensures-after_rename a s (some renamed) t on e =
            Ensures-bind (perform env (write_volume_status (renamed_to vol renamed a.spec.vmid)))
              (λ b. pure (renamed_to vol renamed a.spec.vmid, renamed))
              (Emits-perform env (write_volume_status (renamed_to vol renamed a.spec.vmid))
                (vol, tenant, renamed, p, ap (λ x. renamed_to vol renamed x.vmid) s))
              (λ b q.
                Ensures-pure (renamed_to vol renamed a.spec.vmid, renamed)
                  (inr (
                    on,
                    (
                      t,
                      subst (λ n. env.renamed t handle.region handle n ≡ some renamed)
                          (ap (λ x. x.vmid) s) e,
                    ),
                  )))

        Ensures-reassign :
            (a : Attachment)
            → a.spec ≡ att.spec
            → Ensures
                (AttachEffect env reassign disk_options att)
                (λ c. (Current env reassign disk_options att) handle c.1)
                (reassign_on_attach env reassign a vol handle)
        unfolding reassign_on_attach
        Ensures-reassign a s =
            Ensures-if
              (reassign
                && not (is_empty handle.zone)
                && not (text_eq (vmid handle) (itoa a.spec.vmid)))
              (call (rename_disk handle.region handle a.spec.vmid)
                  (λ t. env.renamed t handle.region handle a.spec.vmid)
                >>= after_rename env a vol handle)
              (pure (vol, handle))
              (λ e.
                Ensures-bind
                  (call (rename_disk handle.region handle a.spec.vmid)
                    (λ t. env.renamed t handle.region handle a.spec.vmid))
                  (after_rename env a vol handle) (Ensures-call _ _ (Renames-handle a s e))
                  (λ r k. Ensures-after_rename a s r k.0 (tested reassign _ _ e).0 k.1))
              (λ e. Ensures-pure (vol, handle) (inl refl))

        idle_held : (a : Attachment) → IsHeld att a → a.status.attached ≡ false
        idle_held a h = ap (λ s. s.attached) h.2 ∙ idle

        Emits-attach_answered :
            (a : Attachment) (volume : Volume) (options : Options) (t : Trace)
            (result : Option AttachResult)
            → IsHeld att a
            → (Current env reassign disk_options att) handle volume
            → env.attach_result t handle.region att.spec.vmid volume options ≡ result
            → Emits (AttachEffect env reassign disk_options att) (attach_answered env a result)
        unfolding attach_answered
        Emits-attach_answered a volume options t none h c e =
            refuses true (record a { status = att_ready false proxmox_error a.status })
              (idle_held a h)
        Emits-attach_answered a volume options t (some result) h c e =
            Emits-report_attachment env true none (attached_as a result) (
              inr (record {
                region = handle.region;
                volume = volume;
                options = options;
                result = result;
                attaches = Attaches-Current volume c;
                held = h.0;
                answered = (t, e);
                device = refl;
                lun = refl;
              }))

        Emits-attach_with :
            (a : Attachment)
            → IsHeld att a
            → (volume : Volume) (options : Option Options)
            → (Current env reassign disk_options att) handle volume
            → Emits
                (AttachEffect env reassign disk_options att)
                (attach_with env a handle.region volume options)
        unfolding attach_with
        Emits-attach_with a h volume none c =
            refuses false (record a { status = att_ready false parameter_rejected a.status })
              (idle_held a h)
        Emits-attach_with a h volume (some options) c =
            Ensures-bind
              (call (attach_disk handle.region a.spec.vmid volume options)
                (λ t. env.attach_result t handle.region a.spec.vmid volume options))
              (attach_answered env a)
              (Ensures-call _ _ (rw (ap (λ x. x.vmid) h.1) (Attaches-Current volume c)))
              (λ r k. Emits-attach_answered a volume options k.0 r h c (
                subst (λ n. env.attach_result k.0 handle.region n volume options ≡ r)
                  (ap (λ x. x.vmid) h.1) k.1))

      Emits-attach_handle :
          (a : Attachment)
          → IsHeld att a
          → (parsed : Result VolumeError Volume) → parse_volume_id vol.status.volume_id ≡ parsed
          → Emits
              (AttachEffect env reassign disk_options att)
              (attach_handle env reassign disk_options a vol parsed)
      unfolding attach_handle
      Emits-attach_handle a h (err x) e =
          refuses false (record a { status = att_ready false invalid_spec a.status })
            (ap (λ s. s.attached) h.2 ∙ idle)
      Emits-attach_handle a h (ok handle) e =
          Ensures-bind (reassign_on_attach env reassign a vol handle)
            (λ current.
              attach_with env a handle.region current.1 (disk_options current.0 a.spec.readonly))
            (Ensures-reassign handle e a h.1)
            (λ current c.
              Emits-attach_with handle e a h current.1 (disk_options current.0 a.spec.readonly) c)

    Emits-attach_for :
        (vol : VolumeRecord) (found : Option Tenant)
        → ((tenant : Tenant)
            → found ≡ some tenant
            → acts tenant.mode ≡ true
            → contains_number tenant.resolved_vmids att.spec.vmid ≡ true
            → (Permitted env reassign disk_options att) vol tenant)
        → Emits
            (AttachEffect env reassign disk_options att)
            (attach_for env reassign disk_options att vol found)
    unfolding attach_for
    Emits-attach_for vol none p =
        refuses false (record att { status = att_admitted false tenant_unknown att.status }) idle
    Emits-attach_for vol (some tenant) p = elim (Bool-cases (acts tenant.mode)) [
      | inr passive ↦ rw passive (
          refuses false (record att { status = att_admitted false tenant_observe_only att.status })
            idle)
      | inl active ↦
          rw active (elim (Bool-cases (contains_number tenant.resolved_vmids att.spec.vmid)) [
            | inr foreign ↦ rw foreign (
                refuses false (record att { status = att_admitted false vmid_not_owned att.status })
                  idle)
            | inl owned ↦ rw owned (
                Ensures-bind (hold_attachment env att tenant)
                  (λ held.
                    attach_handle env reassign disk_options held vol
                      (parse_volume_id vol.status.volume_id))
                  (Ensures-hold_attachment env att tenant (refl, refl))
                  (λ held h.
                    Emits-attach_handle vol tenant (p tenant refl active owned) held h _ refl))
          ])
    ]

    Emits-attach_volume :
        (found : Option VolumeRecord) (t : Trace)
        → env.get_volume t att.namespace att.spec.volume_name ≡ found
        → Emits
            (AttachEffect env reassign disk_options att)
            (attach_volume env reassign disk_options att found)
    unfolding attach_volume
    Emits-attach_volume none t e =
        refuses false (record att { status = att_ready false invalid_spec att.status }) idle
    Emits-attach_volume (some vol) t e =
        elim (Bool-cases (text_eq vol.status.volume_id att.spec.volume_id)) [
          | inr other ↦ rw other (
              refuses false
                (record att { status = att_admitted false volume_id_mismatch att.status }) idle)
          | inl same ↦ rw same (elim (Bool-cases (is_ready vol.status.phase)) [
            | inr waiting ↦
                rw waiting (
                  refuses true (record att { status = att_ready false reconciling att.status })
                    idle)
            | inl complete ↦ rw complete (
                Ensures-bind (tenant_of env att.namespace)
                  (attach_for env reassign disk_options att vol)
                  (Ensures-tenant_of env att.namespace)
                  (λ tenant k. Emits-attach_for vol tenant (λ x q active owned. record {
                    found = (t, e);
                    same_id = eq_of_text_eq _ _ same;
                    volume_ready = complete;
                    listed = subst (TenantListed env att.namespace) q k;
                    active = active;
                    vm = owned;
                  })))
          ])
        ]

  -- An attach calls Proxmox only to attach, and to rename before that, the disk of a volume of the
  -- attachment's namespace that is ready under the handle that the attachment names, on its VM, which
  -- is one that the namespace's registration resolved, in mode Enforce or Decommission. It attaches
  -- under the name in the handle or under the one that a rename answered. It writes that it is
  -- attached only for such an attach that was answered, with the device and the slot of the answer, on
  -- a record that has the finalizer. It changes of the volume's record only the disk's name and owner.
  pub reconcile_attach_safe :
      Emits
        (AttachEffect env reassign disk_options att)
        (reconcile_attach env reassign disk_options att)
  unfolding reconcile_attach
  reconcile_attach_safe =
      Ensures-if att.status.attached (exit requeued)
        (ask (λ t. env.get_volume t att.namespace att.spec.volume_name)
          >>= attach_volume env reassign disk_options att)
        (λ done. Ensures-exit requeued)
        (λ idle.
          Ensures-bind (ask (λ t. env.get_volume t att.namespace att.spec.volume_name))
            (attach_volume env reassign disk_options att)
            (Ensures-ask
              {Q = λ v. (t : Trace) × (env.get_volume t att.namespace att.spec.volume_name ≡ v)} _
              (λ t. (t, refl)))
            (λ found k. Emits-attach_volume idle found k.0 k.1))
