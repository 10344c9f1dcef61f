-- ===== src/Operator/Attachment/Detach/Safety.antt =====
-- The effects that a detach may have, for pkg/operator/controller/attachment/reconciler.go.
use proxmox_csi_plugin.Prelude.{
  ℕ, ◌≡◌, refl, ap, Bool, true, false, not, ◌&&◌, Option, none, some, Result, ok, err, ◌⊎◌, inl,
  inr, Bool-cases, if◌then◌else◌, ltb, ltb→lt, ◌<◌, arith,
}
use proxmox_csi_plugin.Text.{is_empty, parse_int}
use proxmox_csi_plugin.Volume.{Volume, VolumeError, parse_volume_id, vmid}
use proxmox_csi_plugin.Operator.Types.{VolumeRecord, Attachment, proxmox_error}
use proxmox_csi_plugin.Operator.Action.{
  Env, Effect, write_volume_status, write_attachment_status, update_attachment, detach_disk,
  rename_disk, clear_unused_disk, Trace, writing, proxmox, finished, failed_by, exit, ask, call,
  perform, ◌>>=◌,
}
use proxmox_csi_plugin.Operator.Action.Rules.{
  Emits, Ensures-exit, Ensures-if, Ensures-ask, Ensures-call, Ensures-perform, Emits-perform,
  Emits-pure, Ensures-bind,
}
use proxmox_csi_plugin.Operator.Attachment.{att_ready}
use proxmox_csi_plugin.Operator.Attachment.Rules.{Emits-report_attachment}
use proxmox_csi_plugin.Operator.Attachment.Attach.{renamed_to}
use proxmox_csi_plugin.Operator.Attachment.Detach.{
  release, current_volume, listed_tenant, placeholder_of, same_number, tenant_or_none,
  after_rename_back, rename_back_to, rename_back, detach_answered, detach_volume, detach_handle,
  detach_found, reconcile_detach,
}

module _ (env : Env) (reassign : Bool) (att : Attachment) where
  -- The record that the volume of the attachment has, at some time of asking.
  abbrev pub VolumeAnswered : Option VolumeRecord → Type 0
  VolumeAnswered found = (t : Trace) × (env.get_volume t att.namespace att.spec.volume_name ≡ found)

  -- The volume that the attachment is of, under the name that the disk has now.
  pub record Attached (vol : VolumeRecord) (volume : Volume) : Type 0 where
    pub found : VolumeAnswered (some vol)
    pub handle : Volume
    pub parsed : parse_volume_id vol.status.volume_id ≡ ok handle
    pub current : volume ≡ current_volume vol handle

  -- A call of Proxmox that detached the disk, and that succeeded.
  pub record Detached (vol : VolumeRecord) (volume : Volume) : Type 0 where
    pub attached : Attached vol volume
    pub answered :
        (t : Trace) × (env.succeeds t (detach_disk volume.region att.spec.vmid volume) ≡ true)

  -- There is no disk to detach: the record of the volume is not there, or has no handle.
  abbrev pub NoDisk : Type 0
  NoDisk =
      VolumeAnswered none
      ⊎ ((vol : VolumeRecord) × VolumeAnswered (some vol)
          × ((is_empty vol.status.volume_id ≡ true)
              ⊎ ((e : VolumeError) × (parse_volume_id vol.status.volume_id ≡ err e))))

  abbrev pub IsDetached : Type 0
  IsDetached = (vol : VolumeRecord) × (volume : Volume) × Detached vol volume

  -- The placeholder of a registration that was listed.
  abbrev pub Placeholder : ℕ → Type 0
  Placeholder n =
      (0 < n)
      × ((t : Trace) × (placeholder_of (listed_tenant att.namespace (env.list_tenants t)) ≡ n))

  -- The effects that a detach may have.
  abbrev pub DetachEffect : Effect → Type 0
  DetachEffect (detach_disk region vm volume) =
      (region ≡ volume.region) × (vm ≡ att.spec.vmid) × ((vol : VolumeRecord) × Attached vol volume)
  DetachEffect (rename_disk region volume vm) =
      (region ≡ volume.region)
      × (reassign ≡ true)
      × Placeholder vm
      × ((vol : VolumeRecord) × Detached vol volume)
  DetachEffect (clear_unused_disk region vm volume) =
      (vm ≡ att.spec.vmid) × (reassign ≡ true) × IsDetached
  DetachEffect (write_volume_status w) =
      (vol : VolumeRecord) × (renamed : Volume) × (n : ℕ) × Placeholder n
      × ((volume : Volume) × Detached vol volume)
      × (w ≡ renamed_to vol renamed n)
  DetachEffect (write_attachment_status a) =
      (a.finalizer ≡ att.finalizer) × (a.status.attached ≡ att.status.attached)
  DetachEffect (update_attachment a) =
      (a ≡ record att { finalizer = false }) × (IsDetached ⊎ NoDisk)
  DetachEffect e = ⊥

  Emits-release : IsDetached ⊎ NoDisk → Emits DetachEffect (release env att)
  unfolding release
  Emits-release h =
      Ensures-bind (perform env (update_attachment (record att { finalizer = false })))
        (λ updated. if updated then exit finished else exit (failed_by writing))
        (Emits-perform env _ (refl, h))
        (λ updated q.
          Ensures-if updated _ _ (λ e. Ensures-exit finished)
            (λ e. Ensures-exit (failed_by writing)))

  module _ (vol : VolumeRecord) (volume : Volume) (d : Detached vol volume)
      (on : reassign ≡ true) where
    Emits-after_rename_back :
        (n : ℕ) (renamed : Option Volume)
        → Placeholder n
        → Emits DetachEffect (after_rename_back env att vol volume.region n renamed)
    unfolding after_rename_back
    Emits-after_rename_back n none p = Emits-pure tt
    Emits-after_rename_back n (some renamed) p =
        Ensures-bind (perform env (clear_unused_disk volume.region att.spec.vmid renamed)) _
          (Emits-perform env _ (refl, on, (vol, volume, d)))
          (λ a q.
            Ensures-bind (perform env (write_volume_status (renamed_to vol renamed n))) _
              (Emits-perform env _ (vol, renamed, n, p, (volume, d), refl)) (λ b r. Emits-pure tt))

    Emits-rename_back_to :
        (n : ℕ) (t : Trace)
        → placeholder_of (listed_tenant att.namespace (env.list_tenants t)) ≡ n
        → Emits DetachEffect (rename_back_to env att vol volume n)
    unfolding rename_back_to
    Emits-rename_back_to n t e = elim (Bool-cases (ltb 0 n)) [
      | inr unset ↦ rw unset (Emits-pure tt)
      | inl set ↦
          Ensures-if (ltb 0 n && not (same_number (parse_int 64 (vmid volume)) n)) _ _
            (λ c.
              Ensures-bind
                (call (rename_disk volume.region volume n)
                  (λ t. env.renamed t volume.region volume n))
                (after_rename_back env att vol volume.region n)
                (Ensures-call _ _ (refl, on, (ltb→lt 0 n set, (t, e)), (vol, d)))
                (λ r k. Emits-after_rename_back n r (ltb→lt 0 n set, (t, e))))
            (λ c. Emits-pure tt)
    ]

  Emits-rename_back :
      (vol : VolumeRecord) (volume : Volume)
      → Detached vol volume
      → Emits DetachEffect (rename_back env reassign att vol volume)
  unfolding rename_back tenant_or_none
  Emits-rename_back vol volume d =
      Ensures-if (reassign && not (is_empty volume.zone)) _ _
        (λ c.
          Ensures-bind (tenant_or_none env att.namespace)
            (λ tenant. rename_back_to env att vol volume (placeholder_of tenant))
            (Ensures-ask
              {Q = λ o. (t : Trace) × (listed_tenant att.namespace (env.list_tenants t) ≡ o)}
              (λ t. listed_tenant att.namespace (env.list_tenants t)) (λ t. (t, refl)))
            (λ tenant k.
              Emits-rename_back_to vol volume d (ground (arith, c)) (placeholder_of tenant) k.0
                (ap placeholder_of k.1)))
        (λ c. Emits-pure tt)

  Emits-detach_volume :
      (vol : VolumeRecord) (volume : Volume)
      → Attached vol volume
      → Emits DetachEffect (detach_volume env reassign att vol volume)
  unfolding detach_volume detach_answered
  Emits-detach_volume vol volume a =
      Ensures-bind (perform env (detach_disk volume.region att.spec.vmid volume))
        (detach_answered env reassign att vol volume) (Ensures-perform env _ (refl, refl, (vol, a)))
        (λ b k. answer b k.0 k.1)
    where
      answer :
          (b : Bool) (t : Trace)
          → env.succeeds t (detach_disk volume.region att.spec.vmid volume) ≡ b
          → Emits DetachEffect (detach_answered env reassign att vol volume b)
      answer false t e =
          Emits-report_attachment env true (some proxmox)
            (record att { status = att_ready false proxmox_error att.status }) (refl, refl)
      answer true t e =
          Ensures-bind (rename_back env reassign att vol volume) _
            (Emits-rename_back vol volume (record { attached = a; answered = (t, e) }))
            (λ u q. Emits-release (inl (vol, volume, record { attached = a; answered = (t, e) })))

  Emits-detach_found :
      (found : Option VolumeRecord)
      → VolumeAnswered found
      → Emits DetachEffect (detach_found env reassign att found)
  unfolding detach_found detach_handle
  Emits-detach_found none k = Emits-release (inr (inl k))
  Emits-detach_found (some vol) k =
      Ensures-if (is_empty vol.status.volume_id) _ _
        (λ e. Emits-release (inr (inr (vol, k, inl e))))
        (λ e. handled (parse_volume_id vol.status.volume_id) refl)
    where
      handled :
          (parsed : Result VolumeError Volume)
          → parse_volume_id vol.status.volume_id ≡ parsed
          → Emits DetachEffect (detach_handle env reassign att vol parsed)
      handled (err x) e = Emits-release (inr (inr (vol, k, inr (x, e))))
      handled (ok handle) e =
          Emits-detach_volume vol (current_volume vol handle)
            (record { found = k; handle = handle; parsed = e; current = refl })

  -- A detach removes the finalizer, which is all that it changes of the record, only after Proxmox
  -- detached from the attachment's VM the disk of its volume, under the name that the status of the
  -- volume has for it, or when the volume is not found or has no handle that parses. It renames the
  -- disk only after it was detached, and only to the placeholder of a registration of the namespace,
  -- which is not zero. It changes of the volume's record only the disk's name and owner.
  pub reconcile_detach_safe : Emits DetachEffect (reconcile_detach env reassign att)
  unfolding reconcile_detach
  reconcile_detach_safe =
      Ensures-if (not att.finalizer) (exit finished)
        (ask (λ t. env.get_volume t att.namespace att.spec.volume_name)
          >>= detach_found env reassign att)
        (λ e. Ensures-exit finished)
        (λ e.
          Ensures-bind (ask (λ t. env.get_volume t att.namespace att.spec.volume_name))
            (detach_found env reassign att) (Ensures-ask {Q = VolumeAnswered} _ (λ t. (t, refl)))
            (λ found k. Emits-detach_found found k))
