-- ===== src/Operator/Attachment/Detach/Complete.antt =====
-- Runs of `reconcileDetach`, in pkg/operator/controller/attachment/reconciler.go, where the API
-- server and Proxmox answer.
use proxmox_csi_plugin.Prelude.{◌≡◌, ap, ◌∙◌, true, false, not, ◌∷◌, some, ok, if◌then◌else◌}
use proxmox_csi_plugin.Text.{is_empty}
use proxmox_csi_plugin.Volume.{Volume, parse_volume_id}
use proxmox_csi_plugin.Operator.Types.{VolumeRecord, Attachment}
use proxmox_csi_plugin.Operator.Action.{
  Env, Effect, update_attachment, detach_disk, Trace, go, return, writing, finished, failed_by,
  exit, ask, perform,
}
use proxmox_csi_plugin.Operator.Action.Runs.{bind_go, pure_go, exit_return, ask_go, if_false}
use proxmox_csi_plugin.Operator.Record.Runs.{perform_works}
use proxmox_csi_plugin.Operator.Attachment.Detach.{
  release, current_volume, rename_back, detach_answered, detach_volume, detach_handle, detach_found,
  reconcile_detach,
}

module _ (env : Env) (works : (t : Trace) (e : Effect) → env.succeeds t e ≡ true) (att : Attachment)
    (vol : VolumeRecord) (handle : Volume) where
  abbrev released : Effect
  released = update_attachment (record att { finalizer = false })

  abbrev detaching : Effect
  detaching =
      detach_disk (current_volume vol handle).region att.spec.vmid (current_volume vol handle)

  release_works : (t : Trace) → release env att t ≡ (return finished, released ∷ t)
  unfolding release
  release_works t =
      bind_go (perform env released) (λ b. if b then exit finished else exit (failed_by writing)) t
        (released ∷ t) true (perform_works env works released t)
      ∙ exit_return finished (released ∷ t)

  detach_volume_works :
      (t : Trace)
      → detach_volume env false att vol (current_volume vol handle) t
        ≡ (return finished, released ∷ detaching ∷ t)
  unfolding detach_volume detach_answered rename_back
  detach_volume_works t =
      bind_go (perform env detaching)
        (detach_answered env false att vol (current_volume vol handle)) t (detaching ∷ t) true
        (perform_works env works detaching t)
      ∙ bind_go (rename_back env false att vol (current_volume vol handle)) (λ u. release env att)
          (detaching ∷ t) (detaching ∷ t) tt (pure_go tt (detaching ∷ t))
      ∙ release_works (detaching ∷ t)

  -- A held attachment of a volume with a handle is released, where disks keep their names, if the volume
  -- is found and every call succeeds: the disk is detached, then the finalizer is removed, and the
  -- reconcile ends without an error. The mode of the registration is not asked for, so that Proxmox is
  -- called in the modes Observe and Suspended too.
  pub reconcile_detach_works :
      att.finalizer ≡ true
      → ((t : Trace) → env.get_volume t att.namespace att.spec.volume_name ≡ some vol)
      → is_empty vol.status.volume_id ≡ false
      → parse_volume_id vol.status.volume_id ≡ ok handle
      → (t : Trace) → reconcile_detach env false att t ≡ (return finished, released ∷ detaching ∷ t)
  unfolding reconcile_detach detach_found detach_handle
  reconcile_detach_works held found named parsed t =
      if_false (not att.finalizer) (exit finished) _ t (ap not held)
      ∙ bind_go (ask (λ t. env.get_volume t att.namespace att.spec.volume_name))
          (detach_found env false att) t t (some vol)
          (ask_go (λ t. env.get_volume t att.namespace att.spec.volume_name) t
            ∙ ap (λ o. (go o, t)) (found t))
      ∙ if_false (is_empty vol.status.volume_id) (release env att) _ t named
      ∙ ap (λ o. detach_handle env false att vol o t) parsed
      ∙ detach_volume_works t
