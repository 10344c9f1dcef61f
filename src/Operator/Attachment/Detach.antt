-- ===== src/Operator/Attachment/Detach.antt =====
-- `reconcileDetach` and `Reconcile` of pkg/operator/controller/attachment/reconciler.go. `Atoi` reads
-- at 64 bits.
pub mod Safety
pub mod Complete
use proxmox_csi_plugin.Prelude.{
  ℕ, ℤ, pos, negsuc, Bool, true, false, not, ◌&&◌, List, [], ◌∷◌, Option, none, some, Result, ok,
  err, ◌==◌, ltb, if◌then◌else◌,
}
use proxmox_csi_plugin.Text.{Text, is_empty, parse_int}
use proxmox_csi_plugin.Volume.{Volume, VolumeError, parse_volume_id, new_volume, vmid}
use proxmox_csi_plugin.Operator.Types.{proxmox_error, VolumeRecord, Attachment, Tenant}
use proxmox_csi_plugin.Operator.Action.{
  Env, Effect, write_volume_status, update_attachment, detach_disk, rename_disk, clear_unused_disk,
  Action, Fault, writing, proxmox, finished, failed_by, pure, exit, ask, perform, call, ◌>>=◌,
}
use proxmox_csi_plugin.Operator.Tenancy.{admitted_tenant}
use proxmox_csi_plugin.Operator.Attachment.{att_ready, report_attachment}
use proxmox_csi_plugin.Operator.Attachment.Attach.{DiskOptions, renamed_to, reconcile_attach}

-- The release: the finalizer is removed, and an error of the update is the reconcile's.
unfoldable pub release : Env → Attachment → Action (Unit {0})
release env att = do
  updated ← perform env (update_attachment (record att { finalizer = false }))
  if updated then exit finished else exit (failed_by writing)

-- The name of the disk now: that of the status, which a rename sets, or that of the volume id.
abbrev pub current_name : Text → Text → Text
current_name [] in_handle = in_handle
current_name (c ∷ name) in_handle = c ∷ name

abbrev pub current_volume : VolumeRecord → Volume → Volume
current_volume vol base =
    new_volume base.region base.zone base.storage (current_name vol.status.disk_name base.disk) []

abbrev pub placeholder_of : Option Tenant → ℕ
placeholder_of none = 0
placeholder_of (some tenant) = tenant.placeholder_vmid

-- Whether `Atoi` reads the number.
same_number : Option ℤ → ℕ → Bool
same_number none n = n == 0
same_number (some (negsuc i)) n = false
same_number (some (pos i)) n = i == n

abbrev pub listed_tenant : Text → Option (List Tenant) → Option Tenant
listed_tenant namespace none = none
listed_tenant namespace (some tenants) = admitted_tenant namespace tenants

-- A failure to list the tenants is logged, as if there were none.
tenant_or_none : Env → Text → Action (Option Tenant)
tenant_or_none env namespace = ask (λ t. listed_tenant namespace (env.list_tenants t))

after_rename_back : Env → Attachment → VolumeRecord → Text → ℕ → Option Volume → Action (Unit {0})
after_rename_back env att vol region placeholder none = pure tt
after_rename_back env att vol region placeholder (some renamed) = do
  cleared ← perform env (clear_unused_disk region att.spec.vmid renamed)
  written ← perform env (write_volume_status (renamed_to vol renamed placeholder))
  pure tt

rename_back_to : Env → Attachment → VolumeRecord → Volume → ℕ → Action (Unit {0})
unfolding same_number after_rename_back
rename_back_to env att vol volume placeholder =
    if ltb 0 placeholder && not (same_number (parse_int 64 (vmid volume)) placeholder)
    then (do
      renamed ←
          call (rename_disk volume.region volume placeholder)
            (λ t. env.renamed t volume.region volume placeholder)
      after_rename_back env att vol volume.region placeholder renamed)
    else pure tt

rename_back : Env → Bool → Attachment → VolumeRecord → Volume → Action (Unit {0})
unfolding tenant_or_none rename_back_to
rename_back env reassign att vol volume =
    if reassign && not (is_empty volume.zone)
    then (do
      tenant ← tenant_or_none env att.namespace
      rename_back_to env att vol volume (placeholder_of tenant))
    else pure tt

detach_answered : Env → Bool → Attachment → VolumeRecord → Volume → Bool → Action (Unit {0})
unfolding rename_back
detach_answered env reassign att vol volume false =
    report_attachment env true (some proxmox)
      (record att { status = att_ready false proxmox_error att.status })
detach_answered env reassign att vol volume true = do
  done ← rename_back env reassign att vol volume
  release env att

detach_volume : Env → Bool → Attachment → VolumeRecord → Volume → Action (Unit {0})
unfolding detach_answered
detach_volume env reassign att vol volume = do
  detached ← perform env (detach_disk volume.region att.spec.vmid volume)
  detach_answered env reassign att vol volume detached

detach_handle :
    Env → Bool → Attachment → VolumeRecord → Result VolumeError Volume → Action (Unit {0})
unfolding detach_volume
detach_handle env reassign att vol (err e) = release env att
detach_handle env reassign att vol (ok base) =
    detach_volume env reassign att vol (current_volume vol base)

detach_found : Env → Bool → Attachment → Option VolumeRecord → Action (Unit {0})
unfolding detach_handle
detach_found env reassign att none = release env att
detach_found env reassign att (some vol) =
    if is_empty vol.status.volume_id
    then release env att
    else detach_handle env reassign att vol (parse_volume_id vol.status.volume_id)

-- `reconcileDetach`
unfoldable pub reconcile_detach : Env → Bool → Attachment → Action (Unit {0})
unfolding detach_found
reconcile_detach env reassign att = if not att.finalizer then exit finished else do
  vol ← ask (λ t. env.get_volume t att.namespace att.spec.volume_name)
  detach_found env reassign att vol

-- `Reconcile`, of an attachment that was read.
unfoldable pub reconcile_attachment : Env → Bool → DiskOptions → Attachment → Action (Unit {0})
reconcile_attachment env reassign disk_options att =
    if att.deleting
    then reconcile_detach env reassign att
    else reconcile_attach env reassign disk_options att
