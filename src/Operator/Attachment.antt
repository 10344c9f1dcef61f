-- ===== src/Operator/Attachment.antt =====
-- What the reconciler of attachments does to its record: `hold`, `tenant`, `setCondition` and
-- `updateStatus` of pkg/operator/controller/attachment/reconciler.go.
pub mod Rules
pub mod Runs
pub mod Attach
pub mod Detach
use proxmox_csi_plugin.Prelude.{Bool, true, false, ◌&&◌, Option, none, some, if◌then◌else◌}
use proxmox_csi_plugin.Text.{Text, text_eq}
use proxmox_csi_plugin.Operator.Types.{Reason, Attachment, AttachmentStatus, Tenant}
use proxmox_csi_plugin.Operator.Action.{
  Env, Effect, write_attachment_status, update_attachment, Action, Fault, listing, writing,
  failed_by, pure, exit, ask_or_fail, perform, ◌>>=◌,
}
use proxmox_csi_plugin.Operator.Tenancy.{admitted_tenant}
use proxmox_csi_plugin.Operator.Record.{condition, errors2, fault_unless}

abbrev pub att_admitted : Bool → Reason → AttachmentStatus → AttachmentStatus
att_admitted b r s = record s { conditions = record (s.conditions) { admitted = condition b r } }

abbrev pub att_ready : Bool → Reason → AttachmentStatus → AttachmentStatus
att_ready b r s = record s { conditions = record (s.conditions) { ready = condition b r } }

abbrev pub seen : Attachment → Attachment
seen att = record att { status = record (att.status) { observed_generation = att.generation } }

-- `return ctrl.Result{…}, r.updateStatus(ctx, att)`, with the cause that `errors2` joins to it.
unfoldable pub report_attachment : Env → Bool → Option Fault → Attachment → Action (Unit {0})
report_attachment env requeue cause att = do
  ok ← perform env (write_attachment_status (seen att))
  exit (record { requeue = requeue; error = errors2 (fault_unless ok) cause })

abbrev pub held_attachment : Attachment → Tenant → Attachment
held_attachment att tenant = record att { finalizer = true; tenant_label = tenant.name }

updated_or_fail : Env → Attachment → Bool → Action Attachment
updated_or_fail env att true = pure att
updated_or_fail env att false = exit (failed_by writing)

-- `hold`; the record is written only if the finalizer or the label changes.
unfoldable pub hold_attachment : Env → Attachment → Tenant → Action Attachment
unfolding updated_or_fail
hold_attachment env att tenant =
    if att.finalizer && text_eq att.tenant_label tenant.name then pure att else do
      ok ← perform env (update_attachment (held_attachment att tenant))
      updated_or_fail env (held_attachment att tenant) ok

-- `tenant`
unfoldable pub tenant_of : Env → Text → Action (Option Tenant)
tenant_of env namespace = do
  tenants ← ask_or_fail listing env.list_tenants
  pure (admitted_tenant namespace tenants)
