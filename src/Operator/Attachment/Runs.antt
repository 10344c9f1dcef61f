-- ===== src/Operator/Attachment/Runs.antt =====
-- What the actions on an attachment do when the calls succeed.
use proxmox_csi_plugin.Prelude.{◌≡◌, ap, ◌∙◌, Bool, true, false, ◌&&◌, List, ◌∷◌, none, some}
use proxmox_csi_plugin.Text.{Text, text_eq}
use proxmox_csi_plugin.Operator.Types.{Attachment, Tenant}
use proxmox_csi_plugin.Operator.Action.{
  Env, Effect, write_attachment_status, update_attachment, Trace, go, return, listing, pure, exit,
  ask_or_fail, perform, ◌>>=◌,
}
use proxmox_csi_plugin.Operator.Action.Runs.{
  bind_go, pure_go, exit_return, ask_or_fail_go, if_false,
}
use proxmox_csi_plugin.Operator.Tenancy.{admitted_tenant}
use proxmox_csi_plugin.Operator.Record.{errors2, fault_unless}
use proxmox_csi_plugin.Operator.Record.Runs.{perform_works}
use proxmox_csi_plugin.Operator.Attachment.{
  seen, report_attachment, held_attachment, updated_or_fail, hold_attachment, tenant_of,
}

module _ (env : Env) (works : (t : Trace) (e : Effect) → env.succeeds t e ≡ true) where
  pub report_attachment_works :
      (requeue : Bool) (att : Attachment) (t : Trace)
      → report_attachment env requeue none att t ≡ (
        return (record { requeue = requeue; error = none }),
        write_attachment_status (seen att) ∷ t,
      )
  unfolding report_attachment
  report_attachment_works requeue att t =
      bind_go (perform env (write_attachment_status (seen att)))
        (λ b. exit (record { requeue = requeue; error = errors2 (fault_unless b) none })) t _ true
        (perform_works env works (write_attachment_status (seen att)) t)
      ∙ exit_return (record { requeue = requeue; error = none }) _

  pub hold_attachment_works :
      (att : Attachment) (tenant : Tenant) (t : Trace)
      → att.finalizer ≡ false
      → hold_attachment env att tenant t
        ≡ (go (held_attachment att tenant), update_attachment (held_attachment att tenant) ∷ t)
  unfolding hold_attachment updated_or_fail
  hold_attachment_works att tenant t fresh =
      if_false (att.finalizer && text_eq att.tenant_label tenant.name) (pure att)
        (perform env (update_attachment (held_attachment att tenant))
          >>= updated_or_fail env (held_attachment att tenant))
        t (ap (λ b. b && text_eq att.tenant_label tenant.name) fresh)
      ∙ bind_go (perform env (update_attachment (held_attachment att tenant)))
          (updated_or_fail env (held_attachment att tenant)) t _ true
          (perform_works env works (update_attachment (held_attachment att tenant)) t)
      ∙ pure_go (held_attachment att tenant) _

pub tenant_of_go :
    (env : Env) (namespace : Text) (tenants : List Tenant) (t : Trace)
    → env.list_tenants t ≡ some tenants
    → tenant_of env namespace t ≡ (go (admitted_tenant namespace tenants), t)
unfolding tenant_of
tenant_of_go env namespace tenants t h =
    bind_go (ask_or_fail listing env.list_tenants) (λ ts. pure (admitted_tenant namespace ts)) t t
      tenants (ask_or_fail_go listing env.list_tenants t tenants h)
    ∙ pure_go (admitted_tenant namespace tenants) t
