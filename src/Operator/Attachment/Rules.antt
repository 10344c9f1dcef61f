-- ===== src/Operator/Attachment/Rules.antt =====
-- The rules for what the reconciler of attachments does to its record.
use proxmox_csi_plugin.Prelude.{
  ◌≡◌, refl, Bool, true, false, ◌&&◌, List, Option, some, Bool-cases, inl, inr,
}
use proxmox_csi_plugin.Text.{Text, text_eq}
use proxmox_csi_plugin.Operator.Types.{Attachment, Tenant}
use proxmox_csi_plugin.Operator.Action.{
  Env, Effect, write_attachment_status, update_attachment, Trace, Fault, listing, writing,
  failed_by, pure, perform, ask_or_fail,
}
use proxmox_csi_plugin.Operator.Action.Rules.{
  Ensures, Emits, Ensures-pure, Ensures-exit, Ensures-ask_or_fail, Emits-perform, Ensures-bind,
  emits_rules,
}
use proxmox_csi_plugin.Operator.Tenancy.{admitted_tenant}
use proxmox_csi_plugin.Operator.Attachment.{
  seen, report_attachment, held_attachment, updated_or_fail, hold_attachment, tenant_of,
}

-- The answer of a lookup of the tenant of a namespace, at some time of asking.
abbrev pub TenantListed : Env → Text → Option Tenant → Type 0
TenantListed env namespace found =
    (ts : List Tenant) × (t : Trace) × (env.list_tenants t ≡ some ts)
    × (admitted_tenant namespace ts ≡ found)

-- What `hold` goes on with: the record as it was, with the finalizer, or the record held.
abbrev pub IsHeld : Attachment → Attachment → Type 0
IsHeld att a = (a.finalizer ≡ true) × (a.spec ≡ att.spec) × (a.status ≡ att.status)

module _ {P : Effect → Type 0} (env : Env) where
  pub Emits-report_attachment :
      (requeue : Bool) (cause : Option Fault) (att : Attachment)
      → P (write_attachment_status (seen att))
      → Emits P (report_attachment env requeue cause att)
  unfolding report_attachment
  Emits-report_attachment requeue cause att h = search emits_rules

  pub Ensures-tenant_of :
      (namespace : Text) → Ensures P (TenantListed env namespace) (tenant_of env namespace)
  unfolding tenant_of
  Ensures-tenant_of namespace =
      Ensures-bind (ask_or_fail listing env.list_tenants)
        (λ ts. pure (admitted_tenant namespace ts)) (Ensures-ask_or_fail listing env.list_tenants)
        (λ ts k. Ensures-pure (admitted_tenant namespace ts) (ts, k.0, k.1, refl))

  pub Ensures-hold_attachment :
      (att : Attachment) (tenant : Tenant)
      → P (update_attachment (held_attachment att tenant))
      → Ensures P (IsHeld att) (hold_attachment env att tenant)
  unfolding hold_attachment
  Ensures-hold_attachment att tenant h =
      elim (Bool-cases (att.finalizer && text_eq att.tenant_label tenant.name)) [
        | inl same ↦ rw same (Ensures-pure att (both att.finalizer _ same, refl, refl))
        | inr changed ↦ rw changed (
            Ensures-bind (perform env (update_attachment (held_attachment att tenant)))
              (updated_or_fail env (held_attachment att tenant)) (Emits-perform env _ h)
              (λ b q. branch b))
      ]
    where
      both : (a b : Bool) → (a && b) ≡ true → a ≡ true
      both true b e = refl
      both false b e = e

      branch :
          (b : Bool) → Ensures P (IsHeld att) (updated_or_fail env (held_attachment att tenant) b)
      branch true = Ensures-pure (held_attachment att tenant) (refl, refl, refl)
      branch false = Ensures-exit (failed_by writing)
