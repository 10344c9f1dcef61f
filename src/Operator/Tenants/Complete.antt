-- ===== src/Operator/Tenants/Complete.antt =====
-- Runs of `reconcileNormal`, in pkg/operator/controller/tenant/reconciler.go, where the API server
-- answers and Proxmox may not.
use proxmox_csi_plugin.Prelude.{
  ℕ, ◌≡◌, refl, ap, ◌∙◌, true, false, List, [], ◌∷◌, Option, none, some,
}
use proxmox_csi_plugin.Text.{is_empty}
use proxmox_csi_plugin.Operator.Types.{accepted, proxmox_error, VolumeRecord, Tenant, Vm}
use proxmox_csi_plugin.Operator.Action.{
  Env, Effect, write_tenant_status, Trace, Outcome, Fault, go, return, listing, proxmox, pure,
  ask_or_fail, perform, ◌>>=◌,
}
use proxmox_csi_plugin.Operator.Action.Runs.{
  bind_go, pure_go, exit_return, ask_go, ask_or_fail_go, if_true, if_false,
}
use proxmox_csi_plugin.Operator.Record.{fault_unless}
use proxmox_csi_plugin.Operator.Record.Runs.{perform_works}
use proxmox_csi_plugin.Operator.Usage.{aggregated}
use proxmox_csi_plugin.Operator.Register.{conflict}
use proxmox_csi_plugin.Operator.Register.Unique.{conflict_congr}
use proxmox_csi_plugin.Operator.Resolve.{resolved_ids}
use proxmox_csi_plugin.Operator.Tenants.{
  volumes_of, tenant_admitted, tenant_ready, seen_tenant, update_tenant_status, finish, publish,
  resolved_tenant, resolved, resolve_vmids, ready_by_ids, publish_resolved, publish_verdict,
  reconcile_normal, reconcile_tenant_delete, hold_tenant, reconcile_tenant,
}

abbrev pub requeued_with : Option Fault → Outcome
requeued_with cause = record { requeue = true; error = cause }

abbrev pub verdict_of : Tenant → List VolumeRecord → Tenant
verdict_of tenant vols = tenant_admitted true accepted (aggregated tenant vols)

-- What is published if the VMs of the region were listed, and if not.
abbrev pub outcome : ℕ → Tenant → List VolumeRecord → Option (List Vm) → Tenant
outcome now tenant vols none = tenant_ready false proxmox_error (verdict_of tenant vols)
outcome now tenant vols (some found) =
    ready_by_ids (resolved_ids tenant.vmids tenant.pool found)
      (resolved_tenant now (verdict_of tenant vols) found)

-- The error of a reconcile: that the VMs were not listed.
abbrev pub resolution_fault : Option (List Vm) → Option Fault
resolution_fault none = some proxmox
resolution_fault (some found) = none

module _ (env : Env) (works : (t : Trace) (e : Effect) → env.succeeds t e ≡ true) where
  update_tenant_status_works :
      (tenant : Tenant) (t : Trace)
      → update_tenant_status env tenant t ≡ (go none, write_tenant_status (seen_tenant tenant) ∷ t)
  unfolding update_tenant_status
  update_tenant_status_works tenant t =
      bind_go (perform env (write_tenant_status (seen_tenant tenant)))
        (λ ok. pure (fault_unless ok)) t _ true
        (perform_works env works (write_tenant_status (seen_tenant tenant)) t)
      ∙ pure_go none _

  publish_works :
      (tenant : Tenant) (cause : Option Fault) (t : Trace)
      → publish env tenant cause t
        ≡ (return (requeued_with cause), write_tenant_status (seen_tenant tenant) ∷ t)
  unfolding publish finish
  publish_works tenant cause t =
      bind_go (update_tenant_status env tenant) (λ fault. finish fault cause) t _ none
        (update_tenant_status_works tenant t)
      ∙ exit_return (requeued_with cause) _

  module _ (now : ℕ) (tenant : Tenant) (vols : List VolumeRecord) (ts : List Tenant)
      (vms : Option (List Vm)) where
    abbrev judged : Tenant
    judged = verdict_of tenant vols

    publish_resolved_works :
        (found : Option (List Vm)) (t : Trace)
        → publish_resolved env judged (resolved now judged found) t ≡ (
          return (requeued_with (resolution_fault found)),
          write_tenant_status (seen_tenant (outcome now tenant vols found)) ∷ t,
        )
    unfolding publish_resolved resolved aggregated
    publish_resolved_works none t =
        publish_works (tenant_ready false proxmox_error judged) (some proxmox) t
    publish_resolved_works (some found) t =
        publish_works
          (ready_by_ids (resolved_ids tenant.vmids tenant.pool found)
            (resolved_tenant now judged found))
          none t

    -- A registration that is not being deleted, holds the finalizer, names a namespace and a pool, and
    -- has no reasons against it, is published as admitted with its usage, and the reconcile asks to be
    -- repeated, if the listings of the ledger and of the registrations are answered and the calls
    -- succeed: with the ids resolved if the VMs are listed, and else as it was, with the error.
    pub reconcile_tenant_works :
        tenant.deleting ≡ false
        → tenant.finalizer ≡ true
        → is_empty tenant.namespace ≡ false
        → is_empty tenant.pool ≡ false
        → ((t : Trace) → env.list_ledger t tenant.namespace ≡ some vols)
        → ((t : Trace) → env.list_tenants t ≡ some ts)
        → ((t : Trace) → env.list_vms t tenant.region ≡ vms)
        → conflict tenant ts ≡ []
        → (t : Trace)
        → reconcile_tenant env now tenant t ≡ (
          return (requeued_with (resolution_fault vms)),
          write_tenant_status (seen_tenant (outcome now tenant vols vms)) ∷ t,
        )
    unfolding reconcile_tenant hold_tenant reconcile_normal publish_verdict resolve_vmids volumes_of
        aggregated
    reconcile_tenant_works live held spaced pooled ledger listed asked unique t =
        if_false tenant.deleting (reconcile_tenant_delete env tenant) (hold_tenant env now tenant) t
          live
        ∙ if_true tenant.finalizer (reconcile_normal env now tenant) _ t held
        ∙ bind_go (volumes_of env tenant)
            (λ vs. ask_or_fail listing env.list_tenants >>= (λ us.
              publish_verdict env now (aggregated tenant vs) (conflict (aggregated tenant vs) us)))
            t t vols
            (if_false (is_empty tenant.namespace) (pure []) _ t spaced
              ∙ ask_or_fail_go listing (λ u. env.list_ledger u tenant.namespace) t vols (ledger t))
        ∙ bind_go (ask_or_fail listing env.list_tenants)
            (λ us.
              publish_verdict env now (aggregated tenant vols)
                (conflict (aggregated tenant vols) us))
            t t ts (ask_or_fail_go listing env.list_tenants t ts (listed t))
        ∙ ap (λ cs. publish_verdict env now (aggregated tenant vols) cs t) no_reasons
        ∙ bind_go (resolve_vmids env now judged) (publish_resolved env judged) t t
            (resolved now judged vms)
            (if_false (is_empty tenant.pool) (pure (some (resolved_tenant now judged []))) _ t
                pooled
              ∙ ask_go (λ u. resolved now judged (env.list_vms u tenant.region)) t
              ∙ ap (λ o. (go (resolved now judged o), t)) (asked t))
        ∙ publish_resolved_works vms t
      where
        no_reasons : conflict (aggregated tenant vols) ts ≡ []
        no_reasons =
            conflict_congr (aggregated tenant vols) tenant ts refl refl refl refl refl ∙ unique
