-- ===== src/Operator/Tenants/Effects.antt =====
-- What a reconcile of a registration asks and writes, in
-- pkg/operator/controller/tenant/reconciler.go.
use proxmox_csi_plugin.Prelude.{
  ℕ, ◌≡◌, ◌≢◌, ◌↔◌, refl, true, false, List, [], ◌∷◌, Option, none, some, ◌⊎◌, inl, inr,
}
use proxmox_csi_plugin.Text.{is_empty}
use proxmox_csi_plugin.Operator.Types.{VolumeRecord, Tenant, Vm}
use proxmox_csi_plugin.Operator.Action.{
  Env, Effect, write_tenant_status, update_tenant, Trace, Fault, listing, pure, perform,
}
use proxmox_csi_plugin.Operator.Action.Rules.{
  Ensures, Emits, Ensures-pure, Ensures-exit, Ensures-if, Ensures-ask_or_fail, Emits-perform,
  Ensures-bind, Ensures-weakened,
}
use proxmox_csi_plugin.Operator.Record.{fault_unless}
use proxmox_csi_plugin.Operator.Tenancy.{condition_true}
use proxmox_csi_plugin.Operator.Usage.{aggregated}
use proxmox_csi_plugin.Operator.Register.{Conflict, conflict}
use proxmox_csi_plugin.Operator.Resolve.{resolved_ids}
use proxmox_csi_plugin.Operator.Tenants.{
  volumes_of, seen_tenant, update_tenant_status, finish, publish,
}

-- The usage is that of the ledger.
abbrev pub SameUsage : Tenant → Tenant → Type 0
SameUsage w u =
    (w.used_volumes ≡ u.used_volumes)
    × (w.used_capacity ≡ u.used_capacity)
    × (w.namespace_used ≡ u.namespace_used)

module _ (env : Env) where
  -- The ledger of a registration, at some time of asking; without a namespace it is empty.
  abbrev pub Ledger : Tenant → List VolumeRecord → Type 0
  Ledger tenant vols =
      ((is_empty tenant.namespace ≡ true) × (vols ≡ []))
      ⊎ ((t : Trace) × (env.list_ledger t tenant.namespace ≡ some vols))

  -- The VMs of the region, at some time of asking; without a pool none is asked for.
  abbrev pub PoolListed : Tenant → Option (List Vm) → Type 0
  PoolListed tenant vms =
      ((is_empty tenant.pool ≡ true) × (vms ≡ some []))
      ⊎ ((t : Trace) × (env.list_vms t tenant.region ≡ vms))

  pub Ensures-volumes_of :
      {P : Effect → Type 0} (tenant : Tenant) → Ensures P (Ledger tenant) (volumes_of env tenant)
  unfolding volumes_of
  Ensures-volumes_of tenant =
      Ensures-if (is_empty tenant.namespace) _ _ (λ e. Ensures-pure [] (inl (e, refl)))
        (λ e. Ensures-weakened (Ensures-ask_or_fail listing _) (λ vols k. inr k))

  pub Ensures-update_tenant_status :
      {P : Effect → Type 0} (tenant : Tenant)
      → P (write_tenant_status (seen_tenant tenant))
      → Emits P (update_tenant_status env tenant)
  unfolding update_tenant_status
  Ensures-update_tenant_status tenant h =
      Ensures-bind (perform env (write_tenant_status (seen_tenant tenant)))
        (λ ok. pure (fault_unless ok)) (Emits-perform env _ h) (λ ok q. Ensures-pure _ tt)

  pub Emits-publish :
      {P : Effect → Type 0} (tenant : Tenant) (cause : Option Fault)
      → P (write_tenant_status (seen_tenant tenant))
      → Emits P (publish env tenant cause)
  unfolding publish update_tenant_status
  Emits-publish tenant cause h =
      Ensures-bind (update_tenant_status env tenant) (λ fault. finish fault cause)
        (Ensures-update_tenant_status tenant h) (λ fault q. ends fault)
    where
      ends : {P : Effect → Type 0} (fault : Option Fault) → Emits P (finish fault cause)
      ends none = Ensures-exit _
      ends (some f) = Ensures-exit _

  module _ (now : ℕ) (tenant : Tenant) where
    -- A registration without reasons against it, after the VMs of its region were asked for.
    abbrev pub Renewal : Tenant → Option (List Vm) → Type 0
    Renewal w none =
        (w.resolved_vmids ≡ tenant.resolved_vmids)
        × (w.vmids_observed_at ≡ tenant.vmids_observed_at)
        × (condition_true w.conditions.ready ≡ false)
    Renewal w (some vms) =
        (w.resolved_vmids ≡ resolved_ids tenant.vmids tenant.pool vms)
        × (w.vmids_observed_at ≡ some now)
        × ((condition_true w.conditions.ready ≡ true) ↔ (w.resolved_vmids ≢ []))

    -- What is published of a registration with the reasons against it.
    abbrev pub Verdict : Tenant → List Conflict → Type 0
    Verdict w [] =
        (condition_true w.conditions.admitted ≡ true)
        × ((vms : Option (List Vm)) × PoolListed tenant vms × Renewal w vms)
    Verdict w (c ∷ cs) =
        (condition_true w.conditions.admitted ≡ false)
        × (condition_true w.conditions.ready ≡ false)
        × (w.resolved_vmids ≡ [])
        × (w.vmids_observed_at ≡ none)

    abbrev pub Published : Tenant → Type 0
    Published w =
        (w.finalizer ≡ true)
        × ((vols : List VolumeRecord) × Ledger tenant vols × SameUsage w (aggregated tenant vols))
        × ((ts : List Tenant) × (t : Trace) × (env.list_tenants t ≡ some ts)
            × Verdict w (conflict tenant ts))

    -- What is published while volumes remain.
    abbrev pub Blocked : Tenant → Type 0
    Blocked w =
        (w.finalizer ≡ true)
        × ((vols : List VolumeRecord) × Ledger tenant vols × (vols ≢ []))
        × (condition_true w.conditions.ready ≡ false)
        × (w.resolved_vmids ≡ tenant.resolved_vmids)

    -- The effects that a reconcile may have.
    abbrev pub TenantEffect : Effect → Type 0
    TenantEffect (update_tenant w) =
        ((tenant.deleting ≡ false) × (w ≡ record tenant { finalizer = true }))
        ⊎ ((tenant.deleting ≡ true) × Ledger tenant [] × (w ≡ record tenant { finalizer = false }))
    TenantEffect (write_tenant_status w) =
        ((tenant.deleting ≡ false) × Published w) ⊎ ((tenant.deleting ≡ true) × Blocked w)
    TenantEffect e = ⊥
