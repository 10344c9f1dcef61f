-- ===== src/Operator/Tenants.antt =====
-- pkg/operator/controller/tenant/reconciler.go: the registration of a tenant, its authorization and
-- its usage. `now` is what the clock answers; `r.ResolvePeriod` is the period of every requeue.
pub mod Effects
pub mod Safety
pub mod Complete
use proxmox_csi_plugin.Prelude.{
  ℕ, Bool, true, false, not, List, [], ◌∷◌, Option, none, some, if◌then◌else◌,
}
use proxmox_csi_plugin.Text.{Text, text_eq, is_empty}
use proxmox_csi_plugin.Operator.Types.{
  Reason, accepted, invalid_spec, proxmox_error, reconciling, Condition, VolumeRecord, Tenant, Vm,
}
use proxmox_csi_plugin.Operator.Action.{
  Env, Effect, write_tenant_status, update_tenant, Action, Fault, listing, writing, proxmox,
  finished, failed_by, pure, exit, ask, ask_or_fail, perform, ◌>>=◌,
}
use proxmox_csi_plugin.Operator.Record.{fault_unless}
use proxmox_csi_plugin.Operator.Usage.{aggregated}
use proxmox_csi_plugin.Operator.Register.{Conflict, conflict}
use proxmox_csi_plugin.Operator.Resolve.{resolved_ids}

-- `tenantsForVolume`: the registrations that an event of a volume enqueues; none if the listing fails.
unfoldable pub tenants_for_volume : VolumeRecord → Option (List Tenant) → List Text
tenants_for_volume vol none = []
tenants_for_volume vol (some []) = []
tenants_for_volume vol (some (t ∷ ts)) =
    let rest = tenants_for_volume vol (some ts) in
    if text_eq t.namespace vol.namespace then t.name ∷ rest else rest

-- `volumes`: without a namespace no volume, and not those of every namespace.
unfoldable pub volumes_of : Env → Tenant → Action (List VolumeRecord)
volumes_of env tenant =
    if is_empty tenant.namespace
    then pure []
    else ask_or_fail listing (λ t. env.list_ledger t tenant.namespace)

abbrev pub tenant_admitted : Bool → Reason → Tenant → Tenant
tenant_admitted holds reason tenant = record tenant {
  conditions = record (tenant.conditions) {
    admitted = some (record { holds = holds; reason = reason });
  };
}

abbrev pub tenant_ready : Bool → Reason → Tenant → Tenant
tenant_ready holds reason tenant = record tenant {
  conditions = record (tenant.conditions) {
    ready = some (record { holds = holds; reason = reason });
  };
}

abbrev pub seen_tenant : Tenant → Tenant
seen_tenant tenant = record tenant { observed_generation = tenant.generation }

-- `updateStatus`
unfoldable pub update_tenant_status : Env → Tenant → Action (Option Fault)
update_tenant_status env tenant = do
  ok ← perform env (write_tenant_status (seen_tenant tenant))
  pure (fault_unless ok)

finish : Option Fault → Option Fault → Action (Unit {0})
finish (some fault) cause = exit (failed_by fault)
finish none cause = exit (record { requeue = true; error = cause })

-- The end of `reconcileNormal`: an error of the write comes before that of the resolution.
unfoldable pub publish : Env → Tenant → Option Fault → Action (Unit {0})
unfolding finish update_tenant_status
publish env tenant cause = do fault ← update_tenant_status env tenant; finish fault cause

-- What a refused registration keeps of its authorization: nothing.
abbrev pub refused_tenant : Tenant → Tenant
refused_tenant tenant = tenant_ready false invalid_spec (
    tenant_admitted false invalid_spec
      (record tenant { resolved_vmids = []; vmids_observed_at = none }))

abbrev pub resolved_tenant : ℕ → Tenant → List Vm → Tenant
resolved_tenant now tenant vms = record tenant {
  resolved_vmids = resolved_ids tenant.vmids tenant.pool vms;
  vmids_observed_at = some now;
}

resolved : ℕ → Tenant → Option (List Vm) → Option Tenant
resolved now tenant none = none
resolved now tenant (some vms) = some (resolved_tenant now tenant vms)

-- `resolveVMIDs`; `none` is its error, with which the tenant is left as it was.
unfoldable pub resolve_vmids : Env → ℕ → Tenant → Action (Option Tenant)
unfolding resolved
resolve_vmids env now tenant =
    if is_empty tenant.pool
    then pure (some (resolved_tenant now tenant []))
    else ask (λ t. resolved now tenant (env.list_vms t tenant.region))

unfoldable pub ready_by_ids : List ℕ → Tenant → Tenant
ready_by_ids [] tenant = tenant_ready false invalid_spec tenant
ready_by_ids (n ∷ ns) tenant = tenant_ready true accepted tenant

-- `setReady` and the rest of `reconcileNormal`, after `resolveVMIDs`.
publish_resolved : Env → Tenant → Option Tenant → Action (Unit {0})
unfolding ready_by_ids
publish_resolved env tenant none =
    publish env (tenant_ready false proxmox_error tenant) (some proxmox)
publish_resolved env tenant (some renewed) =
    publish env (ready_by_ids renewed.resolved_vmids renewed) none

publish_verdict : Env → ℕ → Tenant → List Conflict → Action (Unit {0})
unfolding publish_resolved
publish_verdict env now tenant (c ∷ cs) = publish env (refused_tenant tenant) none
publish_verdict env now tenant [] = do
  renewed ← resolve_vmids env now (tenant_admitted true accepted tenant)
  publish_resolved env (tenant_admitted true accepted tenant) renewed

-- `reconcileNormal`
unfoldable pub reconcile_normal : Env → ℕ → Tenant → Action (Unit {0})
unfolding publish_verdict
reconcile_normal env now tenant = do
  vols ← volumes_of env tenant
  tenants ← ask_or_fail listing env.list_tenants
  publish_verdict env now (aggregated tenant vols) (conflict (aggregated tenant vols) tenants)

-- The end of `reconcileDelete` where volumes remain.
blocked : Env → Tenant → Action (Unit {0})
blocked env tenant = do
  fault ← update_tenant_status env (tenant_ready false reconciling tenant)
  exit (record { requeue = true; error = fault })

release_tenant : Env → Tenant → Action (Unit {0})
release_tenant env tenant = do
  updated ← perform env (update_tenant (record tenant { finalizer = false }))
  if updated then exit finished else exit (failed_by writing)

release_if_empty : Env → Tenant → List VolumeRecord → Action (Unit {0})
unfolding blocked release_tenant
release_if_empty env tenant (v ∷ vols) = blocked env tenant
release_if_empty env tenant [] = release_tenant env tenant

-- `reconcileDelete`
unfoldable pub reconcile_tenant_delete : Env → Tenant → Action (Unit {0})
unfolding release_if_empty
reconcile_tenant_delete env tenant =
    if not tenant.finalizer
    then exit finished
    else do vols ← volumes_of env tenant; release_if_empty env tenant vols

abbrev pub held_tenant : Tenant → Tenant
held_tenant tenant = record tenant { finalizer = true }

after_hold : Env → ℕ → Tenant → Bool → Action (Unit {0})
after_hold env now tenant false = exit (failed_by writing)
after_hold env now tenant true = reconcile_normal env now (held_tenant tenant)

hold_tenant : Env → ℕ → Tenant → Action (Unit {0})
unfolding after_hold
hold_tenant env now tenant = if tenant.finalizer then reconcile_normal env now tenant else do
  updated ← perform env (update_tenant (held_tenant tenant))
  after_hold env now tenant updated

-- `Reconcile`, of a registration that was read.
unfoldable pub reconcile_tenant : Env → ℕ → Tenant → Action (Unit {0})
unfolding hold_tenant
reconcile_tenant env now tenant =
    if tenant.deleting then reconcile_tenant_delete env tenant else hold_tenant env now tenant
