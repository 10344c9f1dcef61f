-- ===== src/Tests/Tenants.antt =====
-- The theorems on registrations, their usage and their authorization.
use mathlib.Core.List.{Memᴰ}
use proxmox_csi_plugin.Prelude.{
  ℕ, ◌≡◌, refl, true, List, [], ◌∷◌, none, some, contains_number, ◌||◌, ◌+◌, ◌≤◌, max_int64, int32,
  int64, arith,
}
use proxmox_csi_plugin.Text.{codes, is_empty, text_eq, lookup}
use proxmox_csi_plugin.Operator.Types.{Tenant, VolumeRecord, Vm}
use proxmox_csi_plugin.Operator.Action.{Env, return, write_tenant_status}
use proxmox_csi_plugin.Operator.Quota.{check_quota, check_namespace_quota, namespace_quota_of}
use proxmox_csi_plugin.Operator.Quota.Enforced.{
  TenantBounded, NamespaceBounded, check_quota_enforced,
}
use proxmox_csi_plugin.Operator.Usage.{aggregated}
use proxmox_csi_plugin.Operator.Usage.Totals.{bytes_if, on_storage, IsUsage, aggregated-IsUsage}
use proxmox_csi_plugin.Operator.Register.{conflict}
use proxmox_csi_plugin.Operator.Register.Unique.{one_registration}
use proxmox_csi_plugin.Operator.Resolve.{resolved_ids}
use proxmox_csi_plugin.Operator.Resolve.Ids.{ascending, in_pool, resolved_ids-IsUnion}
use proxmox_csi_plugin.Operator.Tenants.{seen_tenant, reconcile_tenant}
use proxmox_csi_plugin.Operator.Tenants.Complete.{outcome, requeued_with, reconcile_tenant_works}
use proxmox_csi_plugin.Tests.Ledger.{tenant, requested, made, answering}

abbrev pooled : Tenant
pooled = record tenant {
  pool = codes "tenant-a";
  quota = some (record { max_volumes = some 5; max_capacity = [] });
  namespace_quotas =
      record { namespace = codes "team"; max_volumes = some 2; max_capacity = [] } ∷ [];
}

abbrev claimed : VolumeRecord
claimed = record requested { spec = record (requested.spec) { claim_namespace = codes "team" } }

aggregated-IsUsage_example : IsUsage pooled (made ∷ claimed ∷ [])
aggregated-IsUsage_example = aggregated-IsUsage pooled (made ∷ claimed ∷ [])

check_quota_enforced_example :
    TenantBounded pooled (made ∷ []) claimed pooled.quota
    × NamespaceBounded pooled
        (made ∷ [])
        claimed
        (codes "team")
        (namespace_quota_of (codes "team") pooled.namespace_quotas)
check_quota_enforced_example =
    check_quota_enforced pooled (made ∷ []) claimed (unfold is_empty in refl) (omega arith) few
      (unfold is_empty in refl) within_tenant within_namespace
  where
    few :
        bytes_if (on_storage claimed.spec.storage) (made ∷ []) + claimed.spec.capacity_bytes
        ≤ max_int64
    few = unfold text_eq in omega arith

    within_tenant : check_quota (aggregated pooled (made ∷ [])) claimed ≡ true
    within_tenant = unfold check_quota int32 int64 aggregated lookup in refl

    within_namespace : check_namespace_quota (aggregated pooled (made ∷ [])) claimed ≡ true
    within_namespace = unfold check_namespace_quota int32 int64 aggregated lookup is_empty in refl

one_registration_example : tenant.name ≡ tenant.name
one_registration_example =
    one_registration tenant tenant (tenant ∷ []) (Memᴰ.head refl) (Memᴰ.head refl)
      (unfold text_eq in refl) (unfold conflict text_eq in refl) (unfold conflict text_eq in refl)

abbrev vms : List Vm
vms = record { vmid = 107; pool = codes "tenant-a" } ∷ record { vmid = 108; pool = [] } ∷ []

resolved_ids-IsUnion_example :
    (ascending (resolved_ids (105 ∷ []) (codes "tenant-a") vms) ≡ true)
    × ((k : ℕ)
        → contains_number (resolved_ids (105 ∷ []) (codes "tenant-a") vms) k
          ≡ (in_pool (codes "tenant-a") vms k || contains_number (105 ∷ []) k))
resolved_ids-IsUnion_example = resolved_ids-IsUnion (105 ∷ []) (codes "tenant-a") vms

abbrev listing_vms : Env
listing_vms = record answering { list_vms = λ t region. some vms }

reconcile_tenant_works_example : reconcile_tenant listing_vms 12 pooled [] ≡ (
  return (requeued_with none),
  write_tenant_status (seen_tenant (outcome 12 pooled (requested ∷ []) (some vms))) ∷ [],
)
reconcile_tenant_works_example =
    reconcile_tenant_works listing_vms (λ t e. refl) 12 pooled (requested ∷ []) (tenant ∷ [])
      (some vms) refl refl (unfold is_empty in refl) (unfold is_empty in refl) (λ t. refl)
      (λ t. refl) (λ t. refl) (unfold conflict text_eq in refl) []
