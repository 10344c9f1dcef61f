-- ===== src/Operator/Quota.antt =====
-- `checkParameterPolicy`, `checkQuota` and `checkNamespaceQuota` of
-- pkg/operator/controller/volume/provision.go. A map is the list of its entries; the answer does not
-- depend on their order.
pub mod Enforced
use proxmox_csi_plugin.Prelude.{
  ℕ, ◌+◌, Bool, true, false, ◌&&◌, List, [], ◌∷◌, Option, none, some, leb, ℤ, pos, leb_ℤ, int32,
  int64, if◌then◌else◌,
}
use proxmox_csi_plugin.Text.{Text, text_eq, contains_text, lookup, parse_int, is_empty}
use proxmox_csi_plugin.Operator.Types.{
  ParameterPolicy, TenantQuota, NamespaceQuota, NamespaceUsage, Tenant, VolumeRecord,
}

keys_allowed : List Text → List (Text × Text) → Bool
keys_allowed allowed [] = true
keys_allowed allowed ((key, value) ∷ params) =
    contains_text allowed key && keys_allowed allowed params

allowed_by : Option (List Text) → List (Text × Text) → Bool
unfolding keys_allowed
allowed_by none params = true
allowed_by (some allowed) params = keys_allowed allowed params

at_most : Option ℤ → ℤ → Bool
at_most none max = false
at_most (some n) max = leb_ℤ n max

value_within : Option Text → ℤ → Bool
unfolding at_most
value_within none max = true
value_within (some value) max = at_most (parse_int 64 value) max

values_within : List (Text × Text) → List (Text × ℤ) → Bool
unfolding value_within
values_within params [] = true
values_within params ((key, max) ∷ bounds) =
    value_within (lookup key params) max && values_within params bounds

-- A bound that is not there allows everything.
abbrev pub within_bound : ℕ → Option ℕ → Bool
within_bound n none = true
within_bound n (some max) = leb n max

-- `checkParameterPolicy` returns no error.
unfoldable pub check_parameter_policy : Option ParameterPolicy → List (Text × Text) → ℕ → Bool
unfolding allowed_by values_within
check_parameter_policy none params capacity_bytes = true
check_parameter_policy (some policy) params capacity_bytes =
    allowed_by policy.allowed params
    && values_within params policy.max_int
    && within_bound capacity_bytes policy.max_volume_bytes

abbrev pub or_none : Option ℕ → ℕ
or_none none = 0
or_none (some n) = n

-- A sum is not above a bound; one that wrapped to a negative number is above none.
abbrev pub sum_within : ℤ → Option ℕ → Bool
sum_within n none = true
sum_within n (some max) = leb_ℤ n (pos max)

-- One more volume of `bytes` on `storage` stays within the bounds, beside what is in use.
fits : Option ℕ → List (Text × ℕ) → ℕ → List (Text × ℕ) → Text → ℕ → Bool
fits max_volumes max_capacity volumes capacity storage bytes =
    sum_within (int32 (volumes + 1)) max_volumes
    && sum_within (int64 (or_none (lookup storage capacity) + bytes)) (lookup storage max_capacity)

quota_fits : Option TenantQuota → Tenant → VolumeRecord → Bool
unfolding fits
quota_fits none tenant vol = true
quota_fits (some quota) tenant vol =
    fits quota.max_volumes quota.max_capacity tenant.used_volumes tenant.used_capacity
      vol.spec.storage vol.spec.capacity_bytes

-- `checkQuota` returns no error.
unfoldable pub check_quota : Tenant → VolumeRecord → Bool
unfolding quota_fits
check_quota tenant vol = quota_fits tenant.quota tenant vol

unfoldable pub namespace_quota_of : Text → List NamespaceQuota → Option NamespaceQuota
namespace_quota_of namespace [] = none
namespace_quota_of namespace (q ∷ qs) =
    if text_eq q.namespace namespace then some q else namespace_quota_of namespace qs

abbrev pub no_usage : NamespaceUsage
no_usage = record { namespace = []; volumes = 0; capacity = [] }

-- The usage of the namespace; none recorded counts as nothing used.
unfoldable pub namespace_usage_of : Text → List NamespaceUsage → NamespaceUsage
namespace_usage_of namespace [] = no_usage
namespace_usage_of namespace (u ∷ us) =
    if text_eq u.namespace namespace then u else namespace_usage_of namespace us

namespace_fits : Option NamespaceQuota → NamespaceUsage → VolumeRecord → Bool
unfolding fits
namespace_fits none usage vol = true
namespace_fits (some quota) usage vol =
    fits quota.max_volumes quota.max_capacity usage.volumes usage.capacity vol.spec.storage
      vol.spec.capacity_bytes

-- `checkNamespaceQuota` returns no error. Without quotas, and without a namespace, it has nothing to
-- check; the search for the quota then finds none or is not made.
unfoldable pub check_namespace_quota : Tenant → VolumeRecord → Bool
unfolding namespace_quota_of namespace_usage_of namespace_fits
check_namespace_quota tenant vol =
    if is_empty vol.spec.claim_namespace
    then true
    else namespace_fits (namespace_quota_of vol.spec.claim_namespace tenant.namespace_quotas)
        (namespace_usage_of vol.spec.claim_namespace tenant.namespace_used) vol
