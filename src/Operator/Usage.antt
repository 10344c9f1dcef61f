-- ===== src/Operator/Usage.antt =====
-- `aggregate`, `countedBytes` and `addCapacity` of pkg/operator/controller/tenant/reconciler.go. A map
-- is the list of its entries; a namespace that has two quotas has two equal entries where the source
-- has one that is read twice.
pub mod Totals
use proxmox_csi_plugin.Prelude.{
  ℕ, ◌+◌, Bool, true, false, ◌||◌, List, [], ◌∷◌, map, ◌==◌, ltb, if◌then◌else◌,
}
use proxmox_csi_plugin.Text.{Text, text_eq, is_empty}
use proxmox_csi_plugin.Operator.Types.{NamespaceQuota, NamespaceUsage, Tenant, VolumeRecord}
use proxmox_csi_plugin.Operator.Quota.{namespace_usage_of}

-- `countedBytes`
unfoldable pub counted_bytes : VolumeRecord → ℕ
counted_bytes vol =
    if ltb vol.spec.capacity_bytes vol.status.capacity_bytes
    then vol.status.capacity_bytes
    else vol.spec.capacity_bytes

-- `into[storage] += bytes`, where a missing entry counts as 0.
add_entry : Text → ℕ → List (Text × ℕ) → List (Text × ℕ)
add_entry storage bytes [] = (storage, bytes) ∷ []
add_entry storage bytes ((key, total) ∷ m) =
    let rest = add_entry storage bytes m in
    if text_eq key storage then (key, total + bytes) ∷ m else (key, total) ∷ rest

-- `addCapacity`
unfoldable pub add_capacity : List (Text × ℕ) → Text → ℕ → List (Text × ℕ)
unfolding add_entry
add_capacity into storage bytes =
    if is_empty storage || bytes == 0 then into else add_entry storage bytes into

-- `used` and `perNamespace`, as the loop over the volumes leaves them.
pub record Tally : Type 0 where
  pub volumes : ℕ
  pub capacity : List (Text × ℕ)
  pub per_namespace : List NamespaceUsage

account_entry : VolumeRecord → NamespaceUsage → NamespaceUsage
account_entry vol u =
    if text_eq u.namespace vol.spec.claim_namespace
    then record u {
      volumes = u.volumes + 1;
      capacity = add_capacity u.capacity vol.spec.storage (counted_bytes vol);
    }
    else u

account_volume : VolumeRecord → Tally → Tally
unfolding account_entry
account_volume vol t = record {
  volumes = t.volumes + 1;
  capacity = add_capacity t.capacity vol.spec.storage (counted_bytes vol);
  per_namespace = map (account_entry vol) t.per_namespace;
}

account_all : List VolumeRecord → Tally → Tally
account_all [] t = t
account_all (vol ∷ vols) t = account_all vols (account_volume vol t)

abbrev pub fresh_entry : NamespaceQuota → NamespaceUsage
fresh_entry q = record { namespace = q.namespace; volumes = 0; capacity = [] }

abbrev pub fresh_tally : List NamespaceQuota → Tally
fresh_tally quotas = record { volumes = 0; capacity = []; per_namespace = map fresh_entry quotas }

abbrev published : Tenant → Tally → Tenant
published tenant t = record tenant {
  used_volumes = t.volumes;
  used_capacity = t.capacity;
  namespace_used =
      map (λ q. namespace_usage_of q.namespace t.per_namespace) tenant.namespace_quotas;
}

-- `aggregate`, of the volumes that the ledger lists.
unfoldable pub aggregated : Tenant → List VolumeRecord → Tenant
unfolding account_all account_volume
aggregated tenant vols = published tenant (account_all vols (fresh_tally tenant.namespace_quotas))
