-- ===== src/Operator/Quota/Enforced.antt =====
-- The quotas that pkg/operator/controller/volume/provision.go checks, against the usage that
-- pkg/operator/controller/tenant/reconciler.go publishes.
use proxmox_csi_plugin.Prelude.{
  ℕ, ◌+◌, ◌≤◌, ◌≡◌, refl, sym, ap, ◌∙◌, Bool, true, false, ◌&&◌, List, [], ◌∷◌, map, Option, none,
  some, leb→le, ℤ, pos, max_int32, max_int64, int32-pos, int64-pos, Bool-cases, inl, inr, length,
  All, arith,
}
use proxmox_csi_plugin.Text.{Text, text_eq, eq_of_text_eq, is_empty, lookup}
use proxmox_csi_plugin.Operator.Types.{
  TenantQuota, NamespaceQuota, NamespaceUsage, Tenant, VolumeRecord,
}
use proxmox_csi_plugin.Operator.Quota.{
  sum_within, fits, quota_fits, check_quota, namespace_usage_of, namespace_quota_of, namespace_fits,
  check_namespace_quota,
}
use proxmox_csi_plugin.Operator.Usage.{aggregated}
use proxmox_csi_plugin.Operator.Usage.Totals.{
  count_if, bytes_if, on_storage, claimed_from, claimed_on, used_on, IsUsageOf, aggregated-IsUsage,
}

-- A number is within a bound, if there is one.
abbrev pub Within : ℕ → Option ℕ → Type 0
Within n none = Unit
Within n (some max) = n ≤ max

within : (n : ℕ) (z : ℤ) (max : Option ℕ) → z ≡ pos n → sum_within z max ≡ true → Within n max
within n z none e h = tt
within n z (some max) e h = leb→le n max (rw e at h)

both : (a b : Bool) → (a && b) ≡ true → (a ≡ true) × (b ≡ true)
both a b h = (ground (arith, h), ground (arith, h))

fits-Within :
    (max_volumes : Option ℕ) (max_capacity : List (Text × ℕ)) (volumes : ℕ)
    (capacity : List (Text × ℕ)) (storage : Text) (bytes n m : ℕ)
    → volumes ≡ n
    → used_on storage capacity ≡ m
    → n + 1 ≤ max_int32
    → m + bytes ≤ max_int64
    → fits max_volumes max_capacity volumes capacity storage bytes ≡ true
    → Within (n + 1) max_volumes × Within (m + bytes) (lookup storage max_capacity)
unfolding fits
fits-Within max_volumes max_capacity volumes capacity storage bytes n m e f small few h =
    (let p = both _ _ (rw (e, f) at h) in
      (
        within (n + 1) _ max_volumes (int32-pos (n + 1) small) p.0,
        within (m + bytes) _ (lookup storage max_capacity) (int64-pos (m + bytes) few) p.1,
      ))

-- The volumes that are claimed are among all of them.
count_claimed :
    (namespace : Text) (vs : List VolumeRecord) → count_if (claimed_from namespace) vs ≤ length vs
count_claimed namespace [] = omega arith
count_claimed namespace (v ∷ vs) = ground (arith, count_claimed namespace vs)

bytes_claimed :
    (namespace storage : Text) (vs : List VolumeRecord)
    → bytes_if (claimed_on namespace storage) vs ≤ bytes_if (on_storage storage) vs
bytes_claimed namespace storage [] = omega arith
bytes_claimed namespace storage (v ∷ vs) = ground (arith, bytes_claimed namespace storage vs)

-- The usage that is found for a namespace with a quota is the namespace's.
found_usage :
    (vs : List VolumeRecord) (namespace : Text) (quota : NamespaceQuota) (qs : List NamespaceQuota)
    (us : List NamespaceUsage)
    → All (IsUsageOf vs) us
    → map (λ u. u.namespace) us ≡ map (λ q. q.namespace) qs
    → namespace_quota_of namespace qs ≡ some quota
    → IsUsageOf vs (namespace_usage_of namespace us)
      × ((namespace_usage_of namespace us).namespace ≡ namespace)
unfolding namespace_usage_of namespace_quota_of
found_usage vs namespace quota [] us h e k = cc k
found_usage vs namespace quota (q ∷ qs) [] h e k = cc e
found_usage vs namespace quota (q ∷ qs) (u ∷ us) h e k =
    elim (Bool-cases (text_eq u.namespace namespace)) [
      | inl here ↦ rw here (h.0, eq_of_text_eq u.namespace namespace here)
      | inr elsewhere ↦ rw elsewhere (
          found_usage vs namespace quota qs us h.1 (cc e)
            (rw (ap (λ n. text_eq n namespace) (sym (same_head e)) ∙ elsewhere) at k))
    ]
  where
    same_head :
        map (λ u. u.namespace) (u ∷ us) ≡ map (λ q. q.namespace) (q ∷ qs)
        → u.namespace ≡ q.namespace
    same_head e = cc e

module _ (tenant : Tenant) (vs : List VolumeRecord) (vol : VolumeRecord) where
  -- The bounds of a tenant's quota hold for the ledger with one more volume.
  abbrev pub TenantBounded : Option TenantQuota → Type 0
  TenantBounded none = Unit
  TenantBounded (some quota) =
      Within (length vs + 1) quota.max_volumes
      × Within (bytes_if (on_storage vol.spec.storage) vs + vol.spec.capacity_bytes)
          (lookup vol.spec.storage quota.max_capacity)

  -- The same for the quota of a namespace and the volumes that are claimed from it.
  abbrev pub NamespaceBounded : Text → Option NamespaceQuota → Type 0
  NamespaceBounded namespace none = Unit
  NamespaceBounded namespace (some quota) =
      Within (count_if (claimed_from namespace) vs + 1) quota.max_volumes
      × Within (bytes_if (claimed_on namespace vol.spec.storage) vs + vol.spec.capacity_bytes)
          (lookup vol.spec.storage quota.max_capacity)

  abbrev usage : Tenant
  usage = aggregated tenant vs

  module _ (named : is_empty vol.spec.storage ≡ false) (small : length vs + 1 ≤ max_int32)
      (few : bytes_if (on_storage vol.spec.storage) vs + vol.spec.capacity_bytes ≤ max_int64) where
    tenant_bounded :
        (quota : Option TenantQuota) → quota_fits quota usage vol ≡ true → TenantBounded quota
    unfolding quota_fits
    tenant_bounded none h = tt
    tenant_bounded (some quota) h =
        (let u = aggregated-IsUsage tenant vs in
          fits-Within quota.max_volumes quota.max_capacity usage.used_volumes usage.used_capacity
            vol.spec.storage vol.spec.capacity_bytes _ _ u.counted
            (u.charged vol.spec.storage named) small few h)

    namespace_bounded :
        (quota : Option NamespaceQuota)
        → namespace_quota_of vol.spec.claim_namespace tenant.namespace_quotas ≡ quota
        → namespace_fits quota
            (namespace_usage_of vol.spec.claim_namespace usage.namespace_used)
            vol
          ≡ true
        → NamespaceBounded vol.spec.claim_namespace quota
    unfolding namespace_fits
    namespace_bounded none found h = tt
    namespace_bounded (some quota) found h =
        (let u = aggregated-IsUsage tenant vs in
          let used =
            found_usage vs vol.spec.claim_namespace quota tenant.namespace_quotas
              usage.namespace_used u.namespaces u.in_order found in
          let e = rw used.1 at used.0 in
          fits-Within quota.max_volumes quota.max_capacity _ _ vol.spec.storage
            vol.spec.capacity_bytes _ _ e.0 (e.1 vol.spec.storage named)
            (let c = count_claimed vol.spec.claim_namespace vs in omega (arith, c, small))
            (let b = bytes_claimed vol.spec.claim_namespace vol.spec.storage vs in
              omega (arith, b, few))
            h)

    -- A volume on a named storage that is claimed from a namespace, and that passes both quota checks
    -- against the usage published from a ledger, fits: the ledger with this volume more stays within
    -- the numbers of volumes, and on the storage within the bytes, that the tenant's quota and the quota
    -- of the namespace allow, where they are set. This is on the
    -- condition that the ledger with this volume has at most 2^31 - 1 volumes, and at most 2^63 - 1 bytes
    -- on the storage: no sum of the checks then wraps around.
    pub check_quota_enforced :
        is_empty vol.spec.claim_namespace ≡ false
        → check_quota usage vol ≡ true
        → check_namespace_quota usage vol ≡ true
        → TenantBounded tenant.quota
          × NamespaceBounded vol.spec.claim_namespace
              (namespace_quota_of vol.spec.claim_namespace tenant.namespace_quotas)
    unfolding check_quota check_namespace_quota aggregated
    check_quota_enforced claimed h k = (
      tenant_bounded tenant.quota h,
      namespace_bounded (namespace_quota_of vol.spec.claim_namespace tenant.namespace_quotas) refl
          (rw claimed at k),
    )
