-- ===== src/Operator/Usage/Totals.antt =====
-- The usage that `aggregate` of pkg/operator/controller/tenant/reconciler.go publishes, against sums
-- over the ledger.
use Prim.Native.Nat.{max}
use proxmox_csi_plugin.Prelude.{
  ℕ, ◌+◌, ◌≡◌, refl, sym, ap, ap₂, subst, All, ◌∙◌, Bool, true, false, ◌||◌, List, [], ◌∷◌, map,
  ◌==◌, if◌then◌else◌, Bool-cases, inl, inr, length, arith,
}
use proxmox_csi_plugin.Text.{
  Text, text_eq, text_eq_iff, text_eq_refl, eq_of_text_eq, is_empty, lookup,
}
use proxmox_csi_plugin.Operator.Types.{NamespaceQuota, NamespaceUsage, Tenant, VolumeRecord}
use proxmox_csi_plugin.Operator.Quota.{or_none, namespace_usage_of}
use proxmox_csi_plugin.Operator.Usage.{
  counted_bytes, add_entry, add_capacity, Tally, account_entry, account_volume, account_all,
  fresh_entry, fresh_tally, aggregated,
}

-- The larger of what a volume asks for and what Proxmox reported.
abbrev pub cost : VolumeRecord → ℕ
cost v = max v.spec.capacity_bytes v.status.capacity_bytes

cost-counted_bytes : (v : VolumeRecord) → counted_bytes v ≡ cost v
unfolding counted_bytes
cost-counted_bytes v = ground arith

same_charge :
    (b : Bool) (v : VolumeRecord) → (if b then counted_bytes v else 0) ≡ (if b then cost v else 0)
same_charge b v = ap (λ n. if b then n else 0) (cost-counted_bytes v)

-- The volumes of a ledger that satisfy a test, and the bytes that they are counted for.
abbrev pub count_if : (VolumeRecord → Bool) → List VolumeRecord → ℕ
count_if p [] = 0
count_if p (v ∷ vs) = (if p v then 1 else 0) + count_if p vs

abbrev pub bytes_if : (VolumeRecord → Bool) → List VolumeRecord → ℕ
bytes_if p [] = 0
bytes_if p (v ∷ vs) = (if p v then cost v else 0) + bytes_if p vs

abbrev pub on_storage : Text → VolumeRecord → Bool
on_storage storage v = text_eq v.spec.storage storage

abbrev pub claimed_from : Text → VolumeRecord → Bool
claimed_from namespace v = text_eq namespace v.spec.claim_namespace

abbrev pub claimed_on : Text → Text → VolumeRecord → Bool
claimed_on namespace storage v = if claimed_from namespace v then on_storage storage v else false

-- What a map of capacities has for a storage; a missing entry counts as 0.
abbrev pub used_on : Text → List (Text × ℕ) → ℕ
used_on storage m = or_none (lookup storage m)

text_eq_symm : (s t : Text) → text_eq s t ≡ text_eq t s
text_eq_symm s t = ground (arith, text_eq_iff s t, text_eq_iff t s)

used_on-add_entry :
    (storage s : Text) (bytes : ℕ) (m : List (Text × ℕ))
    → used_on storage (add_entry s bytes m)
      ≡ (if text_eq s storage then bytes else 0) + used_on storage m
unfolding add_entry lookup
used_on-add_entry storage s bytes [] = elim (Bool-cases (text_eq s storage)) [
  | inl same ↦ rw same (omega arith)
  | inr other ↦ rw other refl
]
used_on-add_entry storage s bytes ((key, total) ∷ m) = elim (Bool-cases (text_eq key s)) [
  | inl same ↦ rw same (elim (Bool-cases (text_eq key storage)) [
    | inl here ↦ rw here (rw (other_key same) (rw here (omega arith)))
    | inr elsewhere ↦ rw elsewhere (rw (other_key same) (rw elsewhere (omega arith)))
  ])
  | inr other ↦ rw other (elim (Bool-cases (text_eq key storage)) [
    | inl here ↦ rw here (rw (not_here other here) (omega arith))
    | inr elsewhere ↦ rw elsewhere (used_on-add_entry storage s bytes m)
  ])
]
  where
    other_key : text_eq key s ≡ true → text_eq s storage ≡ text_eq key storage
    other_key same = ap (λ k. text_eq k storage) (sym (eq_of_text_eq key s same))

    not_here : text_eq key s ≡ false → text_eq key storage ≡ true → text_eq s storage ≡ false
    not_here other here =
        ground (arith, text_eq_iff key s, text_eq_iff key storage, text_eq_iff s storage)

zero_of : (b : Bool) (n : ℕ) → b ≡ false → (b || n == 0) ≡ true → n ≡ 0
zero_of b n e k = ground (arith, e, k)

used_on-add_capacity :
    (storage s : Text) (bytes : ℕ) (m : List (Text × ℕ))
    → is_empty storage ≡ false
    → used_on storage (add_capacity m s bytes)
      ≡ (if text_eq s storage then bytes else 0) + used_on storage m
unfolding add_capacity
used_on-add_capacity storage s bytes m h = elim (Bool-cases (is_empty s || bytes == 0)) [
  | inl skipped ↦ rw skipped (elim (Bool-cases (text_eq s storage)) [
    | inl same ↦ rw same (nothing same skipped)
    | inr other ↦ rw other (omega arith)
  ])
  | inr counted ↦ rw counted (used_on-add_entry storage s bytes m)
]
  where
    nothing :
        text_eq s storage ≡ true
        → (is_empty s || bytes == 0) ≡ true
        → used_on storage m ≡ bytes + used_on storage m
    nothing same skipped =
        (let e = ap is_empty (eq_of_text_eq s storage same) in
          let z = zero_of (is_empty s) bytes (e ∙ h) skipped in omega (arith, z))

-- What the loop does to the tenant's own tally.
account_all_volumes :
    (vs : List VolumeRecord) (t : Tally) → (account_all vs t).volumes ≡ length vs + t.volumes
unfolding account_all account_volume
account_all_volumes [] t = omega arith
account_all_volumes (v ∷ vs) t = omega (arith, account_all_volumes vs (account_volume v t))

account_all_capacity :
    (storage : Text)
    → is_empty storage ≡ false
    → (vs : List VolumeRecord) (t : Tally)
    → used_on storage (account_all vs t).capacity
      ≡ bytes_if (on_storage storage) vs + used_on storage t.capacity
unfolding account_all account_volume
account_all_capacity storage h [] t = omega arith
account_all_capacity storage h (v ∷ vs) t = omega (
  arith,
  account_all_capacity storage h vs (account_volume v t),
  used_on-add_capacity storage v.spec.storage (counted_bytes v) t.capacity h,
  same_charge (on_storage storage v) v,
)

-- What the loop does to the entry of a namespace.
entry_all : List VolumeRecord → NamespaceUsage → NamespaceUsage
entry_all [] u = u
entry_all (v ∷ vs) u = entry_all vs (account_entry v u)

account_entry-namespace :
    (v : VolumeRecord) (u : NamespaceUsage) → (account_entry v u).namespace ≡ u.namespace
unfolding account_entry
account_entry-namespace v u = elim (Bool-cases (text_eq u.namespace v.spec.claim_namespace)) [
  | inl same ↦ rw same refl
  | inr other ↦ rw other refl
]

has_entry : Text → List NamespaceUsage → Bool
has_entry namespace [] = false
has_entry namespace (u ∷ us) = text_eq u.namespace namespace || has_entry namespace us

has_entry-map :
    (v : VolumeRecord) (namespace : Text) (us : List NamespaceUsage)
    → has_entry namespace (map (account_entry v) us) ≡ has_entry namespace us
unfolding has_entry
has_entry-map v namespace [] = refl
has_entry-map v namespace (u ∷ us) =
    rw (account_entry-namespace v u, has_entry-map v namespace us) refl

namespace_usage_of-map :
    (v : VolumeRecord) (namespace : Text) (us : List NamespaceUsage)
    → has_entry namespace us ≡ true
    → namespace_usage_of namespace (map (account_entry v) us)
      ≡ account_entry v (namespace_usage_of namespace us)
unfolding namespace_usage_of has_entry account_entry
namespace_usage_of-map v namespace [] h = ground (arith, h)
namespace_usage_of-map v namespace (u ∷ us) h = elim (Bool-cases (text_eq u.namespace namespace)) [
  | inl here ↦ rw (account_entry-namespace v u, here) refl
  | inr elsewhere ↦
      rw (account_entry-namespace v u, elsewhere)
        (namespace_usage_of-map v namespace us (rw elsewhere at h))
]

usage_of-account_all :
    (namespace : Text) (vs : List VolumeRecord) (t : Tally)
    → has_entry namespace t.per_namespace ≡ true
    → namespace_usage_of namespace (account_all vs t).per_namespace
      ≡ entry_all vs (namespace_usage_of namespace t.per_namespace)
unfolding account_all account_volume entry_all
usage_of-account_all namespace [] t h = refl
usage_of-account_all namespace (v ∷ vs) t h =
    usage_of-account_all namespace vs (account_volume v t)
      (has_entry-map v namespace t.per_namespace ∙ h)
    ∙ ap (entry_all vs) (namespace_usage_of-map v namespace t.per_namespace h)

-- The entry that is made for a quota: a later quota of the namespace makes an equal one.
usage_of-fresh :
    (q : NamespaceQuota) (qs : List NamespaceQuota)
    → has_entry q.namespace (map fresh_entry qs) ≡ true
    → namespace_usage_of q.namespace (map fresh_entry qs) ≡ fresh_entry q
unfolding namespace_usage_of has_entry
usage_of-fresh q [] h = ground (arith, h)
usage_of-fresh q (r ∷ qs) h = elim (Bool-cases (text_eq r.namespace q.namespace)) [
  | inl here ↦ rw here (
      ap (λ n. record { namespace = n; volumes = 0; capacity = [] })
        (eq_of_text_eq r.namespace q.namespace here))
  | inr elsewhere ↦ rw elsewhere (usage_of-fresh q qs (rw elsewhere at h))
]

-- The usage that is published for a namespace is that of the claims of the namespace.
abbrev pub IsUsageOf : List VolumeRecord → NamespaceUsage → Type 0
IsUsageOf vs u =
    (u.volumes ≡ count_if (claimed_from u.namespace) vs)
    × ((storage : Text)
        → is_empty storage ≡ false
        → used_on storage u.capacity ≡ bytes_if (claimed_on u.namespace storage) vs)

entry_all-namespace :
    (vs : List VolumeRecord) (u : NamespaceUsage) → (entry_all vs u).namespace ≡ u.namespace
unfolding entry_all
entry_all-namespace [] u = refl
entry_all-namespace (v ∷ vs) u =
    entry_all-namespace vs (account_entry v u) ∙ account_entry-namespace v u

account_entry_volumes :
    (v : VolumeRecord) (u : NamespaceUsage)
    → (account_entry v u).volumes ≡ (if claimed_from u.namespace v then 1 else 0) + u.volumes
unfolding account_entry
account_entry_volumes v u = elim (Bool-cases (text_eq u.namespace v.spec.claim_namespace)) [
  | inl same ↦ rw same (omega arith)
  | inr other ↦ rw other (omega arith)
]

account_entry_capacity :
    (v : VolumeRecord) (u : NamespaceUsage) (storage : Text)
    → is_empty storage ≡ false
    → used_on storage (account_entry v u).capacity
      ≡ (if claimed_on u.namespace storage v then counted_bytes v else 0)
        + used_on storage u.capacity
unfolding account_entry
account_entry_capacity v u storage h =
    elim (Bool-cases (text_eq u.namespace v.spec.claim_namespace)) [
      | inl same ↦
          rw same (used_on-add_capacity storage v.spec.storage (counted_bytes v) u.capacity h)
      | inr other ↦ rw other (omega arith)
    ]

entry_all_volumes :
    (vs : List VolumeRecord) (u : NamespaceUsage)
    → (entry_all vs u).volumes ≡ count_if (claimed_from u.namespace) vs + u.volumes
unfolding entry_all account_entry text_eq
entry_all_volumes [] u = omega arith
entry_all_volumes (v ∷ vs) u =
    (let rest = rw (account_entry-namespace v u) at (entry_all_volumes vs (account_entry v u)) in
      omega (arith, rest, account_entry_volumes v u))

entry_all_capacity :
    (storage : Text)
    → is_empty storage ≡ false
    → (vs : List VolumeRecord) (u : NamespaceUsage)
    → used_on storage (entry_all vs u).capacity
      ≡ bytes_if (claimed_on u.namespace storage) vs + used_on storage u.capacity
unfolding entry_all lookup text_eq account_entry counted_bytes
entry_all_capacity storage h [] u = omega arith
entry_all_capacity storage h (v ∷ vs) u =
    (let rest =
        rw (account_entry-namespace v u) at (entry_all_capacity storage h vs (account_entry v u)) in
      omega (
        arith,
        rest,
        account_entry_capacity v u storage h,
        same_charge (claimed_on u.namespace storage v) v,
      ))

entry_all-IsUsageOf :
    (vs : List VolumeRecord) (q : NamespaceQuota) → IsUsageOf vs (entry_all vs (fresh_entry q))
unfolding lookup
entry_all-IsUsageOf vs q = rw (entry_all-namespace vs (fresh_entry q)) (
  (let e = entry_all_volumes vs (fresh_entry q) in omega (arith, e)),
  λ storage h. (let e = entry_all_capacity storage h vs (fresh_entry q) in omega (arith, e)),
)

-- Every quota has its entry.
abbrev AllHave : List NamespaceUsage → List NamespaceQuota → Type 0
AllHave us qs = All (λ q. has_entry q.namespace us ≡ true) qs

AllHave-cons :
    (u : NamespaceUsage) (us : List NamespaceUsage) (qs : List NamespaceQuota)
    → AllHave us qs
    → AllHave (u ∷ us) qs
unfolding has_entry
AllHave-cons u us [] h = tt
AllHave-cons u us (q ∷ qs) h = (ground (arith, h.0), AllHave-cons u us qs h.1)

AllHave-fresh : (qs : List NamespaceQuota) → AllHave (map fresh_entry qs) qs
unfolding has_entry
AllHave-fresh [] = tt
AllHave-fresh (q ∷ qs) = (
  ground (arith, text_eq_refl q.namespace),
  AllHave-cons (fresh_entry q) (map fresh_entry qs) qs (AllHave-fresh qs),
)

-- The usage of a registration, as sums over the ledger.
pub record IsUsage (tenant : Tenant) (vs : List VolumeRecord) : Type 0 where
  pub counted : (aggregated tenant vs).used_volumes ≡ length vs
  pub charged :
      (storage : Text)
      → is_empty storage ≡ false
      → used_on storage (aggregated tenant vs).used_capacity ≡ bytes_if (on_storage storage) vs
  pub namespaces : All (IsUsageOf vs) (aggregated tenant vs).namespace_used
  pub in_order :
      map (λ u. u.namespace) (aggregated tenant vs).namespace_used
      ≡ map (λ q. q.namespace) tenant.namespace_quotas

module _ (tenant : Tenant) (vs : List VolumeRecord) where
  abbrev entries : List NamespaceUsage
  entries = (account_all vs (fresh_tally tenant.namespace_quotas)).per_namespace

  entry_of :
      (q : NamespaceQuota)
      → has_entry q.namespace (map fresh_entry tenant.namespace_quotas) ≡ true
      → namespace_usage_of q.namespace entries ≡ entry_all vs (fresh_entry q)
  entry_of q h =
      usage_of-account_all q.namespace vs (fresh_tally tenant.namespace_quotas) h
      ∙ ap (entry_all vs) (usage_of-fresh q tenant.namespace_quotas h)

  entries_of :
      (qs : List NamespaceQuota)
      → AllHave (map fresh_entry tenant.namespace_quotas) qs
      → map (λ q. namespace_usage_of q.namespace entries) qs
        ≡ map (λ q. entry_all vs (fresh_entry q)) qs
  entries_of [] h = refl
  entries_of (q ∷ qs) h = ap₂ (λ u us. u ∷ us) (entry_of q h.0) (entries_of qs h.1)

  namespace_used_is :
      (aggregated tenant vs).namespace_used
      ≡ map (λ q. entry_all vs (fresh_entry q)) tenant.namespace_quotas
  unfolding aggregated
  namespace_used_is = entries_of tenant.namespace_quotas (AllHave-fresh tenant.namespace_quotas)

  usages :
      (qs : List NamespaceQuota)
      → All (IsUsageOf vs) (map (λ q. entry_all vs (fresh_entry q)) qs)
        × (map (λ u. u.namespace) (map (λ q. entry_all vs (fresh_entry q)) qs)
            ≡ map (λ q. q.namespace) qs)
  usages [] = (tt, refl)
  usages (q ∷ qs) = (
    (entry_all-IsUsageOf vs q, (usages qs).0),
    ap₂ (λ n ns. n ∷ ns) (entry_all-namespace vs (fresh_entry q)) (usages qs).1,
  )

  -- The usage that a reconcile publishes from a ledger: its number of volumes, for each named storage
  -- the sum, over its volumes on the storage, of the larger of what was asked for and what was reported, and for each quota of a namespace, in
  -- the order of the quotas, the same numbers for the volumes that are claimed from the namespace.
  pub aggregated-IsUsage : IsUsage tenant vs
  unfolding aggregated lookup
  aggregated-IsUsage = record {
    counted =
        (let e = account_all_volumes vs (fresh_tally tenant.namespace_quotas) in omega (arith, e));
    charged = λ storage h.
        (let e = account_all_capacity storage h vs (fresh_tally tenant.namespace_quotas) in
          omega (arith, e));
    namespaces =
        subst (All (IsUsageOf vs)) (sym namespace_used_is) (usages tenant.namespace_quotas).0;
    in_order = ap (map (λ u. u.namespace)) namespace_used_is ∙ (usages tenant.namespace_quotas).1;
  }
