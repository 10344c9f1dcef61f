-- ===== src/Operator/Claim/Order.antt =====
-- `olderClaim` of pkg/operator/controller/volume/reconciler.go, as an order.
use proxmox_csi_plugin.Prelude.{Bool, ◌≡◌, true, false, arith}
use proxmox_csi_plugin.Text.{text_eq_iff, text_lt_asymm, text_lt_total, text_lt_trans}
use proxmox_csi_plugin.Operator.Types.{VolumeRecord}
use proxmox_csi_plugin.Operator.Claim.{older_claim, same_record}

pub older_claim_asymm : (a b : VolumeRecord) → older_claim a b ≡ true → older_claim b a ≡ false
unfolding older_claim
older_claim_asymm a b h = ground (
  arith,
  text_eq_iff a.namespace b.namespace,
  text_eq_iff b.namespace a.namespace,
  text_lt_asymm a.namespace b.namespace,
  text_lt_asymm a.name b.name,
)

pub older_claim_total :
    (a b : VolumeRecord)
    → older_claim a b ≡ false
    → older_claim b a ≡ false
    → same_record a b ≡ true
unfolding older_claim same_record
older_claim_total a b h k = ground (
  arith,
  text_eq_iff a.namespace b.namespace,
  text_eq_iff b.namespace a.namespace,
  text_eq_iff a.name b.name,
  text_lt_total a.namespace b.namespace,
  text_lt_total a.name b.name,
)

pub older_claim_trans :
    (a b c : VolumeRecord)
    → older_claim a b ≡ true
    → older_claim b c ≡ true
    → older_claim a c ≡ true
unfolding older_claim
older_claim_trans a b c h k = ground (
  arith,
  text_eq_iff a.namespace b.namespace,
  text_eq_iff b.namespace c.namespace,
  text_eq_iff a.namespace c.namespace,
  text_lt_trans a.namespace b.namespace c.namespace,
  text_lt_trans a.name b.name c.name,
  text_lt_asymm a.namespace b.namespace,
)

-- A strict total order of the records, up to their namespace and name.
pub record IsRecordOrder (lt : VolumeRecord → VolumeRecord → Bool) : Type 0 where
  pub asymm : (a b : VolumeRecord) → lt a b ≡ true → lt b a ≡ false
  pub total : (a b : VolumeRecord) → lt a b ≡ false → lt b a ≡ false → same_record a b ≡ true
  pub trans : (a b c : VolumeRecord) → lt a b ≡ true → lt b c ≡ true → lt a c ≡ true

-- The order of claims is a strict total order: of two records at most one is the older claim, two of
-- which neither is have the same namespace and name, and the order is transitive.
pub older_claim-IsRecordOrder : IsRecordOrder older_claim
older_claim-IsRecordOrder = record {
  asymm = older_claim_asymm;
  total = older_claim_total;
  trans = older_claim_trans;
}
