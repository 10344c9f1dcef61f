-- ===== src/Operator/Provision/Refusal.antt =====
-- The flat sequence of refusals of `reconcileProvision`, in
-- pkg/operator/controller/volume/provision.go, against the rules of a registration.
use proxmox_csi_plugin.Prelude.{◌≡◌, refl, sym, true, false, ◌&&◌, none, arith}
use proxmox_csi_plugin.Text.{is_empty, contains_text, text_eq_iff}
use proxmox_csi_plugin.Operator.Types.{
  TenantMode, enforce, decommission, suspended, observe, VolumeRecord, Tenant,
}
use proxmox_csi_plugin.Operator.Phase.{acts, is_suspended, is_observe}
use proxmox_csi_plugin.Operator.Quota.{check_parameter_policy, check_quota, check_namespace_quota}
use proxmox_csi_plugin.Operator.Provision.{some_quotas, refusal}

-- The record passes the checks of the registration.
pub record Keeps (tenant : Tenant) (vol : VolumeRecord) : Type 0 where
  pub mode : acts tenant.mode ≡ true
  pub region : vol.spec.region ≡ tenant.region
  pub storage : contains_text tenant.allowed_storages vol.spec.storage ≡ true
  pub policy :
      check_parameter_policy tenant.parameter_policy vol.spec.parameters vol.spec.capacity_bytes
      ≡ true
  pub quota : check_quota tenant vol ≡ true
  pub claimed : (some_quotas tenant.namespace_quotas && is_empty vol.spec.claim_namespace) ≡ false
  pub namespace_quota : check_namespace_quota tenant vol ≡ true

active_mode : (m : TenantMode) → is_suspended m ≡ false → is_observe m ≡ false → acts m ≡ true
active_mode enforce h k = refl
active_mode decommission h k = refl
active_mode suspended h k = sym h
active_mode observe h k = sym k

passive_mode : (m : TenantMode) → acts m ≡ true → (is_suspended m ≡ false) × (is_observe m ≡ false)
passive_mode enforce h = (refl, refl)
passive_mode decommission h = (refl, refl)
passive_mode suspended h = (sym h, refl)
passive_mode observe h = (refl, sym h)

-- A record that is not refused passes all the checks.
pub refusal-Keeps :
    (tenant : Tenant) (vol : VolumeRecord) → refusal tenant vol ≡ none → Keeps tenant vol
unfolding refusal
refusal-Keeps tenant vol h = record {
  mode = active_mode tenant.mode (ground (arith, h)) (ground (arith, h));
  region = ground (arith, h, text_eq_iff vol.spec.region tenant.region);
  storage = ground (arith, h);
  policy = ground (arith, h);
  quota = ground (arith, h);
  claimed = ground (arith, h);
  namespace_quota = ground (arith, h);
}

pub Keeps-refusal :
    (tenant : Tenant) (vol : VolumeRecord) → Keeps tenant vol → refusal tenant vol ≡ none
unfolding refusal
Keeps-refusal tenant vol k =
    (let m = passive_mode tenant.mode k.mode in
      ground (
        arith,
        m.0,
        m.1,
        text_eq_iff vol.spec.region tenant.region,
        k.region,
        k.storage,
        k.policy,
        k.quota,
        k.claimed,
        k.namespace_quota,
      ))
