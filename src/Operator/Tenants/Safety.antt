-- ===== src/Operator/Tenants/Safety.antt =====
-- The effects that a reconcile of a registration may have, for
-- pkg/operator/controller/tenant/reconciler.go.
use proxmox_csi_plugin.Prelude.{ℕ, ◌≡◌, true, false, List}
use proxmox_csi_plugin.Operator.Types.{accepted, VolumeRecord, Tenant}
use proxmox_csi_plugin.Operator.Action.{Env}
use proxmox_csi_plugin.Operator.Usage.{aggregated}
use proxmox_csi_plugin.Operator.Tenants.{tenant_admitted, held_tenant}
use proxmox_csi_plugin.Operator.Tenants.Effects.{Ledger}

module _ (env : Env) (now : ℕ) (tenant : Tenant) where
  module _ (live : tenant.deleting ≡ false) (vols : List VolumeRecord)
      (ledger : Ledger env tenant vols) where
    abbrev counted : Tenant
    counted = aggregated (held_tenant tenant) vols

    abbrev judged : Tenant
    judged = tenant_admitted true accepted counted
