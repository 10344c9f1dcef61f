-- ===== src/Operator/Register/Order.antt =====
-- `older` of pkg/operator/controller/tenant/reconciler.go, as an order.
use proxmox_csi_plugin.Prelude.{◌≡◌, true, false, arith}
use proxmox_csi_plugin.Text.{text_lt_asymm, text_lt_total}
use proxmox_csi_plugin.Operator.Types.{Tenant}
use proxmox_csi_plugin.Operator.Register.{older}

pub older_asymm : (a b : Tenant) → older a b ≡ true → older b a ≡ false
unfolding older
older_asymm a b h = ground (arith, text_lt_asymm a.name b.name)

pub older_total : (a b : Tenant) → older a b ≡ false → older b a ≡ false → a.name ≡ b.name
unfolding older
older_total a b h k = text_lt_total a.name b.name (ground (arith, h, k)) (ground (arith, h, k))
