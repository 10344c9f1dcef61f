-- ===== src/Tests/Delete.antt =====
-- A run of a deletion, for a tenant that is only observed.
use proxmox_csi_plugin.Prelude.{◌≡◌, refl, [], ◌∷◌, some}
use proxmox_csi_plugin.Text.{codes, is_empty}
use proxmox_csi_plugin.Operator.Types.{observe, Tenant}
use proxmox_csi_plugin.Operator.Action.{Env, update_volume, delete_disk, return, finished}
use proxmox_csi_plugin.Operator.Delete.{referenced, reconcile_delete}
use proxmox_csi_plugin.Operator.Delete.Complete.{reconcile_delete_works}
use proxmox_csi_plugin.Prelude.{true, false}
use proxmox_csi_plugin.Tests.Ledger.{tenant, made, answering}

abbrev observed_tenant : Tenant
observed_tenant = record tenant { mode = observe }

abbrev observing : Env
observing = record answering { list_tenants = λ t. some (observed_tenant ∷ []) }

reconcile_delete_works_example : reconcile_delete observing true made [] ≡ (
  return finished,
  update_volume (record made { finalizer = false })
      ∷ delete_disk (codes "r1") (codes "pve1") (codes "lvm") (codes "vm-9999-pvc-1")
      ∷ [],
)
reconcile_delete_works_example =
    reconcile_delete_works observing (λ t e. refl) made [] (λ t. refl) (unfold referenced in refl)
      (unfold is_empty in refl) (observed_tenant ∷ []) (λ t. refl) refl refl refl []
