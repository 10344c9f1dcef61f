-- ===== src/Tests/Catalog.antt =====
-- The theorems on the catalog of storages, and on the locks of VMs.
use proxmox_csi_plugin.Prelude.{◌≡◌, refl, []}
use proxmox_csi_plugin.Text.{Text, codes, text_eq, is_empty, lookup}
use proxmox_csi_plugin.Operator.Action.Rules.{Emits}
use proxmox_csi_plugin.Operator.StorageName.{
  exact, labels_of, object_name, join_labels, sanitize, trim, trim_left, trim_right,
}
use proxmox_csi_plugin.Operator.StorageName.Names.{IsObjectName, object_name-IsObjectName}
use proxmox_csi_plugin.Operator.StorageName.Case.{object_name_ignores_case}
use proxmox_csi_plugin.Operator.Publisher.{sync_region}
use proxmox_csi_plugin.Operator.Publisher.Safety.{PublishEffect, sync_region_safe}
use proxmox_csi_plugin.Operator.VmLock.{
  Locks, new_vm_lock, enter_lock, acquire, get, Reach, here, next, enters, acquires,
}
use proxmox_csi_plugin.Operator.VmLock.Exclusion.{IsExclusive, Reach-IsExclusive}
use proxmox_csi_plugin.Tests.Ledger.{answering}

abbrev digest : Text → Text
digest k = codes "0123abcd"

object_name-IsObjectName_example :
    IsObjectName (object_name digest (codes "bne") (codes "pve_1") (codes "ceph.rbd"))
object_name-IsObjectName_example =
    object_name-IsObjectName digest (codes "bne") (codes "pve_1") (codes "ceph.rbd")
      (λ k. record { size = refl; digits = refl }) refl refl refl

object_name_ignores_case_example :
    object_name digest (codes "bne") [] (codes "Fast")
    ≡ object_name digest (codes "bne") [] (codes "fast")
object_name_ignores_case_example =
    object_name_ignores_case digest (codes "bne") [] (codes "Fast") (codes "fast") refl
      (unfold exact sanitize trim trim_left trim_right is_empty text_eq in refl)
      (unfold labels_of join_labels sanitize trim trim_left trim_right is_empty in refl)
      (unfold labels_of join_labels sanitize trim trim_left trim_right is_empty in refl)

sync_region_safe_example :
    Emits (PublishEffect digest answering (codes "r1")) (sync_region digest answering (codes "r1"))
sync_region_safe_example = sync_region_safe digest answering (codes "r1")

abbrev entered_once : Locks
entered_once = enter_lock 1 (codes "r1") 105 new_vm_lock

first_enters : Reach new_vm_lock entered_once
first_enters = next here (enters new_vm_lock 1 (codes "r1") 105 refl)

abbrev locked_once : Locks
locked_once = acquire 1 (codes "r1") 105 0 entered_once

first_locks : Reach new_vm_lock locked_once
first_locks = next first_enters (
    acquires entered_once 1 (codes "r1") 105 0 (unfold enter_lock get lookup in refl)
      (unfold enter_lock get lookup in refl))

-- A second thread waits for the same VM.
second_enters : Reach new_vm_lock (enter_lock 2 (codes "r1") 105 locked_once)
second_enters =
    next first_locks
      (enters locked_once 2 (codes "r1") 105 (unfold acquire enter_lock get lookup in refl))

Reach-IsExclusive_example : IsExclusive (enter_lock 2 (codes "r1") 105 locked_once)
Reach-IsExclusive_example = Reach-IsExclusive second_enters
