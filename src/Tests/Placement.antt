-- ===== src/Tests/Placement.antt =====
-- The theorems on the choice of a target, for two zones of one storage.
use proxmox_csi_plugin.Prelude.{◌≡◌, ◌↔◌, refl, List, [], ◌∷◌, none, All}
use proxmox_csi_plugin.Text.{codes, text_eq, is_empty, contains_text, lookup}
use proxmox_csi_plugin.Placement.{
  ZoneCapacity, better, best_zone, select_target, StorageCandidates, capacities_of, or_target,
  select_cross_storage_target,
}
use proxmox_csi_plugin.Placement.Target.{
  IsEligible, IsTarget, select_target-IsTarget, select_target-eq-none,
}
use proxmox_csi_plugin.Placement.Cross.{IsCrossTarget, select_cross_storage_target-IsCrossTarget}

abbrev zones : List ZoneCapacity
zones =
    record { zone = codes "a"; avail = 10; total = 20 }
    ∷ record { zone = codes "b"; avail = 15; total = 20 }
    ∷ []

select_target-IsTarget_example : IsTarget (codes "a" ∷ []) 12 zones (codes "b")
select_target-IsTarget_example =
    select_target-IsTarget (codes "a" ∷ []) 12 zones (codes "b")
      (unfold select_target best_zone better contains_text text_eq is_empty in refl)

select_target-eq-none_example :
    (select_target zones (codes "a" ∷ []) 16 ≡ none)
    ↔ All (λ z. IsEligible (codes "a" ∷ []) 16 z → z.avail ≡ 0) zones
select_target-eq-none_example =
    select_target-eq-none (codes "a" ∷ []) 16 zones (unfold is_empty in (refl, (refl, tt)))

abbrev candidates : StorageCandidates
candidates = record { capacities = (codes "lvm", zones) ∷ []; default_storage = codes "lvm" }

select_cross_storage_target-IsCrossTarget_example :
    IsCrossTarget candidates (codes "a") 12 (codes "lvm") (codes "lvm") (codes "b")
select_cross_storage_target-IsCrossTarget_example =
    select_cross_storage_target-IsCrossTarget candidates (codes "a") 12 (codes "lvm") (codes "b")
      (codes "lvm")
      (unfold select_cross_storage_target capacities_of lookup select_target best_zone better
          contains_text text_eq is_empty or_target in
        refl)
