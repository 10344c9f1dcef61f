-- ===== src/Tests/ZoneStorage.antt =====
-- The storage of a zone that the source storage does not host.
use proxmox_csi_plugin.Prelude.{◌≡◌, refl, [], ◌∷◌, some}
use proxmox_csi_plugin.Text.{codes, text_eq, is_empty, lookup}
use proxmox_csi_plugin.Placement.{StorageCandidates, capacities_of}
use proxmox_csi_plugin.Placement.Zone.{
  has_zone, hosts_zone, better_on, best_on, best_storage_on, best_or_none, storage_for_zone,
}
use proxmox_csi_plugin.Placement.Zone.Answer.{IsAnswer, storage_for_zone-IsAnswer}

abbrev candidates : StorageCandidates
candidates = record {
  capacities =
      (codes "fast", record { zone = codes "b"; avail = 7; total = 20 } ∷ [])
      ∷ (codes "lvm", record { zone = codes "a"; avail = 10; total = 20 } ∷ [])
      ∷ (codes "slow", record { zone = codes "b"; avail = 15; total = 20 } ∷ [])
      ∷ [];
  default_storage = codes "lvm";
}

storage_for_zone_b : storage_for_zone candidates (codes "b") (codes "lvm") ≡ some (codes "slow")
unfolding storage_for_zone hosts_zone has_zone best_storage_on best_on better_on best_or_none
    capacities_of lookup text_eq is_empty
storage_for_zone_b = refl

storage_for_zone-IsAnswer_example :
    IsAnswer candidates
      (codes "b")
      (codes "lvm")
      (storage_for_zone candidates (codes "b") (codes "lvm"))
storage_for_zone-IsAnswer_example =
    storage_for_zone-IsAnswer candidates (codes "b") (codes "lvm")
      (unfold is_empty in (refl, (refl, (refl, tt))))
