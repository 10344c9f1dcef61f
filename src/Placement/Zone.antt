-- ===== src/Placement/Zone.antt =====
-- `StorageForZone` of pkg/migrator/placement.go: the storage to use in a zone that was chosen.
pub mod Choice
pub mod Answer
use proxmox_csi_plugin.Prelude.{
  ℕ, Bool, true, false, not, ◌&&◌, ◌||◌, List, [], ◌∷◌, Option, none, some, ltb, if◌then◌else◌,
}
use proxmox_csi_plugin.Text.{Text, text_eq, is_empty}
use proxmox_csi_plugin.Placement.{ZoneCapacity, StorageCandidates, capacities_of}

unfoldable pub has_zone : Text → List ZoneCapacity → Bool
has_zone zone [] = false
has_zone zone (z ∷ zones) = text_eq z.zone zone || has_zone zone zones

unfoldable pub hosts_zone : StorageCandidates → Text → Text → Bool
unfolding has_zone
hosts_zone c zone storage = has_zone zone (capacities_of c storage)

-- The best storage so far.
pub record Best : Type 0 where
  pub storage : Text
  pub avail : ℕ

abbrev pub no_best : Best
no_best = record { storage = []; avail = 0 }

-- The body of the inner loop.
unfoldable pub better_on : (zone storage : Text) → Best → ZoneCapacity → Best
better_on zone storage best z =
    if text_eq z.zone zone && ltb best.avail z.avail
    then record { storage = storage; avail = z.avail }
    else best

unfoldable pub best_on : (zone storage : Text) → List ZoneCapacity → Best → Best
unfolding better_on
best_on zone storage [] best = best
best_on zone storage (z ∷ zones) best = best_on zone storage zones (better_on zone storage best z)

unfoldable pub best_storage_on : Text → List (Text × List ZoneCapacity) → Best → Best
unfolding best_on
best_storage_on zone [] best = best
best_storage_on zone ((storage, zones) ∷ capacities) best =
    best_storage_on zone capacities (best_on zone storage zones best)

unfoldable pub best_or_none : Best → Option Text
best_or_none best = if is_empty best.storage then none else some best.storage

-- `StorageForZone`; the empty text is that no other storage is needed, and an error is `none`.
unfoldable pub storage_for_zone : StorageCandidates → (zone source_storage : Text) → Option Text
unfolding hosts_zone best_storage_on best_or_none
storage_for_zone c zone source_storage =
    if hosts_zone c zone source_storage
    then some []
    else if not (is_empty c.default_storage) && hosts_zone c zone c.default_storage
    then some c.default_storage
    else best_or_none (best_storage_on zone c.capacities no_best)
