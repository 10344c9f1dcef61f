-- ===== src/Placement.antt =====
-- pkg/migrator/placement.go: which zone, and which storage, a volume moves to. A map is the list of its
-- entries in the order of the keys, in which the source reads it; `required`, the bytes that a size
-- needs with the headroom, is a parameter, since the source computes it with floating-point numbers.
pub mod Target
pub mod Cross
pub mod Plan
pub mod Zone
use proxmox_csi_plugin.Prelude.{
  ℕ, Bool, true, false, not, ◌&&◌, ◌||◌, List, [], ◌∷◌, Option, none, some, ltb, if◌then◌else◌,
}
use proxmox_csi_plugin.Text.{Text, text_eq, is_empty, contains_text, lookup}

pub record ZoneCapacity : Type 0 where
  pub zone : Text
  pub avail : ℕ
  pub total : ℕ

abbrev pub no_zone : ZoneCapacity
no_zone = record { zone = []; avail = 0; total = 0 }

-- The body of the loop of `SelectTarget`.
unfoldable pub better : List Text → ℕ → ZoneCapacity → ZoneCapacity → ZoneCapacity
better exclude required best z =
    if contains_text exclude z.zone || ltb z.avail required
    then best
    else if ltb best.avail z.avail
    then z
    else best

unfoldable pub best_zone : List ZoneCapacity → List Text → ℕ → ZoneCapacity → ZoneCapacity
best_zone [] exclude required best = best
best_zone (z ∷ zones) exclude required best =
    best_zone zones exclude required (better exclude required best z)

-- `SelectTarget`; an error is `none`.
unfoldable pub select_target : List ZoneCapacity → List Text → (required : ℕ) → Option Text
select_target zones exclude required =
    let best = best_zone zones exclude required no_zone in
    if is_empty best.zone then none else some best.zone

pub record StorageCandidates : Type 0 where
  pub capacities : List (Text × List ZoneCapacity)
  pub default_storage : Text

-- A storage that is not there has no zones.
abbrev pub zones_of : Option (List ZoneCapacity) → List ZoneCapacity
zones_of none = []
zones_of (some zones) = zones

unfoldable pub capacities_of : StorageCandidates → Text → List ZoneCapacity
capacities_of c storage = zones_of (lookup storage c.capacities)

-- The best zone of the last loop, with its storage.
pub record Choice : Type 0 where
  pub best_zone_of : Text
  pub best_storage : Text
  pub best_avail : ℕ

abbrev pub no_choice : Choice
no_choice = record { best_zone_of = []; best_storage = []; best_avail = 0 }

-- The body of the inner loop.
unfoldable pub better_choice : (source_zone storage : Text) → ℕ → Choice → ZoneCapacity → Choice
better_choice source_zone storage required best z =
    if text_eq z.zone source_zone || ltb z.avail required
    then best
    else if ltb best.best_avail z.avail
    then record { best_zone_of = z.zone; best_storage = storage; best_avail = z.avail }
    else best

unfoldable pub best_in_storage :
    (source_zone storage : Text) → ℕ → List ZoneCapacity → Choice → Choice
best_in_storage source_zone storage required [] best = best
best_in_storage source_zone storage required (z ∷ zones) best =
    best_in_storage source_zone storage required zones
      (better_choice source_zone storage required best z)

-- The body of the outer loop: the two storages that were tried are passed over.
unfoldable pub best_of_storage :
    (source_zone : Text)
    → (tried : List Text) → ℕ
    → Choice
    → (storage : Text) → List ZoneCapacity
    → Choice
best_of_storage source_zone tried required best storage zones =
    if contains_text tried storage
    then best
    else best_in_storage source_zone storage required zones best

unfoldable pub best_anywhere :
    (source_zone : Text)
    → (tried : List Text) → ℕ
    → List (Text × List ZoneCapacity)
    → Choice
    → Choice
best_anywhere source_zone tried required [] best = best
best_anywhere source_zone tried required ((storage, zones) ∷ capacities) best =
    best_anywhere source_zone tried required capacities
      (best_of_storage source_zone tried required best storage zones)

unfoldable pub chosen : Choice → Option (Text × Text)
chosen best =
    if is_empty best.best_zone_of then none else some (best.best_zone_of, best.best_storage)

-- A target on a storage, or else the next one.
unfoldable pub or_target : Option Text → Text → Option (Text × Text) → Option (Text × Text)
or_target (some zone) storage next = some (zone, storage)
or_target none storage next = next

abbrev pub default_target :
    StorageCandidates → (source_zone source_storage : Text) → ℕ → Option Text
default_target c source_zone source_storage required =
    if not (is_empty c.default_storage) && not (text_eq c.default_storage source_storage)
    then select_target (capacities_of c c.default_storage) (source_zone ∷ []) required
    else none

-- `SelectCrossStorageTarget`: the zone and the storage.
unfoldable pub select_cross_storage_target :
    StorageCandidates → (source_zone source_storage : Text) → (required : ℕ) → Option (Text × Text)
select_cross_storage_target c source_zone source_storage required =
    or_target (select_target (capacities_of c source_storage) (source_zone ∷ []) required)
      source_storage
      (or_target (default_target c source_zone source_storage required) c.default_storage (
        chosen (
          best_anywhere source_zone (source_storage ∷ c.default_storage ∷ []) required c.capacities
            no_choice)))
