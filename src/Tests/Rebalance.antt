-- ===== src/Tests/Rebalance.antt =====
-- A rebalance of two zones.
use proxmox_csi_plugin.Prelude.{
  ℕ, ◌+◌, ◌-◌, ◌*◌, ◌/◌, ltb, leb, false, ◌≡◌, refl, List, [], ◌∷◌, some, arith,
}
use proxmox_csi_plugin.Text.{codes, text_eq, is_empty, contains_text, lookup}
use proxmox_csi_plugin.Placement.{ZoneCapacity, better, best_zone, select_target}
use proxmox_csi_plugin.Placement.Plan.{
  VolumeInfo, put, at, totals, avails, insert_volume, idle, take_first, has_volumes, Rules, used,
  fuller, fullest, candidates, shifted, placed, place, round, plan_loop, start, plan,
}
use proxmox_csi_plugin.Placement.Plan.Loop.{IsMade, plan-IsMade}

abbrev zones : List ZoneCapacity
zones =
    record { zone = codes "a"; avail = 10; total = 20 }
    ∷ record { zone = codes "b"; avail = 15; total = 20 }
    ∷ []

-- Fractions are counted in hundredths.
abbrev rules : Rules
rules = record {
  Fraction = ℕ;
  no_use = 0;
  fraction = λ avail total. ((total - avail) * 100) / total;
  at_least = λ a b. leb b a;
  above = λ a b. ltb b a;
  high = 50;
  low = 40;
  required = λ size. size + size / 5;
}

abbrev volumes : List VolumeInfo
volumes =
    record {
      namespace = codes "apps";
      pvc_name = codes "data";
      pv_name = codes "pv-1";
      zone = codes "a";
      size_bytes = 4;
      in_use = false;
    }
    ∷ []

-- The volume of the zone that is half full moves to the other.
plan_moves_volume :
    plan rules zones 2 volumes 3
    ≡ some (
        record {
          namespace = codes "apps";
          pvc_name = codes "data";
          pv_name = codes "pv-1";
          source = codes "a";
          target = codes "b";
          size_bytes = 4;
        }
        ∷ [])
unfolding plan plan_loop round place placed candidates fullest fuller used has_volumes take_first at
    totals avails put start idle insert_volume shifted select_target best_zone better contains_text
    text_eq is_empty lookup
plan_moves_volume = refl

plan-IsMade_example : IsMade rules zones volumes 3 (plan rules zones 2 volumes 3)
plan-IsMade_example = plan-IsMade rules zones volumes 2 3 (omega arith)
