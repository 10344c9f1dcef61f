-- ===== src/Placement/Plan.antt =====
-- `Plan` of pkg/migrator/placement.go, the greedy rebalance of the zones of a storage. The fractions of
-- used space are floating-point numbers: their type, the quotient and the two comparisons are parameters,
-- as are the thresholds and the bytes that a size needs with the headroom, which are no fewer than the
-- size.
pub mod Volumes
pub mod Loop
use proxmox_csi_plugin.Prelude.{
  ℕ, zero, suc, ◌+◌, ◌-◌, Bool, true, false, not, ◌&&◌, ◌||◌, List, [], ◌∷◌, ◌++◌, Option, none,
  some, length, ltb, leb, ◌==◌, if◌then◌else◌,
}
use proxmox_csi_plugin.Text.{Text, text_eq, is_empty, lookup}
use proxmox_csi_plugin.Placement.{ZoneCapacity, select_target}

pub record Move : Type 0 where
  pub namespace : Text
  pub pvc_name : Text
  pub pv_name : Text
  pub source : Text
  pub target : Text
  pub size_bytes : ℕ

pub record VolumeInfo : Type 0 where
  pub namespace : Text
  pub pvc_name : Text
  pub pv_name : Text
  pub zone : Text
  pub size_bytes : ℕ
  pub in_use : Bool

-- `m[key] = n`
unfoldable pub put : Text → ℕ → List (Text × ℕ) → List (Text × ℕ)
put key n [] = (key, n) ∷ []
put key n ((k, m) ∷ entries) =
    let rest = put key n entries in if text_eq k key then (k, n) ∷ entries else (k, m) ∷ rest

abbrev pub or_zero : Option ℕ → ℕ
or_zero none = 0
or_zero (some n) = n

-- `m[key]`, which is 0 for a key that is not there.
unfoldable pub at : Text → List (Text × ℕ) → ℕ
at key entries = or_zero (lookup key entries)

unfoldable pub totals : List ZoneCapacity → List (Text × ℕ) → List (Text × ℕ)
unfolding put
totals [] entries = entries
totals (z ∷ zones) entries = totals zones (put z.zone z.total entries)

unfoldable pub avails : List ZoneCapacity → List (Text × ℕ) → List (Text × ℕ)
unfolding put
avails [] entries = entries
avails (z ∷ zones) entries = avails zones (put z.zone z.avail entries)

-- The order of `byZone`; volumes of one size, whose order the source leaves open, keep theirs.
unfoldable pub insert_volume : VolumeInfo → List VolumeInfo → List VolumeInfo
insert_volume v [] = v ∷ []
insert_volume v (w ∷ vols) =
    let rest = insert_volume v vols in
    if ltb w.size_bytes v.size_bytes then w ∷ rest else v ∷ (w ∷ vols)

-- The volumes that are not in use, smallest first; `byZone[zone]` are those of them that are in the zone.
unfoldable pub idle : List VolumeInfo → List VolumeInfo
unfolding insert_volume
idle [] = []
idle (v ∷ vols) = let rest = idle vols in if v.in_use then rest else insert_volume v rest

-- `byZone[zone][0]` and what is left without it.
pub record Taken : Type 0 where
  pub vol : VolumeInfo
  pub rest : List VolumeInfo

abbrev pub behind : VolumeInfo → Option Taken → Option Taken
behind v none = none
behind v (some t) = some (record { vol = t.vol; rest = v ∷ t.rest })

unfoldable pub take_first : Text → List VolumeInfo → Option Taken
take_first zone [] = none
take_first zone (v ∷ vols) =
    let later = behind v (take_first zone vols) in
    if text_eq v.zone zone then some (record { vol = v; rest = vols }) else later

-- `len(byZone[zone]) > 0`
unfoldable pub has_volumes : Text → List VolumeInfo → Bool
has_volumes zone [] = false
has_volumes zone (v ∷ vols) = text_eq v.zone zone || has_volumes zone vols

pub record Progress : Type 0 where
  pub moves : List Move
  pub avail : List (Text × ℕ)
  pub waiting : List VolumeInfo

abbrev pub move_of : VolumeInfo → (source target : Text) → Move
move_of v source target = record {
  namespace = v.namespace;
  pvc_name = v.pvc_name;
  pv_name = v.pv_name;
  source = source;
  target = target;
  size_bytes = v.size_bytes;
}

-- The parameters of a plan.
pub record Rules : Type 1 where
  pub Fraction : Type 0
  pub no_use : Fraction
  pub fraction : (avail total : ℕ) → Fraction
  pub at_least : Fraction → Fraction → Bool
  pub above : Fraction → Fraction → Bool
  pub high : Fraction
  pub low : Fraction
  pub required : ℕ → ℕ

module _ (rules : Rules) (zones : List ZoneCapacity) where
  unfoldable pub used : Progress → Text → rules.Fraction
  unfolding at totals
  used st zone =
      if at zone (totals zones []) == 0
      then rules.no_use
      else rules.fraction (at zone st.avail) (at zone (totals zones []))

  -- The body of the first loop over the zones.
  unfoldable pub fuller : Progress → Text → Text → Text
  unfolding used has_volumes
  fuller st source zone =
      if rules.at_least (used st zone) rules.high && has_volumes zone st.waiting
      then (if is_empty source || rules.above (used st zone) (used st source) then zone else source)
      else source

  -- The zone that is chosen as the source, or the empty text.
  unfoldable pub fullest : Progress → List ZoneCapacity → Text → Text
  unfolding fuller
  fullest st [] source = source
  fullest st (z ∷ zs) source = fullest st zs (fuller st source z.zone)

  unfoldable pub candidates : Progress → Text → List ZoneCapacity → List ZoneCapacity
  unfolding used
  candidates st source [] = []
  candidates st source (z ∷ zs) =
      let rest = candidates st source zs in
      if text_eq z.zone source || rules.at_least (used st z.zone) rules.low
      then rest
      else record { zone = z.zone; avail = at z.zone st.avail; total = at z.zone (totals zones []) }
        ∷ rest

  -- `avail[source] += size`, then `avail[target] -= size`.
  unfoldable pub shifted : (source target : Text) → ℕ → List (Text × ℕ) → List (Text × ℕ)
  unfolding at put
  shifted source target size avail =
      let freed = put source (at source avail + size) avail in
      put target (at target freed - size) freed

  -- What is done with the volume, if it has a target.
  unfoldable pub placed : Progress → Text → Taken → Option Text → Progress
  unfolding shifted
  placed st source t none = record { moves = st.moves; avail = st.avail; waiting = t.rest }
  placed st source t (some target) = record {
    moves = st.moves ++ move_of t.vol source target ∷ [];
    avail = shifted source target t.vol.size_bytes st.avail;
    waiting = t.rest;
  }

  unfoldable pub place : Progress → Text → Option Taken → Option Progress
  unfolding placed candidates
  place st source none = none
  place st source (some t) = some (
      placed st source t (
        select_target (candidates st source zones) (source ∷ []) (rules.required t.vol.size_bytes)))

  -- One round; `none` is the break. A zone that is chosen as the source has a volume.
  unfoldable pub round : Progress → Option Progress
  unfolding place fullest take_first
  round st =
      let source = fullest st zones [] in
      if is_empty source then none else place st source (take_first source st.waiting)

  -- What follows a round.
  abbrev pub after :
      (Progress → Option (List Move)) → Progress → Option Progress → Option (List Move)
  after next st none = some st.moves
  after next st (some later) = next later

  -- The loop, which is `none` when it runs out of fuel.
  unfoldable pub plan_loop : (fuel max_moves : ℕ) → Progress → Option (List Move)
  unfolding round
  plan_loop zero max_moves st = none
  plan_loop (suc fuel) max_moves st =
      let next = after (plan_loop fuel max_moves) st (round st) in
      if ltb (length st.moves) max_moves then next else some st.moves

  unfoldable pub start : List VolumeInfo → Progress
  unfolding avails idle
  start vols = record { moves = []; avail = avails zones []; waiting = idle vols }

  -- `Plan`, on fuel.
  unfoldable pub plan : ℕ → List VolumeInfo → (max_moves : ℕ) → Option (List Move)
  unfolding plan_loop start
  plan fuel vols max_moves =
      if max_moves == 0 || ltb (length zones) 2
      then some []
      else plan_loop fuel max_moves (start vols)
