-- ===== src/Placement/Plan/Volumes.antt =====
-- The volumes that a rebalance of pkg/migrator/placement.go may move, and their order.
use mathlib.Core.List.{Memᴰ}
use proxmox_csi_plugin.Prelude.{
  suc, ◌≤◌, ◌≡◌, refl, ap, Bool, true, false, List, [], ◌∷◌, Option, none, some, inl, inr, length,
  ltb, All, Bool-cases, arith, if◌then◌else◌,
}
use proxmox_csi_plugin.Text.{Text, text_eq, eq_of_text_eq}
use proxmox_csi_plugin.Placement.Plan.{VolumeInfo, insert_volume, idle, Taken, behind, take_first}

-- The volume is one of the volumes, and no pod uses it.
pub record IsIdle (vols : List VolumeInfo) (v : VolumeInfo) : Type 0 where
  pub mem : Memᴰ v vols
  pub unused : v.in_use ≡ false

module _ (P : VolumeInfo → Type 0) where
  insert_volume-All :
      (v : VolumeInfo) (vols : List VolumeInfo) → P v → All P vols → All P (insert_volume v vols)
  unfolding insert_volume
  insert_volume-All v [] p h = (p, tt)
  insert_volume-All v (w ∷ vols) p h = elim (Bool-cases (ltb w.size_bytes v.size_bytes)) [
    | inl smaller ↦ rw smaller (h.0, insert_volume-All v vols p h.1)
    | inr larger ↦ rw larger (p, h)
  ]

insert_volume-length :
    (v : VolumeInfo) (vols : List VolumeInfo) → length (insert_volume v vols) ≡ suc (length vols)
unfolding insert_volume
insert_volume-length v [] = refl
insert_volume-length v (w ∷ vols) = elim (Bool-cases (ltb w.size_bytes v.size_bytes)) [
  | inl smaller ↦ rw smaller (omega (arith, insert_volume-length v vols))
  | inr larger ↦ rw larger refl
]

-- One more volume takes nothing away.
later_idle :
    (v : VolumeInfo) (vols ws : List VolumeInfo) → All (IsIdle vols) ws → All (IsIdle (v ∷ vols)) ws
later_idle v vols [] h = tt
later_idle v vols (w ∷ ws) h =
    (record { mem = Memᴰ.tail (h.0).mem; unused = (h.0).unused }, later_idle v vols ws h.1)

pub idle-IsIdle : (vols : List VolumeInfo) → All (IsIdle vols) (idle vols)
unfolding idle
idle-IsIdle [] = tt
idle-IsIdle (v ∷ vols) = branch v.in_use refl (later_idle v vols (idle vols) (idle-IsIdle vols))
  where
    branch :
        (b : Bool)
        → v.in_use ≡ b
        → All (IsIdle (v ∷ vols)) (idle vols)
        → All (IsIdle (v ∷ vols)) (if b then idle vols else insert_volume v (idle vols))
    branch true e rest = rest
    branch false e rest =
        insert_volume-All (IsIdle (v ∷ vols)) v (idle vols)
          (record { mem = Memᴰ.head refl; unused = e }) rest

pub idle-length : (vols : List VolumeInfo) → length (idle vols) ≤ length vols
unfolding idle
idle-length [] = omega arith
idle-length (v ∷ vols) = branch v.in_use (idle-length vols)
  where
    branch :
        (b : Bool)
        → length (idle vols) ≤ length vols
        → length (if b then idle vols else insert_volume v (idle vols)) ≤ suc (length vols)
    branch true h = omega arith
    branch false h = omega (arith, h, insert_volume-length v (idle vols))

-- What is taken was there, in the zone, and what is left was there too.
pub record IsTaken (P : VolumeInfo → Type 0) (zone : Text) (vols : List VolumeInfo) (t : Taken)
    : Type 0 where
  pub first : P t.vol
  pub left : All P t.rest
  pub in_zone : t.vol.zone ≡ zone
  pub count : length vols ≡ suc (length t.rest)

abbrev pub MayTake : (VolumeInfo → Type 0) → Text → List VolumeInfo → Option Taken → Type 0
MayTake P zone vols none = Unit
MayTake P zone vols (some t) = IsTaken P zone vols t

module _ (P : VolumeInfo → Type 0) (zone : Text) where
  behind-MayTake :
      (v : VolumeInfo) (vols : List VolumeInfo) (o : Option Taken)
      → P v
      → MayTake P zone vols o
      → MayTake P zone (v ∷ vols) (behind v o)
  behind-MayTake v vols none p h = tt
  behind-MayTake v vols (some t) p h = record {
    first = h.first;
    left = (p, h.left);
    in_zone = h.in_zone;
    count = ap suc h.count;
  }

  pub take_first-MayTake :
      (vols : List VolumeInfo) → All P vols → MayTake P zone vols (take_first zone vols)
  unfolding take_first
  take_first-MayTake [] h = tt
  take_first-MayTake (v ∷ vols) h = elim (Bool-cases (text_eq v.zone zone)) [
    | inl here ↦
        rw here (record {
          first = h.0;
          left = h.1;
          in_zone = eq_of_text_eq v.zone zone here;
          count = refl;
        })
    | inr elsewhere ↦
        rw elsewhere
          (behind-MayTake v vols (take_first zone vols) h.0 (take_first-MayTake vols h.1))
  ]
