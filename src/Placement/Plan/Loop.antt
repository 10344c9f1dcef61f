-- ===== src/Placement/Plan/Loop.antt =====
-- The loop of `Plan`, in pkg/migrator/placement.go: it ends, and what it plans.
use mathlib.Core.List.{Memᴰ}
use proxmox_csi_plugin.Prelude.{
  ℕ, zero, suc, ◌+◌, ◌≤◌, ◌<◌, ◌≡◌, refl, sym, ap, subst, ◌∙◌, Bool, true, false, ◌||◌, List, [],
  ◌∷◌, Option, none, some, inl, inr, length, length-append, ltb, ◌==◌, All, All-append, Bool-cases,
  ltb→lt, arith, if◌then◌else◌,
}
use proxmox_csi_plugin.Text.{Text, text_eq, is_empty}
use proxmox_csi_plugin.Placement.{ZoneCapacity, select_target}
use proxmox_csi_plugin.Placement.Target.{select_target-IsTarget}
use proxmox_csi_plugin.Placement.Plan.{
  Move, VolumeInfo, at, totals, Taken, Progress, move_of, Rules, used, fullest, candidates, placed,
  place, round, after, plan_loop, start, plan,
}
use proxmox_csi_plugin.Placement.Plan.Volumes.{
  IsIdle, idle-IsIdle, idle-length, IsTaken, MayTake, take_first-MayTake,
}

-- The move takes an idle volume of the list from its zone to another of the zones.
pub record IsPlanned (zones : List ZoneCapacity) (vols : List VolumeInfo) (m : Move) : Type 0 where
  pub volume : VolumeInfo
  pub idle : IsIdle vols volume
  pub same : m ≡ move_of volume volume.zone m.target
  pub destination : ZoneCapacity
  pub known : Memᴰ destination zones
  pub name : destination.zone ≡ m.target
  pub elsewhere : text_eq m.target m.source ≡ false

-- A zone that stands for one of the zones, and is not the source.
record IsOther (zones : List ZoneCapacity) (source : Text) (z : ZoneCapacity) : Type 0 where
  origin : ZoneCapacity
  known : Memᴰ origin zones
  name : origin.zone ≡ z.zone
  elsewhere : text_eq z.zone source ≡ false

later-IsOther :
    (y : ZoneCapacity) (zones : List ZoneCapacity) (source : Text) (zs : List ZoneCapacity)
    → All (IsOther zones source) zs
    → All (IsOther (y ∷ zones) source) zs
later-IsOther y zones source [] h = tt
later-IsOther y zones source (z ∷ zs) h = (
  record {
    origin = (h.0).origin;
    known = Memᴰ.tail (h.0).known;
    name = (h.0).name;
    elsewhere = (h.0).elsewhere;
  },
  later-IsOther y zones source zs h.1,
)

All-at :
    (P : ZoneCapacity → Type 0) (zs : List ZoneCapacity) (z : ZoneCapacity)
    → All P zs
    → Memᴰ z zs
    → P z
All-at P [] z h m = elim m [ ]
All-at P (y ∷ zs) z h (Memᴰ.head p) = subst P (sym p) h.0
All-at P (y ∷ zs) z h (Memᴰ.tail m) = All-at P zs z h.1 m

module _ (rules : Rules) (zones : List ZoneCapacity) where
  candidates-IsOther :
      (st : Progress) (source : Text) (zs : List ZoneCapacity)
      → All (IsOther zs source) (candidates rules zones st source zs)
  unfolding candidates
  candidates-IsOther st source [] = tt
  candidates-IsOther st source (z ∷ zs) =
      branch (text_eq z.zone source) refl (rules.at_least (used rules zones st z.zone) rules.low)
        (later-IsOther z zs source _ (candidates-IsOther st source zs))
    where
      branch :
          (b : Bool)
          → text_eq z.zone source ≡ b
          → (c : Bool) → All (IsOther (z ∷ zs) source) (candidates rules zones st source zs)
          → All (IsOther (z ∷ zs) source) (
              if b || c
              then candidates rules zones st source zs
              else record {
                zone = z.zone;
                avail = at z.zone st.avail;
                total = at z.zone (totals zones []);
              }
                ∷ candidates rules zones st source zs)
      branch true e c rest = rest
      branch false e true rest = rest
      branch false e false rest =
          (record { origin = z; known = Memᴰ.head refl; name = refl; elsewhere = e }, rest)

  module _ (vols : List VolumeInfo) where
    -- What every round keeps.
    record IsSound (st : Progress) : Type 0 where
      planned : All (IsPlanned zones vols) st.moves
      waits : All (IsIdle vols) st.waiting
      count : length st.moves + length st.waiting ≤ length vols

    -- What a round makes of that.
    record IsNext (st later : Progress) : Type 0 where
      sound : IsSound later
      shorter : length later.waiting < length st.waiting
      one : length later.moves ≤ suc (length st.moves)

    placed-IsNext :
        (st : Progress) (source : Text) (t : Taken) (o : Option Text)
        → IsSound st
        → IsTaken (IsIdle vols) source st.waiting t
        → ((target : Text) → o ≡ some target → IsPlanned zones vols (move_of t.vol source target))
        → IsNext st (placed rules zones st source t o)
    unfolding placed
    placed-IsNext st source t none s k h = record {
      sound = record {
        planned = s.planned;
        waits = k.left;
        count = omega (arith, s.count, k.count);
      };
      shorter = omega (arith, k.count);
      one = omega arith;
    }
    placed-IsNext st source t (some target) s k h =
        (let more = length-append st.moves (move_of t.vol source target ∷ []) in
          record {
            sound = record {
              planned = All-append (IsPlanned zones vols) st.moves _ s.planned (h target refl, tt);
              waits = k.left;
              count = omega (arith, s.count, k.count, more);
            };
            shorter = omega (arith, k.count);
            one = omega (arith, more);
          })

    move_of-IsPlanned :
        (st : Progress) (source : Text) (t : Taken) (target : Text) (required : ℕ)
        → IsTaken (IsIdle vols) source st.waiting t
        → select_target (candidates rules zones st source zones) (source ∷ []) required
          ≡ some target
        → IsPlanned zones vols (move_of t.vol source target)
    move_of-IsPlanned st source t target required k h =
        (let c = select_target-IsTarget (source ∷ []) required _ target h in
          let o =
            All-at (IsOther zones source) _ c.target (candidates-IsOther st source zones) c.mem in
          record {
            volume = t.vol;
            idle = k.first;
            same = ap (λ s. move_of t.vol s target) (sym k.in_zone);
            destination = o.origin;
            known = o.known;
            name = o.name ∙ c.name;
            elsewhere = ap (λ z. text_eq z source) (sym c.name) ∙ o.elsewhere;
          })

    -- What a round does, if it does not break the loop.
    abbrev MayGo : Progress → Option Progress → Type 0
    MayGo st none = Unit
    MayGo st (some later) = IsNext st later

    place-MayGo :
        (st : Progress) (source : Text) (o : Option Taken)
        → IsSound st
        → MayTake (IsIdle vols) source st.waiting o
        → MayGo st (place rules zones st source o)
    unfolding place
    place-MayGo st source none s k = tt
    place-MayGo st source (some t) s k =
        placed-IsNext st source t _ s k (λ target h. move_of-IsPlanned st source t target _ k h)

    round-MayGo : (st : Progress) → IsSound st → MayGo st (round rules zones st)
    unfolding round
    round-MayGo st s = branch (is_empty (fullest rules zones st zones [])) _ (
        place-MayGo st (fullest rules zones st zones []) _ s
          (take_first-MayTake (IsIdle vols) (fullest rules zones st zones []) st.waiting s.waits))
      where
        branch : (b : Bool) (o : Option Progress) → MayGo st o → MayGo st (if b then none else o)
        branch true o h = tt
        branch false o h = h

    -- The plan is made, with at most so many moves and no more than there are volumes.
    pub record IsMade (max_moves : ℕ) (r : Option (List Move)) : Type 0 where
      pub moves : List Move
      pub returned : r ≡ some moves
      pub planned : All (IsPlanned zones vols) moves
      pub few : length moves ≤ max_moves
      pub fewer : length moves ≤ length vols

    stops :
        (st : Progress) (max_moves : ℕ)
        → IsSound st
        → length st.moves ≤ max_moves
        → IsMade max_moves (some st.moves)
    stops st max_moves s few = record {
      moves = st.moves;
      returned = refl;
      planned = s.planned;
      few = few;
      fewer = omega (arith, s.count);
    }

    plan_loop-IsMade :
        (fuel max_moves : ℕ) (st : Progress)
        → IsSound st
        → length st.moves ≤ max_moves
        → length st.waiting < fuel
        → IsMade max_moves (plan_loop rules zones fuel max_moves st)
    unfolding plan_loop
    plan_loop-IsMade zero max_moves st s few enough = absurd (omega arith)
    plan_loop-IsMade (suc fuel) max_moves st s few enough =
        elim (Bool-cases (ltb (length st.moves) max_moves)) [
          | inl more ↦ rw more (
              go (plan_loop-IsMade fuel max_moves) (round rules zones st) (round-MayGo st s)
                (ltb→lt _ _ more))
          | inr full ↦ rw full (stops st max_moves s few)
        ]
      where
        go :
            ((later : Progress)
              → IsSound later
              → length later.moves ≤ max_moves
              → length later.waiting < fuel
              → IsMade max_moves (plan_loop rules zones fuel max_moves later))
            → (o : Option Progress) → MayGo st o
            → length st.moves < max_moves
            → IsMade max_moves (after rules zones (plan_loop rules zones fuel max_moves) st o)
        go rest none h more = stops st max_moves s few
        go rest (some later) h more =
            rest later h.sound (omega (arith, h.one, more)) (omega (arith, h.shorter, enough))

    -- On more fuel than there are volumes, a plan is made: it has at most `max_moves` moves, no more than
    -- there are volumes, and each move takes a volume of the list that is not in use from its own zone to
    -- a different one of the zones.
    pub plan-IsMade :
        (fuel max_moves : ℕ)
        → length vols < fuel
        → IsMade max_moves (plan rules zones fuel vols max_moves)
    unfolding plan start
    plan-IsMade fuel max_moves enough = branch (max_moves == 0 || ltb (length zones) 2) (
        plan_loop-IsMade fuel max_moves (start rules zones vols)
          (record {
            planned = tt;
            waits = idle-IsIdle vols;
            count = omega (arith, idle-length vols);
          })
          (omega arith) (omega (arith, idle-length vols, enough)))
      where
        branch :
            (b : Bool) {r : Option (List Move)}
            → IsMade max_moves r
            → IsMade max_moves (if b then some [] else r)
        branch true h = record {
          moves = [];
          returned = refl;
          planned = tt;
          few = omega arith;
          fewer = omega arith;
        }
        branch false h = h
