-- ===== src/Placement/Cross.antt =====
-- The choice of `SelectCrossStorageTarget`, in pkg/migrator/placement.go, against the candidates.
use mathlib.Core.List.{Memᴰ}
use proxmox_csi_plugin.Prelude.{
  ℕ, ◌≡◌, refl, true, false, not, ◌&&◌, ◌||◌, List, [], ◌∷◌, Option, none, some, ◌⊎◌, inl, inr, ltb,
  Bool-cases, arith,
}
use proxmox_csi_plugin.Text.{
  Text, text_eq, text_eq_iff, eq_of_text_eq, is_empty, contains_text, lookup,
}
use proxmox_csi_plugin.Placement.{
  ZoneCapacity, best_zone, select_target, StorageCandidates, zones_of, capacities_of, Choice,
  no_choice, better_choice, best_in_storage, best_of_storage, best_anywhere, chosen, or_target,
  default_target, select_cross_storage_target,
}
use proxmox_csi_plugin.Placement.Target.{IsEligible, select_target-IsTarget}

abbrev pair : Text → Text → Option (Text × Text)
pair zone storage = some (zone, storage)

no_pair : (zone storage : Text) → ¬ (none ≡ pair zone storage)
no_pair zone storage h = cc h

no_text : (zone : Text) → ¬ (none ≡ some zone)
no_text zone h = cc h

-- A pair that is found is the one that was put there.
same_pair : (a b zone storage : Text) → pair a b ≡ pair zone storage → (zone ≡ a) × (storage ≡ b)
same_pair a b zone storage h = (cc h, cc h)

no_target :
    (exclude : List Text) (required : ℕ) (zone : Text)
    → ¬ (select_target [] exclude required ≡ some zone)
unfolding select_target best_zone is_empty
no_target exclude required zone k = cc k

module _ (c : StorageCandidates) (source_zone : Text) (required : ℕ) where
  -- The storage is a candidate, and hosts the zone, which is not the source and has the space.
  pub record Hosts (storage zone : Text) : Type 0 where
    pub zones : List ZoneCapacity
    pub candidate : Memᴰ (storage, zones) c.capacities
    pub target : ZoneCapacity
    pub mem : Memᴰ target zones
    pub name : target.zone ≡ zone
    pub eligible : IsEligible (source_zone ∷ []) required target

  -- What the loop has found so far.
  abbrev IsSound : Choice → Type 0
  IsSound best = (is_empty best.best_zone_of ≡ true) ⊎ Hosts best.best_storage best.best_zone_of

  IsEligible-of :
      (z : ZoneCapacity)
      → (text_eq z.zone source_zone || ltb z.avail required) ≡ false
      → IsEligible (source_zone ∷ []) required z
  unfolding contains_text
  IsEligible-of z h = record {
    allowed = ground (arith, h, text_eq_iff z.zone source_zone, text_eq_iff source_zone z.zone);
    space = ground (arith, h);
  }

  module _ (storage : Text) (zones : List ZoneCapacity)
      (candidate : Memᴰ (storage, zones) c.capacities) where
    better_choice-IsSound :
        (best : Choice) (z : ZoneCapacity)
        → IsSound best
        → Memᴰ z zones
        → IsSound (better_choice source_zone storage required best z)
    unfolding better_choice
    better_choice-IsSound best z s m =
        elim (Bool-cases (text_eq z.zone source_zone || ltb z.avail required)) [
          | inl barred ↦ rw barred s
          | inr open' ↦ rw open' (elim (Bool-cases (ltb best.best_avail z.avail)) [
            | inl more ↦ rw more (
                inr (record {
                  zones = zones;
                  candidate = candidate;
                  target = z;
                  mem = m;
                  name = refl;
                  eligible = IsEligible-of z open';
                }))
            | inr fewer ↦ rw fewer s
          ])
        ]

    best_in_storage-IsSound :
        (zs : List ZoneCapacity) (best : Choice)
        → IsSound best
        → ((z : ZoneCapacity) → Memᴰ z zs → Memᴰ z zones)
        → IsSound (best_in_storage source_zone storage required zs best)
    unfolding best_in_storage
    best_in_storage-IsSound [] best s sub = s
    best_in_storage-IsSound (z ∷ zs) best s sub =
        best_in_storage-IsSound zs (better_choice source_zone storage required best z)
          (better_choice-IsSound best z s (sub z (Memᴰ.head refl))) (λ y m. sub y (Memᴰ.tail m))

  best_of_storage-IsSound :
      (tried : List Text) (best : Choice) (storage : Text) (zones : List ZoneCapacity)
      → IsSound best
      → Memᴰ (storage, zones) c.capacities
      → IsSound (best_of_storage source_zone tried required best storage zones)
  unfolding best_of_storage
  best_of_storage-IsSound tried best storage zones s m =
      elim (Bool-cases (contains_text tried storage)) [
        | inl done ↦ rw done s
        | inr fresh ↦ rw fresh (best_in_storage-IsSound storage zones m zones best s (λ z k. k))
      ]

  best_anywhere-IsSound :
      (tried : List Text) (capacities : List (Text × List ZoneCapacity)) (best : Choice)
      → IsSound best
      → ((e : Text × List ZoneCapacity) → Memᴰ e capacities → Memᴰ e c.capacities)
      → IsSound (best_anywhere source_zone tried required capacities best)
  unfolding best_anywhere
  best_anywhere-IsSound tried [] best s sub = s
  best_anywhere-IsSound tried ((storage, zones) ∷ capacities) best s sub =
      best_anywhere-IsSound tried capacities
        (best_of_storage source_zone tried required best storage zones)
        (best_of_storage-IsSound tried best storage zones s (sub (storage, zones) (Memᴰ.head refl)))
        (λ e m. sub e (Memᴰ.tail m))

  lookup-member :
      (storage : Text) (capacities : List (Text × List ZoneCapacity)) (zones : List ZoneCapacity)
      → lookup storage capacities ≡ some zones
      → Memᴰ (storage, zones) capacities
  unfolding lookup
  lookup-member storage [] zones h = cc h
  lookup-member storage ((key, held) ∷ capacities) zones h =
      elim (Bool-cases (text_eq key storage)) [
        | inl same ↦ Memᴰ.head (cc (eq_of_text_eq key storage same, (rw same at h)))
        | inr other ↦ Memᴰ.tail (lookup-member storage capacities zones (rw other at h))
      ]

  Hosts-target :
      (storage zone : Text)
      → select_target (capacities_of c storage) (source_zone ∷ []) required ≡ some zone
      → Hosts storage zone
  unfolding capacities_of
  Hosts-target storage zone h = found (lookup storage c.capacities) refl h
    where
      found :
          (o : Option (List ZoneCapacity))
          → lookup storage c.capacities ≡ o
          → select_target (zones_of o) (source_zone ∷ []) required ≡ some zone
          → Hosts storage zone
      found none e k = absurd (no_target (source_zone ∷ []) required zone k)
      found (some zones) e k =
          (let t = select_target-IsTarget (source_zone ∷ []) required zones zone k in
            record {
              zones = zones;
              candidate = lookup-member storage c.capacities zones e;
              target = t.target;
              mem = t.mem;
              name = t.name;
              eligible = t.eligible;
            })

  -- The target, and why no storage that comes before has one.
  pub record IsCrossTarget (source_storage storage zone : Text) : Type 0 where
    pub hosts : Hosts storage zone
    pub preferred :
        (storage ≡ source_storage)
        ⊎ ((select_target (capacities_of c source_storage) (source_zone ∷ []) required ≡ none)
            × ((storage ≡ c.default_storage)
                ⊎ (default_target c source_zone source_storage required ≡ none)))

  chosen-Hosts :
      (best : Choice) (zone storage : Text)
      → IsSound best
      → chosen best ≡ some (zone, storage)
      → Hosts storage zone
  unfolding chosen
  chosen-Hosts best zone storage s h = elim s [
    | inl nothing ↦ absurd (no_pair _ _ (rw nothing at h))
    | inr hosts ↦ elim (Bool-cases (is_empty best.best_zone_of)) [
      | inl nothing ↦ absurd (no_pair _ _ (rw nothing at h))
      | inr found ↦ (let p = same_pair _ _ zone storage (rw found at h) in rw (p.0, p.1) hosts)
    ]
  ]

  Hosts-default :
      (source_storage zone : Text)
      → default_target c source_zone source_storage required ≡ some zone
      → Hosts c.default_storage zone
  Hosts-default source_storage zone h =
      elim (Bool-cases
        (not (is_empty c.default_storage) && not (text_eq c.default_storage source_storage))) [
          | inl other ↦ Hosts-target c.default_storage zone (rw other at h)
          | inr same ↦ absurd (no_text zone (rw same at h))
        ]

  -- A target that is found is a zone, not the source's, of a candidate storage, and has the space that is
  -- required. It is on the storage of the source, unless that has no target; and then on the default
  -- storage, unless that is none, is the storage of the source or has no target.
  pub select_cross_storage_target-IsCrossTarget :
      (source_storage zone storage : Text)
      → select_cross_storage_target c source_zone source_storage required ≡ some (zone, storage)
      → IsCrossTarget source_storage storage zone
  unfolding select_cross_storage_target or_target is_empty
  select_cross_storage_target-IsCrossTarget source_storage zone storage h =
      first (select_target (capacities_of c source_storage) (source_zone ∷ []) required) refl h
    where
      anywhere : Choice
      anywhere =
          best_anywhere source_zone (source_storage ∷ c.default_storage ∷ []) required c.capacities
            no_choice

      second :
          select_target (capacities_of c source_storage) (source_zone ∷ []) required ≡ none
          → (o : Option Text) → default_target c source_zone source_storage required ≡ o
          → or_target o c.default_storage (chosen anywhere) ≡ some (zone, storage)
          → IsCrossTarget source_storage storage zone
      second e (some z) d k =
          (let p = same_pair z c.default_storage zone storage k in
            record {
              hosts = rw (p.0, p.1) (Hosts-default source_storage z d);
              preferred = inr (e, inl p.1);
            })
      second e none d k = record {
        hosts =
            chosen-Hosts anywhere zone storage
              (best_anywhere-IsSound (source_storage ∷ c.default_storage ∷ []) c.capacities
                no_choice (inl refl) (λ x m. m))
              k;
        preferred = inr (e, inr d);
      }

      first :
          (o : Option Text)
          → select_target (capacities_of c source_storage) (source_zone ∷ []) required ≡ o
          → or_target o source_storage (
              or_target
                (default_target c source_zone source_storage required)
                c.default_storage
                (chosen anywhere))
            ≡ some (zone, storage)
          → IsCrossTarget source_storage storage zone
      first (some z) e k =
          (let p = same_pair z source_storage zone storage k in
            record { hosts = rw (p.0, p.1) (Hosts-target source_storage z e); preferred = inl p.1 })
      first none e k = second e (default_target c source_zone source_storage required) refl k
