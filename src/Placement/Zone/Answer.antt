-- ===== src/Placement/Zone/Answer.antt =====
-- The answer of `StorageForZone`, in pkg/migrator/placement.go, in terms of the candidates.
use mathlib.Core.List.{Memᴰ}
use proxmox_csi_plugin.Prelude.{
  ◌≡◌, refl, sym, ap, subst, ◌∙◌, Bool, true, false, not, ◌&&◌, ◌||◌, List, [], ◌∷◌, Option, none,
  some, inl, inr, All, arith, if◌then◌else◌,
}
use proxmox_csi_plugin.Text.{Text, text_eq, text_eq_iff, eq_of_text_eq, is_empty}
use proxmox_csi_plugin.Placement.{ZoneCapacity, StorageCandidates, capacities_of}
use proxmox_csi_plugin.Placement.Zone.{
  has_zone, hosts_zone, Best, no_best, best_storage_on, best_or_none, storage_for_zone,
}
use proxmox_csi_plugin.Placement.Zone.Choice.{
  Bounded, IsCandidate, IsBestOf, best_storage_on-IsBestOf,
}

-- One of the zones has the name.
abbrev pub Named : Text → List ZoneCapacity → Type 0
Named zone zones = (z : ZoneCapacity) × Memᴰ z zones × (z.zone ≡ zone)

has_zone-Named :
    (zone : Text) (zones : List ZoneCapacity) → has_zone zone zones ≡ true → Named zone zones
unfolding has_zone
has_zone-Named zone [] h = ground arith
has_zone-Named zone (z ∷ zones) h = branch (has_zone-Named zone zones) (text_eq z.zone zone) refl h
  where
    branch :
        (has_zone zone zones ≡ true → Named zone zones)
        → (b : Bool) → text_eq z.zone zone ≡ b
        → (b || has_zone zone zones) ≡ true
        → Named zone (z ∷ zones)
    branch rest true e h = (z, Memᴰ.head refl, eq_of_text_eq z.zone zone e)
    branch rest false e h = (let r = rest h in (r.0, Memᴰ.tail r.1, r.2))

Named-has_zone :
    (zone : Text) (zones : List ZoneCapacity) (y : ZoneCapacity)
    → Memᴰ y zones
    → y.zone ≡ zone
    → has_zone zone zones ≡ true
unfolding has_zone
Named-has_zone zone [] y m e = elim m [ ]
Named-has_zone zone (z ∷ zones) y (Memᴰ.head p) e =
    (let k = (text_eq_iff z.zone zone).1 (ap (λ x. x.zone) (sym p) ∙ e) in ground (arith, k))
Named-has_zone zone (z ∷ zones) y (Memᴰ.tail m) e =
    (let k = Named-has_zone zone zones y m e in ground (arith, k))

module _ (c : StorageCandidates) (zone source_storage : Text) where
  abbrev pub Hosts : Text → Type 0
  Hosts storage = Named zone (capacities_of c storage)

  hosts_zone-Hosts : (storage : Text) → hosts_zone c zone storage ≡ true → Hosts storage
  unfolding hosts_zone
  hosts_zone-Hosts storage h = has_zone-Named zone (capacities_of c storage) h

  hosts_zone-not-Hosts : (storage : Text) → hosts_zone c zone storage ≡ false → ¬ Hosts storage
  unfolding hosts_zone
  hosts_zone-not-Hosts storage h n =
      (let k = Named-has_zone zone (capacities_of c storage) n.0 n.1 n.2 in ground (arith, h, k))

  -- What is answered, and when: nothing new, the default storage, a candidate with the most space in the
  -- zone, or an error, since no candidate has space there.
  pub data IsAnswer : Option Text → Type 0 where
    unchanged : Hosts source_storage → IsAnswer (some [])
    by_default :
        ¬ Hosts source_storage
        → is_empty c.default_storage ≡ false
        → Hosts c.default_storage
        → IsAnswer (some c.default_storage)
    widest :
        ¬ Hosts source_storage
        → (is_empty c.default_storage ≡ false → ¬ Hosts c.default_storage)
        → (best : Best) → IsCandidate zone c.capacities best
        → All (λ p. Bounded zone best.avail p.1) c.capacities
        → IsAnswer (some best.storage)
    nowhere :
        ¬ Hosts source_storage
        → (is_empty c.default_storage ≡ false → ¬ Hosts c.default_storage)
        → All (λ p. Bounded zone 0 p.1) c.capacities
        → IsAnswer none

  named_candidate :
      (capacities : List (Text × List ZoneCapacity)) (p : Text × List ZoneCapacity)
      → All (λ p. is_empty p.0 ≡ false) capacities
      → Memᴰ p capacities
      → is_empty p.0 ≡ false
  named_candidate [] p h m = elim m [ ]
  named_candidate (q ∷ capacities) p h (Memᴰ.head e) = subst (λ x. is_empty x.0 ≡ false) (sym e) h.0
  named_candidate (q ∷ capacities) p h (Memᴰ.tail m) = named_candidate capacities p h.1 m

  module _ (apart : ¬ Hosts source_storage)
      (other : is_empty c.default_storage ≡ false → ¬ Hosts c.default_storage) where
    best_or_none-IsAnswer :
        (best : Best)
        → All (λ p. is_empty p.0 ≡ false) c.capacities
        → IsBestOf zone c.capacities no_best best
        → IsAnswer (best_or_none best)
    unfolding best_or_none is_empty
    best_or_none-IsAnswer best names b = elim (b.source) [
      | inl nothing ↦
          subst (λ x. IsAnswer (if is_empty x.storage then none else some x.storage)) (sym nothing)
            (nowhere apart other
              (subst (λ x. All (λ p. Bounded zone x.avail p.1) c.capacities) nothing b.bounds))
      | inr k ↦
          (let named = named_candidate c.capacities _ names k.candidate in
            rw named (widest apart other best k b.bounds))
    ]

  -- If every candidate has a name, the answer is that no other storage is needed if the source storage
  -- hosts the zone, else the default storage if there is one and it hosts the zone, else a candidate
  -- that has the most space in the zone; an error is answered only if none has space there.
  pub storage_for_zone-IsAnswer :
      All (λ p. is_empty p.0 ≡ false) c.capacities
      → IsAnswer (storage_for_zone c zone source_storage)
  unfolding storage_for_zone
  storage_for_zone-IsAnswer names =
      branch (hosts_zone c zone source_storage) refl (is_empty c.default_storage) refl
        (hosts_zone c zone c.default_storage) refl
    where
      branch :
          (a : Bool)
          → hosts_zone c zone source_storage ≡ a
          → (e : Bool) → is_empty c.default_storage ≡ e
          → (d : Bool) → hosts_zone c zone c.default_storage ≡ d
          → IsAnswer (
              if a
              then some []
              else if not e && d
              then some c.default_storage
              else best_or_none (best_storage_on zone c.capacities no_best))
      branch true h e q d k = unchanged (hosts_zone-Hosts source_storage h)
      branch false h false q true k =
          by_default (hosts_zone-not-Hosts source_storage h) q
            (hosts_zone-Hosts c.default_storage k)
      branch false h false q false k =
          best_or_none-IsAnswer (hosts_zone-not-Hosts source_storage h)
            (λ w. hosts_zone-not-Hosts c.default_storage k) _ names
            (best_storage_on-IsBestOf zone c.capacities no_best)
      branch false h true q d k =
          best_or_none-IsAnswer (hosts_zone-not-Hosts source_storage h)
            (λ w. absurd (ground (arith, w, q))) _ names
            (best_storage_on-IsBestOf zone c.capacities no_best)
