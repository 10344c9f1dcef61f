-- ===== src/Placement/Zone/Choice.antt =====
-- What `StorageForZone` of pkg/migrator/placement.go answers, against the candidates.
use mathlib.Core.List.{Memᴰ}
use proxmox_csi_plugin.Prelude.{
  ℕ, ◌≤◌, ◌≡◌, refl, sym, ap, subst, ◌∙◌, Bool, true, false, ◌&&◌, List, [], ◌∷◌, ◌⊎◌, inl, inr,
  ltb, All, arith, if◌then◌else◌,
}
use proxmox_csi_plugin.Text.{Text, text_eq, text_eq_iff, eq_of_text_eq}
use proxmox_csi_plugin.Placement.{ZoneCapacity}
use proxmox_csi_plugin.Placement.Zone.{Best, better_on, best_on, best_storage_on}

module _ (zone : Text) where
  -- No zone of the name has more space than n.
  abbrev pub Bounded : ℕ → List ZoneCapacity → Type 0
  Bounded n = All (λ z. z.zone ≡ zone → z.avail ≤ n)

  -- The best is in a zone of the name.
  pub record IsFound (zones : List ZoneCapacity) (n : ℕ) : Type 0 where
    pub at : ZoneCapacity
    pub mem : Memᴰ at zones
    pub name : at.zone ≡ zone
    pub space : at.avail ≡ n

  record IsBetter (storage : Text) (zones : List ZoneCapacity) (best r : Best) : Type 0 where
    grows : best.avail ≤ r.avail
    bounds : Bounded r.avail zones
    source : (r ≡ best) ⊎ ((r.storage ≡ storage) × IsFound zones r.avail)

  better_on-IsBetter :
      (storage : Text) (best : Best) (z : ZoneCapacity)
      → IsBetter storage (z ∷ []) best (better_on zone storage best z)
  unfolding better_on
  better_on-IsBetter storage best z =
      branch (text_eq z.zone zone) refl (ltb best.avail z.avail) refl
    where
      branch :
          (b : Bool)
          → text_eq z.zone zone ≡ b
          → (c : Bool) → ltb best.avail z.avail ≡ c
          → IsBetter storage
              (z ∷ [])
              best
              (if b && c then record { storage = storage; avail = z.avail } else best)
      branch true e true l = record {
        grows = ground (arith, l);
        bounds = (λ h. omega arith, tt);
        source = inr (
          refl,
          record { at = z; mem = Memᴰ.head refl; name = eq_of_text_eq z.zone zone e; space = refl },
        );
      }
      branch true e false l = record {
        grows = omega arith;
        bounds = (λ h. ground (arith, l), tt);
        source = inl refl;
      }
      branch false e c l = record {
        grows = omega arith;
        bounds = (λ h. absurd (ground (arith, h, e, text_eq_iff z.zone zone)), tt);
        source = inl refl;
      }

  Bounded-grows : (n m : ℕ) (zones : List ZoneCapacity) → n ≤ m → Bounded n zones → Bounded m zones
  Bounded-grows n m [] l h = tt
  Bounded-grows n m (z ∷ zones) l h =
      (λ e. (let k = h.0 e in omega (arith, k, l)), Bounded-grows n m zones l h.1)

  later-IsFound :
      (z : ZoneCapacity) (zones : List ZoneCapacity) (n : ℕ)
      → IsFound zones n
      → IsFound (z ∷ zones) n
  later-IsFound z zones n f = record {
    at = f.at;
    mem = Memᴰ.tail f.mem;
    name = f.name;
    space = f.space;
  }

  first-IsFound :
      (z : ZoneCapacity) (zones : List ZoneCapacity) (n : ℕ)
      → IsFound (z ∷ []) n
      → IsFound (z ∷ zones) n
  first-IsFound z zones n f = elim (f.mem) [
    | Memᴰ.head p ↦ record { at = f.at; mem = Memᴰ.head p; name = f.name; space = f.space }
    | Memᴰ.tail m ↦ elim m [ ]
  ]

  traced :
      (storage : Text) (z : ZoneCapacity) (zones : List ZoneCapacity) (best next r : Best)
      → IsBetter storage (z ∷ []) best next
      → IsBetter storage zones next r
      → (r ≡ best) ⊎ ((r.storage ≡ storage) × IsFound (z ∷ zones) r.avail)
  traced storage z zones best next r s t = elim (t.source) [
    | inr (e, f) ↦ inr (e, later-IsFound z zones r.avail f)
    | inl same ↦ elim (s.source) [
      | inl kept ↦ inl (same ∙ kept)
      | inr (e, f) ↦ inr (
        ap (λ b. b.storage) same ∙ e,
        first-IsFound z zones r.avail (subst (IsFound (z ∷ [])) (ap (λ b. b.avail) (sym same)) f),
      )
    ]
  ]

  best_on-IsBetter :
      (storage : Text) (zones : List ZoneCapacity) (best : Best)
      → IsBetter storage zones best (best_on zone storage zones best)
  unfolding best_on
  best_on-IsBetter storage [] best = record { grows = omega arith; bounds = tt; source = inl refl }
  best_on-IsBetter storage (z ∷ zones) best =
      (let s = better_on-IsBetter storage best z in
        let r = best_on-IsBetter storage zones (better_on zone storage best z) in
        record {
          grows = omega (arith, s.grows, r.grows);
          bounds = (λ e. (let b = s.bounds.0 e in omega (arith, b, r.grows)), r.bounds);
          source = traced storage z zones best (better_on zone storage best z) _ s r;
        })

  -- The storage is a candidate, and has the space in a zone of the name.
  pub record IsCandidate (capacities : List (Text × List ZoneCapacity)) (best : Best) : Type 0 where
    pub zones : List ZoneCapacity
    pub candidate : Memᴰ (best.storage, zones) capacities
    pub found : IsFound zones best.avail

  pub record IsBestOf (capacities : List (Text × List ZoneCapacity)) (best r : Best) : Type 0 where
    pub grows : best.avail ≤ r.avail
    pub bounds : All (λ p. Bounded r.avail p.1) capacities
    pub source : (r ≡ best) ⊎ IsCandidate capacities r

  pub best_storage_on-IsBestOf :
      (capacities : List (Text × List ZoneCapacity)) (best : Best)
      → IsBestOf capacities best (best_storage_on zone capacities best)
  unfolding best_storage_on
  best_storage_on-IsBestOf [] best = record { grows = omega arith; bounds = tt; source = inl refl }
  best_storage_on-IsBestOf ((storage, zones) ∷ capacities) best =
      (let s = best_on-IsBetter storage zones best in
        let r = best_storage_on-IsBestOf capacities (best_on zone storage zones best) in
        record {
          grows = omega (arith, s.grows, r.grows);
          bounds = (Bounded-grows _ _ zones r.grows s.bounds, r.bounds);
          source = elim (r.source) [
            | inr k ↦
                inr (record { zones = k.zones; candidate = Memᴰ.tail k.candidate; found = k.found })
            | inl same ↦ elim (s.source) [
              | inl kept ↦ inl (same ∙ kept)
              | inr (e, f) ↦ inr (record {
                zones = zones;
                candidate = Memᴰ.head (ap (λ t. (t, zones)) (ap (λ b. b.storage) same ∙ e));
                found = subst (IsFound zones) (ap (λ b. b.avail) (sym same)) f;
              })
            ]
          ];
        })
