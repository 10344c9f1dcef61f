-- ===== src/Placement/Target.antt =====
-- The choice of `SelectTarget`, in pkg/migrator/placement.go, against the zones that may be chosen.
use mathlib.Core.List.{Memᴰ}
use proxmox_csi_plugin.Prelude.{
  ℕ, ◌≤◌, ◌<◌, ◌≡◌, refl, sym, ap, subst, ◌∙◌, false, List, [], ◌∷◌, Option, none, some, ◌⊎◌, inl,
  inr, ltb, ◌↔◌, All, Bool-cases, arith, if◌then◌else◌,
}
use proxmox_csi_plugin.Text.{Text, is_empty, contains_text}
use proxmox_csi_plugin.Placement.{ZoneCapacity, no_zone, better, best_zone, select_target}

abbrev IsNone : Option Text → Type 0
IsNone none = Unit
IsNone (some zone) = ⊥

not_none : (zone : Text) → ¬ (none ≡ some zone)
not_none zone h = subst IsNone h tt

named : (name zone : Text) → (if is_empty name then none else some name) ≡ some zone → name ≡ zone
unfolding is_empty
named [] zone h = absurd (not_none zone h)
named (c ∷ name) zone h = cc h

All-member :
    (P : ZoneCapacity → Type 0) (zones : List ZoneCapacity) (z : ZoneCapacity)
    → All P zones
    → Memᴰ z zones
    → P z
All-member P [] z h m = elim m [ ]
All-member P (y ∷ zones) z h (Memᴰ.head p) = subst P (sym p) h.0
All-member P (y ∷ zones) z h (Memᴰ.tail m) = All-member P zones z h.1 m

positive_not_zero : (n : ℕ) → n ≡ 0 → ¬ (0 < n)
positive_not_zero n e l = omega arith

module _ (exclude : List Text) (required : ℕ) where
  -- The zone is not excluded, and has the space.
  pub record IsEligible (z : ZoneCapacity) : Type 0 where
    pub allowed : contains_text exclude z.zone ≡ false
    pub space : required ≤ z.avail

  -- What one more zone changes.
  record IsBetter (best z r : ZoneCapacity) : Type 0 where
    grows : best.avail ≤ r.avail
    bounds : IsEligible z → z.avail ≤ r.avail
    source : (r ≡ best) ⊎ ((r ≡ z) × IsEligible z × (best.avail < z.avail))

  better-IsBetter : (best z : ZoneCapacity) → IsBetter best z (better exclude required best z)
  unfolding better
  better-IsBetter best z = elim (Bool-cases (contains_text exclude z.zone)) [
    | inl barred ↦ rw barred (record {
      grows = omega arith;
      bounds = λ e. ground (arith, e.allowed, barred);
      source = inl refl;
    })
    | inr allowed ↦ rw allowed (elim (Bool-cases (ltb z.avail required)) [
      | inl short ↦ rw short (record {
        grows = omega arith;
        bounds = λ e. ground (arith, e.space, short);
        source = inl refl;
      })
      | inr enough ↦ rw enough (elim (Bool-cases (ltb best.avail z.avail)) [
        | inl more ↦ rw more (record {
          grows = ground (arith, more);
          bounds = λ e. omega arith;
          source = inr (
            refl,
            record { allowed = allowed; space = ground (arith, enough) },
            ground (arith, more),
          );
        })
        | inr fewer ↦
            rw fewer (record {
              grows = omega arith;
              bounds = λ e. ground (arith, fewer);
              source = inl refl;
            })
      ])
    ])
  ]

  -- What the whole loop does.
  record IsBestOf (zones : List ZoneCapacity) (best r : ZoneCapacity) : Type 0 where
    grows : best.avail ≤ r.avail
    bounds : All (λ z. IsEligible z → z.avail ≤ r.avail) zones
    source : (r ≡ best) ⊎ (Memᴰ r zones × IsEligible r × (best.avail < r.avail))

  traced :
      (z : ZoneCapacity) (zones : List ZoneCapacity) (best next r : ZoneCapacity)
      → IsBetter best z next
      → IsBestOf zones next r
      → (r ≡ best) ⊎ (Memᴰ r (z ∷ zones) × IsEligible r × (best.avail < r.avail))
  traced z zones best next r s t = elim (t.source) [
    | inr (m, e, l) ↦ inr (Memᴰ.tail m, e, omega (arith, l, s.grows))
    | inl same ↦ elim (s.source) [
      | inl kept ↦ inl (same ∙ kept)
      | inr (new, e, l) ↦
          (let q = same ∙ new in
            inr (Memᴰ.head q, subst IsEligible (sym q) e, omega (arith, l, ap (λ x. x.avail) q)))
    ]
  ]

  best_zone-IsBestOf :
      (zones : List ZoneCapacity) (best : ZoneCapacity)
      → IsBestOf zones best (best_zone zones exclude required best)
  unfolding best_zone
  best_zone-IsBestOf [] best = record { grows = omega arith; bounds = tt; source = inl refl }
  best_zone-IsBestOf (z ∷ zones) best =
      (let s = better-IsBetter best z in
        let r = best_zone-IsBestOf zones (better exclude required best z) in
        record {
          grows = omega (arith, s.grows, r.grows);
          bounds = (λ e. (let b = s.bounds e in omega (arith, b, r.grows)), r.bounds);
          source = traced z zones best (better exclude required best z) _ s r;
        })

  -- The choice, as the caller sees it.
  pub record IsTarget (zones : List ZoneCapacity) (zone : Text) : Type 0 where
    pub target : ZoneCapacity
    pub mem : Memᴰ target zones
    pub name : target.zone ≡ zone
    pub eligible : IsEligible target
    pub positive : 0 < target.avail
    pub most : All (λ z. IsEligible z → z.avail ≤ target.avail) zones

  -- A zone that is selected is one of the zones, is not excluded, has some space and the space that is
  -- required, and no other such zone has more.
  pub select_target-IsTarget :
      (zones : List ZoneCapacity) (zone : Text)
      → select_target zones exclude required ≡ some zone
      → IsTarget zones zone
  unfolding select_target is_empty
  select_target-IsTarget zones zone h =
      (let b = best_zone-IsBestOf zones no_zone in
        elim (b.source) [
          | inl nothing ↦ absurd (not_none zone (rw nothing at h))
          | inr (m, e, l) ↦ record {
            target = _;
            mem = m;
            name = named _ zone h;
            eligible = e;
            positive = l;
            most = b.bounds;
          }
        ])

  none_left :
      (zones : List ZoneCapacity) (n : ℕ)
      → All (λ z. IsEligible z → z.avail ≤ n) zones
      → n ≡ 0
      → All (λ z. IsEligible z → z.avail ≡ 0) zones
  none_left [] n h e = tt
  none_left (z ∷ zones) n h e =
      (λ i. (let b = h.0 i in omega (arith, b, e)), none_left zones n h.1 e)

  -- If every zone has a name, no zone is selected exactly when no zone that may be selected has space.
  pub select_target-eq-none :
      (zones : List ZoneCapacity)
      → All (λ z. is_empty z.zone ≡ false) zones
      → (select_target zones exclude required ≡ none) ↔ All (λ z. IsEligible z → z.avail ≡ 0) zones
  unfolding select_target is_empty
  select_target-eq-none zones names =
      (let b = best_zone-IsBestOf zones no_zone in
        elim (b.source) [
          | inl nothing ↦
              (λ h. none_left zones _ b.bounds (ap (λ x. x.avail) nothing), λ h. rw nothing refl)
          | inr (m, e, l) ↦ (
            λ h. absurd (
                not_none _
                  (sym (rw (All-member (λ z. is_empty z.zone ≡ false) zones _ names m) at h))),
            λ h. absurd (
                positive_not_zero _ (All-member (λ z. IsEligible z → z.avail ≡ 0) zones _ h m e) l),
          )
        ])
