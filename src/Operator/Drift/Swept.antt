-- ===== src/Operator/Drift/Swept.antt =====
-- `targets` of pkg/operator/controller/drift/detector.go, against the registrations and the records.
use mathlib.Core.List.{Memᴰ}
use proxmox_csi_plugin.Prelude.{
  ◌≡◌, ◌↔◌, refl, sym, ap, ap₂, subst, ◌∙◌, Bool, true, false, ◌||◌, List, [], ◌∷◌, ◌⊎◌, inl, inr,
  if◌then◌else◌, arith,
}
use proxmox_csi_plugin.Text.{Text, text_eq_iff, eq_of_text_eq, is_empty}
use proxmox_csi_plugin.Operator.Types.{VolumeRecord, Tenant}
use proxmox_csi_plugin.Operator.Drift.{
  Target, same_target, target_lt, insert_target, insert_storages, allowed_targets, recorded_targets,
  targets,
}

target_at : Text → Text → Target
target_at region storage = record { region = region; storage = storage }

pub same_target-eq : (a b : Target) → same_target a b ≡ true → a ≡ b
unfolding same_target target_at
same_target-eq a b h =
    (let r = eq_of_text_eq a.region b.region (ground (arith, h)) in
      let s = eq_of_text_eq a.storage b.storage (ground (arith, h)) in ap₂ target_at r s)

pub same_target_refl : (a : Target) → same_target a a ≡ true
unfolding same_target
same_target_refl a = ground (arith, text_eq_iff a.region a.region, text_eq_iff a.storage a.storage)

-- An insertion adds the target, and keeps the others.
insert_target_sound :
    (t : Target) (us : List Target) (x : Target) → Memᴰ x (insert_target t us) → (x ≡ t) ⊎ Memᴰ x us
unfolding insert_target
insert_target_sound t [] x (Memᴰ.head p) = inl p
insert_target_sound t [] x (Memᴰ.tail m) = elim m [ ]
insert_target_sound t (u ∷ us) x m =
    branch (insert_target_sound t us x) (same_target t u) (target_lt t u) m
  where
    branch :
        (Memᴰ x (insert_target t us) → (x ≡ t) ⊎ Memᴰ x us)
        → (a b : Bool)
        → Memᴰ x (if a then u ∷ us else if b then t ∷ (u ∷ us) else u ∷ insert_target t us)
        → (x ≡ t) ⊎ Memᴰ x (u ∷ us)
    branch rest true b m = inr m
    branch rest false true (Memᴰ.head p) = inl p
    branch rest false true (Memᴰ.tail m) = inr m
    branch rest false false (Memᴰ.head p) = inr (Memᴰ.head p)
    branch rest false false (Memᴰ.tail m) = elim (rest m) [
      | inl e ↦ inl e
      | inr k ↦ inr (Memᴰ.tail k)
    ]

insert_target_adds : (t : Target) (us : List Target) → Memᴰ t (insert_target t us)
unfolding insert_target
insert_target_adds t [] = Memᴰ.head refl
insert_target_adds t (u ∷ us) =
    branch (insert_target_adds t us) (same_target t u) refl (target_lt t u)
  where
    branch :
        Memᴰ t (insert_target t us)
        → (a : Bool) → same_target t u ≡ a
        → (b : Bool)
        → Memᴰ t (if a then u ∷ us else if b then t ∷ (u ∷ us) else u ∷ insert_target t us)
    branch rest true e b = Memᴰ.head (same_target-eq t u e)
    branch rest false e true = Memᴰ.head refl
    branch rest false e false = Memᴰ.tail rest

insert_target_keeps :
    (t : Target) (us : List Target) (x : Target) → Memᴰ x us → Memᴰ x (insert_target t us)
unfolding insert_target
insert_target_keeps t [] x m = elim m [ ]
insert_target_keeps t (u ∷ us) x m =
    branch (insert_target_keeps t us x) (same_target t u) (target_lt t u) m
  where
    branch :
        (Memᴰ x us → Memᴰ x (insert_target t us))
        → (a b : Bool) → Memᴰ x (u ∷ us)
        → Memᴰ x (if a then u ∷ us else if b then t ∷ (u ∷ us) else u ∷ insert_target t us)
    branch rest true b m = m
    branch rest false true m = Memᴰ.tail m
    branch rest false false (Memᴰ.head p) = Memᴰ.head p
    branch rest false false (Memᴰ.tail m) = Memᴰ.tail (rest m)

-- A registration allows the storage, in its region.
abbrev pub Allows : List Tenant → Target → Type 0
Allows tenants t =
    (tenant : Tenant) × Memᴰ tenant tenants
    × (t.region ≡ tenant.region)
    × Memᴰ t.storage tenant.allowed_storages

-- A record names the storage and its region.
abbrev pub Names : List VolumeRecord → Target → Type 0
Names vols t =
    (vol : VolumeRecord) × Memᴰ vol vols
    × (t.region ≡ vol.spec.region)
    × (t.storage ≡ vol.spec.storage)
    × (is_empty vol.spec.region ≡ false)
    × (is_empty vol.spec.storage ≡ false)

insert_storages_sound :
    (region : Text) (ss : List Text) (seen : List Target) (x : Target)
    → Memᴰ x (insert_storages region ss seen)
    → ((x.region ≡ region) × Memᴰ x.storage ss) ⊎ Memᴰ x seen
unfolding insert_storages
insert_storages_sound region [] seen x m = inr m
insert_storages_sound region (s ∷ ss) seen x m =
    elim (insert_storages_sound region ss (insert_target (target_at region s) seen) x
      (unfold target_at in m)) [
        | inl k ↦ inl (k.0, Memᴰ.tail k.1)
        | inr k ↦ elim (insert_target_sound (target_at region s) seen x k) [
          | inl e ↦
              inl (unfold target_at in (ap (λ t. t.region) e, Memᴰ.head (ap (λ t. t.storage) e)))
          | inr l ↦ inr l
        ]
      ]

insert_storages_keeps :
    (region : Text) (ss : List Text) (seen : List Target) (x : Target)
    → Memᴰ x seen
    → Memᴰ x (insert_storages region ss seen)
unfolding insert_storages
insert_storages_keeps region [] seen x m = m
insert_storages_keeps region (s ∷ ss) seen x m =
    insert_storages_keeps region ss _ x (insert_target_keeps _ seen x m)

insert_storages_adds :
    (region : Text) (ss : List Text) (seen : List Target) (x : Target)
    → x.region ≡ region
    → Memᴰ x.storage ss
    → Memᴰ x (insert_storages region ss seen)
unfolding insert_storages
insert_storages_adds region [] seen x e m = elim m [ ]
insert_storages_adds region (s ∷ ss) seen x e (Memᴰ.head p) = insert_storages_keeps region ss _ x (
    unfold target_at in
    subst (λ y. Memᴰ y (insert_target (target_at region s) seen)) (sym (ap₂ target_at e p))
      (insert_target_adds (target_at region s) seen))
insert_storages_adds region (s ∷ ss) seen x e (Memᴰ.tail m) = insert_storages_adds region ss _ x e m

later-Allows : (v : Tenant) (ts : List Tenant) (t : Target) → Allows ts t → Allows (v ∷ ts) t
later-Allows v ts t k = (k.0, Memᴰ.tail k.1, k.2, k.3)

allowed_sound :
    (ts : List Tenant) (seen : List Target) (x : Target)
    → Memᴰ x (allowed_targets ts seen)
    → Allows ts x ⊎ Memᴰ x seen
unfolding allowed_targets
allowed_sound [] seen x m = inr m
allowed_sound (v ∷ ts) seen x m = elim (allowed_sound ts _ x m) [
  | inl k ↦ inl (later-Allows v ts x k)
  | inr k ↦ elim (insert_storages_sound v.region v.allowed_storages seen x k) [
    | inl l ↦ inl (v, Memᴰ.head refl, l.0, l.1)
    | inr l ↦ inr l
  ]
]

allowed_keeps :
    (ts : List Tenant) (seen : List Target) (x : Target)
    → Memᴰ x seen
    → Memᴰ x (allowed_targets ts seen)
unfolding allowed_targets
allowed_keeps [] seen x m = m
allowed_keeps (v ∷ ts) seen x m =
    allowed_keeps ts _ x (insert_storages_keeps v.region v.allowed_storages seen x m)

allowed_adds :
    (ts : List Tenant) (seen : List Target) (x : Target) (v : Tenant)
    → Memᴰ v ts
    → x.region ≡ v.region
    → Memᴰ x.storage v.allowed_storages
    → Memᴰ x (allowed_targets ts seen)
unfolding allowed_targets
allowed_adds [] seen x v m e k = elim m [ ]
allowed_adds (u ∷ ts) seen x v (Memᴰ.head p) e k = allowed_keeps ts _ x (
    insert_storages_adds u.region u.allowed_storages seen x (e ∙ ap (λ t. t.region) p)
      (subst (λ t. Memᴰ x.storage t.allowed_storages) p k))
allowed_adds (u ∷ ts) seen x v (Memᴰ.tail m) e k = allowed_adds ts _ x v m e k

later-Names :
    (v : VolumeRecord) (vs : List VolumeRecord) (t : Target) → Names vs t → Names (v ∷ vs) t
later-Names v vs t k = (k.0, Memᴰ.tail k.1, k.2, k.3, k.4, k.5)

-- The target of a record, if it has one.
abbrev target_named : VolumeRecord → Target
target_named v = record { region = v.spec.region; storage = v.spec.storage }

recorded_sound :
    (vs : List VolumeRecord) (seen : List Target) (x : Target)
    → Memᴰ x (recorded_targets vs seen)
    → Names vs x ⊎ Memᴰ x seen
unfolding recorded_targets
recorded_sound [] seen x m = inr m
recorded_sound (v ∷ vs) seen x m = elim (recorded_sound vs _ x m) [
  | inl k ↦ inl (later-Names v vs x k)
  | inr k ↦ branch (is_empty v.spec.region) refl (is_empty v.spec.storage) refl k
]
  where
    branch :
        (a : Bool)
        → is_empty v.spec.region ≡ a
        → (b : Bool) → is_empty v.spec.storage ≡ b
        → Memᴰ x (if a || b then seen else insert_target (target_named v) seen)
        → Names (v ∷ vs) x ⊎ Memᴰ x seen
    branch true e b f m = inr m
    branch false e true f m = inr m
    branch false e false f m = elim (insert_target_sound (target_named v) seen x m) [
      | inl q ↦ inl ((v, Memᴰ.head refl, ap (λ t. t.region) q, ap (λ t. t.storage) q, e, f))
      | inr k ↦ inr k
    ]

recorded_keeps :
    (vs : List VolumeRecord) (seen : List Target) (x : Target)
    → Memᴰ x seen
    → Memᴰ x (recorded_targets vs seen)
unfolding recorded_targets
recorded_keeps [] seen x m = m
recorded_keeps (v ∷ vs) seen x m =
    recorded_keeps vs _ x (branch (is_empty v.spec.region || is_empty v.spec.storage))
  where
    branch : (b : Bool) → Memᴰ x (if b then seen else insert_target (target_named v) seen)
    branch true = m
    branch false = insert_target_keeps (target_named v) seen x m

recorded_adds :
    (vs : List VolumeRecord) (seen : List Target) (v : VolumeRecord)
    → Memᴰ v vs
    → (is_empty v.spec.region || is_empty v.spec.storage) ≡ false
    → Memᴰ (target_named v) (recorded_targets vs seen)
unfolding recorded_targets
recorded_adds [] seen v m h = elim m [ ]
recorded_adds (u ∷ vs) seen v (Memᴰ.head p) h = recorded_keeps vs _ (target_named v) (
    branch (is_empty u.spec.region || is_empty u.spec.storage)
      (ap (λ w. is_empty w.spec.region || is_empty w.spec.storage) (sym p) ∙ h))
  where
    branch :
        (b : Bool)
        → b ≡ false
        → Memᴰ (target_named v) (if b then seen else insert_target (target_named u) seen)
    branch true e = cc e
    branch false e =
        subst (λ w. Memᴰ (target_named w) (insert_target (target_named u) seen)) (sym p)
          (insert_target_adds (target_named u) seen)
recorded_adds (u ∷ vs) seen v (Memᴰ.tail m) h = recorded_adds vs _ v m h

-- The targets are the storages that a registration allows or a record names.
pub targets_iff :
    (tenants : List Tenant) (vols : List VolumeRecord) (t : Target)
    → Memᴰ t (targets tenants vols) ↔ (Allows tenants t ⊎ Names vols t)
unfolding targets
targets_iff tenants vols t = (
  (λ m. elim (recorded_sound vols (allowed_targets tenants []) t m) [
    | inl k ↦ inr k
    | inr k ↦ elim (allowed_sound tenants [] t k) [ inl l ↦ inl l | inr l ↦ elim l [ ] ]
  ]),
  (λ k. elim k [
    | inl (v, m, e, l) ↦
        recorded_keeps vols (allowed_targets tenants []) t (allowed_adds tenants [] t v m e l)
    | inr (v, m, e, f, a, b) ↦
        subst (λ x. Memᴰ x (recorded_targets vols (allowed_targets tenants [])))
          (ap₂ (λ r s. record { region = r; storage = s }) (sym e) (sym f))
          (recorded_adds vols (allowed_targets tenants []) v m (ground (arith, a, b)))
  ]),
)
