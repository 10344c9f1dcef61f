-- ===== src/Operator/Drift/Ledger.antt =====
-- `index`, `ledger[t]` and the suffixes of pkg/operator/controller/drift/detector.go, against the
-- records and the disks.
use mathlib.Core.List.{Memᴰ}
use proxmox_csi_plugin.Prelude.{
  ◌≡◌, ◌↔◌, refl, sym, ap, ap₂, subst, ◌∙◌, Bool, true, false, ◌||◌, List, [], ◌∷◌, ◌⊎◌, inl, inr,
  Result, ok, err, if◌then◌else◌, arith,
}
use proxmox_csi_plugin.Text.{Text, text_eq, text_eq_iff, eq_of_text_eq, is_empty, contains_text}
use proxmox_csi_plugin.Volume.{Volume, VolumeError, parse_volume_id, disk_suffix}
use proxmox_csi_plugin.Operator.Types.{VolumeRecord, Disk}
use proxmox_csi_plugin.Operator.Drift.{
  Missing, Target, same_target, claim_key, Index, target_of, missing_of, index_handle, index,
  suffix_of_disk, suffixes, expected_at,
}
use proxmox_csi_plugin.Operator.Drift.Keys.{Claims, index-Claims}
use proxmox_csi_plugin.Operator.Drift.Swept.{same_target-eq, same_target_refl}

pub contains_cases :
    (x y : Text) (xs : List Text)
    → contains_text (x ∷ xs) y ≡ true
    → (x ≡ y) ⊎ (contains_text xs y ≡ true)
unfolding contains_text
contains_cases x y xs h = branch (text_eq x y) refl h
  where
    branch :
        (b : Bool)
        → text_eq x y ≡ b
        → (b || contains_text xs y) ≡ true
        → (x ≡ y) ⊎ (contains_text xs y ≡ true)
    branch true e h = inl (eq_of_text_eq x y e)
    branch false e h = inr h

-- A record of the ledger that claims a disk, with its handle.
pub record Claimant (vols : List VolumeRecord) : Type 0 where
  pub vol : VolumeRecord
  pub handle : Volume
  pub mem : Memᴰ vol vols
  pub claims : Claims vol handle

abbrev later_claimant :
    (v : VolumeRecord) (vols : List VolumeRecord) → Claimant vols → Claimant (v ∷ vols)
later_claimant v vols c = record {
  vol = c.vol;
  handle = c.handle;
  mem = Memᴰ.tail c.mem;
  claims = c.claims;
}

-- What one record adds to an index.
record IsAdded (v : VolumeRecord) (rest ix : Index) : Type 0 where
  claimed :
      (key : Text)
      → contains_text ix.claimed key ≡ true
      → (contains_text rest.claimed key ≡ true)
        ⊎ ((handle : Volume) × Claims v handle
            × (claim_key (target_of handle) (disk_suffix handle) ≡ key))
  entries :
      (t : Target) (w : Missing)
      → Memᴰ (t, w) ix.ledger
      → Memᴰ (t, w) rest.ledger
        ⊎ ((handle : Volume) × Claims v handle × (target_of handle ≡ t) × (w ≡ missing_of v))
  keeps : (t : Target) (w : Missing) → Memᴰ (t, w) rest.ledger → Memᴰ (t, w) ix.ledger
  adds : (handle : Volume) → Claims v handle → Memᴰ (target_of handle, missing_of v) ix.ledger

nothing-IsAdded :
    (v : VolumeRecord) (rest : Index)
    → ((handle : Volume) → ¬ Claims v handle)
    → IsAdded v rest rest
nothing-IsAdded v rest none_claimed = record {
  claimed = λ key h. inl h;
  entries = λ t w m. inl m;
  keeps = λ t w m. m;
  adds = λ handle c. absurd (none_claimed handle c);
}

same_handle :
    (v : VolumeRecord) (a b : Volume)
    → parse_volume_id v.status.volume_id ≡ ok a
    → Claims v b
    → a ≡ b
same_handle v a b p c = cc (sym p ∙ c.parsed)

index_handle-IsAdded :
    (v : VolumeRecord) (rest : Index) (parsed : Result VolumeError Volume)
    → is_empty v.status.volume_id ≡ false
    → parse_volume_id v.status.volume_id ≡ parsed
    → IsAdded v rest (index_handle v parsed rest)
unfolding index_handle
index_handle-IsAdded v rest (err e) set p =
    nothing-IsAdded v rest (λ handle c. cc (sym p ∙ c.parsed))
index_handle-IsAdded v rest (ok handle) set p = branch (is_empty (disk_suffix handle)) refl
  where
    branch :
        (b : Bool)
        → is_empty (disk_suffix handle) ≡ b
        → IsAdded v rest (
            if b then rest else record {
              claimed = claim_key (target_of handle) (disk_suffix handle) ∷ rest.claimed;
              ledger = (target_of handle, missing_of v) ∷ rest.ledger;
            })
    branch true e = nothing-IsAdded v rest (λ h c.
        (let q = ap (λ x. is_empty (disk_suffix x)) (same_handle v handle h p c) in
          ground (arith, e, q, c.named)))
    branch false e =
        (let own : Claims v handle = record { has_id = set; parsed = p; named = e } in
          record {
            claimed = λ key h. elim (contains_cases _ key rest.claimed h) [
              | inl same ↦ inr (handle, own, same)
              | inr k ↦ inl k
            ];
            entries = λ t w m. first_or_rest t w m own;
            keeps = λ t w m. Memᴰ.tail m;
            adds = λ h c.
                Memᴰ.head
                  (ap (λ x. (target_of x, missing_of v)) (sym (same_handle v handle h p c)));
          })
      where
        first_or_rest :
            (t : Target) (w : Missing)
            → Memᴰ (t, w) ((target_of handle, missing_of v) ∷ rest.ledger)
            → Claims v handle
            → Memᴰ (t, w) rest.ledger
              ⊎ ((h : Volume) × Claims v h × (target_of h ≡ t) × (w ≡ missing_of v))
        first_or_rest t w (Memᴰ.head q) own =
            inr (handle, own, sym (ap (λ x. x.0) q), ap (λ x. x.1) q)
        first_or_rest t w (Memᴰ.tail m) own = inl m

index-IsAdded :
    (v : VolumeRecord) (vols : List VolumeRecord) → IsAdded v (index vols) (index (v ∷ vols))
unfolding index
index-IsAdded v vols = branch (is_empty v.status.volume_id) refl
  where
    branch :
        (b : Bool)
        → is_empty v.status.volume_id ≡ b
        → IsAdded v (index vols) (
            if b
            then index vols
            else index_handle v (parse_volume_id v.status.volume_id) (index vols))
    branch true e = nothing-IsAdded v (index vols) (λ h c. ground (arith, e, c.has_id))
    branch false e = index_handle-IsAdded v (index vols) (parse_volume_id v.status.volume_id) e refl

-- The keys of the disks that records claim.
abbrev pub Claimed : List VolumeRecord → Text → Type 0
Claimed vols key =
    (c : Claimant vols) × (claim_key (target_of c.handle) (disk_suffix c.handle) ≡ key)

claimed_sound :
    (vols : List VolumeRecord) (key : Text)
    → contains_text (index vols).claimed key ≡ true
    → Claimed vols key
claimed_sound [] key h = unfold index contains_text in ground (arith, h)
claimed_sound (v ∷ vols) key h = elim ((index-IsAdded v vols).claimed key h) [
  | inl k ↦ (let r = claimed_sound vols key k in (later_claimant v vols r.0, r.1))
  | inr (handle, c, e) ↦ (record { vol = v; handle = handle; mem = Memᴰ.head refl; claims = c }, e)
]

-- The claimed keys are those that records claim.
pub claimed_iff :
    (vols : List VolumeRecord) (key : Text)
    → (contains_text (index vols).claimed key ≡ true) ↔ Claimed vols key
claimed_iff vols key = (
  claimed_sound vols key,
  (λ k.
      subst (λ x. contains_text (index vols).claimed x ≡ true) k.1
        (index-Claims (k.0).vol vols (k.0).handle (k.0).mem (k.0).claims)),
)

-- The volumes that records put on a storage.
abbrev pub Expects : List VolumeRecord → Target → Missing → Type 0
Expects vols t w = (c : Claimant vols) × (target_of c.handle ≡ t) × (w ≡ missing_of c.vol)

entries_sound :
    (vols : List VolumeRecord) (t : Target) (w : Missing)
    → Memᴰ (t, w) (index vols).ledger
    → Expects vols t w
entries_sound [] t w m = unfold index in elim m [ ]
entries_sound (v ∷ vols) t w m = elim ((index-IsAdded v vols).entries t w m) [
  | inl k ↦ (let r = entries_sound vols t w k in (later_claimant v vols r.0, r.1, r.2))
  | inr (handle, c, e, f) ↦
      (record { vol = v; handle = handle; mem = Memᴰ.head refl; claims = c }, e, f)
]

entries_complete :
    (vols : List VolumeRecord) (vol : VolumeRecord) (handle : Volume)
    → Memᴰ vol vols
    → Claims vol handle
    → Memᴰ (target_of handle, missing_of vol) (index vols).ledger
entries_complete [] vol handle m c = elim m [ ]
entries_complete (v ∷ vols) vol handle (Memᴰ.head p) c =
    subst (λ x. Memᴰ (target_of handle, missing_of x) (index (v ∷ vols)).ledger) (sym p)
      ((index-IsAdded v vols).adds handle (subst (λ x. Claims x handle) p c))
entries_complete (v ∷ vols) vol handle (Memᴰ.tail m) c =
    (index-IsAdded v vols).keeps (target_of handle) (missing_of vol)
      (entries_complete vols vol handle m c)

expected_at_sound :
    (t : Target) (entries : List (Target × Missing)) (w : Missing)
    → Memᴰ w (expected_at t entries)
    → Memᴰ (t, w) entries
unfolding expected_at
expected_at_sound t [] w m = elim m [ ]
expected_at_sound t ((u, volume) ∷ entries) w m =
    branch (expected_at_sound t entries w) (same_target u t) refl m
  where
    branch :
        (Memᴰ w (expected_at t entries) → Memᴰ (t, w) entries)
        → (b : Bool) → same_target u t ≡ b
        → Memᴰ w (if b then volume ∷ expected_at t entries else expected_at t entries)
        → Memᴰ (t, w) ((u, volume) ∷ entries)
    branch rest true e (Memᴰ.head p) =
        Memᴰ.head (ap (λ x. (x, w)) (sym (same_target-eq u t e)) ∙ ap (λ x. (u, x)) p)
    branch rest true e (Memᴰ.tail k) = Memᴰ.tail (rest k)
    branch rest false e k = Memᴰ.tail (rest k)

expected_at_complete :
    (t : Target) (entries : List (Target × Missing)) (w : Missing)
    → Memᴰ (t, w) entries
    → Memᴰ w (expected_at t entries)
unfolding expected_at
expected_at_complete t [] w m = elim m [ ]
expected_at_complete t ((u, volume) ∷ entries) w (Memᴰ.head p) =
    (let e : same_target u t ≡ true =
        ap (λ x. same_target x t) (sym (ap (λ x. x.0) p)) ∙ same_target_refl t in
      rw e (Memᴰ.head (ap (λ x. x.1) p)))
expected_at_complete t ((u, volume) ∷ entries) w (Memᴰ.tail m) =
    branch (expected_at_complete t entries w m) (same_target u t)
  where
    branch :
        Memᴰ w (expected_at t entries)
        → (b : Bool) → Memᴰ w (if b then volume ∷ expected_at t entries else expected_at t entries)
    branch k true = Memᴰ.tail k
    branch k false = k

-- The volumes that are expected on a storage are those that records put there.
pub expected_iff :
    (vols : List VolumeRecord) (t : Target) (w : Missing)
    → Memᴰ w (expected_at t (index vols).ledger) ↔ Expects vols t w
expected_iff vols t w = (
  (λ m. entries_sound vols t w (expected_at_sound t (index vols).ledger w m)),
  (λ k. expected_at_complete t (index vols).ledger w (
      subst (λ x. Memᴰ x (index vols).ledger) (ap₂ (λ x y. (x, y)) k.1 (sym k.2))
        (entries_complete vols (k.0).vol (k.0).handle (k.0).mem (k.0).claims))),
)

-- A disk of the listing has the rename-stable name.
abbrev pub Present : List Disk → Text → Type 0
Present disks s = (disk : Disk) × Memᴰ disk disks × (suffix_of_disk disk ≡ s)

suffixes_sound :
    (disks : List Disk) (s : Text) → contains_text (suffixes disks) s ≡ true → Present disks s
unfolding suffixes
suffixes_sound [] s h = unfold contains_text in ground (arith, h)
suffixes_sound (disk ∷ disks) s h =
    branch (suffixes_sound disks s) (is_empty (suffix_of_disk disk)) h
  where
    branch :
        (contains_text (suffixes disks) s ≡ true → Present disks s)
        → (b : Bool)
        → contains_text (if b then suffixes disks else suffix_of_disk disk ∷ suffixes disks) s
          ≡ true
        → Present (disk ∷ disks) s
    branch rest true h = (let r = rest h in (r.0, Memᴰ.tail r.1, r.2))
    branch rest false h = elim (contains_cases (suffix_of_disk disk) s (suffixes disks) h) [
      | inl e ↦ (disk, Memᴰ.head refl, e)
      | inr k ↦ (let r = rest k in (r.0, Memᴰ.tail r.1, r.2))
    ]

contains_later :
    (x s : Text) (xs : List Text) → contains_text xs s ≡ true → contains_text (x ∷ xs) s ≡ true
unfolding contains_text
contains_later x s xs h = ground (arith, h)

contains_here : (x s : Text) (xs : List Text) → x ≡ s → contains_text (x ∷ xs) s ≡ true
unfolding contains_text
contains_here x s xs h = ground (arith, text_eq_iff x s, h)

suffixes_complete :
    (disks : List Disk) (s : Text) (disk : Disk)
    → is_empty s ≡ false
    → Memᴰ disk disks
    → suffix_of_disk disk ≡ s
    → contains_text (suffixes disks) s ≡ true
unfolding suffixes
suffixes_complete [] s disk named m e = elim m [ ]
suffixes_complete (d ∷ disks) s disk named (Memᴰ.head p) e =
    (let f : suffix_of_disk d ≡ s = ap suffix_of_disk (sym p) ∙ e in
      let n : is_empty (suffix_of_disk d) ≡ false = ap is_empty f ∙ named in
      branch (is_empty (suffix_of_disk d)) n f)
  where
    branch :
        (b : Bool)
        → b ≡ false
        → suffix_of_disk d ≡ s
        → contains_text (if b then suffixes disks else suffix_of_disk d ∷ suffixes disks) s ≡ true
    branch true n f = cc n
    branch false n f = contains_here (suffix_of_disk d) s (suffixes disks) f
suffixes_complete (d ∷ disks) s disk named (Memᴰ.tail m) e =
    branch (suffixes_complete disks s disk named m e) (is_empty (suffix_of_disk d))
  where
    branch :
        contains_text (suffixes disks) s ≡ true
        → (b : Bool)
        → contains_text (if b then suffixes disks else suffix_of_disk d ∷ suffixes disks) s ≡ true
    branch k true = k
    branch k false = contains_later (suffix_of_disk d) s (suffixes disks) k

-- A name is among the suffixes of a listing exactly if a disk of it has the name.
pub suffixes_iff :
    (disks : List Disk) (s : Text)
    → is_empty s ≡ false
    → (contains_text (suffixes disks) s ≡ true) ↔ Present disks s
suffixes_iff disks s named =
    (suffixes_sound disks s, (λ k. suffixes_complete disks s k.0 named k.1 k.2))
