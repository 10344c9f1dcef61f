-- ===== src/Operator/VmLock/Sound.antt =====
-- The invariant of pkg/operator/proxmox/vmlock.go, and `get`.
use proxmox_csi_plugin.Prelude.{
  ℕ, suc, ◌<◌, ◌≡◌, refl, sym, ◌∙◌, true, false, List, ◌∷◌, none, some, ◌⊎◌, inl, inr, Bool-cases,
  Option-cases, ◌==◌, if◌then◌else◌, arith,
}
use proxmox_csi_plugin.Text.{Text, text_eq, text_eq_refl, eq_of_text_eq, lookup}
use proxmox_csi_plugin.Operator.VmLock.{key, waiting, holding, Locks, new_vm_lock, set_at, get}

-- The mutex of each key, and who is behind which.
pub record IsSound (s : Locks) : Type 0 where
  pub bounded : (k : Text) (m : ℕ) → lookup k s.table ≡ some m → m < s.made
  pub distinct :
      (k l : Text) (m : ℕ) → lookup k s.table ≡ some m → lookup l s.table ≡ some m → k ≡ l
  pub waits :
      (t : ℕ) (r : Text) (v m : ℕ) → s.phase t ≡ waiting r v m → lookup (key r v) s.table ≡ some m
  pub holds :
      (t : ℕ) (r : Text) (v m : ℕ)
      → s.phase t ≡ holding r v m
      → (lookup (key r v) s.table ≡ some m) × (s.holder m ≡ some t)
  pub held : (t m : ℕ) → s.holder m ≡ some t → (r : Text) × (v : ℕ) × (s.phase t ≡ holding r v m)

pub set_same :
    {A : Type 0} (n : ℕ) (a : A) (f : ℕ → A) (k : ℕ) → (k == n) ≡ true → set_at n a f k ≡ a
set_same n a f k h = rw h refl

pub set_other :
    {A : Type 0} (n : ℕ) (a : A) (f : ℕ → A) (k : ℕ) → (k == n) ≡ false → set_at n a f k ≡ f k
set_other n a f k h = rw h refl

pub new_vm_lock-IsSound : IsSound new_vm_lock
unfolding lookup
new_vm_lock-IsSound = record {
  bounded = λ k m h. cc h;
  distinct = λ k l m h g. cc h;
  waits = λ t r v m h. cc h;
  holds = λ t r v m h. cc h;
  held = λ t m h. cc h;
}

-- The key of a table that gets an entry.
lookup_cons :
    (k l : Text) (m : ℕ) (table : List (Text × ℕ))
    → lookup k ((l, m) ∷ table) ≡ (if text_eq l k then some m else lookup k table)
unfolding lookup
lookup_cons k l m table = refl

-- `get` answers the mutex of the key, and keeps the rest.
module _ (k : Text) (s : Locks) (i : IsSound s) where
  pub record Got (u : Locks) (m : ℕ) : Type 0 where
    pub sound : IsSound u
    pub found : lookup k u.table ≡ some m
    pub same_holder : u.holder ≡ s.holder
    pub same_phase : u.phase ≡ s.phase
    pub kept : (l : Text) (n : ℕ) → lookup l s.table ≡ some n → lookup l u.table ≡ some n

  abbrev grown : Locks
  grown = record s { table = (k, s.made) ∷ s.table; made = suc s.made }

  grown_keeps :
      lookup k s.table ≡ none
      → (l : Text) (n : ℕ) → lookup l s.table ≡ some n
      → lookup l grown.table ≡ some n
  grown_keeps missing l n h = elim (Bool-cases (text_eq k l)) [
    | inl same ↦ (let e = eq_of_text_eq k l same in cc (missing, h, e))
    | inr other ↦ lookup_cons l k s.made s.table ∙ rw other h
  ]

  grown_cases :
      (l : Text) (n : ℕ)
      → lookup l grown.table ≡ some n
      → ((k ≡ l) × (n ≡ s.made)) ⊎ (lookup l s.table ≡ some n)
  grown_cases l n h = elim (Bool-cases (text_eq k l)) [
    | inl same ↦
        inl
          (eq_of_text_eq k l same, (let g = rw (lookup_cons l k s.made s.table, same) at h in cc g))
    | inr other ↦ inr (rw (lookup_cons l k s.made s.table, other) at h)
  ]

  not_made : (l : Text) (m : ℕ) → m ≡ s.made → lookup l s.table ≡ some m → ⊥
  not_made l m e h = (let b = i.bounded l m h in omega (arith, b, e))

  one_key :
      (a b : Text) (m : ℕ)
      → ((k ≡ a) × (m ≡ s.made)) ⊎ (lookup a s.table ≡ some m)
      → ((k ≡ b) × (m ≡ s.made)) ⊎ (lookup b s.table ≡ some m)
      → a ≡ b
  one_key a b m (inl e) (inl f) = sym e.0 ∙ f.0
  one_key a b m (inl e) (inr g) = absurd (not_made b m e.1 g)
  one_key a b m (inr h) (inl f) = absurd (not_made a m f.1 h)
  one_key a b m (inr h) (inr g) = i.distinct a b m h g

  grown-Got : lookup k s.table ≡ none → Got grown s.made
  grown-Got missing = record {
    sound = record {
      bounded = λ l m h. elim (grown_cases l m h) [
        | inl e ↦ omega (arith, e.1)
        | inr g ↦ (let b = i.bounded l m g in omega (arith, b))
      ];
      distinct = λ a b m h g. one_key a b m (grown_cases a m h) (grown_cases b m g);
      waits = λ t r v m h. grown_keeps missing (key r v) m (i.waits t r v m h);
      holds = λ t r v m h.
          (grown_keeps missing (key r v) m (i.holds t r v m h).0, (i.holds t r v m h).1);
      held = i.held;
    };
    found = lookup_cons k k s.made s.table ∙ rw (text_eq_refl k) refl;
    same_holder = refl;
    same_phase = refl;
    kept = grown_keeps missing;
  }

  pub Got-get : Got (get k s).0 (get k s).1
  unfolding get
  Got-get = elim (Option-cases (lookup k s.table)) [
    | inl missing ↦ rw missing (grown-Got missing)
    | inr found ↦ rw found.1 (record {
      sound = i;
      found = found.1;
      same_holder = refl;
      same_phase = refl;
      kept = λ l n h. h;
    })
  ]
