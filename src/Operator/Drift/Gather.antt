-- ===== src/Operator/Drift/Gather.antt =====
-- `Sweep` of pkg/operator/controller/drift/detector.go: what the loop over the storages gathers.
use mathlib.Core.List.{Memᴰ}
use proxmox_csi_plugin.Prelude.{
  ◌≡◌, ◌↔◌, refl, sym, ap, subst, ◌∙◌, Bool, List, [], ◌∷◌, ◌++◌, ◌⊎◌, inl, inr,
}
use proxmox_csi_plugin.Text.{Text}
use proxmox_csi_plugin.Operator.Drift.{
  Orphan, Missing, Report, Target, target_string, Index, orphans_in, missing_in, expected_at,
  Listing, listed, no_storage, failed, sweep_disks, sweep_target, sweep_targets, sort_by,
}
use proxmox_csi_plugin.Operator.Drift.Sorting.{
  Mem-append_left, Mem-append_right, Mem-append_cases, sort_by-mem, mem-sort_by,
}

-- The elements that the targets of a loop add, after those that are there.
pub gather : {A : Type 0} → (Target → List A) → List Target → List A → List A
gather f [] acc = acc
gather f (t ∷ ts) acc = gather f ts (acc ++ f t)

abbrev pub AddedBy : {A : Type 0} → (Target → List A) → List Target → A → Type 0
AddedBy f ts x = (t : Target) × Memᴰ t ts × Memᴰ x (f t)

module _ {A : Type 0} (f : Target → List A) where
  gather_keeps : (ts : List Target) (acc : List A) (x : A) → Memᴰ x acc → Memᴰ x (gather f ts acc)
  unfolding gather
  gather_keeps [] acc x m = m
  gather_keeps (t ∷ ts) acc x m = gather_keeps ts (acc ++ f t) x (Mem-append_left x acc (f t) m)

  gather_adds :
      (ts : List Target) (acc : List A) (x : A) → AddedBy f ts x → Memᴰ x (gather f ts acc)
  unfolding gather
  gather_adds [] acc x (t, m, k) = elim m [ ]
  gather_adds (u ∷ ts) acc x (t, Memᴰ.head p, k) =
      gather_keeps ts (acc ++ f u) x (Mem-append_right x acc (f u) (subst (λ v. Memᴰ x (f v)) p k))
  gather_adds (u ∷ ts) acc x (t, Memᴰ.tail m, k) = gather_adds ts (acc ++ f u) x (t, m, k)

  gather_sound :
      (ts : List Target) (acc : List A) (x : A)
      → Memᴰ x (gather f ts acc)
      → Memᴰ x acc ⊎ AddedBy f ts x
  unfolding gather
  gather_sound [] acc x m = inl m
  gather_sound (t ∷ ts) acc x m = elim (gather_sound ts (acc ++ f t) x m) [
    | inr (u, k, l) ↦ inr (u, Memᴰ.tail k, l)
    | inl k ↦ elim (Mem-append_cases x acc (f t) k) [
      | inl l ↦ inl l
      | inr l ↦ inr (t, Memᴰ.head refl, l)
    ]
  ]

  gather_nil_iff : (ts : List Target) (x : A) → Memᴰ x (gather f ts []) ↔ AddedBy f ts x
  gather_nil_iff ts x =
      ((λ m. elim (gather_sound ts [] x m) [ inl k ↦ elim k [ ] | inr k ↦ k ]), gather_adds ts [] x)

module _ {A : Type 0} (lt : A → A → Bool) (f : Target → List A) where
  pub sorted_iff :
      (ts : List Target) (xs : List A)
      → xs ≡ gather f ts []
      → (x : A) → Memᴰ x (sort_by lt xs) ↔ AddedBy f ts x
  sorted_iff ts xs e x = (
    (λ m. (gather_nil_iff f ts x).0 (subst (Memᴰ x) e (sort_by-mem lt x xs m))),
    (λ k. mem-sort_by lt x xs (subst (Memᴰ x) (sym e) ((gather_nil_iff f ts x).1 k))),
  )

module _ (list_disks : Target → Listing) (ix : Index) where
  abbrev pub orphans_by : Listing → List Orphan
  orphans_by (listed disks) = orphans_in disks ix.claimed
  orphans_by no_storage = []
  orphans_by failed = []

  abbrev pub missing_by : Target → Listing → List Missing
  missing_by t (listed disks) = missing_in disks (expected_at t ix.ledger)
  missing_by t no_storage = missing_in [] (expected_at t ix.ledger)
  missing_by t failed = []

  abbrev pub unreadable_by : Target → Listing → List Text
  unreadable_by t failed = target_string t ∷ []
  unreadable_by t (listed disks) = []
  unreadable_by t no_storage = []

  append_nil : {A : Type 0} (xs : List A) → xs ≡ xs ++ []
  append_nil [] = refl
  append_nil (x ∷ xs) = ap (λ ys. x ∷ ys) (append_nil xs)

  target_orphans :
      (t : Target) (l : Listing) (r : Report)
      → (sweep_target ix t l r).orphans ≡ r.orphans ++ orphans_by l
  unfolding sweep_target sweep_disks orphans_in
  target_orphans t (listed disks) r = refl
  target_orphans t no_storage r = refl
  target_orphans t failed r = append_nil r.orphans

  target_missing :
      (t : Target) (l : Listing) (r : Report)
      → (sweep_target ix t l r).missing ≡ r.missing ++ missing_by t l
  unfolding sweep_target sweep_disks
  target_missing t (listed disks) r = refl
  target_missing t no_storage r = refl
  target_missing t failed r = append_nil r.missing

  target_unreadable :
      (t : Target) (l : Listing) (r : Report)
      → (sweep_target ix t l r).unreadable ≡ r.unreadable ++ unreadable_by t l
  unfolding sweep_target sweep_disks
  target_unreadable t (listed disks) r = append_nil r.unreadable
  target_unreadable t no_storage r = append_nil r.unreadable
  target_unreadable t failed r = refl

  pub gathered :
      (ts : List Target) (r : Report)
      → ((sweep_targets list_disks ix ts r).orphans
          ≡ gather (λ t. orphans_by (list_disks t)) ts r.orphans)
        × ((sweep_targets list_disks ix ts r).missing
            ≡ gather (λ t. missing_by t (list_disks t)) ts r.missing)
        × ((sweep_targets list_disks ix ts r).unreadable
            ≡ gather (λ t. unreadable_by t (list_disks t)) ts r.unreadable)
  unfolding sweep_targets gather
  gathered [] r = (refl, refl, refl)
  gathered (t ∷ ts) r =
      (let rest = gathered ts (sweep_target ix t (list_disks t) r) in
        (
          rest.0
              ∙ ap (gather (λ u. orphans_by (list_disks u)) ts) (target_orphans t (list_disks t) r),
          rest.1
              ∙ ap (gather (λ u. missing_by u (list_disks u)) ts)
                  (target_missing t (list_disks t) r),
          rest.2
              ∙ ap (gather (λ u. unreadable_by u (list_disks u)) ts)
                  (target_unreadable t (list_disks t) r),
        ))
