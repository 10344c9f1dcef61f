-- ===== src/Operator/Drift/Sorting.antt =====
-- `sortReport` of pkg/operator/controller/drift/detector.go, and lists by their members.
use mathlib.Core.List.{Memᴰ}
use proxmox_csi_plugin.Prelude.{
  Bool, true, false, List, [], ◌∷◌, ◌++◌, ◌⊎◌, inl, inr, if◌then◌else◌,
}
use proxmox_csi_plugin.Operator.Drift.{insert_by, sort_by}

module _ {A : Type 0} where
  pub Mem-append_left : (x : A) (xs ys : List A) → Memᴰ x xs → Memᴰ x (xs ++ ys)
  Mem-append_left x [] ys m = elim m [ ]
  Mem-append_left x (y ∷ xs) ys (Memᴰ.head p) = Memᴰ.head p
  Mem-append_left x (y ∷ xs) ys (Memᴰ.tail m) = Memᴰ.tail (Mem-append_left x xs ys m)

  pub Mem-append_right : (x : A) (xs ys : List A) → Memᴰ x ys → Memᴰ x (xs ++ ys)
  Mem-append_right x [] ys m = m
  Mem-append_right x (y ∷ xs) ys m = Memᴰ.tail (Mem-append_right x xs ys m)

  pub Mem-append_cases : (x : A) (xs ys : List A) → Memᴰ x (xs ++ ys) → Memᴰ x xs ⊎ Memᴰ x ys
  Mem-append_cases x [] ys m = inr m
  Mem-append_cases x (y ∷ xs) ys (Memᴰ.head p) = inl (Memᴰ.head p)
  Mem-append_cases x (y ∷ xs) ys (Memᴰ.tail m) = elim (Mem-append_cases x xs ys m) [
    | inl k ↦ inl (Memᴰ.tail k)
    | inr k ↦ inr k
  ]

  module _ (lt : A → A → Bool) where
    insert_by-mem : (x y : A) (ys : List A) → Memᴰ x (insert_by lt y ys) → Memᴰ x (y ∷ ys)
    unfolding insert_by
    insert_by-mem x y [] m = m
    insert_by-mem x y (z ∷ ys) m = branch (insert_by-mem x y ys) (lt y z) m
      where
        branch :
            (Memᴰ x (insert_by lt y ys) → Memᴰ x (y ∷ ys))
            → (b : Bool) → Memᴰ x (if b then y ∷ (z ∷ ys) else z ∷ insert_by lt y ys)
            → Memᴰ x (y ∷ (z ∷ ys))
        branch rest true m = m
        branch rest false (Memᴰ.head p) = Memᴰ.tail (Memᴰ.head p)
        branch rest false (Memᴰ.tail m) = elim (rest m) [
          | Memᴰ.head p ↦ Memᴰ.head p
          | Memᴰ.tail k ↦ Memᴰ.tail (Memᴰ.tail k)
        ]

    mem-insert_by : (x y : A) (ys : List A) → Memᴰ x (y ∷ ys) → Memᴰ x (insert_by lt y ys)
    unfolding insert_by
    mem-insert_by x y [] m = m
    mem-insert_by x y (z ∷ ys) m = branch (mem-insert_by x y ys) (lt y z) m
      where
        branch :
            (Memᴰ x (y ∷ ys) → Memᴰ x (insert_by lt y ys))
            → (b : Bool) → Memᴰ x (y ∷ (z ∷ ys))
            → Memᴰ x (if b then y ∷ (z ∷ ys) else z ∷ insert_by lt y ys)
        branch rest true m = m
        branch rest false (Memᴰ.head p) = Memᴰ.tail (rest (Memᴰ.head p))
        branch rest false (Memᴰ.tail (Memᴰ.head p)) = Memᴰ.head p
        branch rest false (Memᴰ.tail (Memᴰ.tail k)) = Memᴰ.tail (rest (Memᴰ.tail k))

    pub sort_by-mem : (x : A) (xs : List A) → Memᴰ x (sort_by lt xs) → Memᴰ x xs
    unfolding sort_by
    sort_by-mem x [] m = m
    sort_by-mem x (y ∷ ys) m = elim (insert_by-mem x y (sort_by lt ys) m) [
      | Memᴰ.head p ↦ Memᴰ.head p
      | Memᴰ.tail k ↦ Memᴰ.tail (sort_by-mem x ys k)
    ]

    pub mem-sort_by : (x : A) (xs : List A) → Memᴰ x xs → Memᴰ x (sort_by lt xs)
    unfolding sort_by
    mem-sort_by x [] m = m
    mem-sort_by x (y ∷ ys) (Memᴰ.head p) = mem-insert_by x y (sort_by lt ys) (Memᴰ.head p)
    mem-sort_by x (y ∷ ys) (Memᴰ.tail m) =
        mem-insert_by x y (sort_by lt ys) (Memᴰ.tail (mem-sort_by x ys m))
