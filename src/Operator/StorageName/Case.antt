-- ===== src/Operator/StorageName/Case.antt =====
-- `ObjectName` of pkg/operator/controller/storage/name.go, of storages whose names differ by case.
use proxmox_csi_plugin.Prelude.{
  ◌≡◌, refl, true, false, List, [], ◌∷◌, length, leb, Bool-cases, inl, inr,
}
use proxmox_csi_plugin.Text.{Text, is_empty}
use proxmox_csi_plugin.Operator.StorageName.{
  max_name_length, to_lower, join_labels, named_by, exact, labels_of, parts_of, key_of, object_name,
}

module _ (digest : Text → Text) (region zone storage other : Text)
    (same : to_lower storage ≡ to_lower other) where
  same_labels : labels_of (parts_of region zone storage) ≡ labels_of (parts_of region zone other)
  unfolding labels_of
  same_labels = elim (Bool-cases (is_empty zone)) [
    | inl none' ↦ rw (none', same) refl
    | inr some' ↦ rw (some', same) refl
  ]

  same_exact : exact (parts_of region zone storage) ≡ exact (parts_of region zone other)
  unfolding exact
  same_exact = elim (Bool-cases (is_empty zone)) [
    | inl none' ↦ rw (none', same) refl
    | inr some' ↦ rw (some', same) refl
  ]

  any_digest :
      (d e : Text) (ls : List Text)
      → is_empty (join_labels ls) ≡ false
      → leb (length (join_labels ls)) max_name_length ≡ true
      → named_by d true ls ≡ named_by e true ls
  unfolding named_by join_labels is_empty
  any_digest d e [] h k = cc h
  any_digest d e (l ∷ ls) h k = rw k refl

  -- Two storages of one place whose names differ only by the case of letters get one name, if the parts
  -- of the name need no replacement and it is short enough, whatever their digests are.
  pub object_name_ignores_case :
      exact (parts_of region zone storage) ≡ true
      → is_empty (join_labels (labels_of (parts_of region zone storage))) ≡ false
      → leb (length (join_labels (labels_of (parts_of region zone storage)))) max_name_length ≡ true
      → object_name digest region zone storage ≡ object_name digest region zone other
  unfolding object_name
  object_name_ignores_case e n k =
      rw (← same_labels, ← same_exact, e)
        (any_digest (digest (key_of region zone storage)) (digest (key_of region zone other))
          (labels_of (parts_of region zone storage)) n k)
