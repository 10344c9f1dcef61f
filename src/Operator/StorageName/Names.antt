-- ===== src/Operator/StorageName/Names.antt =====
-- `ObjectName` of pkg/operator/controller/storage/name.go, against what a name is to be.
use proxmox_csi_plugin.Prelude.{
  All, ℕ, ◌+◌, ◌≤◌, ◌≡◌, refl, Bool, true, false, not, ◌==◌, ◌&&◌, ◌||◌, List, [], ◌∷◌, ◌++◌,
  length, leb, ltb, Bool-cases, inl, inr, arith,
}
use proxmox_csi_plugin.Text.{Text, is_empty}
use proxmox_csi_plugin.Operator.StorageName.{
  max_name_length, suffix_length, between, name_byte, name_edge, trim_right, take, to_lower,
  join_labels, with_suffix, named_by, exact, labels_of, parts_of, key_of, object_name,
}
use proxmox_csi_plugin.Operator.StorageName.Edges.{
  all_bytes, head_not, last_not, all_bytes-append, all_bytes-take, all_bytes-trim_right,
  head_not-trim_right, last_not-trim_right, last_not-append, trim_right-nonempty,
}
use proxmox_csi_plugin.Operator.StorageName.Dots.{
  dotted, dotted-trim_right, dotted-take, dotted-append, join_labels-dotted, labels_of-dotted,
}
use proxmox_csi_plugin.Operator.StorageName.Bounds.{
  IsLabel, labels_of-AreLabels, join_labels-IsLabel, head_of_append, nonempty_append,
  length-with_suffix,
}

abbrev pub hex_byte : ℕ → Bool
hex_byte c = between b'0' c b'9' || between b'a' c b'f'

-- Eight hexadecimal digits.
pub record IsDigest (d : Text) : Type 0 where
  pub size : length d ≡ suffix_length
  pub digits : all_bytes hex_byte d ≡ true

hex_names : (d : Text) → all_bytes hex_byte d ≡ true → all_bytes name_byte d ≡ true
hex_names [] h = refl
hex_names (c ∷ d) h = ground (arith, hex_names d, h)

hex_ends : (d : Text) → all_bytes hex_byte d ≡ true → last_not name_edge d ≡ true
unfolding is_empty
hex_ends [] h = refl
hex_ends (c ∷ []) h = ground (arith, h)
hex_ends (c ∷ b ∷ d) h = ground (arith, hex_ends (b ∷ d), h)

module _ (d : Text) (digest : IsDigest d) where
  no_size : 0 ≡ suffix_length → ⊥
  no_size h = omega (arith, h)

  digest_nonempty : is_empty d ≡ false
  digest_nonempty = nonempty d digest.size
    where
      nonempty : (t : Text) → length t ≡ suffix_length → is_empty t ≡ false
      nonempty [] h = absurd (no_size h)
      nonempty (c ∷ t) h = unfold is_empty in refl

  digest-IsLabel : IsLabel d
  digest-IsLabel = record {
    bytes = hex_names d digest.digits;
    first = starts d digest.digits;
    last = hex_ends d digest.digits;
    some_byte = digest_nonempty;
  }
    where
      starts : (t : Text) → all_bytes hex_byte t ≡ true → head_not name_edge t ≡ true
      starts [] h = refl
      starts (c ∷ t) h = ground (arith, h)

  abbrev suffix : Text
  suffix = b'-' ∷ d

  -- What is left of a name that is cut keeps its first byte.
  cut_start :
      (name : Text)
      → IsLabel name
      → (is_empty (trim_right name_edge (take 244 name)) ≡ false)
        × (head_not name_edge (trim_right name_edge (take 244 name)) ≡ true)
  unfolding take is_empty
  cut_start [] n = cc (n.some_byte)
  cut_start (c ∷ s) n = (
    trim_right-nonempty name_edge c (take 243 s) (ground (arith, n.first)),
    head_not-trim_right name_edge (c ∷ take 243 s) n.first,
  )

  suffixed :
      (name : Text)
      → is_empty name ≡ false
      → head_not name_edge name ≡ true
      → all_bytes name_byte name ≡ true
      → IsLabel (name ++ suffix)
  suffixed name e h b = record {
    bytes = all_bytes-append name_byte name suffix b (hex_names d digest.digits);
    first = head_of_append name suffix e h;
    last =
        last_not-append name_edge name suffix (unfold is_empty in refl)
          (rw digest_nonempty (hex_ends d digest.digits));
    some_byte = nonempty_append name suffix e;
  }

  with_suffix-IsLabel : (name : Text) → IsLabel name → IsLabel (with_suffix name suffix)
  unfolding with_suffix
  with_suffix-IsLabel name n =
      elim (Bool-cases (ltb max_name_length (length name + length suffix))) [
        | inl long ↦
            rw (long, digest.size)
              (suffixed (trim_right name_edge (take 244 name)) (cut_start name n).0
                (cut_start name n).1
                (all_bytes-trim_right name_byte name_edge (take 244 name)
                  (all_bytes-take name_byte 244 name n.bytes)))
        | inr short ↦ rw short (suffixed name n.some_byte n.first n.bytes)
      ]

  named_by-IsLabel :
      (is_exact : Bool) (ls : List Text) → All IsLabel ls → IsLabel (named_by d is_exact ls)
  unfolding named_by
  named_by-IsLabel is_exact [] h = digest-IsLabel
  named_by-IsLabel is_exact (l ∷ ls) h =
      elim (Bool-cases (is_exact && leb (length (join_labels (l ∷ ls))) max_name_length)) [
        | inl plain ↦ rw plain (join_labels-IsLabel l ls h)
        | inr other ↦
            rw other (with_suffix-IsLabel (join_labels (l ∷ ls)) (join_labels-IsLabel l ls h))
      ]

  length-named_by :
      (is_exact : Bool) (ls : List Text) → length (named_by d is_exact ls) ≤ max_name_length
  unfolding named_by
  length-named_by is_exact [] = omega (arith, digest.size)
  length-named_by is_exact (l ∷ ls) =
      elim (Bool-cases (is_exact && leb (length (join_labels (l ∷ ls))) max_name_length)) [
        | inl plain ↦ rw plain (ground (arith, plain))
        | inr other ↦
            rw other (length-with_suffix (join_labels (l ∷ ls)) suffix (omega (arith, digest.size)))
      ]

hex_behind :
    (c : ℕ) (d : Text)
    → not (c == b'.') ≡ true
    → all_bytes hex_byte d ≡ true
    → dotted (c ∷ d) ≡ true
hex_behind c [] e h = refl
hex_behind c (b ∷ d) e h =
    (let r = hex_behind b d (ground (arith, h)) (ground (arith, h)) in ground (arith, e, h, r))

hex_dotted : (d : Text) → all_bytes hex_byte d ≡ true → dotted d ≡ true
hex_dotted [] h = refl
hex_dotted (c ∷ d) h = hex_behind c d (ground (arith, h)) (ground (arith, h))

module _ (d : Text) (digest : IsDigest d) where
  with_suffix-dotted :
      (name : Text)
      → IsLabel name
      → dotted name ≡ true
      → dotted (with_suffix name (b'-' ∷ d)) ≡ true
  unfolding with_suffix
  with_suffix-dotted name n h =
      elim (Bool-cases (ltb max_name_length (length name + length (b'-' ∷ d)))) [
        | inl long ↦
            rw (long, digest.size)
              (dotted-append (trim_right name_edge (take 244 name)) b'-' d
                (dotted-trim_right name_edge (take 244 name) (dotted-take 244 name h))
                (last_not-trim_right name_edge (take 244 name)) refl
                (hex_behind b'-' d refl digest.digits))
        | inr short ↦
            rw short
              (dotted-append name b'-' d h n.last refl (hex_behind b'-' d refl digest.digits))
      ]

  named_by-dotted :
      (is_exact : Bool) (ls : List Text)
      → All IsLabel ls
      → All (λ s. dotted s ≡ true) ls
      → dotted (named_by d is_exact ls) ≡ true
  unfolding named_by
  named_by-dotted is_exact [] a h = hex_dotted d digest.digits
  named_by-dotted is_exact (l ∷ ls) a h =
      elim (Bool-cases (is_exact && leb (length (join_labels (l ∷ ls))) max_name_length)) [
        | inl plainly ↦ rw plainly (join_labels-dotted l ls a h)
        | inr other ↦ rw other (
            with_suffix-dotted (join_labels (l ∷ ls)) (join_labels-IsLabel l ls a)
              (join_labels-dotted l ls a h))
      ]

-- A name that Kubernetes takes as the name of an object: at most 253 letters, digits, dashes and dots,
-- that begins and ends with a letter or a digit, as does each of its parts between the dots.
pub record IsObjectName (name : Text) : Type 0 where
  pub short : length name ≤ max_name_length
  pub label : IsLabel name
  pub dots : dotted name ≡ true

parts_dotted :
    (region zone storage : Text)
    → dotted (to_lower region) ≡ true
    → dotted (to_lower zone) ≡ true
    → dotted (to_lower storage) ≡ true
    → All (λ p. dotted (to_lower p) ≡ true) (parts_of region zone storage)
parts_dotted region zone storage r z s = elim (Bool-cases (is_empty zone)) [
  | inl unzoned ↦ rw unzoned (r, (s, tt))
  | inr zoned ↦ rw zoned (r, (z, (s, tt)))
]

-- The name of a published storage is the name of an object, if beside every dot of the region, of the
-- zone and of the storage stand only letters and digits, and the digest is eight hexadecimal digits.
pub object_name-IsObjectName :
    (digest : Text → Text) (region zone storage : Text)
    → ((key : Text) → IsDigest (digest key))
    → dotted (to_lower region) ≡ true
    → dotted (to_lower zone) ≡ true
    → dotted (to_lower storage) ≡ true
    → IsObjectName (object_name digest region zone storage)
unfolding object_name
object_name-IsObjectName digest region zone storage h r z s =
    (let parts = parts_of region zone storage in
      let d = h (key_of region zone storage) in
      record {
        short =
            length-named_by (digest (key_of region zone storage)) d (exact parts) (labels_of parts);
        label =
            named_by-IsLabel (digest (key_of region zone storage)) d (exact parts) (labels_of parts)
              (labels_of-AreLabels parts);
        dots =
            named_by-dotted (digest (key_of region zone storage)) d (exact parts) (labels_of parts)
              (labels_of-AreLabels parts)
              (labels_of-dotted parts (parts_dotted region zone storage r z s));
      })
