-- ===== src/Operator/StorageName/Bounds.antt =====
-- The lengths of the names and labels of pkg/operator/controller/storage/name.go.
use proxmox_csi_plugin.Prelude.{
  All, ℕ, ◌+◌, ◌-◌, ◌≤◌, ◌≡◌, refl, Bool, true, false, List, [], ◌∷◌, ◌++◌, map, length,
  length-append, ltb, Bool-cases, inl, inr, if◌then◌else◌, arith,
}
use proxmox_csi_plugin.Text.{Text, is_empty}
use proxmox_csi_plugin.Operator.StorageName.{
  max_name_length, name_byte, sanitize, to_lower, trim_left, trim_right, trim, name_edge, take,
  join_labels, with_suffix, labels_of,
}
use proxmox_csi_plugin.Operator.StorageName.Edges.{
  all_bytes, head_not, last_not, all_bytes-append, all_bytes-trim, head_not-trim, last_not-trim,
  last_not-append,
}

pub length-take : (n : ℕ) (s : Text) → length (take n s) ≤ n
unfolding take
length-take n [] = omega arith
length-take n (c ∷ s) = ground (arith, length-take (n - 1) s)

length-trim_left : (p : ℕ → Bool) (s : Text) → length (trim_left p s) ≤ length s
unfolding trim_left
length-trim_left p [] = omega arith
length-trim_left p (c ∷ s) = ground (arith, length-trim_left p s)

length-trim_right : (p : ℕ → Bool) (s : Text) → length (trim_right p s) ≤ length s
unfolding trim_right
length-trim_right p [] = omega arith
length-trim_right p (c ∷ s) = ground (arith, length-trim_right p s)

pub length-trim : (p : ℕ → Bool) (s : Text) → length (trim p s) ≤ length s
unfolding trim
length-trim p s = omega (arith, length-trim_right p (trim_left p s), length-trim_left p s)

pub length-with_suffix :
    (name suffix : Text)
    → length suffix ≤ max_name_length
    → length (with_suffix name suffix) ≤ max_name_length
unfolding with_suffix
length-with_suffix name suffix h =
    elim (Bool-cases (ltb max_name_length (length name + length suffix))) [
      | inl long ↦ rw long (
          let k = length-take (max_name_length - length suffix) name in
          let l = length-trim_right name_edge (take (max_name_length - length suffix) name) in
          let e =
            length-append (trim_right name_edge (take (max_name_length - length suffix) name))
              suffix in
          omega (arith, h, k, l, e))
      | inr short ↦ rw short (let e = length-append name suffix in ground (arith, short, e))
    ]

-- A text of the bytes of a name, that begins and ends with a letter or a digit.
pub record IsLabel (s : Text) : Type 0 where
  pub bytes : all_bytes name_byte s ≡ true
  pub first : head_not name_edge s ≡ true
  pub last : last_not name_edge s ≡ true
  pub some_byte : is_empty s ≡ false

all_bytes-mapped :
    (s : Text) → all_bytes name_byte (map (λ c. if name_byte c then c else b'-') s) ≡ true
all_bytes-mapped [] = refl
all_bytes-mapped (c ∷ s) = elim (Bool-cases (name_byte c)) [
  | inl kept ↦ rw kept (ground (arith, kept, all_bytes-mapped s))
  | inr replaced ↦ rw replaced (all_bytes-mapped s)
]

sanitize-IsLabel : (s : Text) → is_empty (sanitize s) ≡ false → IsLabel (sanitize s)
unfolding sanitize
sanitize-IsLabel s h = record {
  bytes =
      all_bytes-trim name_byte name_edge (map (λ c. if name_byte c then c else b'-') s)
        (all_bytes-mapped s);
  first = head_not-trim name_edge (map (λ c. if name_byte c then c else b'-') s);
  last = last_not-trim name_edge (map (λ c. if name_byte c then c else b'-') s);
  some_byte = h;
}

pub labels_of-AreLabels : (parts : List Text) → All IsLabel (labels_of parts)
unfolding labels_of
labels_of-AreLabels [] = tt
labels_of-AreLabels (part ∷ parts) = elim (Bool-cases (is_empty (sanitize (to_lower part)))) [
  | inl nothing ↦ rw nothing (labels_of-AreLabels parts)
  | inr left ↦ rw left (sanitize-IsLabel (to_lower part) left, labels_of-AreLabels parts)
]

pub head_of_append :
    (s t : Text)
    → is_empty s ≡ false
    → head_not name_edge s ≡ true
    → head_not name_edge (s ++ t) ≡ true
unfolding is_empty
head_of_append [] t h k = ground (arith, h)
head_of_append (c ∷ s) t h k = k

pub nonempty_append : (s t : Text) → is_empty s ≡ false → is_empty (s ++ t) ≡ false
unfolding is_empty
nonempty_append [] t h = ground (arith, h)
nonempty_append (c ∷ s) t h = refl

joined-IsLabel : (l t : Text) → IsLabel l → IsLabel t → IsLabel (l ++ b'.' ∷ t)
unfolding is_empty
joined-IsLabel l t a b = record {
  bytes = all_bytes-append name_byte l (b'.' ∷ t) a.bytes b.bytes;
  first = head_of_append l (b'.' ∷ t) a.some_byte a.first;
  last = last_not-append name_edge l (b'.' ∷ t) refl (rw b.some_byte b.last);
  some_byte = nonempty_append l (b'.' ∷ t) a.some_byte;
}

pub join_labels-IsLabel :
    (l : Text) (ls : List Text) → All IsLabel (l ∷ ls) → IsLabel (join_labels (l ∷ ls))
unfolding join_labels
join_labels-IsLabel l [] h = h.0
join_labels-IsLabel l (m ∷ ls) h =
    joined-IsLabel l (join_labels (m ∷ ls)) h.0 (join_labels-IsLabel m ls h.1)
