-- ===== src/Operator/StorageName/Dots.antt =====
-- The dots of the names of pkg/operator/controller/storage/name.go: what stands beside them.
use proxmox_csi_plugin.Prelude.{
  ℕ, ◌-◌, ◌≡◌, refl, Bool, true, false, not, ◌&&◌, ◌||◌, List, [], ◌∷◌, ◌++◌, map, ◌==◌, All,
  Bool-cases, inl, inr, if◌then◌else◌, arith,
}
use proxmox_csi_plugin.Text.{Text, is_empty}
use proxmox_csi_plugin.Operator.StorageName.{
  between, name_byte, name_edge, sanitize, to_lower, trim_left, trim_right, trim, take, join_labels,
  labels_of,
}
use proxmox_csi_plugin.Operator.StorageName.Edges.{all_bytes, head_not, last_not}
use proxmox_csi_plugin.Operator.StorageName.Bounds.{IsLabel, join_labels-IsLabel}

-- A letter that is not capital, or a digit.
abbrev pub plain : ℕ → Bool
plain c = between b'a' c b'z' || between b'0' c b'9'

-- A dot of the two stands beside a letter or a digit.
abbrev beside : ℕ → ℕ → Bool
beside c d = (not (c == b'.') || plain d) && (not (d == b'.') || plain c)

-- Beside every dot stand only letters and digits.
abbrev pub dotted : Text → Bool
dotted [] = true
dotted (c ∷ []) = true
dotted (c ∷ d ∷ s) = beside c d && dotted (d ∷ s)

abbrev name_or_dash : ℕ → ℕ
name_or_dash c = if name_byte c then c else b'-'

mapped_beside : (c d : ℕ) → beside c d ≡ true → beside (name_or_dash c) (name_or_dash d) ≡ true
mapped_beside c d h = elim (Bool-cases (name_byte c)) [
  | inl k ↦
      rw k (elim (Bool-cases (name_byte d)) [
        | inl l ↦ rw l h
        | inr l ↦ rw l (ground (arith, h, k, l))
      ])
  | inr k ↦ rw k (elim (Bool-cases (name_byte d)) [
    | inl l ↦ rw l (ground (arith, h, k, l))
    | inr l ↦ rw l refl
  ])
]

mapped_dotted : (s : Text) → dotted s ≡ true → dotted (map name_or_dash s) ≡ true
mapped_dotted [] h = refl
mapped_dotted (c ∷ []) h = refl
mapped_dotted (c ∷ d ∷ s) h =
    both_true _ _ (mapped_beside c d (ground (arith, h)))
      (mapped_dotted (d ∷ s) (ground (arith, h)))
  where
    both_true : (a b : Bool) → a ≡ true → b ≡ true → (a && b) ≡ true
    both_true a b h k = ground (arith, h, k)

rest_dotted : (c : ℕ) (s : Text) → dotted (c ∷ s) ≡ true → dotted s ≡ true
rest_dotted c [] h = refl
rest_dotted c (d ∷ s) h = ground (arith, h)

module _ (p : ℕ → Bool) where
  dotted-trim_left : (s : Text) → dotted s ≡ true → dotted (trim_left p s) ≡ true
  unfolding trim_left
  dotted-trim_left [] h = refl
  dotted-trim_left (c ∷ s) h = elim (Bool-cases (p c)) [
    | inl k ↦ rw k (dotted-trim_left s (rest_dotted c s h))
    | inr k ↦ rw k h
  ]

  trimmed_behind : (c : ℕ) (s : Text) → dotted (c ∷ s) ≡ true → dotted (c ∷ trim_right p s) ≡ true
  unfolding trim_right
  trimmed_behind c [] h = refl
  trimmed_behind c (d ∷ s) h = elim (Bool-cases (p d && is_empty (trim_right p s))) [
    | inl k ↦ rw k refl
    | inr k ↦ rw k (let r = trimmed_behind d s (rest_dotted c (d ∷ s) h) in ground (arith, h, r))
  ]

  pub dotted-trim_right : (s : Text) → dotted s ≡ true → dotted (trim_right p s) ≡ true
  unfolding trim_right
  dotted-trim_right [] h = refl
  dotted-trim_right (c ∷ s) h = elim (Bool-cases (p c && is_empty (trim_right p s))) [
    | inl k ↦ rw k refl
    | inr k ↦ rw k (trimmed_behind c s h)
  ]

taken_behind : (n c : ℕ) (s : Text) → dotted (c ∷ s) ≡ true → dotted (c ∷ take n s) ≡ true
unfolding take
taken_behind n c [] h = refl
taken_behind n c (d ∷ s) h = elim (Bool-cases (n == 0)) [
  | inl k ↦ rw k refl
  | inr k ↦
      rw k (let r = taken_behind (n - 1) d s (rest_dotted c (d ∷ s) h) in ground (arith, h, r))
]

pub dotted-take : (n : ℕ) (s : Text) → dotted s ≡ true → dotted (take n s) ≡ true
unfolding take
dotted-take n [] h = refl
dotted-take n (c ∷ s) h = elim (Bool-cases (n == 0)) [
  | inl k ↦ rw k refl
  | inr k ↦ rw k (taken_behind (n - 1) c s h)
]

dotted-sanitize : (s : Text) → dotted s ≡ true → dotted (sanitize s) ≡ true
unfolding sanitize trim
dotted-sanitize s h =
    dotted-trim_right name_edge (trim_left name_edge (map name_or_dash s))
      (dotted-trim_left name_edge (map name_or_dash s) (mapped_dotted s h))

-- A text that ends with neither a dot nor a dash may be followed by a text that begins with no dot.
pub dotted-append :
    (s : Text) (c : ℕ) (t : Text)
    → dotted s ≡ true
    → last_not name_edge s ≡ true
    → not (c == b'.') ≡ true
    → dotted (c ∷ t) ≡ true
    → dotted (s ++ c ∷ t) ≡ true
unfolding is_empty
dotted-append [] c t h l e k = k
dotted-append (d ∷ []) c t h l e k = ground (arith, l, e, k)
dotted-append (d ∷ b ∷ s) c t h l e k =
    (let r = dotted-append (b ∷ s) c t (rest_dotted d (b ∷ s) h) l e k in ground (arith, h, r))

-- Two texts of such bytes may be joined by a dot, if a letter or a digit stands on either side.
joined :
    (s t : Text)
    → dotted s ≡ true
    → all_bytes name_byte s ≡ true
    → last_not name_edge s ≡ true
    → is_empty s ≡ false
    → dotted t ≡ true
    → all_bytes name_byte t ≡ true
    → head_not name_edge t ≡ true
    → is_empty t ≡ false
    → dotted (s ++ b'.' ∷ t) ≡ true
unfolding is_empty
joined [] t h b l e k g f n = ground (arith, e)
joined (c ∷ s) [] h b l e k g f n = ground (arith, n)
joined (c ∷ []) (d ∷ t) h b l e k g f n = ground (arith, h, b, l, k, g, f)
joined (c ∷ b ∷ s) (d ∷ t) h bs l e k g f n =
    (let r = joined (b ∷ s) (d ∷ t) (rest_dotted c (b ∷ s) h) (ground (arith, bs)) l refl k g f n in
      ground (arith, h, r))

joined_dotted :
    (s t : Text)
    → IsLabel s
    → dotted s ≡ true
    → IsLabel t
    → dotted t ≡ true
    → dotted (s ++ b'.' ∷ t) ≡ true
joined_dotted s t a h b k = joined s t h a.bytes a.last a.some_byte k b.bytes b.first b.some_byte

pub join_labels-dotted :
    (l : Text) (ls : List Text)
    → All IsLabel (l ∷ ls)
    → All (λ s. dotted s ≡ true) (l ∷ ls)
    → dotted (join_labels (l ∷ ls)) ≡ true
unfolding join_labels
join_labels-dotted l [] a h = h.0
join_labels-dotted l (m ∷ ls) a h =
    joined_dotted l (join_labels (m ∷ ls)) a.0 h.0 (join_labels-IsLabel m ls a.1)
      (join_labels-dotted m ls a.1 h.1)

pub labels_of-dotted :
    (parts : List Text)
    → All (λ p. dotted (to_lower p) ≡ true) parts
    → All (λ s. dotted s ≡ true) (labels_of parts)
unfolding labels_of
labels_of-dotted [] h = tt
labels_of-dotted (part ∷ parts) h =
    branch (is_empty (sanitize (to_lower part))) (dotted-sanitize (to_lower part) h.0)
      (labels_of-dotted parts h.1)
  where
    branch :
        (b : Bool)
        → dotted (sanitize (to_lower part)) ≡ true
        → All (λ s. dotted s ≡ true) (labels_of parts)
        → All
            (λ s. dotted s ≡ true)
            (if b then labels_of parts else sanitize (to_lower part) ∷ labels_of parts)
    branch true k r = r
    branch false k r = (k, r)
