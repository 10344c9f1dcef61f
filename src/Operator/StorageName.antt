-- ===== src/Operator/StorageName.antt =====
-- pkg/operator/controller/storage/name.go: the names and labels of the published storages. `digest` is
-- the first eight hexadecimal digits of a SHA-256 sum, and a parameter. `ToLower` is that of ASCII.
pub mod Edges
pub mod Bounds
pub mod Dots
pub mod Names
pub mod Case
use proxmox_csi_plugin.Prelude.{
  ℕ, ◌+◌, ◌-◌, Bool, true, false, not, ◌&&◌, ◌||◌, List, [], ◌∷◌, ◌++◌, map, length, ◌==◌, leb, ltb,
  if◌then◌else◌,
}
use proxmox_csi_plugin.Text.{Text, text_eq, is_empty}

abbrev pub max_name_length : ℕ
max_name_length = 253

abbrev pub suffix_length : ℕ
suffix_length = 8

abbrev pub max_label_length : ℕ
max_label_length = 63

abbrev pub between : ℕ → ℕ → ℕ → Bool
between low c high = leb low c && leb c high

-- `strings.ToLower`
abbrev pub to_lower : Text → Text
to_lower s = map (λ c. if between b'A' c b'Z' then c + 32 else c) s

unfoldable pub trim_left : (ℕ → Bool) → Text → Text
trim_left p [] = []
trim_left p (c ∷ s) = let rest = trim_left p s in if p c then rest else c ∷ s

-- `strings.TrimRight`, of the bytes that satisfy a test.
unfoldable pub trim_right : (ℕ → Bool) → Text → Text
trim_right p [] = []
trim_right p (c ∷ s) = let rest = trim_right p s in if p c && is_empty rest then [] else c ∷ rest

-- `strings.Trim`
unfoldable pub trim : (ℕ → Bool) → Text → Text
trim p s = trim_right p (trim_left p s)

abbrev pub name_byte : ℕ → Bool
name_byte c = between b'a' c b'z' || between b'0' c b'9' || c == b'-' || c == b'.'

abbrev pub name_edge : ℕ → Bool
name_edge c = c == b'-' || c == b'.'

-- `sanitize`
unfoldable pub sanitize : Text → Text
sanitize s = trim name_edge (map (λ c. if name_byte c then c else b'-') s)

-- The labels that are left of the parts.
unfoldable pub labels_of : List Text → List Text
labels_of [] = []
labels_of (part ∷ parts) =
    let rest = labels_of parts in
    if is_empty (sanitize (to_lower part)) then rest else sanitize (to_lower part) ∷ rest

-- No part was changed by `sanitize`.
unfoldable pub exact : List Text → Bool
exact [] = true
exact (part ∷ parts) = text_eq (sanitize (to_lower part)) (to_lower part) && exact parts

abbrev pub parts_of : Text → Text → Text → List Text
parts_of region zone storage =
    if is_empty zone then region ∷ storage ∷ [] else region ∷ zone ∷ storage ∷ []

-- `strings.Join(…, ".")`
unfoldable pub join_labels : List Text → Text
join_labels [] = []
join_labels (l ∷ []) = l
join_labels (l ∷ m ∷ ls) = l ++ b'.' ∷ join_labels (m ∷ ls)

-- `name[:n]`
pub take : ℕ → Text → Text
take n [] = []
take n (c ∷ s) = let rest = take (n - 1) s in if n == 0 then [] else c ∷ rest

-- The exact coordinate, with a separator that no part holds.
abbrev pub key_of : Text → Text → Text → Text
key_of region zone storage = region ++ 0 ∷ (zone ++ 0 ∷ storage)

pub with_suffix : Text → Text → Text
unfolding take
with_suffix name suffix =
    if ltb max_name_length (length name + length suffix)
    then trim_right name_edge (take (max_name_length - length suffix) name) ++ suffix
    else name ++ suffix

pub named_by : Text → Bool → List Text → Text
unfolding with_suffix join_labels
named_by digested is_exact [] = digested
named_by digested is_exact (l ∷ ls) =
    if is_exact && leb (length (join_labels (l ∷ ls))) max_name_length
    then join_labels (l ∷ ls)
    else with_suffix (join_labels (l ∷ ls)) (b'-' ∷ digested)

-- `ObjectName`
unfoldable pub object_name : (digest : Text → Text) → (region zone storage : Text) → Text
unfolding named_by exact labels_of
object_name digest region zone storage =
    named_by (digest (key_of region zone storage)) (exact (parts_of region zone storage))
      (labels_of (parts_of region zone storage))

abbrev pub label_byte : ℕ → Bool
label_byte c =
    between b'a' c b'z'
    || between b'A' c b'Z'
    || between b'0' c b'9'
    || c == b'-'
    || c == b'.'
    || c == b'_'

abbrev pub label_edge : ℕ → Bool
label_edge c = c == b'-' || c == b'.' || c == b'_'

cut_label : Text → Text
unfolding take
cut_label value =
    if ltb max_label_length (length value)
    then trim label_edge (take max_label_length value)
    else value

-- `labelValue`
unfoldable pub label_value : Text → Text
unfolding cut_label
label_value s = cut_label (trim label_edge (map (λ c. if label_byte c then c else b'-') s))
