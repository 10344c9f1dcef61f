-- ===== src/Operator/StorageName/Edges.antt =====
-- The bytes of the names and labels of pkg/operator/controller/storage/name.go: which there are, and
-- which stand first and last.
use proxmox_csi_plugin.Prelude.{
  ℕ, ◌-◌, ◌≡◌, refl, Bool, true, false, not, ◌&&◌, [], ◌∷◌, ◌++◌, if◌then◌else◌, arith,
}
use proxmox_csi_plugin.Text.{Text, is_empty}
use proxmox_csi_plugin.Operator.StorageName.{trim_left, trim_right, trim, take}

-- Every byte satisfies a test.
abbrev pub all_bytes : (ℕ → Bool) → Text → Bool
all_bytes q [] = true
all_bytes q (c ∷ s) = q c && all_bytes q s

-- The first byte does not satisfy a test; there may be none.
abbrev pub head_not : (ℕ → Bool) → Text → Bool
head_not p [] = true
head_not p (c ∷ s) = not (p c)

-- The last byte does not satisfy a test; there may be none.
abbrev pub last_not : (ℕ → Bool) → Text → Bool
last_not p [] = true
last_not p (c ∷ s) = if is_empty s then not (p c) else last_not p s

module _ (q : ℕ → Bool) where
  pub all_bytes-append :
      (s t : Text) → all_bytes q s ≡ true → all_bytes q t ≡ true → all_bytes q (s ++ t) ≡ true
  all_bytes-append [] t h k = k
  all_bytes-append (c ∷ s) t h k = ground (arith, all_bytes-append s t, h, k)

  pub all_bytes-take : (n : ℕ) (s : Text) → all_bytes q s ≡ true → all_bytes q (take n s) ≡ true
  unfolding take
  all_bytes-take n [] h = refl
  all_bytes-take n (c ∷ s) h = ground (arith, all_bytes-take (n - 1) s, h)

  all_bytes-trim_left :
      (p : ℕ → Bool) (s : Text) → all_bytes q s ≡ true → all_bytes q (trim_left p s) ≡ true
  unfolding trim_left
  all_bytes-trim_left p [] h = refl
  all_bytes-trim_left p (c ∷ s) h = ground (arith, all_bytes-trim_left p s, h)

  pub all_bytes-trim_right :
      (p : ℕ → Bool) (s : Text) → all_bytes q s ≡ true → all_bytes q (trim_right p s) ≡ true
  unfolding trim_right
  all_bytes-trim_right p [] h = refl
  all_bytes-trim_right p (c ∷ s) h = ground (arith, all_bytes-trim_right p s, h)

  pub all_bytes-trim :
      (p : ℕ → Bool) (s : Text) → all_bytes q s ≡ true → all_bytes q (trim p s) ≡ true
  unfolding trim
  all_bytes-trim p s h = all_bytes-trim_right p (trim_left p s) (all_bytes-trim_left p s h)

module _ (p : ℕ → Bool) where
  head_not-trim_left : (s : Text) → head_not p (trim_left p s) ≡ true
  unfolding trim_left
  head_not-trim_left [] = refl
  head_not-trim_left (c ∷ s) = ground (arith, head_not-trim_left s)

  pub head_not-trim_right : (s : Text) → head_not p s ≡ true → head_not p (trim_right p s) ≡ true
  unfolding trim_right
  head_not-trim_right [] h = refl
  head_not-trim_right (c ∷ s) h = ground (arith, h)

  pub last_not-trim_right : (s : Text) → last_not p (trim_right p s) ≡ true
  unfolding trim_right
  last_not-trim_right [] = refl
  last_not-trim_right (c ∷ s) = ground (arith, last_not-trim_right s)

  pub head_not-trim : (s : Text) → head_not p (trim p s) ≡ true
  unfolding trim
  head_not-trim s = head_not-trim_right (trim_left p s) (head_not-trim_left s)

  pub last_not-trim : (s : Text) → last_not p (trim p s) ≡ true
  unfolding trim
  last_not-trim s = last_not-trim_right (trim_left p s)

  pub last_not-append :
      (s t : Text) → is_empty t ≡ false → last_not p t ≡ true → last_not p (s ++ t) ≡ true
  unfolding is_empty
  last_not-append [] t h k = k
  last_not-append (c ∷ []) (d ∷ t) h k = ground (arith, k)
  last_not-append (c ∷ []) [] h k = ground (arith, h)
  last_not-append (c ∷ b ∷ s) t h k = ground (arith, last_not-append (b ∷ s) t h k)

  -- A text that does not begin with such a byte is not trimmed to nothing.
  pub trim_right-nonempty :
      (c : ℕ) (s : Text) → p c ≡ false → is_empty (trim_right p (c ∷ s)) ≡ false
  unfolding trim_right is_empty
  trim_right-nonempty c s h = rw h refl
