-- ===== src/Text/Split.antt =====
-- `strings.Cut`, `strings.SplitN` and the part behind `strings.LastIndex`, at a one-byte separator.
use proxmox_csi_plugin.Prelude.{
  ℕ, zero, suc, ◌≡◌, refl, true, false, List, [], ◌∷◌, ◌++◌, Option, none, some, arith, ◌==◌,
  if◌then◌else◌, All, All-append, inl, inr, Bool-cases,
}
use proxmox_csi_plugin.Text.Basic.{Text}

-- The separator stands nowhere in the text.
abbrev pub Lacks : ℕ → Text → Type 0
Lacks c = All (λ d. (d == c) ≡ false)

pub Lacks-append : (c : ℕ) (s t : Text) → Lacks c s → Lacks c t → Lacks c (s ++ t)
Lacks-append c s t h k = All-append (λ d. (d == c) ≡ false) s t h k

cut_behind : ℕ → Option (Text × Text) → Option (Text × Text)
cut_behind d none = none
cut_behind d (some (a, b)) = some (d ∷ a, b)

-- `strings.Cut(s, sep)`: the parts before and behind the first separator.
unfoldable pub cut : ℕ → Text → Option (Text × Text)
unfolding cut_behind
cut c [] = none
cut c (d ∷ s) = let rest = cut c s in if d == c then some ([], s) else cut_behind d rest

-- A text cut at its first separator is its two parts.
pub cut-append : (c : ℕ) (a b : Text) → Lacks c a → cut c (a ++ c ∷ b) ≡ some (a, b)
unfolding cut
cut-append c [] b h = ground arith
cut-append c (d ∷ a) b h = ground (arith, cut-append c a b h.1)

pub cut-eq-none : (c : ℕ) (s : Text) → Lacks c s → cut c s ≡ none
unfolding cut
cut-eq-none c [] h = refl
cut-eq-none c (d ∷ s) h = ground (arith, cut-eq-none c s h.1)

cut_behind-eq-some :
    (d : ℕ) (o : Option (Text × Text)) (a b : Text)
    → cut_behind d o ≡ some (a, b)
    → (a' : Text) × (o ≡ some (a', b)) × (a ≡ d ∷ a')
unfolding cut_behind
cut_behind-eq-some d none a b h = ground arith
cut_behind-eq-some d (some (a', b')) a b h = (a', ground arith, ground arith)

cut_here :
    (c d : ℕ) (s a b : Text)
    → (d == c) ≡ true
    → ◌≡◌ {A = Option (Text × Text)} (some ([], s)) (some (a, b))
    → (d ∷ s ≡ a ++ c ∷ b) × Lacks c a
cut_here c d s [] b h e = (ground arith, tt)
cut_here c d s (x ∷ a) b h e = ground arith

-- The parts that a cut returns make up the text, and the first has no separator.
pub cut_sound : (c : ℕ) (s a b : Text) → cut c s ≡ some (a, b) → (s ≡ a ++ c ∷ b) × Lacks c a
unfolding cut
cut_sound c [] a b h = ground arith
cut_sound c (d ∷ s) a b h = elim (Bool-cases (d == c)) [
  | inl here ↦ cut_here c d s a b here (rw here at h)
  | inr there ↦
      let (a', e, p) = cut_behind-eq-some d (cut c s) a b (rw there at h) in
      let (q, l) = cut_sound c s a' b e in (rw (p, ← q) refl, rw p (there, l))
]

-- `strings.SplitN(s, sep, n)`
unfoldable pub split_n : ℕ → ℕ → Text → List Text
split_n c zero s = []
split_n c (suc zero) s = s ∷ []
split_n c (suc (suc n)) s = elim (cut c s) [ none ↦ s ∷ [] | some (a, b) ↦ a ∷ split_n c (suc n) b ]

pub split_n-none : (c n : ℕ) (s : Text) → cut c s ≡ none → split_n c (suc (suc n)) s ≡ s ∷ []
unfolding split_n
split_n-none c n s h = rw (h, split_n)

pub split_n-some :
    (c n : ℕ) (s a b : Text)
    → cut c s ≡ some (a, b)
    → split_n c (suc (suc n)) s ≡ a ∷ split_n c (suc n) b
unfolding split_n
split_n-some c n s a b h = rw (h, split_n)

pub split_n-append :
    (c n : ℕ) (a b : Text)
    → Lacks c a
    → split_n c (suc (suc n)) (a ++ c ∷ b) ≡ a ∷ split_n c (suc n) b
split_n-append c n a b h = split_n-some c n (a ++ c ∷ b) a b (cut-append c a b h)

behind_or : Option Text → ℕ → ℕ → Text → Option Text
behind_or (some r) d c s = some r
behind_or none d c s = if d == c then some s else none

-- The part behind the last separator: `s[i+1:]` for `i := strings.LastIndex(s, sep)`, or `none`
-- where that is -1.
unfoldable pub after_last : ℕ → Text → Option Text
unfolding behind_or
after_last c [] = none
after_last c (d ∷ s) = behind_or (after_last c s) d c s

pub after_last-eq-none : (c : ℕ) (s : Text) → Lacks c s → after_last c s ≡ none
unfolding after_last
after_last-eq-none c [] h = refl
after_last-eq-none c (d ∷ s) h = rw (after_last-eq-none c s h.1) (ground arith)

pub after_last-append : (c : ℕ) (a b : Text) → Lacks c b → after_last c (a ++ c ∷ b) ≡ some b
unfolding after_last
after_last-append c [] b h = rw (after_last-eq-none c b h) (ground arith)
after_last-append c (d ∷ a) b h = rw (after_last-append c a b h)
