-- ===== src/Text/Decimal.antt =====
-- Decimal numbers: `strconv.Itoa` and the digits that `strconv.Atoi` and `ParseInt` read.
use native.Mathlib.Nat.{pow-suc, one-le-pow}
use proxmox_csi_plugin.Prelude.{
  ℕ, zero, suc, ◌+◌, ◌-◌, ◌*◌, ◌/◌, ◌%◌, ◌^◌, ◌≤◌, ◌<◌, ◌≡◌, refl, Bool, true, false, ◌&&◌, [], ◌∷◌,
  ◌++◌, Option, none, some, arith, ap, ◌==◌, ltb, leb, if◌then◌else◌, All, All-append, length,
  length-append, Bool-cases, ltb→lt, ℤ, pos, negsuc, inl, inr, ◌≢◌, ◌∙◌,
}
use proxmox_csi_plugin.Text.Basic.{Text}
use proxmox_csi_plugin.Text.Split.{Lacks}

unfoldable pub is_digit : ℕ → Bool
is_digit c = leb b'0' c && leb c b'9'

abbrev pub AreDigits : Text → Type 0
AreDigits = All (λ c. is_digit c ≡ true)

digits : ℕ → ℕ → Text
digits zero n = []
digits (suc f) n =
    let shorter = digits f (n / 10) ++ (48 + n % 10) ∷ [] in
    if ltb n 10 then (48 + n) ∷ [] else shorter

-- `strconv.Itoa(n)` of a number that is not negative. It has at most n + 1 digits.
unfoldable pub itoa : ℕ → Text
unfolding digits
itoa n = digits (suc n) n

-- The value of a run of digits, behind what is read already.
unfoldable pub value_from : ℕ → Text → ℕ
value_from acc [] = acc
value_from acc (c ∷ s) = value_from (acc * 10 + (c - 48)) s

unfoldable pub all_digits : Text → Bool
unfolding is_digit
all_digits [] = true
all_digits (c ∷ s) = is_digit c && all_digits s

-- The value of a text of digits only, of which there is at least one.
unfoldable pub digits_value : Text → Option ℕ
unfolding value_from all_digits
digits_value [] = none
digits_value (c ∷ s) = if all_digits (c ∷ s) then some (value_from 0 (c ∷ s)) else none

-- A positive number below 2 ^ (bits - 1).
in_range : ℕ → Option ℕ → Option ℤ
in_range cutoff none = none
in_range cutoff (some n) = if ltb n cutoff then some (pos n) else none

negated : ℕ → ℤ
negated zero = pos 0
negated (suc n) = negsuc n

-- A negative one, from -(2 ^ (bits - 1)) on.
neg_in_range : ℕ → Option ℕ → Option ℤ
unfolding negated
neg_in_range cutoff none = none
neg_in_range cutoff (some n) = if leb n cutoff then some (negated n) else none

-- `strconv.ParseInt(s, 10, bits)`; an error is `none`. `strconv.Atoi(s)` is that at 64 bits.
unfoldable pub parse_int : ℕ → Text → Option ℤ
unfolding in_range neg_in_range digits_value
parse_int bits [] = none
parse_int bits (c ∷ s) =
    let cutoff = 2 ^ (bits - 1) in
    if c == b'-'
    then neg_in_range cutoff (digits_value s)
    else if c == b'+'
    then in_range cutoff (digits_value s)
    else in_range cutoff (digits_value (c ∷ s))

value_from-append :
    (acc : ℕ) (s t : Text) → value_from acc (s ++ t) ≡ value_from (value_from acc s) t
unfolding value_from
value_from-append acc [] t = refl
value_from-append acc (c ∷ s) t = value_from-append (acc * 10 + (c - 48)) s t

digits-AreDigits : (f n : ℕ) → AreDigits (digits f n)
unfolding digits is_digit
digits-AreDigits zero n = tt
digits-AreDigits (suc f) n = elim (Bool-cases (ltb n 10)) [
  | inl small ↦ rw small (ground arith, tt)
  | inr large ↦
      rw large (All-append _ (digits f (n / 10)) _ (digits-AreDigits f (n / 10)) (ground arith, tt))
]

value-digits : (f n : ℕ) → n < f → value_from 0 (digits f n) ≡ n
unfolding digits
value-digits zero n h = absurd (omega arith)
value-digits (suc f) n h = elim (Bool-cases (ltb n 10)) [
  | inl small ↦ rw small (unfold value_from in omega arith)
  | inr large ↦ rw large (
      rw value_from-append
        (rw (value-digits f (n / 10) (ground arith)) (unfold value_from in omega arith)))
]

all_digits_of : (s : Text) → AreDigits s → all_digits s ≡ true
unfolding all_digits
all_digits_of [] h = refl
all_digits_of (c ∷ s) h = ground (arith, all_digits_of s h.1)

pub itoa-AreDigits : (n : ℕ) → AreDigits (itoa n)
unfolding itoa
itoa-AreDigits n = digits-AreDigits (suc n) n

digits_value_of : (s : Text) → AreDigits s → s ≢ [] → digits_value s ≡ some (value_from 0 s)
unfolding digits_value
digits_value_of [] h k = absurd (k refl)
digits_value_of (c ∷ s) h k = rw (all_digits_of (c ∷ s) h)

-- The digit that a number starts with: its value is not 0 unless the number is.
abbrev pub IsLead : Text → Type 0
IsLead [] = ⊥
IsLead (c ∷ s) = (b'1' ≤ c) × (c ≤ b'9')

IsLead-append : (s t : Text) → IsLead s → IsLead (s ++ t)
IsLead-append [] t h = absurd h
IsLead-append (c ∷ s) t h = h

digits-IsLead : (f n : ℕ) → n < f → 0 < n → IsLead (digits f n)
unfolding digits
digits-IsLead zero n h k = absurd (omega arith)
digits-IsLead (suc f) n h k = elim (Bool-cases (ltb n 10)) [
  | inl small ↦ rw small (ground arith)
  | inr large ↦
      rw large (IsLead-append _ _ (digits-IsLead f (n / 10) (ground arith) (ground arith)))
]

-- A number from 1 on is written without a leading zero.
pub itoa-IsLead : (n : ℕ) → 0 < n → IsLead (itoa n)
unfolding itoa
itoa-IsLead n h = digits-IsLead (suc n) n (omega arith) h

length-digits-le : (k f n : ℕ) → n < f → n < 10 ^ suc k → length (digits f n) ≤ suc k
unfolding digits
length-digits-le k zero n h l = absurd (omega arith)
length-digits-le zero (suc f) n h l = ground arith
length-digits-le (suc k) (suc f) n h l = elim (Bool-cases (ltb n 10)) [
  | inl small ↦ rw small (omega arith)
  | inr large ↦ rw large (
      omega (
        arith,
        length-append {0} (digits f (n / 10)) ((48 + n % 10) ∷ []),
        length-digits-le k f (n / 10) (ground arith) (omega (arith, pow-suc 10 (suc k))),
      ))
]

lt-length-digits : (k f n : ℕ) → n < f → 10 ^ k ≤ n → k < length (digits f n)
unfolding digits
lt-length-digits k zero n h l = absurd (omega arith)
lt-length-digits zero (suc f) n h l = elim (Bool-cases (ltb n 10)) [
  | inl small ↦ rw small (omega arith)
  | inr large ↦ rw large (omega (arith, length-append {0} (digits f (n / 10)) ((48 + n % 10) ∷ [])))
]
lt-length-digits (suc k) (suc f) n h l = elim (Bool-cases (ltb n 10)) [
  | inl small ↦
      absurd (omega (arith, pow-suc 10 k, one-le-pow k 10 (omega arith), ltb→lt n 10 small))
  | inr large ↦ rw large (
      omega (
        arith,
        length-append {0} (digits f (n / 10)) ((48 + n % 10) ∷ []),
        lt-length-digits k f (n / 10) (ground arith) (omega (arith, pow-suc 10 k)),
      ))
]

-- Numbers of three to nine digits, those that a Proxmox VM id has in a disk name.
pub length-itoa : (n : ℕ) → 100 ≤ n → n < 1000000000 → (3 ≤ length (itoa n)) × (length (itoa n) ≤ 9)
unfolding itoa
length-itoa n h k =
    (lt-length-digits 2 (suc n) n (omega arith) h, length-digits-le 8 (suc n) n (omega arith) k)

append-ne-nil : (s : Text) (c : ℕ) → s ++ c ∷ [] ≢ []
append-ne-nil [] c h = cc
append-ne-nil (d ∷ s) c h = cc

pub itoa-ne-nil : (n : ℕ) → itoa n ≢ []
unfolding itoa
itoa-ne-nil n h = elim (Bool-cases (ltb n 10)) [
  | inl small ↦ cc (rw small at h)
  | inr large ↦ append-ne-nil (digits n (n / 10)) (48 + n % 10) (rw large at h)
]

digits_value-itoa : (n : ℕ) → digits_value (itoa n) ≡ some n
digits_value-itoa n =
    digits_value_of (itoa n) (itoa-AreDigits n) (itoa-ne-nil n)
    ∙ (unfold itoa in ap some (value-digits (suc n) n (omega arith)))

not_minus : (c : ℕ) → is_digit c ≡ true → (c == b'-') ≡ false
unfolding is_digit
not_minus c h = ground arith

not_plus : (c : ℕ) → is_digit c ≡ true → (c == b'+') ≡ false
unfolding is_digit
not_plus c h = ground arith

parse_int_unsigned :
    (bits : ℕ) (s : Text)
    → AreDigits s
    → parse_int bits s ≡ in_range (2 ^ (bits - 1)) (digits_value s)
unfolding parse_int
parse_int_unsigned bits [] h = refl
parse_int_unsigned bits (c ∷ s) h = rw (not_minus c h.0, not_plus c h.0)

-- A number in the range of the type is printed and read again as itself.
pub parse_int-itoa : (bits n : ℕ) → n < 2 ^ (bits - 1) → parse_int bits (itoa n) ≡ some (pos n)
unfolding in_range
parse_int-itoa bits n h =
    parse_int_unsigned bits (itoa n) (itoa-AreDigits n)
    ∙ ap (in_range (2 ^ (bits - 1))) (digits_value-itoa n)
    ∙ ground arith

-- No digit is a separator of names.
pub Lacks-digits : (c : ℕ) (s : Text) → is_digit c ≡ false → AreDigits s → Lacks c s
Lacks-digits c [] k h = tt
Lacks-digits c (d ∷ s) k h = (ne_digit d h.0, Lacks-digits c s k h.1)
  where
    ne_digit : (d : ℕ) → is_digit d ≡ true → (d == c) ≡ false
    ne_digit d e = unfold is_digit in ground arith
