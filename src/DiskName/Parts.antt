-- ===== src/DiskName/Parts.antt =====
-- The parts of a disk name: the runs of digits and the `vm-<vmid>` part, read and written.
use proxmox_csi_plugin.Prelude.{
  ℕ, ◌≤◌, ◌<◌, ◌≡◌, refl, ap, true, false, [], ◌∷◌, ◌++◌, some, arith, length, Bool-cases, inl, inr,
}
use proxmox_csi_plugin.Text.{
  Text, codes, is_digit, AreDigits, itoa, itoa-IsLead, length-itoa, IsLead,
}
use proxmox_csi_plugin.DiskName.{span_digits, is_vmid, vm_part}

-- What follows a whole run of digits.
abbrev pub NoDigitFirst : Text → Type 0
NoDigitFirst [] = Unit
NoDigitFirst (c ∷ s) = is_digit c ≡ false

pub span_digits-append :
    (ds rest : Text) → AreDigits ds → NoDigitFirst rest → span_digits (ds ++ rest) ≡ (ds, rest)
unfolding span_digits
span_digits-append [] [] h k = refl
span_digits-append [] (c ∷ s) h k = rw k
span_digits-append (c ∷ ds) rest h k = rw (h.0, span_digits-append ds rest h.1 k)

pub span_digits-eq : (s : Text) → (span_digits s).0 ++ (span_digits s).1 ≡ s
unfolding span_digits
span_digits-eq [] = refl
span_digits-eq (c ∷ s) = elim (Bool-cases (is_digit c)) [
  | inl digit ↦ rw digit (ap (λ t. c ∷ t) (span_digits-eq s))
  | inr other ↦ rw other
]

pub span_digits-AreDigits : (s : Text) → AreDigits (span_digits s).0
unfolding span_digits
span_digits-AreDigits [] = tt
span_digits-AreDigits (c ∷ s) = elim (Bool-cases (is_digit c)) [
  | inl digit ↦ rw digit (digit, span_digits-AreDigits s)
  | inr other ↦ rw other tt
]

is_vmid_of_lead : (s : Text) → IsLead s → 3 ≤ length s → length s ≤ 9 → is_vmid s ≡ true
unfolding is_vmid
is_vmid_of_lead [] h k l = absurd h
is_vmid_of_lead (c ∷ s) h k l = ground arith

-- A VM id from 100 to 999999999 is written the way that the expressions read one.
pub is_vmid-itoa : (n : ℕ) → 100 ≤ n → n < 1000000000 → is_vmid (itoa n) ≡ true
is_vmid-itoa n h k =
    let (three, nine) = length-itoa n h k in
    is_vmid_of_lead (itoa n) (itoa-IsLead n (omega arith)) three nine

pub vm_part-append :
    (ds rest : Text)
    → AreDigits ds
    → is_vmid ds ≡ true
    → NoDigitFirst rest
    → vm_part (codes "vm-" ++ (ds ++ rest)) ≡ some (ds, rest)
unfolding vm_part
vm_part-append ds rest h v k = rw (span_digits-append ds rest h k) (rw v)

vm_part_letters :
    (v m h : ℕ) (s ds rest : Text)
    → vm_part (v ∷ m ∷ h ∷ s) ≡ some (ds, rest)
    → (v ≡ b'v') × (m ≡ b'm') × (h ≡ b'-') × (is_vmid ds ≡ true) × (span_digits s ≡ (ds, rest))
unfolding vm_part
vm_part_letters v m h s ds rest e = ground arith

-- What `vm_part` accepts is the text of its parts.
pub vm_part_sound :
    (s ds rest : Text)
    → vm_part s ≡ some (ds, rest)
    → (s ≡ codes "vm-" ++ (ds ++ rest)) × (is_vmid ds ≡ true) × AreDigits ds
vm_part_sound [] ds rest e = unfold vm_part in ground arith
vm_part_sound (v ∷ []) ds rest e = unfold vm_part in ground arith
vm_part_sound (v ∷ m ∷ []) ds rest e = unfold vm_part in ground arith
vm_part_sound (v ∷ m ∷ h ∷ s) ds rest e =
    let (v', m', h', vmid, split) = vm_part_letters v m h s ds rest e in
    let parts : ds ++ rest ≡ s = (rw split at (span_digits-eq s)) in
    (rw (v', m', h', parts), vmid, rw split at (span_digits-AreDigits s))
