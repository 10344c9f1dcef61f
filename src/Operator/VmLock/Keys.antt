-- ===== src/Operator/VmLock/Keys.antt =====
-- The keys of pkg/operator/proxmox/vmlock.go.
use proxmox_csi_plugin.Prelude.{
  ℕ, ◌^◌, ◌<◌, ◌≡◌, refl, sym, ap, ◌∙◌, [], ◌∷◌, ◌++◌, some, length, length-append, arith,
}
use proxmox_csi_plugin.Text.{
  Text, Lacks, after_last, after_last-append, itoa, itoa-AreDigits, parse_int-itoa, is_digit,
  AreDigits,
}
use proxmox_csi_plugin.Operator.VmLock.{key}

digits-Lacks : (s : Text) → AreDigits s → Lacks b'/' s
unfolding is_digit
digits-Lacks [] h = tt
digits-Lacks (c ∷ s) h = (ground (arith, h.0), digits-Lacks s h.1)

no_cycle : (c : ℕ) (s t : Text) → s ≡ c ∷ (t ++ s) → ⊥
no_cycle c s t h = (let e = ap length h in let f = length-append t s in omega (arith, e, f))

append_cancel : (r s t : Text) → r ++ t ≡ s ++ t → r ≡ s
append_cancel [] [] t h = refl
append_cancel [] (d ∷ s) t h = absurd (no_cycle d t s h)
append_cancel (c ∷ r) [] t h = absurd (no_cycle c t r (sym h))
append_cancel (c ∷ r) (d ∷ s) t h = (let e = append_cancel r s t (cc h) in cc (h, e))

abbrev pub IsVmid : ℕ → Type 0
IsVmid n = n < 2 ^ 31

same_digits : (v w : ℕ) → IsVmid v → IsVmid w → itoa v ≡ itoa w → v ≡ w
same_digits v w h k e =
    (let a = parse_int-itoa 32 v h in let b = parse_int-itoa 32 w k in cc (a, b, e))

-- The keys of two VMs are the same only if the VMs are.
pub key_injective :
    (r s : Text) (v w : ℕ) → IsVmid v → IsVmid w → key r v ≡ key s w → (r ≡ s) × (v ≡ w)
unfolding key
key_injective r s v w h k e =
    (append_cancel r s (b'/' ∷ itoa v) (e ∙ ap (λ n. s ++ b'/' ∷ itoa n) (sym same)), same)
  where
    behind : (t : Text) (n : ℕ) → after_last b'/' (t ++ b'/' ∷ itoa n) ≡ some (itoa n)
    behind t n = after_last-append b'/' t (itoa n) (digits-Lacks (itoa n) (itoa-AreDigits n))

    injected : {a b : Text} → some a ≡ some b → a ≡ b
    injected p = cc p

    same : v ≡ w
    same = same_digits v w h k (injected (sym (behind r v) ∙ ap (after_last b'/') e ∙ behind s w))
