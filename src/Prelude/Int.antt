-- ===== src/Prelude/Int.antt =====
-- Signed integers over the native numbers, as far as the program needs them, and those of 32 and 64
-- bits, in which a sum wraps around.
use Prim.Native.Nat.{ℕ, zero, suc, ◌-◌, ◌%◌, ◌≤◌}
use mathlib.Core.Path.{◌≡◌, refl}
use mathlib.Core.Bool.{Bool, true, false}
use native.Mathlib.Omega.{arith}
use proxmox_csi_plugin.Prelude.Tests.{leb, if◌then◌else◌}

-- `negsuc n` is -(n + 1).
pub data ℤ : Type 0 where
  pos : ℕ → ℤ
  negsuc : ℕ → ℤ

abbrev pub leb_ℤ : ℤ → ℤ → Bool
leb_ℤ (pos a) (pos b) = leb a b
leb_ℤ (pos a) (negsuc b) = false
leb_ℤ (negsuc a) (pos b) = true
leb_ℤ (negsuc a) (negsuc b) = leb b a

-- -n
abbrev pub opposite : ℕ → ℤ
opposite zero = pos 0
opposite (suc n) = negsuc n

abbrev pub max_int32 : ℕ
max_int32 = 2147483647

abbrev pub max_int64 : ℕ
max_int64 = 9223372036854775807

-- What `int32` keeps of a sum: its remainder by 2 ^ 32, as a signed number.
unfoldable pub int32 : ℕ → ℤ
int32 n = let m = n % 4294967296 in if leb m max_int32 then pos m else negsuc (4294967295 - m)

-- What `int64` keeps of a sum: its remainder by 2 ^ 64, as a signed number.
unfoldable pub int64 : ℕ → ℤ
int64 n =
    let m = n % 18446744073709551616 in
    if leb m max_int64 then pos m else negsuc (18446744073709551615 - m)

-- A number that is small enough does not wrap.
pub int32-pos : (n : ℕ) → n ≤ max_int32 → int32 n ≡ pos n
unfolding int32
int32-pos n h =
    (let e : n % 4294967296 ≡ n = omega (arith, h) in
      rw e (let k : leb n max_int32 ≡ true = ground (arith, h) in rw k refl))

pub int64-pos : (n : ℕ) → n ≤ max_int64 → int64 n ≡ pos n
unfolding int64
int64-pos n h =
    (let e : n % 18446744073709551616 ≡ n = omega (arith, h) in
      rw e (let k : leb n max_int64 ≡ true = ground (arith, h) in rw k refl))
