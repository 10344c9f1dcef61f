-- ===== src/Sizes/Rounding.antt =====
-- `RoundUpSizeBytes` of pkg/csi/helper.go, against what rounding up to whole chunks is.
use native.Mathlib.Nat.{mul-le-mul_left, mul-suc}
use native.Mathlib.Omega.{div_any, mod_fact}
use proxmox_csi_plugin.Prelude.{
  ℕ, zero, suc, ◌+◌, ◌-◌, ◌*◌, ◌/◌, ◌%◌, ◌≤◌, ◌<◌, ◌≡◌, refl, ap, false, ℤ, pos, max_int64,
  int64-pos, ◌==◌, arith, Bool-cases, leb, leb→le, inl, inr,
}
use proxmox_csi_plugin.Sizes.{whole_units, round_up_size_bytes}

-- `size` is the least positive number of chunks that holds `volume`.
pub record IsRoundedUp (volume chunk size : ℕ) : Type 0 where
  pub holds : volume ≤ size
  pub chunks : (k : ℕ) × (0 < k) × (size ≡ chunk * k)
  pub least : (k : ℕ) → 0 < k → volume ≤ chunk * k → size ≤ chunk * k
  pub bound : size < volume + chunk + 1

module _ (volume c : ℕ) where
  abbrev chunk : ℕ
  chunk = suc c

  abbrev quotient : ℕ
  quotient = (volume + chunk - 1) / chunk

  quotient_fact : chunk * quotient + (volume + chunk - 1) % chunk ≡ volume + chunk - 1
  quotient_fact = div_any (volume + chunk - 1) chunk

  no_smaller : (k : ℕ) → k < quotient → chunk * k + chunk ≤ chunk * quotient
  no_smaller k h =
      (let m = mul-le-mul_left chunk h in let e = mul-suc chunk k in omega (arith, m, e))

  some_chunk : (q r : ℕ) → chunk * q + r ≡ volume + chunk - 1 → r < chunk → 0 < volume → 0 < q
  some_chunk zero r e l h = omega arith
  some_chunk (suc q) r e l h = omega arith

  no_more : (k : ℕ) → volume ≤ chunk * k → chunk * quotient ≤ chunk * k
  no_more k h = elim (Bool-cases (leb quotient k)) [
    | inl enough ↦ mul-le-mul_left chunk (leb→le quotient k enough)
    | inr few ↦
        (let more : k < quotient = ground (arith, few) in
          let m = no_smaller k more in
          omega (arith, m, quotient_fact, mod_fact (volume + chunk - 1) c, h))
  ]

  round_up_positive : 0 < volume → IsRoundedUp volume chunk (chunk * quotient)
  round_up_positive h = record {
    holds = omega (arith, quotient_fact, mod_fact (volume + chunk - 1) c);
    chunks =
        (quotient, some_chunk quotient _ quotient_fact (mod_fact (volume + chunk - 1) c) h, refl);
    least = λ k p. no_more k;
    bound = omega (arith, quotient_fact, mod_fact (volume + chunk - 1) c);
  }

nothing_below : ¬ (0 < 0)
nothing_below h = omega arith

not_empty : (v : ℕ) → (suc v == 0) ≡ false
not_empty v = ground arith

one_chunk : (c : ℕ) → IsRoundedUp 0 (suc c) (suc c)
one_chunk c = record {
  holds = omega arith;
  chunks = (1, omega arith, omega arith);
  least = λ k p q. (let m = mul-le-mul_left (suc c) p in omega (arith, m));
  bound = omega arith;
}

-- The size is a number that is not negative, and is rounded up.
abbrev pub RoundsUp : ℕ → ℕ → ℤ → Type 0
RoundsUp volume chunk r = (size : ℕ) × (r ≡ pos size) × IsRoundedUp volume chunk size

-- A size of nothing is one chunk, and any other size is rounded up to the least whole number of chunks
-- that holds it, at most one chunk more than it, where a chunk is not empty and the size and a chunk
-- together are at most 2^63, so that no sum wraps around.
pub round_up_size_bytes-RoundsUp :
    (volume chunk : ℕ)
    → 0 < chunk
    → volume + chunk ≤ suc max_int64
    → RoundsUp volume chunk (round_up_size_bytes volume chunk)
unfolding round_up_size_bytes
round_up_size_bytes-RoundsUp volume zero h l = absurd (nothing_below h)
round_up_size_bytes-RoundsUp zero (suc c) h l = (suc c, refl, one_chunk c)
round_up_size_bytes-RoundsUp (suc v) (suc c) h l = rw (not_empty v) (
  suc c * ((suc v + suc c - 1) / suc c),
  ap (whole_units (suc c)) (int64-pos (suc v + suc c - 1) (omega (arith, l))),
  round_up_positive (suc v) c (omega arith),
)
