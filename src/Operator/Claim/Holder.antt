-- ===== src/Operator/Claim/Holder.antt =====
-- `duplicate` of pkg/operator/controller/volume/reconciler.go, over all the records that claim one
-- handle.
use mathlib.Core.List.{Memᴰ}
use proxmox_csi_plugin.Prelude.{
  ◌≡◌, refl, sym, subst, Bool, true, false, not, ◌&&◌, List, [], ◌∷◌, none, some, ap, if◌then◌else◌,
  arith, Bool-cases, inl, inr, ◌⊎◌, All,
}
use proxmox_csi_plugin.Text.{Text, text_eq, eq_of_text_eq, text_eq_iff}
use proxmox_csi_plugin.Operator.Types.{VolumeRecord}
use proxmox_csi_plugin.Operator.Claim.{claim, older_claim, same_record, older_duplicate}
use proxmox_csi_plugin.Operator.Claim.Order.{
  older_claim_asymm, older_claim_total, older_claim_trans,
}

abbrev challenges : VolumeRecord → VolumeRecord → Bool
challenges other vol =
    text_eq (claim other) (claim vol) && not (same_record other vol) && older_claim other vol

older_duplicate_cons :
    (vol v : VolumeRecord) (vs : List VolumeRecord)
    → older_duplicate vol (v ∷ vs) ≡ (if challenges v vol then some v else older_duplicate vol vs)
unfolding older_duplicate
older_duplicate_cons vol v vs = refl

first_not :
    (vol v : VolumeRecord) (vs : List VolumeRecord)
    → older_duplicate vol (v ∷ vs) ≡ none
    → (challenges v vol ≡ false) × (older_duplicate vol vs ≡ none)
first_not vol v vs h = elim (Bool-cases (challenges v vol)) [
  | inl yes' ↦ cc (older_duplicate_cons vol v vs, yes')
  | inr no' ↦ (no', rw no' at (rw (older_duplicate_cons vol v vs) at h))
]

not_challenged :
    (vol w : VolumeRecord) (vs : List VolumeRecord)
    → older_duplicate vol vs ≡ none
    → Memᴰ w vs
    → challenges w vol ≡ false
not_challenged vol w [] h m = elim m [ ]
not_challenged vol w (v ∷ vs) h (Memᴰ.head p) =
    subst (λ x. challenges x vol ≡ false) (sym p) (first_not vol v vs h).0
not_challenged vol w (v ∷ vs) h (Memᴰ.tail m) = not_challenged vol w vs (first_not vol v vs h).1 m

unchallenged :
    (vol : VolumeRecord) (vs : List VolumeRecord)
    → All (λ w. challenges w vol ≡ false) vs
    → older_duplicate vol vs ≡ none
unchallenged vol [] h = unfold older_duplicate in refl
unchallenged vol (v ∷ vs) h = rw (older_duplicate_cons vol v vs, h.0) (unchallenged vol vs h.1)

-- What it means that `w` does not challenge `v`, where both claim one handle.
not_older :
    (v w : VolumeRecord)
    → claim v ≡ claim w
    → challenges w v ≡ false
    → (same_record w v ≡ true) ⊎ (older_claim w v ≡ false)
not_older v w c h = elim (Bool-cases (same_record w v)) [
  | inl same ↦ inl same
  | inr different ↦ inr (ground (arith, text_eq_iff (claim w) (claim v)))
]

same_record_symm : (v w : VolumeRecord) → same_record v w ≡ true → same_record w v ≡ true
unfolding same_record
same_record_symm v w h = ground (
  arith,
  text_eq_iff v.namespace w.namespace,
  text_eq_iff w.namespace v.namespace,
  text_eq_iff v.name w.name,
  text_eq_iff w.name v.name,
)

-- Two records of a ledger that claim one handle, and that are both not refused, are one record.
pub one_holder :
    (v w : VolumeRecord) (vs : List VolumeRecord)
    → Memᴰ v vs
    → Memᴰ w vs
    → claim v ≡ claim w
    → older_duplicate v vs ≡ none
    → older_duplicate w vs ≡ none
    → same_record v w ≡ true
one_holder v w vs mv mw c hv hw = elim (not_older v w c (not_challenged v w vs hv mw)) [
  | inl same ↦ same_record_symm w v same
  | inr newer ↦ elim (not_older w v (sym c) (not_challenged w v vs hw mv)) [
    | inl same ↦ same
    | inr newer' ↦ older_claim_total v w newer' newer
  ]
]

-- `u` is of the list, claims the handle, and is not younger than another record that claims it.
record IsOldest (handle : Text) (vs : List VolumeRecord) (u : VolumeRecord) : Type 0 where
  mem : Memᴰ u vs
  claims : claim u ≡ handle
  oldest : All (λ w. (text_eq (claim w) handle && older_claim w u) ≡ false) vs

module _ (handle : Text) (v : VolumeRecord) (vs : List VolumeRecord) where
  -- The oldest of the rest stays the oldest if the first record does not precede it.
  keep_first :
      (u : VolumeRecord)
      → IsOldest handle vs u
      → (text_eq (claim v) handle && older_claim v u) ≡ false
      → IsOldest handle (v ∷ vs) u
  keep_first u o h = record { mem = Memᴰ.tail o.mem; claims = o.claims; oldest = (h, o.oldest) }

  older_than_each :
      (u : VolumeRecord) (ws : List VolumeRecord)
      → older_claim v u ≡ true
      → All (λ w. (text_eq (claim w) handle && older_claim w u) ≡ false) ws
      → All (λ w. (text_eq (claim w) handle && older_claim w v) ≡ false) ws
  older_than_each u [] h o = tt
  older_than_each u (w ∷ ws) h o = (
    elim (Bool-cases (older_claim w v)) [
      | inl older ↦ (let n = older_claim_trans w v u older h in ground (arith, o.0, n))
      | inr newer ↦ ground (arith, newer)
    ],
    older_than_each u ws h o.1,
  )

  older_than_none :
      (ws : List VolumeRecord)
      → All (λ w. text_eq (claim w) handle ≡ false) ws
      → All (λ w. (text_eq (claim w) handle && older_claim w v) ≡ false) ws
  older_than_none [] n = tt
  older_than_none (w ∷ ws) n = (rw n.0 refl, older_than_none ws n.1)

  not_before_itself : (text_eq (claim v) handle && older_claim v v) ≡ false
  not_before_itself = elim (Bool-cases (older_claim v v)) [
    | inl older ↦ (let n = older_claim_asymm v v older in ground (arith, n, older))
    | inr newer ↦ ground (arith, newer)
  ]

-- No record claims a handle, or one of those that do is the oldest.
first_claim :
    (handle : Text) (vs : List VolumeRecord)
    → All (λ w. text_eq (claim w) handle ≡ false) vs ⊎ ((u : VolumeRecord) × IsOldest handle vs u)
first_claim handle [] = inl tt
first_claim handle (v ∷ vs) = elim (Bool-cases (text_eq (claim v) handle)) [
  | inr other ↦ elim (first_claim handle vs) [
    | inl none_of ↦ inl (other, none_of)
    | inr found ↦ inr (found.0, keep_first handle v vs found.0 found.1 (rw other refl))
  ]
  | inl same ↦ inr (elim (first_claim handle vs) [
    | inl none_of ↦ (
      v,
      record {
        mem = Memᴰ.head refl;
        claims = eq_of_text_eq _ _ same;
        oldest = (not_before_itself handle v vs, older_than_none handle v vs vs none_of);
      },
    )
    | inr found ↦ elim (Bool-cases (older_claim v found.0)) [
      | inl older ↦ (
        v,
        record {
          mem = Memᴰ.head refl;
          claims = eq_of_text_eq _ _ same;
          oldest = (
            not_before_itself handle v vs,
            older_than_each handle v vs found.0 vs older found.1.oldest,
          );
        },
      )
      | inr newer ↦ (found.0, keep_first handle v vs found.0 found.1 (ground (arith, newer)))
    ]
  ])
]

claimed_by_member :
    (handle : Text) (v : VolumeRecord) (vs : List VolumeRecord)
    → Memᴰ v vs
    → claim v ≡ handle
    → All (λ w. text_eq (claim w) handle ≡ false) vs
    → ⊥
claimed_by_member handle v [] m c n = elim m [ ]
claimed_by_member handle v (w ∷ vs) (Memᴰ.head p) c n =
    (let q = ap claim p in ground (arith, n.0, text_eq_iff (claim w) handle, q, c))
claimed_by_member handle v (w ∷ vs) (Memᴰ.tail m) c n = claimed_by_member handle v vs m c n.1

not_challenging :
    (u : VolumeRecord) (vs : List VolumeRecord)
    → All (λ w. (text_eq (claim w) (claim u) && older_claim w u) ≡ false) vs
    → All (λ w. challenges w u ≡ false) vs
not_challenging u [] o = tt
not_challenging u (w ∷ vs) o = (ground (arith, o.0), not_challenging u vs o.1)

-- For a record of a ledger there is one of the ledger that claims the same handle and that is not
-- refused as a duplicate.
pub some_holder :
    (v : VolumeRecord) (vs : List VolumeRecord)
    → Memᴰ v vs
    → (u : VolumeRecord) × Memᴰ u vs × (claim u ≡ claim v) × (older_duplicate u vs ≡ none)
some_holder v vs m = elim (first_claim (claim v) vs) [
  | inl none_of ↦ absurd (claimed_by_member (claim v) v vs m refl none_of)
  | inr found ↦
      (let o = found.1 in
        (
          found.0,
          o.mem,
          o.claims,
          unchallenged found.0 vs (not_challenging found.0 vs (rw o.claims o.oldest)),
        ))
]
