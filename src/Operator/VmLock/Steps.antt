-- ===== src/Operator/VmLock/Steps.antt =====
-- The calls of pkg/operator/proxmox/vmlock.go, and the invariant.
use proxmox_csi_plugin.Prelude.{
  ℕ, ◌≡◌, ◌≢◌, sym, ap, ◌∙◌, true, false, List, none, some, ◌⊎◌, inl, inr, Bool-cases, ◌==◌, ==_iff,
  arith,
}
use proxmox_csi_plugin.Text.{Text, lookup}
use proxmox_csi_plugin.Operator.VmLock.{
  key, Phase, idle, waiting, holding, Locks, set_at, entered, acquire, freed,
}
use proxmox_csi_plugin.Operator.VmLock.Sound.{IsSound, set_same, set_other, Got}

-- The phase of a thread after one thread's has changed.
phase_cases :
    (t u : ℕ) (p : Phase) (phases : ℕ → Phase) (q : Phase)
    → set_at t p phases u ≡ q
    → ((u ≡ t) × (p ≡ q)) ⊎ (((u == t) ≡ false) × (phases u ≡ q))
phase_cases t u p phases q h = elim (Bool-cases (u == t)) [
  | inl same ↦ inl ((==_iff u t).0 same, (rw same at h))
  | inr other ↦ inr (other, (rw other at h))
]

-- Threads in different phases are different.
other_of : (v t : ℕ) (f : ℕ → Phase) (p q : Phase) → f t ≡ p → f v ≡ q → p ≢ q → (v == t) ≡ false
other_of v t f p q h g n = elim (Bool-cases (v == t)) [
  | inl same ↦ absurd (n (sym h ∙ ap f (sym ((==_iff v t).0 same)) ∙ g))
  | inr other ↦ other
]

same_key :
    (table : List (Text × ℕ)) (r r' : Text) (v v' m m' : ℕ)
    → lookup (key r v) table ≡ some m
    → (r ≡ r') × (v ≡ v') × (m ≡ m')
    → lookup (key r' v') table ≡ some m'
same_key table r r' v v' m m' h e = cc (h, e.0, e.1, e.2)

module _ (s : Locks) (i : IsSound s) (t : ℕ) (region : Text) (vmid : ℕ) where
  module _ (u : Locks) (m : ℕ) (g : Got (key region vmid) s i u m) where
    phase_of : (p : Phase) → s.phase t ≡ p → u.phase t ≡ p
    phase_of p h = ap (λ f. f t) g.same_phase ∙ h

    pub entered-IsSound : s.phase t ≡ idle → IsSound (entered t region vmid (u, m))
    entered-IsSound free = record {
      bounded = g.sound.bounded;
      distinct = g.sound.distinct;
      waits = λ v r w n h.
          elim (phase_cases t v (waiting region vmid m) u.phase (waiting r w n) h) [
            | inl e ↦ same_key u.table region r vmid w m n g.found (cc e.1, cc e.1, cc e.1)
            | inr e ↦ g.sound.waits v r w n e.1
          ];
      holds = λ v r w n h.
          elim (phase_cases t v (waiting region vmid m) u.phase (holding r w n) h) [
            | inl e ↦ cc e.1
            | inr e ↦ g.sound.holds v r w n e.1
          ];
      held = λ v n h.
          (let p = g.sound.held v n h in
            (
              p.0,
              p.1,
              set_other t (waiting region vmid m) u.phase v (
                    other_of v t u.phase idle (holding p.0 p.1 n) (phase_of idle free) p.2
                      (λ k. cc k))
                  ∙ p.2,
            ));
    }

    module _ (n : ℕ) (mine : s.phase t ≡ holding region vmid n) where
      same_mutex : n ≡ m
      same_mutex =
          (let h = g.kept (key region vmid) n (i.holds t region vmid n mine).0 in cc (h, g.found))

      mine_now : u.phase t ≡ holding region vmid m
      mine_now = phase_of _ mine ∙ ap (holding region vmid) same_mutex

      locked_now : u.holder m ≡ some t
      locked_now = (g.sound.holds t region vmid m mine_now).1

      pub freed-IsSound : IsSound (freed t (u, m))
      freed-IsSound = record {
        bounded = g.sound.bounded;
        distinct = g.sound.distinct;
        waits = λ v r w k h. elim (phase_cases t v idle u.phase (waiting r w k) h) [
          | inl e ↦ cc e.1
          | inr e ↦ g.sound.waits v r w k e.1
        ];
        holds = λ v r w k h. elim (phase_cases t v idle u.phase (holding r w k) h) [
          | inl e ↦ cc e.1
          | inr e ↦
              (let p = g.sound.holds v r w k e.1 in
                (p.0, set_other m none u.holder k (elsewhere v k e.0 p.1) ∙ p.1))
        ];
        held = λ v k h. elim (Bool-cases (k == m)) [
          | inl same ↦ (let z = rw same at h in cc z)
          | inr other ↦
              (let p = g.sound.held v k (rw other at h) in
                (
                  p.0,
                  p.1,
                  set_other t idle u.phase v (
                        other_of v t u.phase (holding region vmid m) (holding p.0 p.1 k) mine_now
                          p.2 (λ e. distinct_mutex k other (cc e)))
                      ∙ p.2,
                ))
        ];
      }
        where
          distinct_mutex : (k : ℕ) → (k == m) ≡ false → m ≡ k → ⊥
          distinct_mutex k h e = ground (arith, h, e)

          elsewhere : (v k : ℕ) → (v == t) ≡ false → u.holder k ≡ some v → (k == m) ≡ false
          elsewhere v k other h = elim (Bool-cases (k == m)) [
            | inl same ↦
                (let e = ap u.holder ((==_iff k m).0 same) in
                  let f : t ≡ v = cc (e, h, locked_now) in ground (arith, other, f))
            | inr n' ↦ n'
          ]

  module _ (m : ℕ) (waited : s.phase t ≡ waiting region vmid m) (free : s.holder m ≡ none) where
    pub acquire-IsSound : IsSound (acquire t region vmid m s)
    unfolding acquire
    acquire-IsSound = record {
      bounded = i.bounded;
      distinct = i.distinct;
      waits = λ v r w n h.
          elim (phase_cases t v (holding region vmid m) s.phase (waiting r w n) h) [
            | inl e ↦ cc e.1
            | inr e ↦ i.waits v r w n e.1
          ];
      holds = λ v r w n h.
          elim (phase_cases t v (holding region vmid m) s.phase (holding r w n) h) [
            | inl e ↦ (
              same_key s.table region r vmid w m n (i.waits t region vmid m waited)
                  (cc e.1, cc e.1, cc e.1),
              taken v n e.0 (cc e.1),
            )
            | inr e ↦
                (let p = i.holds v r w n e.1 in
                  (p.0, set_other m (some t) s.holder n (untaken n v p.1) ∙ p.1))
          ];
      held = λ v n h. elim (Bool-cases (n == m)) [
        | inl same ↦ (region, vmid, now_held v n same (rw same at h))
        | inr other ↦
            (let p = i.held v n (rw other at h) in
              (
                p.0,
                p.1,
                set_other t (holding region vmid m) s.phase v (
                      other_of v t s.phase (waiting region vmid m) (holding p.0 p.1 n) waited p.2
                        (λ k. cc k))
                    ∙ p.2,
              ))
      ];
    }
      where
        taken : (v n : ℕ) → v ≡ t → m ≡ n → set_at m (some t) s.holder n ≡ some v
        taken v n e f = set_same m (some t) s.holder n ((==_iff n m).1 (sym f)) ∙ ap some (sym e)

        untaken : (n v : ℕ) → s.holder n ≡ some v → (n == m) ≡ false
        untaken n v h = elim (Bool-cases (n == m)) [
          | inl same ↦ (let e = ap s.holder ((==_iff n m).0 same) in cc (e, h, free))
          | inr other ↦ other
        ]

        now_held :
            (v n : ℕ)
            → (n == m) ≡ true
            → some t ≡ some v
            → set_at t (holding region vmid m) s.phase v ≡ holding region vmid n
        now_held v n same h =
            set_same t (holding region vmid m) s.phase v ((==_iff v t).1 (cc h))
            ∙ ap (holding region vmid) (sym ((==_iff n m).0 same))
