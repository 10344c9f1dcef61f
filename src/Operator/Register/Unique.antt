-- ===== src/Operator/Register/Unique.antt =====
-- Registrations that `conflict` of pkg/operator/controller/tenant/reconciler.go does not refuse.
use mathlib.Core.List.{Memᴰ}
use proxmox_csi_plugin.Prelude.{
  ◌≡◌, ◌↔◌, All, refl, sym, subst, Bool, true, false, not, ◌&&◌, ◌||◌, List, [], ◌∷◌, ◌++◌, ◌==◌,
  if◌then◌else◌, Bool-cases, inl, inr, arith,
}
use proxmox_csi_plugin.Text.{text_eq, text_eq_iff, eq_of_text_eq}
use proxmox_csi_plugin.Operator.Types.{Tenant}
use proxmox_csi_plugin.Operator.Register.{
  older, Conflict, namespace_taken, placeholder_taken, subject_taken, reason_if, reasons_of,
  conflict,
}
use proxmox_csi_plugin.Operator.Register.Order.{older_total}

-- Two registrations have something in common that is to be unique.
abbrev pub shares : Tenant → Tenant → Bool
shares a b =
    text_eq a.namespace b.namespace
    || a.placeholder_vmid == b.placeholder_vmid
    || text_eq a.subject b.subject

nil_of_append : (cs ds : List Conflict) → cs ++ ds ≡ [] → (cs ≡ []) × (ds ≡ [])
nil_of_append [] ds h = (refl, h)
nil_of_append (c ∷ cs) ds h = cc h

-- The other registration refuses this one.
abbrev pub refuses : Tenant → Tenant → Bool
refuses other tenant =
    not (text_eq other.name tenant.name) && older other tenant && shares other tenant

abbrev reasons_by : (a b s t u : Bool) → (c d e : Conflict) → List Conflict
reasons_by a b s t u c d e =
    if a || not b then [] else reason_if s c ++ (reason_if t d ++ reason_if u e)

abbrev refused_by : (a b s t u : Bool) → Bool
refused_by a b s t u = not a && b && (s || t || u)

by_reasons :
    (a b s t u : Bool) (c d e : Conflict)
    → reasons_by a b s t u c d e ≡ []
    → refused_by a b s t u ≡ false
unfolding reason_if
by_reasons true b s t u c d e h = refl
by_reasons false false s t u c d e h = refl
by_reasons false true true t u c d e h = cc h
by_reasons false true false true u c d e h = cc h
by_reasons false true false false true c d e h = cc h
by_reasons false true false false false c d e h = refl

by_refusal :
    (a b s t u : Bool) (c d e : Conflict)
    → refused_by a b s t u ≡ false
    → reasons_by a b s t u c d e ≡ []
unfolding reason_if
by_refusal true b s t u c d e h = refl
by_refusal false false s t u c d e h = refl
by_refusal false true true t u c d e h = cc h
by_refusal false true false true u c d e h = cc h
by_refusal false true false false true c d e h = cc h
by_refusal false true false false false c d e h = refl

no_reasons : (tenant other : Tenant) → reasons_of tenant other ≡ [] → refuses other tenant ≡ false
unfolding reasons_of
no_reasons tenant other h =
    by_reasons (text_eq other.name tenant.name) (older other tenant)
      (text_eq other.namespace tenant.namespace) (other.placeholder_vmid == tenant.placeholder_vmid)
      (text_eq other.subject tenant.subject) (namespace_taken other.name)
      (placeholder_taken other.name) (subject_taken other.name) h

no_reasons_back :
    (tenant other : Tenant) → refuses other tenant ≡ false → reasons_of tenant other ≡ []
unfolding reasons_of
no_reasons_back tenant other h =
    by_refusal (text_eq other.name tenant.name) (older other tenant)
      (text_eq other.namespace tenant.namespace) (other.placeholder_vmid == tenant.placeholder_vmid)
      (text_eq other.subject tenant.subject) (namespace_taken other.name)
      (placeholder_taken other.name) (subject_taken other.name) h

unrefused :
    (tenant : Tenant) (ts : List Tenant)
    → conflict tenant ts ≡ []
    → All (λ other. refuses other tenant ≡ false) ts
unfolding conflict
unrefused tenant [] h = tt
unrefused tenant (other ∷ others) h =
    (let p = nil_of_append _ _ h in (no_reasons tenant other p.0, unrefused tenant others p.1))

unrefused_back :
    (tenant : Tenant) (ts : List Tenant)
    → All (λ other. refuses other tenant ≡ false) ts
    → conflict tenant ts ≡ []
unfolding conflict
unrefused_back tenant [] h = refl
unrefused_back tenant (other ∷ others) h =
    rw (no_reasons_back tenant other h.0, unrefused_back tenant others h.1) refl

-- There is no reason to refuse a registration exactly if none of the list with another name is older
-- and has its namespace, its placeholder or its subject.
pub conflict-iff-refuses :
    (tenant : Tenant) (ts : List Tenant)
    → (conflict tenant ts ≡ []) ↔ All (λ other. refuses other tenant ≡ false) ts
conflict-iff-refuses tenant ts = (unrefused tenant ts, unrefused_back tenant ts)

of_member : (P : Tenant → Type 0) (t : Tenant) (ts : List Tenant) → All P ts → Memᴰ t ts → P t
of_member P t [] h m = elim m [ ]
of_member P t (u ∷ us) h (Memᴰ.head p) = subst P (sym p) h.0
of_member P t (u ∷ us) h (Memᴰ.tail m) = of_member P t us h.1 m

shares_symm : (a b : Tenant) → shares a b ≡ true → shares b a ≡ true
shares_symm a b h = ground (
  arith,
  text_eq_iff a.namespace b.namespace,
  text_eq_iff b.namespace a.namespace,
  text_eq_iff a.subject b.subject,
  text_eq_iff b.subject a.subject,
)

not_older : (n o s : Bool) → s ≡ true → (not n && o && s) ≡ false → n ≡ false → o ≡ false
not_older n o s h k l = ground (arith, h, k, l)

-- Two registrations of a list that both are not refused, and that share a namespace, a placeholder
-- or a subject, have the same name.
pub one_registration :
    (a b : Tenant) (ts : List Tenant)
    → Memᴰ a ts
    → Memᴰ b ts
    → shares a b ≡ true
    → conflict a ts ≡ []
    → conflict b ts ≡ []
    → a.name ≡ b.name
one_registration a b ts ma mb s ha hb = elim (Bool-cases (text_eq a.name b.name)) [
  | inl same ↦ eq_of_text_eq a.name b.name same
  | inr different ↦
      older_total a b
        (not_older (text_eq a.name b.name) (older a b) (shares a b) s
          (of_member (λ o. refuses o b ≡ false) a ts (unrefused b ts hb) ma) different)
        (not_older (text_eq b.name a.name) (older b a) (shares b a) (shares_symm a b s)
          (of_member (λ o. refuses o a ≡ false) b ts (unrefused a ts ha) mb)
          (ground (arith, different, text_eq_iff a.name b.name, text_eq_iff b.name a.name)))
]

-- Only what is to be unique, the name and the time of creation count.
pub conflict_congr :
    (a b : Tenant) (ts : List Tenant)
    → a.name ≡ b.name
    → a.created ≡ b.created
    → a.namespace ≡ b.namespace
    → a.placeholder_vmid ≡ b.placeholder_vmid
    → a.subject ≡ b.subject
    → conflict a ts ≡ conflict b ts
unfolding conflict reasons_of older
conflict_congr a b [] n c s p u = refl
conflict_congr a b (other ∷ others) n c s p u =
    rw (n, c, s, p, u, conflict_congr a b others n c s p u) refl
