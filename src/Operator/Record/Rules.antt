-- ===== src/Operator/Record/Rules.antt =====
-- The rules for the actions of `Record`: which effects they have, by the effects that are allowed.
use proxmox_csi_plugin.Prelude.{
  List, ◌≡◌, refl, ap, arith, Bool, true, false, Option, none, some, ◌⊎◌, inl, inr, Bool-cases,
  ◌&&◌,
}
use proxmox_csi_plugin.Text.{is_empty}
use proxmox_csi_plugin.Operator.Types.{Reason, VolumeRecord, Tenant, Labels}
use proxmox_csi_plugin.Operator.Action.{
  Env, Effect, write_volume_status, update_volume, Fault, listing, writing, failed_by, perform,
  Trace, pure, exit, ask_or_fail,
}
use proxmox_csi_plugin.Operator.Action.Rules.{
  Ensures, Emits, Ensures-pure, Ensures-exit, Ensures-if, Ensures-ask_or_fail, Emits-perform,
  Ensures-bind, emits_rules,
}
use proxmox_csi_plugin.Operator.Tenancy.{admitted_tenant}
use proxmox_csi_plugin.Operator.Claim.{claim, older_duplicate}
use proxmox_csi_plugin.Operator.Record.{
  errors2, update_status, report, reject, refused, duplicate, held, hold, observed, update_or_fail,
  same_labels, labels_for,
}

module _ {P : Effect → Type 0} (env : Env) (vol : VolumeRecord) where
  pub Emits-update_status : P (write_volume_status (observed vol)) → Emits P (update_status env vol)
  unfolding update_status
  Emits-update_status h = search emits_rules

module _ {P : Effect → Type 0} (env : Env) where
  pub Emits-report :
      (requeue : Bool) (cause : Option Fault) (vol : VolumeRecord)
      → P (write_volume_status (observed vol))
      → Emits P (report env requeue cause vol)
  unfolding report
  Emits-report requeue cause vol h = search (emits_rules, Emits-update_status)

-- A report ends the reconcile.
pub Ensures-report :
    {P : Effect → Type 0} {Q : Unit {0} → Type 0} (env : Env) (requeue : Bool)
    (cause : Option Fault) (vol : VolumeRecord)
    → P (write_volume_status (observed vol))
    → Ensures P Q (report env requeue cause vol)
unfolding report
Ensures-report env requeue cause vol h =
    Ensures-bind (update_status env vol)
      (λ e. exit (record { requeue = requeue; error = errors2 e cause }))
      (Emits-update_status env vol h)
      (λ e q. Ensures-exit (record { requeue = requeue; error = errors2 e cause }))

-- The first admitted registration of the record's namespace, at some time of asking.
abbrev pub Registered : Env → VolumeRecord → Tenant → Type 0
Registered env vol tenant =
    (ts : List Tenant) × (t : Trace) × (env.list_tenants t ≡ some ts)
    × (admitted_tenant vol.namespace ts ≡ some tenant)

-- What the search for a duplicate claim answers: the record claims nothing, or the answer is that of
-- the records listed at some time.
abbrev pub Unique : Env → VolumeRecord → Option VolumeRecord → Type 0
Unique env vol other =
    (is_empty (claim vol) ≡ true)
    ⊎ ((vs : List VolumeRecord) × (t : Trace) × (env.list_volumes t ≡ some vs)
        × (other ≡ older_duplicate vol vs))

module _ {P : Effect → Type 0} (env : Env) (vol : VolumeRecord) where
  pub Emits-reject :
      (reason : Reason)
      → P (write_volume_status (observed (record vol { status = refused reason vol.status })))
      → Emits P (reject env vol reason)
  unfolding reject
  Emits-reject reason h =
      Emits-report env false none (record vol { status = refused reason vol.status }) h

  -- No older record claims the handle, at some time of asking.
  pub Ensures-duplicate : Ensures P (Unique env vol) (duplicate env vol)
  unfolding duplicate
  Ensures-duplicate = elim (Bool-cases (is_empty (claim vol))) [
    | inl none_claimed ↦ rw none_claimed (Ensures-pure none (inl none_claimed))
    | inr some_claimed ↦ rw some_claimed (
        Ensures-bind (ask_or_fail listing env.list_volumes) (λ vs. pure (older_duplicate vol vs))
          (Ensures-ask_or_fail listing env.list_volumes)
          (λ vs k. Ensures-pure (older_duplicate vol vs) (inr (vs, k.0, k.1, refl))))
  ]

  -- `hold` goes on with the record as it was, or held.
  pub Ensures-hold :
      (tenant : Tenant)
      → P (update_volume (held vol tenant))
      → Ensures P (λ v. (v ≡ vol) ⊎ (v ≡ held vol tenant)) (hold env vol tenant)
  unfolding hold
  Ensures-hold tenant h =
      elim (Bool-cases (vol.finalizer && same_labels vol.labels (labels_for vol tenant))) [
        | inl same ↦ rw same (Ensures-pure vol (inl refl))
        | inr changed ↦ rw changed (
            Ensures-bind (perform env (update_volume (held vol tenant)))
              (update_or_fail env (held vol tenant)) (Emits-perform env _ h) (λ ok q. branch ok))
      ]
    where
      branch :
          (ok : Bool)
          → Ensures P
              (λ v. (v ≡ vol) ⊎ (v ≡ held vol tenant))
              (update_or_fail env (held vol tenant) ok)
      branch true = Ensures-pure (held vol tenant) (inr refl)
      branch false = Ensures-exit (failed_by writing)

-- The record with the finalizer, and with some labels.
abbrev pub HeldRecord : VolumeRecord → VolumeRecord → Type 0
HeldRecord vol v = (l : Labels) × (v ≡ record vol { finalizer = true; labels = l })

left_of_and : (a b : Bool) → (a && b) ≡ true → a ≡ true
left_of_and a b e = ground (arith, e)

-- What `hold` goes on with has the finalizer.
pub Ensures-hold_held :
    {P : Effect → Type 0} (env : Env) (vol : VolumeRecord) (tenant : Tenant)
    → P (update_volume (held vol tenant))
    → Ensures P (HeldRecord vol) (hold env vol tenant)
unfolding hold
Ensures-hold_held {P} env vol tenant h =
    Ensures-if (vol.finalizer && same_labels vol.labels (labels_for vol tenant)) _ _
      (λ same.
        Ensures-pure vol
          (vol.labels, ap (λ b. record vol { finalizer = b }) (left_of_and vol.finalizer _ same)))
      (λ changed.
        Ensures-bind (perform env (update_volume (held vol tenant)))
          (update_or_fail env (held vol tenant)) (Emits-perform env _ h) (λ b q. branch b))
  where
    branch : (b : Bool) → Ensures P (HeldRecord vol) (update_or_fail env (held vol tenant) b)
    branch true = Ensures-pure (held vol tenant) (labels_for vol tenant, refl)
    branch false = Ensures-exit (failed_by writing)
