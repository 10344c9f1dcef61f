-- ===== src/Operator/Record/Runs.antt =====
-- What the actions on a record do when every call succeeds.
use proxmox_csi_plugin.Prelude.{
  ◌≡◌, ap, ◌∙◌, Bool, true, false, ◌&&◌, List, ◌∷◌, none, some, Bool-cases, inl, inr, if◌then◌else◌,
}
use proxmox_csi_plugin.Text.{is_empty}
use proxmox_csi_plugin.Operator.Types.{VolumeRecord, Tenant}
use proxmox_csi_plugin.Operator.Action.{
  Env, Effect, write_volume_status, update_volume, Trace, go, return, listing, pure, exit,
  ask_or_fail, perform, ◌>>=◌,
}
use proxmox_csi_plugin.Operator.Action.Runs.{
  bind_go, pure_go, exit_return, ask_or_fail_go, perform_go,
}
use proxmox_csi_plugin.Operator.Claim.{claim, older_duplicate}
use proxmox_csi_plugin.Operator.Record.{
  errors2, fault_unless, observed, update_status, report, duplicate, held, labels_for, same_labels,
  update_or_fail, hold,
}

module _ (env : Env) (works : (t : Trace) (e : Effect) → env.succeeds t e ≡ true) where
  pub perform_works : (e : Effect) (t : Trace) → perform env e t ≡ (go true, e ∷ t)
  perform_works e t = perform_go env e t ∙ ap (λ b. (go b, e ∷ t)) (works t e)

  pub update_status_works :
      (vol : VolumeRecord) (t : Trace)
      → update_status env vol t ≡ (go none, write_volume_status (observed vol) ∷ t)
  unfolding update_status
  update_status_works vol t =
      bind_go (perform env (write_volume_status (observed vol))) (λ b. pure (fault_unless b)) t _
        true (perform_works (write_volume_status (observed vol)) t)
      ∙ pure_go none _

  pub report_works :
      (requeue : Bool) (vol : VolumeRecord) (t : Trace)
      → report env requeue none vol t ≡ (
        return (record { requeue = requeue; error = none }),
        write_volume_status (observed vol) ∷ t,
      )
  unfolding report
  report_works requeue vol t =
      bind_go (update_status env vol)
        (λ e. exit (record { requeue = requeue; error = errors2 e none })) t _ none
        (update_status_works vol t)
      ∙ exit_return (record { requeue = requeue; error = none }) _

  pub hold_works :
      (vol : VolumeRecord) (tenant : Tenant) (t : Trace)
      → vol.finalizer ≡ false
      → hold env vol tenant t ≡ (go (held vol tenant), update_volume (held vol tenant) ∷ t)
  unfolding hold update_or_fail
  hold_works vol tenant t fresh =
      ap
        (λ b.
          (if b && same_labels vol.labels (labels_for vol tenant)
              then pure vol
              else (perform env (update_volume (held vol tenant))
                  >>= update_or_fail env (held vol tenant)))
            t)
        fresh
      ∙ bind_go (perform env (update_volume (held vol tenant)))
          (update_or_fail env (held vol tenant)) t _ true
          (perform_works (update_volume (held vol tenant)) t)
      ∙ pure_go (held vol tenant) _

pub duplicate-none :
    (env : Env) (vol : VolumeRecord) (vs : List VolumeRecord) (t : Trace)
    → env.list_volumes t ≡ some vs
    → older_duplicate vol vs ≡ none
    → duplicate env vol t ≡ (go none, t)
unfolding duplicate
duplicate-none env vol vs t listed unique = elim (Bool-cases (is_empty (claim vol))) [
  | inl unclaimed ↦ rw unclaimed (pure_go none t)
  | inr claimed ↦ rw claimed (
      bind_go (ask_or_fail listing env.list_volumes) (λ volumes. pure (older_duplicate vol volumes))
        t t vs (ask_or_fail_go listing env.list_volumes t vs listed)
      ∙ pure_go (older_duplicate vol vs) t
      ∙ ap (λ o. (go o, t)) unique)
]
