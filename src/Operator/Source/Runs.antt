-- ===== src/Operator/Source/Runs.antt =====
-- What the provisioning from a volume that is not found does, when the write of its status succeeds.
use proxmox_csi_plugin.Prelude.{◌≡◌, ap, ◌∙◌, true, false, not, ◌∷◌, none, if◌then◌else◌}
use proxmox_csi_plugin.Text.{is_empty}
use proxmox_csi_plugin.Volume.{Volume}
use proxmox_csi_plugin.Operator.Types.{source_not_found, VolumeSource, VolumeRecord}
use proxmox_csi_plugin.Operator.Action.{
  Env, Effect, write_volume_status, Trace, go, source_missing, failed_by, ask, exit,
}
use proxmox_csi_plugin.Operator.Action.Runs.{bind_go, pure_go, ask_go}
use proxmox_csi_plugin.Operator.Record.{observed, update_status}
use proxmox_csi_plugin.Operator.Record.Runs.{update_status_works}
use proxmox_csi_plugin.Operator.Source.{
  unless, noted, source_refused, from_found_volume, provision_from_volume, provision_from_snapshot,
  provision_from_source,
}

module _ (env : Env) (works : (t : Trace) (e : Effect) → env.succeeds t e ≡ true) (v : VolumeRecord)
    (dest : Volume) where
  abbrev refusal : VolumeRecord
  refusal = observed (source_refused source_not_found v)

  from_none_works :
      (t : Trace)
      → from_found_volume env v dest none t ≡ (go refusal, write_volume_status refusal ∷ t)
  unfolding from_found_volume noted unless
  from_none_works t =
      bind_go (update_status env (source_refused source_not_found v)) (unless refusal) t
        (write_volume_status refusal ∷ t) none
        (update_status_works env works (source_refused source_not_found v) t)
      ∙ pure_go refusal (write_volume_status refusal ∷ t)

  pub provision_from_lost_volume :
      (source : VolumeSource) (t : Trace)
      → is_empty source.volume_name ≡ false
      → env.get_volume t v.namespace source.volume_name ≡ none
      → provision_from_source env v dest source t ≡ (
        go (observed (source_refused source_not_found v)),
        write_volume_status (observed (source_refused source_not_found v)) ∷ t,
      )
  unfolding provision_from_source provision_from_volume
  provision_from_lost_volume source t named gone =
      ap
        (λ b.
          (if not b
              then provision_from_volume env v dest source.volume_name
              else if not (is_empty source.snapshot_name)
              then provision_from_snapshot env v dest source.snapshot_name
              else exit (failed_by source_missing))
            t)
        named
      ∙ bind_go (ask (λ t. env.get_volume t v.namespace source.volume_name))
          (from_found_volume env v dest) t t none
          (ask_go (λ t. env.get_volume t v.namespace source.volume_name) t
            ∙ ap (λ o. (go o, t)) gone)
      ∙ from_none_works t
