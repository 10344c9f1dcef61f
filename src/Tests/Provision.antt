-- ===== src/Tests/Provision.antt =====
-- Runs of the provisioning of a new record.
use proxmox_csi_plugin.Prelude.{◌≡◌, refl, [], ◌∷◌, none, some}
use proxmox_csi_plugin.Text.{codes, text_eq, is_empty, contains_text}
use proxmox_csi_plugin.Volume.{Volume}
use proxmox_csi_plugin.Operator.Types.{source_not_found, VolumeRecord}
use proxmox_csi_plugin.Operator.Action.{
  Env, write_volume_status, update_volume, create_disk, return, requeued,
}
use proxmox_csi_plugin.Operator.Claim.{claim, older_duplicate}
use proxmox_csi_plugin.Operator.Tenancy.{admitted_tenant}
use proxmox_csi_plugin.Operator.Quota.{check_parameter_policy, check_quota, check_namespace_quota}
use proxmox_csi_plugin.Operator.Record.{observed, held}
use proxmox_csi_plugin.Operator.Source.{source_refused}
use proxmox_csi_plugin.Operator.Provision.{
  storage_plugin_type, disk_volume, disk_exists, size_of, provisioned, provision,
}
use proxmox_csi_plugin.Operator.Provision.Refusal.{Keeps}
use proxmox_csi_plugin.Operator.Provision.Complete.{
  Answers, Lacks, provision_works, provision_lost_source,
}
use proxmox_csi_plugin.Tests.Ledger.{tenant, spec, requested, answering}

-- A storage without disks, and no other record.
abbrev bare : Env
bare = record answering {
  list_disks = λ t region zone storage. some [];
  get_volume = λ t namespace name. none;
}

bare-Answers : Answers bare requested tenant (codes "lvmthin")
unfolding admitted_tenant older_duplicate text_eq claim storage_plugin_type is_empty
bare-Answers = record {
  works = λ t e. refl;
  tenants = tenant ∷ [];
  list_tenants = λ t. refl;
  registered = refl;
  volumes = requested ∷ [];
  list_volumes = λ t. refl;
  unique = refl;
  catalog = λ t. refl;
}

requested-Keeps : Keeps tenant requested
unfolding contains_text check_quota check_namespace_quota is_empty text_eq check_parameter_policy
requested-Keeps = record {
  mode = refl;
  region = refl;
  storage = refl;
  policy = refl;
  quota = refl;
  claimed = refl;
  namespace_quota = refl;
}

bare-Lacks : Lacks bare requested tenant (disk_volume tenant requested (codes "lvmthin"))
unfolding disk_exists
bare-Lacks = record { disks = []; list_disks = λ t. refl; missing = refl }

abbrev made_volume : Volume
made_volume = disk_volume tenant requested (codes "lvmthin")

provision_works_example : provision bare requested [] ≡ (
  return requeued,
  write_volume_status (observed (provisioned (held requested tenant) tenant made_volume))
      ∷ create_disk requested.spec.region requested.spec.zone requested.spec.storage
          made_volume.disk
          (size_of requested)
      ∷ update_volume (held requested tenant)
      ∷ [],
)
provision_works_example =
    provision_works bare requested tenant (codes "lvmthin") bare-Answers refl refl requested-Keeps
      bare-Lacks []

abbrev cloned : VolumeRecord
cloned = record requested {
  spec = record spec { source = some (record { volume_name = codes "lost"; snapshot_name = [] }) };
}

cloned-Answers : Answers bare cloned tenant (codes "lvmthin")
unfolding admitted_tenant older_duplicate text_eq claim storage_plugin_type is_empty
cloned-Answers = record {
  works = λ t e. refl;
  tenants = tenant ∷ [];
  list_tenants = λ t. refl;
  registered = refl;
  volumes = requested ∷ [];
  list_volumes = λ t. refl;
  unique = refl;
  catalog = λ t. refl;
}

cloned-Keeps : Keeps tenant cloned
unfolding contains_text check_quota check_namespace_quota is_empty text_eq check_parameter_policy
cloned-Keeps = record {
  mode = refl;
  region = refl;
  storage = refl;
  policy = refl;
  quota = refl;
  claimed = refl;
  namespace_quota = refl;
}

provision_lost_source_example :
    let refused = observed (source_refused source_not_found (held cloned tenant)) in
    provision bare cloned [] ≡ (
      return requeued,
      write_volume_status
            (observed (provisioned refused tenant (disk_volume tenant cloned (codes "lvmthin"))))
          ∷ write_volume_status refused
          ∷ update_volume (held cloned tenant)
          ∷ [],
    )
provision_lost_source_example =
    provision_lost_source bare cloned tenant (codes "lvmthin") cloned-Answers refl
      (record { volume_name = codes "lost"; snapshot_name = [] }) refl (unfold is_empty in refl)
      (λ t. refl) cloned-Keeps []
