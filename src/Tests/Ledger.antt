-- ===== src/Tests/Ledger.antt =====
-- The theorems on the reconcilers, for one tenant, its ledger and a Proxmox that answers.
use mathlib.Core.List.{Memᴰ}
use proxmox_csi_plugin.Prelude.{◌≡◌, refl, ◌*◌, true, false, List, [], ◌∷◌, none, some}
use proxmox_csi_plugin.Text.{codes, text_eq}
use proxmox_csi_plugin.Sizes.{mib}
use proxmox_csi_plugin.Operator.Types.{
  accepted, enforce, unset, ready, no_conditions, VolumeSpec, VolumeStatus, VolumeRecord,
  Attachment, Tenant,
}
use proxmox_csi_plugin.Operator.Action.{Env}
use proxmox_csi_plugin.Operator.Action.Rules.{Emits}
use proxmox_csi_plugin.Operator.Claim.{claim, older_claim, same_record, older_duplicate}
use proxmox_csi_plugin.Operator.Claim.Holder.{one_holder, some_holder}
use proxmox_csi_plugin.Operator.Ready.{Modify, reconcile_ready_volume}
use proxmox_csi_plugin.Operator.Ready.Safety.{ReadyEffect, reconcile_ready_volume_safe}
use proxmox_csi_plugin.Operator.Provision.{provision}
use proxmox_csi_plugin.Operator.Provision.Safety.{ProvisionEffect, provision_safe}
use proxmox_csi_plugin.Operator.Delete.{reconcile_delete}
use proxmox_csi_plugin.Operator.Delete.Safety.{DeleteEffect, reconcile_delete_safe}
use proxmox_csi_plugin.Operator.Attachment.Attach.{DiskOptions, reconcile_attach}
use proxmox_csi_plugin.Operator.Attachment.Attach.Effects.{AttachEffect}
use proxmox_csi_plugin.Operator.Attachment.Attach.Safety.{reconcile_attach_safe}
use proxmox_csi_plugin.Operator.Attachment.Detach.{reconcile_detach}
use proxmox_csi_plugin.Operator.Attachment.Detach.Safety.{DetachEffect, reconcile_detach_safe}

abbrev pub tenant : Tenant
tenant = record {
  name = codes "tenant-a";
  created = 1;
  generation = 1;
  deleting = false;
  finalizer = true;
  namespace = codes "a";
  region = codes "r1";
  subject = codes "token-a";
  pool = [];
  vmids = 105 ∷ [];
  placeholder_vmid = 9999;
  mode = enforce;
  legacy_controller_vmids = [];
  allowed_storages = codes "lvm" ∷ [];
  parameter_policy = none;
  quota = none;
  namespace_quotas = [];
  resolved_vmids = 105 ∷ [];
  used_volumes = 0;
  used_capacity = [];
  namespace_used = [];
  vmids_observed_at = some 10;
  observed_generation = 1;
  conditions = record no_conditions {
    admitted = some (record { holds = true; reason = accepted });
  };
}

abbrev new_status : VolumeStatus
new_status = record {
  volume_id = [];
  disk_name = [];
  owner_vmid = 0;
  capacity_bytes = 0;
  accessible_topology = [];
  adopted = false;
  phase = unset;
  observed_generation = 0;
  conditions = no_conditions;
}

abbrev pub spec : VolumeSpec
spec = record {
  region = codes "r1";
  zone = codes "pve1";
  storage = codes "lvm";
  capacity_bytes = 1024 * mib;
  parameters = [];
  source = none;
  mutable_parameters = [];
  claim_namespace = [];
  adopt = false;
  adopt_volume_id = [];
}

abbrev pub requested : VolumeRecord
requested = record {
  namespace = codes "a";
  name = codes "pvc-1";
  created = 7;
  generation = 1;
  deleting = false;
  finalizer = false;
  labels = record { tenant = []; region = []; storage = [] };
  applied_params = [];
  spec = spec;
  status = new_status;
}

abbrev pub made : VolumeRecord
made = record requested {
  finalizer = true;
  status = record new_status {
    volume_id = codes "r1/pve1/lvm/vm-9999-pvc-1";
    disk_name = codes "vm-9999-pvc-1";
    phase = ready;
  };
}

abbrev adopting : VolumeRecord
adopting = record requested {
  name = codes "pvc-2";
  created = 8;
  spec = record spec { adopt = true; adopt_volume_id = codes "r1/pve1/lvm/vm-9999-pvc-1" };
}

abbrev latest : VolumeRecord
latest = record adopting { name = codes "pvc-3"; created = 9 }

abbrev pub attachment : Attachment
attachment = record {
  namespace = codes "a";
  name = codes "att-1";
  generation = 1;
  deleting = false;
  finalizer = true;
  tenant_label = codes "tenant-a";
  spec = record {
    volume_name = codes "pvc-1";
    volume_id = codes "r1/pve1/lvm/vm-9999-pvc-1";
    vmid = 105;
    readonly = false;
  };
  status = record {
    attached = false;
    device_path = [];
    lun = [];
    observed_generation = 0;
    conditions = no_conditions;
  };
}

-- An API server that has the tenant and one record, and a Proxmox that does what it is asked.
abbrev pub answering : Env
answering = record {
  succeeds = λ t e. true;
  list_tenants = λ t. some (tenant ∷ []);
  list_volumes = λ t. some (requested ∷ []);
  list_ledger = λ t namespace. some (requested ∷ []);
  list_attachments = λ t namespace. some [];
  list_storages = λ t. some (
      record {
        region = codes "r1";
        zone = codes "pve1";
        storage = codes "lvm";
        shared = false;
        plugin_type = codes "lvmthin";
      }
      ∷ []);
  list_snapshots = λ t namespace. some [];
  get_volume = λ t namespace name. some made;
  get_snapshot = λ t namespace name. none;
  list_disks = λ t region zone storage. some (
      record {
        region = region;
        storage = storage;
        name = codes "vm-9999-pvc-1";
        vmid = 9999;
        size_bytes = 1024 * mib;
      }
      ∷ []);
  list_vms = λ t region. some [];
  error_message = λ t e. [];
  list_region = λ t region. some [];
  list_catalog = λ t label. some [];
  object_missing = λ t e. false;
  renamed = λ t region volume vmid. some volume;
  attach_result =
      λ t region vmid volume options. some (record { device_path = codes "/dev/sdb"; lun = 1 });
}

abbrev pub no_options : DiskOptions
no_options vol readonly = some []

abbrev ledger : List VolumeRecord
ledger = adopting ∷ made ∷ []

one_holder_example : same_record made made ≡ true
one_holder_example =
    one_holder made made ledger (Memᴰ.tail (Memᴰ.head refl)) (Memᴰ.tail (Memᴰ.head refl)) refl
      (unfold older_duplicate claim older_claim text_eq in refl)
      (unfold older_duplicate claim older_claim text_eq in refl)

some_holder_example :
    (u : VolumeRecord) × Memᴰ u ledger
    × (claim u ≡ claim adopting)
    × (older_duplicate u ledger ≡ none)
some_holder_example = some_holder adopting ledger (Memᴰ.head refl)

provision_safe_example : Emits (ProvisionEffect answering requested) (provision answering requested)
provision_safe_example = provision_safe answering requested

reconcile_delete_safe_example :
    Emits (DeleteEffect answering true made) (reconcile_delete answering true made)
reconcile_delete_safe_example = reconcile_delete_safe answering true made

reconcile_attach_safe_example :
    Emits
      (AttachEffect answering true no_options attachment)
      (reconcile_attach answering true no_options attachment)
reconcile_attach_safe_example = reconcile_attach_safe answering true no_options attachment

reconcile_detach_safe_example :
    Emits (DetachEffect answering true attachment) (reconcile_detach answering true attachment)
reconcile_detach_safe_example = reconcile_detach_safe answering true attachment

abbrev modify : Modify
modify = record { hash = λ parameters. codes "hash"; options = λ parameters. some [] }

abbrev growing : VolumeRecord
growing = record made { spec = record spec { capacity_bytes = 2048 * mib } }

reconcile_ready_volume_safe_example :
    Emits (ReadyEffect answering modify growing) (reconcile_ready_volume answering modify growing)
reconcile_ready_volume_safe_example = reconcile_ready_volume_safe answering modify growing
