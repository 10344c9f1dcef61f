-- ===== src/Tests/Attachment.antt =====
-- Runs of an attach and of a detach.
use proxmox_csi_plugin.Prelude.{◌≡◌, refl, false, [], ◌∷◌, contains_number}
use proxmox_csi_plugin.Text.{codes, text_eq, is_empty, split_n, cut}
use proxmox_csi_plugin.Volume.{Volume, parse_volume_id}
use proxmox_csi_plugin.Operator.Types.{Attachment, AttachResult}
use proxmox_csi_plugin.Operator.Action.{
  write_attachment_status, update_attachment, attach_disk, detach_disk, return, requeued, finished,
}
use proxmox_csi_plugin.Operator.Tenancy.{admitted_tenant}
use proxmox_csi_plugin.Operator.Attachment.{seen, held_attachment}
use proxmox_csi_plugin.Operator.Attachment.Attach.{attached_as, reconcile_attach}
use proxmox_csi_plugin.Operator.Attachment.Attach.Complete.{AttachAnswers, reconcile_attach_works}
use proxmox_csi_plugin.Operator.Attachment.Detach.{current_volume, reconcile_detach}
use proxmox_csi_plugin.Operator.Attachment.Detach.Complete.{reconcile_detach_works}
use proxmox_csi_plugin.Tests.Ledger.{tenant, made, attachment, answering, no_options}

abbrev handle : Volume
handle = record {
  region = codes "r1";
  zone = codes "pve1";
  node = codes "pve1";
  storage = codes "lvm";
  disk = codes "vm-9999-pvc-1";
}

abbrev result : AttachResult
result = record { device_path = codes "/dev/sdb"; lun = 1 }

abbrev unheld : Attachment
unheld = record attachment { finalizer = false }

answering-AttachAnswers : AttachAnswers answering no_options unheld made tenant handle [] result
unfolding admitted_tenant text_eq contains_number parse_volume_id split_n cut
answering-AttachAnswers = record {
  works = λ t e. refl;
  get_volume = λ t. refl;
  tenants = tenant ∷ [];
  list_tenants = λ t. refl;
  registered = refl;
  active = refl;
  vm = refl;
  same_id = refl;
  volume_ready = refl;
  parsed = refl;
  valid = refl;
  attach_result = λ t. refl;
}

reconcile_attach_works_example : reconcile_attach answering false no_options unheld [] ≡ (
  return requeued,
  write_attachment_status (seen (attached_as (held_attachment unheld tenant) result))
      ∷ attach_disk (codes "r1") 105 handle []
      ∷ update_attachment (held_attachment unheld tenant)
      ∷ [],
)
reconcile_attach_works_example =
    reconcile_attach_works answering no_options unheld made tenant handle [] result
      answering-AttachAnswers refl refl []

reconcile_detach_works_example : reconcile_detach answering false attachment [] ≡ (
  return finished,
  update_attachment (record attachment { finalizer = false })
      ∷ detach_disk (current_volume made handle).region 105 (current_volume made handle)
      ∷ [],
)
reconcile_detach_works_example =
    reconcile_detach_works answering (λ t e. refl) attachment made handle refl (λ t. refl)
      (unfold is_empty in refl) (unfold parse_volume_id split_n cut in refl) []
