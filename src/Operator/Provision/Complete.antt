-- ===== src/Operator/Provision/Complete.antt =====
-- Runs of `reconcileProvision`, in pkg/operator/controller/volume/provision.go, where the API
-- server and Proxmox answer.
use proxmox_csi_plugin.Prelude.{◌≡◌, ap, ◌∙◌, true, false, List, [], ◌∷◌, none, some, if◌then◌else◌}
use proxmox_csi_plugin.Text.{Text, is_empty}
use proxmox_csi_plugin.Volume.{Volume, volume_id}
use proxmox_csi_plugin.Operator.Types.{
  accepted, ready, source_not_found, VolumeSource, VolumeRecord, Tenant, Disk,
}
use proxmox_csi_plugin.Operator.Action.{
  Env, Effect, write_volume_status, update_volume, create_disk, Trace, go, return, requeued,
  listing, pure, ask, ask_or_fail, perform, ◌>>=◌,
}
use proxmox_csi_plugin.Operator.Action.Runs.{bind_go, pure_go, ask_go, ask_or_fail_go}
use proxmox_csi_plugin.Operator.Tenancy.{admitted_tenant}
use proxmox_csi_plugin.Operator.Claim.{older_duplicate}
use proxmox_csi_plugin.Operator.Record.{observed, report, duplicate, held, hold}
use proxmox_csi_plugin.Operator.Record.Runs.{
  perform_works, report_works, hold_works, duplicate-none,
}
use proxmox_csi_plugin.Operator.Source.{source_refused}
use proxmox_csi_plugin.Operator.Source.Runs.{provision_from_lost_volume}
use proxmox_csi_plugin.Operator.Provision.{
  plugin_of, disk_volume, disk_exists, size_of, provisioned, created, create_listed, make_disk,
  provision_held, provision_on, provision_unclaimed, provision_admitted, provision_for, provision,
}
use proxmox_csi_plugin.Operator.Provision.Refusal.{Keeps, Keeps-refusal}

module _ (env : Env) (vol : VolumeRecord) (tenant : Tenant) where
  -- An API server and a Proxmox that answer, for a new record that is to be provisioned.
  pub record Answers (plugin_type : Text) : Type 0 where
    pub works : (t : Trace) (e : Effect) → env.succeeds t e ≡ true
    pub tenants : List Tenant
    pub list_tenants : (t : Trace) → env.list_tenants t ≡ some tenants
    pub registered : admitted_tenant vol.namespace tenants ≡ some tenant
    pub volumes : List VolumeRecord
    pub list_volumes : (t : Trace) → env.list_volumes t ≡ some volumes
    pub unique : older_duplicate vol volumes ≡ none
    pub catalog : (t : Trace) → plugin_of vol (env.list_storages t) ≡ some plugin_type

  -- The storage lists its disks, and not the one to make.
  pub record Lacks (volume : Volume) : Type 0 where
    pub disks : List Disk
    pub list_disks :
        (t : Trace) → env.list_disks t vol.spec.region vol.spec.zone vol.spec.storage ≡ some disks
    pub missing : disk_exists volume disks ≡ false

  module _ (plugin_type : Text) (a : Answers plugin_type) (fresh : vol.finalizer ≡ false) where
    abbrev made : Volume
    made = disk_volume tenant vol plugin_type

    abbrev creation : Effect
    creation = create_disk vol.spec.region vol.spec.zone vol.spec.storage made.disk (size_of vol)

    abbrev kept : VolumeRecord
    kept = held vol tenant

    abbrev published : VolumeRecord → Effect
    published m = write_volume_status (record m {
      status = record (m.status) {
        volume_id = volume_id made;
        disk_name = made.disk;
        owner_vmid = tenant.placeholder_vmid;
        capacity_bytes = size_of m;
        accessible_topology = m.spec.zone ∷ [];
        adopted = false;
        phase = ready;
        observed_generation = m.generation;
        conditions = record (m.status.conditions) {
          admitted = some (record { holds = true; reason = accepted });
          ready = some (record { holds = true; reason = accepted });
        };
      };
    })

    make_disk_works :
        Lacks made → (t : Trace) → make_disk env kept made none t ≡ (go kept, creation ∷ t)
    unfolding make_disk create_listed created
    make_disk_works k t =
        bind_go (ask (λ t. env.list_disks t vol.spec.region vol.spec.zone vol.spec.storage))
          (create_listed env kept made) t t (some k.disks)
          (ask_go (λ t. env.list_disks t vol.spec.region vol.spec.zone vol.spec.storage) t
            ∙ ap (λ o. (go o, t)) (k.list_disks t))
        ∙ ap (λ b. (if b then pure kept else (perform env creation >>= created env kept)) t)
            k.missing
        ∙ bind_go (perform env creation) (created env kept) t (creation ∷ t) true
            (perform_works env a.works creation t)
        ∙ pure_go kept (creation ∷ t)

    -- The source is the name of a volume that is not found.
    make_disk_refused :
        (source : VolumeSource) (t : Trace)
        → is_empty source.volume_name ≡ false
        → ((t : Trace) → env.get_volume t vol.namespace source.volume_name ≡ none)
        → make_disk env kept made (some source) t ≡ (
          go (observed (source_refused source_not_found kept)),
          write_volume_status (observed (source_refused source_not_found kept)) ∷ t,
        )
    unfolding make_disk
    make_disk_refused source t named gone =
        provision_from_lost_volume env a.works kept made source t named (gone t)

    module _ (keeps : Keeps tenant vol) (t u : Trace) (m : VolumeRecord)
        (run : make_disk env kept made vol.spec.source (update_volume kept ∷ t) ≡ (go m, u)) where
      provision_held_steps :
          provision_held env tenant made kept (update_volume kept ∷ t)
          ≡ (return requeued, published m ∷ u)
      unfolding provision_held
      provision_held_steps =
          bind_go (make_disk env kept made vol.spec.source)
            (λ m. report env true none (provisioned m tenant made)) (update_volume kept ∷ t) u m run
          ∙ report_works env a.works true (provisioned m tenant made) u

      provision_unclaimed_steps :
          provision_unclaimed env vol tenant none t ≡ (return requeued, published m ∷ u)
      unfolding provision_unclaimed provision_on
      provision_unclaimed_steps =
          bind_go (ask (λ t. plugin_of vol (env.list_storages t))) (provision_on env vol tenant) t t
            (some plugin_type)
            (ask_go (λ t. plugin_of vol (env.list_storages t)) t
              ∙ ap (λ o. (go o, t)) (a.catalog t))
          ∙ bind_go (hold env vol tenant) (provision_held env tenant made) t
              (update_volume kept ∷ t) kept (hold_works env a.works vol tenant t fresh)
          ∙ provision_held_steps

      provision_steps : provision env vol t ≡ (return requeued, published m ∷ u)
      unfolding provision provision_for provision_admitted
      provision_steps =
          bind_go (ask_or_fail listing env.list_tenants)
            (λ ts. provision_for env vol (admitted_tenant vol.namespace ts)) t t a.tenants
            (ask_or_fail_go listing env.list_tenants t a.tenants (a.list_tenants t))
          ∙ ap (λ o. provision_for env vol o t) a.registered
          ∙ ap (λ o. provision_admitted env vol tenant o t) (Keeps-refusal tenant vol keeps)
          ∙ bind_go (duplicate env vol) (provision_unclaimed env vol tenant) t t none
              (duplicate-none env vol a.volumes t (a.list_volumes t) a.unique)
          ∙ provision_unclaimed_steps

    -- A new record without a source, that keeps its registration's rules, that nothing duplicates and
    -- whose disk the storage does not list, is provisioned if every listing is answered and every call
    -- succeeds: the record is held, then the disk is made, and only then the status that records the
    -- volume's bytes is published, and the reconcile ends without an error.
    pub provision_works :
        vol.spec.source ≡ none
        → Keeps tenant vol
        → Lacks made
        → (t : Trace)
        → provision env vol t
          ≡ (return requeued, published kept ∷ creation ∷ update_volume kept ∷ t)
    provision_works new keeps k t =
        provision_steps keeps t (creation ∷ update_volume kept ∷ t) kept (
          ap (λ s. make_disk env kept made s (update_volume kept ∷ t)) new
          ∙ make_disk_works k (update_volume kept ∷ t))

    -- A new record whose source is a volume that is not found is published all the same, if every listing
    -- is answered and every call succeeds: the status says that the source is not found, and the next
    -- status grants the handle of a disk that no call made or copied.
    pub provision_lost_source :
        (source : VolumeSource)
        → vol.spec.source ≡ some source
        → is_empty source.volume_name ≡ false
        → ((t : Trace) → env.get_volume t vol.namespace source.volume_name ≡ none)
        → Keeps tenant vol
        → (t : Trace)
        → let refused = observed (source_refused source_not_found kept) in
          provision env vol t ≡ (
            return requeued,
            published refused ∷ write_volume_status refused ∷ update_volume kept ∷ t,
          )
    provision_lost_source source from named gone keeps t =
        provision_steps keeps t
          (write_volume_status (observed (source_refused source_not_found kept))
            ∷ update_volume kept
            ∷ t)
          (observed (source_refused source_not_found kept))
          (ap (λ s. make_disk env kept made s (update_volume kept ∷ t)) from
            ∙ make_disk_refused source (update_volume kept ∷ t) named gone)
