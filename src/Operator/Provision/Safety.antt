-- ===== src/Operator/Provision/Safety.antt =====
-- The effects that provisioning may have, for pkg/operator/controller/volume/provision.go.
use proxmox_csi_plugin.Prelude.{
  ◌≡◌, refl, sym, subst, ◌∙◌, Bool, true, false, List, Option, none, some, ◌⊎◌, inl, inr,
}
use proxmox_csi_plugin.Text.{Text}
use proxmox_csi_plugin.Volume.{Volume, volume_id}
use proxmox_csi_plugin.Operator.Types.{
  Reason, tenant_unknown, invalid_spec, duplicate_claim, proxmox_error, failed, VolumeSource,
  VolumeStatus, VolumeRecord, Tenant, Disk, Labels,
}
use proxmox_csi_plugin.Operator.Action.{
  Env, Effect, write_volume_status, update_volume, create_disk, copy_disk, Trace, listing, proxmox,
  pure, ask, ask_or_fail, perform, ◌>>=◌,
}
use proxmox_csi_plugin.Operator.Action.Rules.{
  Ensures, Emits, Ensures-pure, Ensures-if, Ensures-ask, Ensures-ask_or_fail, Ensures-perform,
  Ensures-bind, Ensures-weakened,
}
use proxmox_csi_plugin.Operator.Tenancy.{admitted_tenant}
use proxmox_csi_plugin.Operator.Record.{
  observed, report, reject, reject_duplicate, duplicate, hold, set_degraded, set_ready,
}
use proxmox_csi_plugin.Operator.Record.Rules.{
  Registered, Unique, Ensures-report, Emits-reject, Ensures-duplicate, HeldRecord,
  Ensures-hold_held,
}
use proxmox_csi_plugin.Operator.Source.Rules.{InStatus, Ensures-provision_from_source}
use proxmox_csi_plugin.Operator.Provision.Refusal.{Keeps, refusal-Keeps}
use proxmox_csi_plugin.Operator.Provision.{
  refusal, plugin_of, disk_volume, disk_exists, size_of, provisioned, created, create_listed,
  make_disk, provision_held, provision_on, provision_unclaimed, provision_admitted, provision_for,
  provision,
}

abbrev IsNone : Option VolumeSource → Type 0
IsNone none = Unit
IsNone (some source) = ⊥

none≢some : (source : VolumeSource) → ¬ (none ≡ some source)
none≢some source e = subst IsNone e tt

module _ (env : Env) (vol : VolumeRecord) where
  -- A registration that admits the record, and the type of the storage, as the catalog has it.
  pub record Admits (tenant : Tenant) (plugin_type : Text) : Type 0 where
    pub listed : Registered env vol tenant
    pub keeps : Keeps tenant vol
    pub unique : Unique env vol none
    pub catalog : (t : Trace) × (plugin_of vol (env.list_storages t) ≡ some plugin_type)

  abbrev disks_at : Trace → Option (List Disk)
  disks_at t = env.list_disks t vol.spec.region vol.spec.zone vol.spec.storage

  -- The storage lists the disk, or not, at some time of asking.
  abbrev pub Listed : Volume → Bool → Type 0
  Listed volume found =
      (ds : List Disk) × (t : Trace) × (disks_at t ≡ some ds) × (disk_exists volume ds ≡ found)

  abbrev create : Volume → Effect
  create volume =
      create_disk vol.spec.region vol.spec.zone vol.spec.storage volume.disk (size_of vol)

  -- The disk is there: the storage listed it, or Proxmox made it.
  abbrev pub Made : Volume → Type 0
  Made volume = Listed volume true ⊎ ((t : Trace) × (env.succeeds t (create volume) ≡ true))

  -- The status grants the handle of the volume made for the record.
  pub record Provisioned (w : VolumeRecord) : Type 0 where
    pub tenant : Tenant
    pub plugin_type : Text
    pub admits : Admits tenant plugin_type
    pub made : vol.spec.source ≡ none → Made (disk_volume tenant vol plugin_type)
    pub volume_id : w.status.volume_id ≡ volume_id (disk_volume tenant vol plugin_type)
    pub disk_name : w.status.disk_name ≡ (disk_volume tenant vol plugin_type).disk
    pub owner : w.status.owner_vmid ≡ tenant.placeholder_vmid
    pub capacity : w.status.capacity_bytes ≡ size_of vol
    pub held : w.finalizer ≡ true

  -- The effects that provisioning may have.
  abbrev pub ProvisionEffect : Effect → Type 0
  ProvisionEffect (create_disk region zone storage disk size) =
      (tenant : Tenant) × (plugin_type : Text) × Admits tenant plugin_type
      × (vol.spec.source ≡ none)
      × Listed (disk_volume tenant vol plugin_type) false
      × (create_disk region zone storage disk size ≡ create (disk_volume tenant vol plugin_type))
  ProvisionEffect (copy_disk region zone storage disk target_zone target_storage target_disk) =
      (tenant : Tenant) × (plugin_type : Text) × Admits tenant plugin_type
      × ((source : VolumeSource) × (vol.spec.source ≡ some source))
      × (target_zone ≡ vol.spec.zone)
      × (target_storage ≡ vol.spec.storage)
      × (target_disk ≡ (disk_volume tenant vol plugin_type).disk)
  ProvisionEffect (write_volume_status w) =
      (w.status.volume_id ≡ vol.status.volume_id) ⊎ Provisioned w
  ProvisionEffect (update_volume w) = (w.finalizer ≡ true) × (w.status ≡ vol.status)
  ProvisionEffect e = ⊥

  refused : (reason : Reason) → Emits ProvisionEffect (reject env vol reason)
  refused reason = Emits-reject env vol reason (inl refl)

  refused_duplicate : Emits ProvisionEffect (reject_duplicate env vol)
  unfolding reject_duplicate
  refused_duplicate =
      Emits-reject env (record vol { status = set_degraded true duplicate_claim vol.status })
        duplicate_claim (inl refl)

  module _ (tenant : Tenant) (plugin_type : Text) (a : Admits tenant plugin_type) where
    abbrev volume : Volume
    volume = disk_volume tenant vol plugin_type

    -- What making the disk goes on with.
    abbrev MadeFor : VolumeRecord → VolumeRecord → Type 0
    MadeFor v m = InStatus v m × (vol.spec.source ≡ none → Made volume)

    module _ (l : Labels) where
      abbrev kept : VolumeRecord
      kept = record vol { finalizer = true; labels = l }

      Ensures-failed :
          (s : VolumeStatus)
          → s.volume_id ≡ vol.status.volume_id
          → Ensures ProvisionEffect
              (MadeFor kept)
              (report env false (some proxmox) (record kept { status = s }) >>= λ done. pure kept)
      Ensures-failed s e =
          Ensures-bind (report env false (some proxmox) (record kept { status = s }))
            (λ done. pure kept)
            (Ensures-report {Q = λ u. ⊥} env false (some proxmox) (record kept { status = s })
              (inl e))
            (λ u impossible. absurd impossible)

      Ensures-created :
          (b : Bool) (t : Trace)
          → env.succeeds t (create volume) ≡ b
          → Ensures ProvisionEffect (MadeFor kept) (created env kept b)
      unfolding created
      Ensures-created true t e = Ensures-pure kept ((vol.status, refl), λ h. inr (t, e))
      Ensures-created false t e =
          Ensures-failed (record (set_ready false proxmox_error vol.status) { phase = failed }) refl

      Ensures-create_listed :
          (found : Option (List Disk)) (t : Trace)
          → vol.spec.source ≡ none
          → disks_at t ≡ found
          → Ensures ProvisionEffect (MadeFor kept) (create_listed env kept volume found)
      unfolding create_listed
      Ensures-create_listed none t fresh e =
          Ensures-failed (set_ready false proxmox_error vol.status) refl
      Ensures-create_listed (some ds) t fresh e =
          Ensures-if (disk_exists volume ds) (pure kept) _
            (λ there. Ensures-pure kept ((vol.status, refl), λ h. inl (ds, t, e, there)))
            (λ missing.
              Ensures-bind (perform env (create volume)) (created env kept)
                (Ensures-perform env (create volume)
                  (tenant, plugin_type, a, fresh, (ds, t, e, missing), refl))
                (λ b k. Ensures-created b k.0 k.1))

      Ensures-make_disk :
          (source : Option VolumeSource)
          → vol.spec.source ≡ source
          → Ensures ProvisionEffect (MadeFor kept) (make_disk env kept volume source)
      unfolding make_disk
      Ensures-make_disk (some source) e =
          Ensures-weakened
            (Ensures-provision_from_source env kept volume (λ s h. inl h)
              (λ region zone storage disk. (tenant, plugin_type, a, (source, e), refl, refl, refl))
              source)
            (λ m h. (h, λ fresh. absurd (none≢some source (sym fresh ∙ e))))
      Ensures-make_disk none e =
          Ensures-bind (ask disks_at) (create_listed env kept volume)
            (Ensures-ask {Q = λ o. (t : Trace) × (disks_at t ≡ o)} disks_at (λ t. (t, refl)))
            (λ found k. Ensures-create_listed found k.0 e k.1)

      Provisioned-made :
          (m : VolumeRecord)
          → MadeFor kept m
          → ProvisionEffect (write_volume_status (observed (provisioned m tenant volume)))
      Provisioned-made m h =
          subst
            (λ x. ProvisionEffect (write_volume_status (observed (provisioned x tenant volume))))
            (sym h.0.1)
            (inr (record {
              tenant = tenant;
              plugin_type = plugin_type;
              admits = a;
              made = h.1;
              volume_id = refl;
              disk_name = refl;
              owner = refl;
              capacity = refl;
              held = refl;
            }))

      Emits-provision_kept : Emits ProvisionEffect (provision_held env tenant volume kept)
      unfolding provision_held
      Emits-provision_kept =
          Ensures-bind (make_disk env kept volume vol.spec.source)
            (λ made. report env true none (provisioned made tenant volume))
            (Ensures-make_disk vol.spec.source refl)
            (λ m h.
              Ensures-report env true none (provisioned m tenant volume) (Provisioned-made m h))

    Emits-provision_held :
        (v : VolumeRecord)
        → HeldRecord vol v
        → Emits ProvisionEffect (provision_held env tenant volume v)
    Emits-provision_held v h =
        subst (λ x. Emits ProvisionEffect (provision_held env tenant volume x)) (sym h.1)
          (Emits-provision_kept h.0)

  module _ (tenant : Tenant) (listed : Registered env vol tenant) (keeps : Keeps tenant vol)
      (unique : Unique env vol none) where
    Emits-provision_on :
        (plugin_type : Option Text) (t : Trace)
        → plugin_of vol (env.list_storages t) ≡ plugin_type
        → Emits ProvisionEffect (provision_on env vol tenant plugin_type)
    unfolding provision_on
    Emits-provision_on none t e = refused invalid_spec
    Emits-provision_on (some plugin_type) t e =
        Ensures-bind (hold env vol tenant)
          (provision_held env tenant (disk_volume tenant vol plugin_type))
          (Ensures-hold_held env vol tenant (refl, refl))
          (Emits-provision_held tenant plugin_type
            (record { listed = listed; keeps = keeps; unique = unique; catalog = (t, e) }))

  module _ (tenant : Tenant) (listed : Registered env vol tenant) where
    Emits-provision_unclaimed :
        Keeps tenant vol
        → (other : Option VolumeRecord) → Unique env vol other
        → Emits ProvisionEffect (provision_unclaimed env vol tenant other)
    unfolding provision_unclaimed
    Emits-provision_unclaimed keeps (some other) unique = refused_duplicate
    Emits-provision_unclaimed keeps none unique =
        Ensures-bind (ask (λ t. plugin_of vol (env.list_storages t))) (provision_on env vol tenant)
          (Ensures-ask {Q = λ o. (t : Trace) × (plugin_of vol (env.list_storages t) ≡ o)} _
            (λ t. (t, refl)))
          (λ o k. Emits-provision_on tenant listed keeps unique o k.0 k.1)

    Emits-provision_admitted :
        (verdict : Option Reason)
        → refusal tenant vol ≡ verdict
        → Emits ProvisionEffect (provision_admitted env vol tenant verdict)
    unfolding provision_admitted
    Emits-provision_admitted (some reason) e = refused reason
    Emits-provision_admitted none e =
        Ensures-bind (duplicate env vol) (provision_unclaimed env vol tenant)
          (Ensures-duplicate env vol)
          (λ other unique. Emits-provision_unclaimed (refusal-Keeps tenant vol e) other unique)

  Emits-provision_for :
      (found : Option Tenant)
      → ((tenant : Tenant) → found ≡ some tenant → Registered env vol tenant)
      → Emits ProvisionEffect (provision_for env vol found)
  unfolding provision_for
  Emits-provision_for none h = refused tenant_unknown
  Emits-provision_for (some tenant) h =
      Emits-provision_admitted tenant (h tenant refl) (refusal tenant vol) refl

  -- Provisioning makes a disk, new or copied, only for a record that the first admitted registration of
  -- its namespace admits, that no older record duplicates and whose storage is in the catalog; a new one
  -- only if the storage does not list it, of the rounded size. It writes a status that keeps the handle,
  -- or grants, to a record with the finalizer, that of the disk named for the placeholder VM and the
  -- record; without a source to copy, the storage listed this disk or Proxmox made it.
  pub provision_safe : Emits ProvisionEffect (provision env vol)
  unfolding provision
  provision_safe =
      Ensures-bind (ask_or_fail listing env.list_tenants)
        (λ ts. provision_for env vol (admitted_tenant vol.namespace ts))
        (Ensures-ask_or_fail listing env.list_tenants)
        (λ ts k.
          Emits-provision_for (admitted_tenant vol.namespace ts) (λ tenant p. (ts, k.0, k.1, p)))
