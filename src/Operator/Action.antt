-- ===== src/Operator/Action.antt =====
-- A reconcile as an action: it asks an environment, leaves a trace of what it did to the API server
-- and to Proxmox, and may return early. The environment answers by the trace so far, so that it can
-- change between two calls, and fail at any of them.
pub mod Rules
pub mod Runs
use proxmox_csi_plugin.Prelude.{
  ℕ, Bool, true, false, List, [], ◌∷◌, Option, none, some, if◌then◌else◌,
}
use proxmox_csi_plugin.Text.{Text}
use proxmox_csi_plugin.Volume.{Volume}
use proxmox_csi_plugin.Operator.Types.{
  VolumeRecord, Attachment, Tenant, StorageRecord, SnapshotRecord, Disk, Vm, AttachResult,
  ListedStorage, CatalogEntry,
}

abbrev pub Options : Type 0
Options = List (Text × Text)

-- The calls that change something: `Status().Update`, `Update`, and those of `proxmox.Writer`.
pub data Effect : Type 0 where
  write_volume_status : VolumeRecord → Effect
  update_volume : VolumeRecord → Effect
  write_attachment_status : Attachment → Effect
  update_attachment : Attachment → Effect
  write_tenant_status : Tenant → Effect
  update_tenant : Tenant → Effect
  write_snapshot_status : SnapshotRecord → Effect
  update_snapshot : SnapshotRecord → Effect
  apply_storage : CatalogEntry → Effect
  write_storage_status : CatalogEntry → Effect
  remove_storage : CatalogEntry → Effect
  create_disk : (region zone storage disk : Text) (size : ℕ) → Effect
  copy_disk : (region zone storage disk target_zone target_storage target_disk : Text) → Effect
  delete_disk : (region zone storage disk : Text) → Effect
  attach_disk : (region : Text) (vmid : ℕ) → Volume → Options → Effect
  detach_disk : (region : Text) (vmid : ℕ) → Volume → Effect
  resize_disk : (region : Text) (vmid : ℕ) (zone device : Text) (size_mib : ℕ) → Effect
  update_disk : (region : Text) (vmid : ℕ) → Volume → Options → Effect
  rename_disk : (region : Text) → Volume → (target_vmid : ℕ) → Effect
  clear_unused_disk : (region : Text) (vmid : ℕ) → Volume → Effect

-- What was done, the latest first.
abbrev pub Trace : Type 0
Trace = List Effect

-- What the API server and Proxmox answer after a trace; `none` is an error. `list_ledger` lists the
-- volumes of a namespace, and `error_message` is what the error of a call says that did not
-- succeed; `list_catalog` lists the published storages by the label of their region, and
-- `object_missing` is whether such an error says that the object is not there.
pub record Env : Type 0 where
  pub succeeds : Trace → Effect → Bool
  pub list_tenants : Trace → Option (List Tenant)
  pub list_volumes : Trace → Option (List VolumeRecord)
  pub list_ledger : Trace → Text → Option (List VolumeRecord)
  pub list_attachments : Trace → Text → Option (List Attachment)
  pub list_storages : Trace → Option (List StorageRecord)
  pub list_snapshots : Trace → Text → Option (List SnapshotRecord)
  pub get_volume : Trace → Text → Text → Option VolumeRecord
  pub get_snapshot : Trace → Text → Text → Option SnapshotRecord
  pub list_disks : Trace → Text → Text → Text → Option (List Disk)
  pub list_vms : Trace → Text → Option (List Vm)
  pub error_message : Trace → Effect → Text
  pub list_region : Trace → Text → Option (List ListedStorage)
  pub list_catalog : Trace → Text → Option (List CatalogEntry)
  pub object_missing : Trace → Effect → Bool
  pub renamed : Trace → Text → Volume → ℕ → Option Volume
  pub attach_result : Trace → Text → ℕ → Volume → Options → Option AttachResult

-- What made a reconcile return an error.
pub data Fault : Type 0 where
  listing writing proxmox source_missing : Fault
  reporting : Fault → Fault → Fault

-- `(ctrl.Result, error)`: whether a requeue after the sync period is asked for, and the error.
pub record Outcome : Type 0 where
  pub requeue : Bool
  pub error : Option Fault

abbrev pub finished : Outcome
finished = record { requeue = false; error = none }

abbrev pub requeued : Outcome
requeued = record { requeue = true; error = none }

abbrev pub failed_by : Fault → Outcome
failed_by f = record { requeue = false; error = some f }

-- A step goes on with a value, or the reconcile returns.
pub data Next (A : Type 0) : Type 0 where
  go : A → Next A
  return : Outcome → Next A

abbrev pub Action : Type 0 → Type 0
Action A = Trace → Next A × Trace

pub pure : {A : Type 0} → A → Action A
pure a t = (go a, t)

pub exit : {A : Type 0} → Outcome → Action A
exit o t = (return o, t)

-- A question to the environment, which changes nothing.
pub ask : {A : Type 0} → (Trace → A) → Action A
ask f t = (go (f t), t)

-- A question that may be answered by an error, which ends the reconcile.
pub or_fail : {A : Type 0} → Fault → Option A → Action A
or_fail f none t = (return (failed_by f), t)
or_fail f (some a) t = (go a, t)

-- A call that changes something: it is put on the trace, and its answer is whether it succeeded.
pub perform : Env → Effect → Action Bool
perform env e t = (go (env.succeeds t e), e ∷ t)

-- A call that changes something and that answers with more than its success.
pub call : {A : Type 0} → Effect → (Trace → A) → Action A
call e f t = (go (f t), e ∷ t)

abbrev next_step : {A B : Type 0} → Next A → (A → Action B) → Action B
next_step (go a) f t = f a t
next_step (return o) f t = (return o, t)

-- To open this is to open the actions above.
infixl 5 ◌>>=◌ ◌>>◌
unfoldable pub ◌>>=◌ : {A B : Type 0} → Action A → (A → Action B) → Action B
unfolding pure exit ask or_fail perform call
◌>>=◌ m f t = let (n, t') = m t in next_step n f t'

abbrev pub ◌>>◌ : {A B : Type 0} → Action A → Action B → Action B
m >> k = m >>= λ _. k

-- A question whose error ends the reconcile.
unfoldable pub ask_or_fail : {A : Type 0} → Fault → (Trace → Option A) → Action A
unfolding ◌>>=◌
ask_or_fail f g = do answer ← ask g; or_fail f answer
