-- ===== src/Operator/Record.antt =====
-- How the volume reconciler writes a record: `setCondition`, `updateStatus`, `hold`, `reject`,
-- `rejectDuplicate`, `duplicate` and `errors2` of pkg/operator/controller/volume/reconciler.go.
pub mod Rules
pub mod Runs
use proxmox_csi_plugin.Prelude.{
  Bool, true, false, not, ◌&&◌, List, Option, none, some, if◌then◌else◌,
}
use proxmox_csi_plugin.Text.{Text, text_eq, is_empty}
use proxmox_csi_plugin.Operator.Types.{
  Reason, duplicate_claim, Condition, Conditions, Labels, VolumeRecord, VolumeStatus, VolumePhase,
  rejected, Tenant,
}
use proxmox_csi_plugin.Operator.Action.{
  Env, Effect, write_volume_status, update_volume, Action, Fault, listing, writing, reporting,
  Outcome, failed_by, pure, exit, ask_or_fail, perform, ◌>>=◌,
}
use proxmox_csi_plugin.Operator.Claim.{claim, older_duplicate}

abbrev pub condition : Bool → Reason → Option Condition
condition holds reason = some (record { holds = holds; reason = reason })

-- `setCondition` at the three types of condition.
abbrev pub set_admitted : Bool → Reason → VolumeStatus → VolumeStatus
set_admitted b r s = record s { conditions = record (s.conditions) { admitted = condition b r } }

abbrev pub set_ready : Bool → Reason → VolumeStatus → VolumeStatus
set_ready b r s = record s { conditions = record (s.conditions) { ready = condition b r } }

abbrev pub set_degraded : Bool → Reason → VolumeStatus → VolumeStatus
set_degraded b r s = record s { conditions = record (s.conditions) { degraded = condition b r } }

-- `errors2`
abbrev pub errors2 : Option Fault → Option Fault → Option Fault
errors2 none second = second
errors2 (some first) none = some first
errors2 (some first) (some second) = some (reporting second first)

abbrev pub fault_unless : Bool → Option Fault
fault_unless true = none
fault_unless false = some writing

abbrev pub observed : VolumeRecord → VolumeRecord
observed vol = record vol { status = record (vol.status) { observed_generation = vol.generation } }

-- `updateStatus`
unfoldable pub update_status : Env → VolumeRecord → Action (Option Fault)
update_status env vol = do
  ok ← perform env (write_volume_status (observed vol))
  pure (fault_unless ok)

-- `return ctrl.Result{…}, r.updateStatus(ctx, vol)`, with the cause that `errors2` joins to it.
unfoldable pub report : Env → Bool → Option Fault → VolumeRecord → Action (Unit {0})
unfolding update_status
report env requeue cause vol = do
  e ← update_status env vol
  exit (record { requeue = requeue; error = errors2 e cause })

abbrev pub refused : Reason → VolumeStatus → VolumeStatus
refused reason s = record (set_ready false reason (set_admitted false reason s)) {
  phase = rejected;
}

-- `reject`
unfoldable pub reject : Env → VolumeRecord → Reason → Action (Unit {0})
unfolding report
reject env vol reason = report env false none (record vol { status = refused reason vol.status })

-- `rejectDuplicate`
unfoldable pub reject_duplicate : Env → VolumeRecord → Action (Unit {0})
unfolding reject
reject_duplicate env vol =
    reject env (record vol { status = set_degraded true duplicate_claim vol.status })
      duplicate_claim

-- `duplicate`
unfoldable pub duplicate : Env → VolumeRecord → Action (Option VolumeRecord)
duplicate env vol =
    if is_empty (claim vol)
    then pure none
    else do volumes ← ask_or_fail listing env.list_volumes; pure (older_duplicate vol volumes)

abbrev pub labels_for : VolumeRecord → Tenant → Labels
labels_for vol tenant = record {
  tenant = tenant.name;
  region = tenant.region;
  storage = vol.spec.storage;
}

same_labels : Labels → Labels → Bool
same_labels a b =
    text_eq a.tenant b.tenant && text_eq a.region b.region && text_eq a.storage b.storage

abbrev pub held : VolumeRecord → Tenant → VolumeRecord
held vol tenant = record vol { finalizer = true; labels = labels_for vol tenant }

update_or_fail : Env → VolumeRecord → Bool → Action VolumeRecord
update_or_fail env vol true = pure vol
update_or_fail env vol false = exit (failed_by writing)

-- `hold`; the record is written only if the finalizer or a label changes.
unfoldable pub hold : Env → VolumeRecord → Tenant → Action VolumeRecord
unfolding same_labels update_or_fail
hold env vol tenant =
    if vol.finalizer && same_labels vol.labels (labels_for vol tenant) then pure vol else do
      ok ← perform env (update_volume (held vol tenant))
      update_or_fail env (held vol tenant) ok
