-- ===== src/Operator/Phase.antt =====
-- Tests on phases and modes, as the comparisons with the constants of pkg/apis/csi/v1alpha1.
use proxmox_csi_plugin.Prelude.{Bool, true, false}
use proxmox_csi_plugin.Operator.Types.{
  VolumePhase, ready, TenantMode, enforce, decommission, observe, suspended,
}

abbrev pub is_ready : VolumePhase → Bool
is_ready ready = true
is_ready phase = false

-- The modes in which the operator acts on Proxmox.
abbrev pub acts : TenantMode → Bool
acts enforce = true
acts decommission = true
acts mode = false

abbrev pub is_suspended : TenantMode → Bool
is_suspended suspended = true
is_suspended mode = false

abbrev pub is_observe : TenantMode → Bool
is_observe observe = true
is_observe mode = false

abbrev pub is_decommission : TenantMode → Bool
is_decommission decommission = true
is_decommission mode = false
