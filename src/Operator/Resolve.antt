-- ===== src/Operator/Resolve.antt =====
-- `resolveVMIDs` of pkg/operator/controller/tenant/reconciler.go: the VM ids that a registration may
-- attach to. The set of ids is its ascending list, as the source sorts it.
pub mod Ids
use proxmox_csi_plugin.Prelude.{ℕ, Bool, List, [], ◌∷◌, ◌==◌, ltb, if◌then◌else◌}
use proxmox_csi_plugin.Text.{Text, text_eq}
use proxmox_csi_plugin.Operator.Types.{Vm}

-- `ids[id] = struct{}{}`
insert_id : ℕ → List ℕ → List ℕ
insert_id n [] = n ∷ []
insert_id n (m ∷ ms) =
    let rest = insert_id n ms in
    if ltb n m then n ∷ (m ∷ ms) else if n == m then m ∷ ms else m ∷ rest

insert_ids : List ℕ → List ℕ → List ℕ
unfolding insert_id
insert_ids [] ids = ids
insert_ids (n ∷ ns) ids = insert_ids ns (insert_id n ids)

insert_pool : Text → List Vm → List ℕ → List ℕ
unfolding insert_id
insert_pool pool [] ids = ids
insert_pool pool (vm ∷ vms) ids =
    insert_pool pool vms (if text_eq vm.pool pool then insert_id vm.vmid ids else ids)

-- The ids of the allowlist, and of the VMs of the pool.
unfoldable pub resolved_ids : List ℕ → Text → List Vm → List ℕ
unfolding insert_ids insert_pool
resolved_ids allowlist pool vms = insert_pool pool vms (insert_ids allowlist [])
