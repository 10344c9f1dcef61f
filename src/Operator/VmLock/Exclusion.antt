-- ===== src/Operator/VmLock/Exclusion.antt =====
-- What the mutexes of pkg/operator/proxmox/vmlock.go guarantee, whatever order the threads run in.
use proxmox_csi_plugin.Prelude.{ℕ, ◌≡◌, ap, some}
use proxmox_csi_plugin.Text.{Text, lookup}
use proxmox_csi_plugin.Operator.VmLock.{
  key, waiting, holding, Locks, new_vm_lock, get, enter_lock, unlock, Step, enters, acquires,
  unlocks, Reach, here, next,
}
use proxmox_csi_plugin.Operator.VmLock.Sound.{IsSound, Got-get, new_vm_lock-IsSound}
use proxmox_csi_plugin.Operator.VmLock.Keys.{IsVmid, key_injective}
use proxmox_csi_plugin.Operator.VmLock.Steps.{entered-IsSound, freed-IsSound, acquire-IsSound}

Step-IsSound : {s u : Locks} → Step s u → IsSound s → IsSound u
unfolding enter_lock unlock
Step-IsSound (enters s t region vmid free) i =
    entered-IsSound s i t region vmid (get (key region vmid) s).0 (get (key region vmid) s).1
      (Got-get (key region vmid) s i) free
Step-IsSound (acquires s t region vmid m waited free) i =
    acquire-IsSound s i t region vmid m waited free
Step-IsSound (unlocks s t region vmid m mine) i =
    freed-IsSound s i t region vmid (get (key region vmid) s).0 (get (key region vmid) s).1
      (Got-get (key region vmid) s i) m mine

Reach-IsSound : {s : Locks} → Reach new_vm_lock s → IsSound s
Reach-IsSound here = new_vm_lock-IsSound
Reach-IsSound (next r step) = Step-IsSound step (Reach-IsSound r)

-- At most one thread is behind the lock of a VM, which has locked the mutex of the VM's key, and a
-- thread waits only for a mutex that is free, or that a thread behind the lock of the same VM has.
pub record IsExclusive (s : Locks) : Type 0 where
  pub alone :
      (t u : ℕ) (r : Text) (v m n : ℕ)
      → s.phase t ≡ holding r v m
      → s.phase u ≡ holding r v n
      → t ≡ u
  pub locked :
      (t : ℕ) (r : Text) (v m : ℕ)
      → s.phase t ≡ holding r v m
      → (lookup (key r v) s.table ≡ some m) × (s.holder m ≡ some t)
  pub own_lock :
      (t u : ℕ) (r r' : Text) (v v' m : ℕ)
      → IsVmid v
      → IsVmid v'
      → s.phase t ≡ waiting r v m
      → s.phase u ≡ holding r' v' m
      → (r ≡ r') × (v ≡ v')
  pub behind_lock :
      (t u : ℕ) (r : Text) (v m : ℕ)
      → s.phase t ≡ waiting r v m
      → s.holder m ≡ some u
      → (r' : Text) × (v' : ℕ) × (s.phase u ≡ holding r' v' m)

-- In every state that calls of `Lock` and `Unlock`, in any order and of any number of threads, reach
-- from a new `VMLock`, at most one thread is behind the lock of a VM, its `Unlock` finds the
-- mutex that it locked, and a thread that waits for a
-- mutex that is locked waits for a thread behind the lock of the same VM, if VM ids are below 2 ^ 31.
pub Reach-IsExclusive : {s : Locks} → Reach new_vm_lock s → IsExclusive s
Reach-IsExclusive {s} reached =
    (let i = Reach-IsSound reached in
      record {
        alone = λ t u r v m n h k. alone_in i t u r v m n h k;
        locked = i.holds;
        own_lock = λ t u r r' v v' m lv lw h k.
            key_injective r r' v v' lv lw
              (i.distinct (key r v) (key r' v') m (i.waits t r v m h) (i.holds u r' v' m k).0);
        behind_lock = λ t u r v m h k. i.held u m k;
      })
  where
    alone_in :
        IsSound s
        → (t u : ℕ) (r : Text) (v m n : ℕ) → s.phase t ≡ holding r v m
        → s.phase u ≡ holding r v n
        → t ≡ u
    alone_in i t u r v m n h k =
        (let a = i.holds t r v m h in
          let b = i.holds u r v n k in
          let e : m ≡ n = cc (a.0, b.0) in cc (a.1, b.1, ap s.holder e))
