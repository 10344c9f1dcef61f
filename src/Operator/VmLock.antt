-- ===== src/Operator/VmLock.antt =====
-- pkg/operator/proxmox/vmlock.go: a mutex for each VM. `get` runs under `l.mu`, so it is one step; a
-- `Lock` is two, since other threads may run between `get` and the mutex. Threads and mutexes are
-- numbers, and VM ids are not negative.
pub mod Keys
pub mod Sound
pub mod Steps
pub mod Exclusion
use proxmox_csi_plugin.Prelude.{
  ℕ, suc, ◌≡◌, Bool, List, [], ◌∷◌, ◌++◌, Option, none, some, ◌==◌, if◌then◌else◌,
}
use proxmox_csi_plugin.Text.{Text, lookup, itoa}

-- `key`
unfoldable pub key : Text → ℕ → Text
key region vmid = region ++ b'/' ∷ itoa vmid

-- What a thread is at: not in a call, in `Lock` with the mutex that `get` answered, or behind it.
pub data Phase : Type 0 where
  idle : Phase
  waiting : (region : Text) (vmid mutex : ℕ) → Phase
  holding : (region : Text) (vmid mutex : ℕ) → Phase

-- `VMLock`: the map `locks`, the mutexes by the thread that has locked them, and the threads.
pub record Locks : Type 0 where
  pub table : List (Text × ℕ)
  pub made : ℕ
  pub holder : ℕ → Option ℕ
  pub phase : ℕ → Phase

-- `NewVMLock`
abbrev pub new_vm_lock : Locks
new_vm_lock = record { table = []; made = 0; holder = λ m. none; phase = λ t. idle }

abbrev pub set_at : {A : Type 0} → ℕ → A → (ℕ → A) → ℕ → A
set_at n a f k = if k == n then a else f k

-- `get`: the mutex of a key, which is made if there is none.
abbrev pub get_or_make : Text → Locks → Option ℕ → Locks × ℕ
get_or_make k s (some m) = (s, m)
get_or_make k s none = (record s { table = (k, s.made) ∷ s.table; made = suc s.made }, s.made)

unfoldable pub get : Text → Locks → Locks × ℕ
get k s = get_or_make k s (lookup k s.table)

abbrev pub entered : ℕ → Text → ℕ → Locks × ℕ → Locks
entered t region vmid (s, m) = record s { phase = set_at t (waiting region vmid m) s.phase }

-- The first half of `Lock`, of thread `t`.
unfoldable pub enter_lock : ℕ → Text → ℕ → Locks → Locks
enter_lock t region vmid s = entered t region vmid (get (key region vmid) s)

-- The second half: the mutex is free, and becomes the thread's.
unfoldable pub acquire : ℕ → Text → ℕ → ℕ → Locks → Locks
acquire t region vmid m s = record s {
  holder = set_at m (some t) s.holder;
  phase = set_at t (holding region vmid m) s.phase;
}

abbrev pub freed : ℕ → Locks × ℕ → Locks
freed t (s, m) = record s { holder = set_at m none s.holder; phase = set_at t idle s.phase }

-- `Unlock`, which asks for the mutex of the key again.
unfoldable pub unlock : ℕ → Text → ℕ → Locks → Locks
unlock t region vmid s = freed t (get (key region vmid) s)

-- A thread calls `Unlock` for the VM that it locked.
pub data Step : Locks → Locks → Type 0 where
  enters :
      (s : Locks) (t : ℕ) (region : Text) (vmid : ℕ)
      → s.phase t ≡ idle
      → Step s (enter_lock t region vmid s)
  acquires :
      (s : Locks) (t : ℕ) (region : Text) (vmid m : ℕ)
      → s.phase t ≡ waiting region vmid m
      → s.holder m ≡ none
      → Step s (acquire t region vmid m s)
  unlocks :
      (s : Locks) (t : ℕ) (region : Text) (vmid m : ℕ)
      → s.phase t ≡ holding region vmid m
      → Step s (unlock t region vmid s)

pub data Reach (s : Locks) : Locks → Type 0 where
  here : Reach s s
  next : {u v : Locks} → Reach s u → Step u v → Reach s v
