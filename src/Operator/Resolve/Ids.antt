-- ===== src/Operator/Resolve/Ids.antt =====
-- The VM ids that `resolveVMIDs` of pkg/operator/controller/tenant/reconciler.go finds.
use proxmox_csi_plugin.Prelude.{
  ℕ, ◌≡◌, refl, ◌∙◌, Bool, true, false, ◌&&◌, ◌||◌, List, [], ◌∷◌, ◌==◌, ltb, if◌then◌else◌,
  contains_number, arith,
}
use proxmox_csi_plugin.Text.{Text, text_eq}
use proxmox_csi_plugin.Operator.Types.{Vm}
use proxmox_csi_plugin.Operator.Resolve.{insert_id, insert_ids, insert_pool, resolved_ids}

-- Every number is greater than `n`.
abbrev pub above : ℕ → List ℕ → Bool
above n [] = true
above n (m ∷ ms) = ltb n m && above n ms

-- Strictly ascending.
abbrev pub ascending : List ℕ → Bool
ascending [] = true
ascending (n ∷ ns) = above n ns && ascending ns

-- A VM of the list is of the pool and has the id.
abbrev pub in_pool : Text → List Vm → ℕ → Bool
in_pool pool [] n = false
in_pool pool (vm ∷ vms) n = (text_eq vm.pool pool && vm.vmid == n) || in_pool pool vms n

above_trans : (n m : ℕ) (ms : List ℕ) → ltb n m ≡ true → above m ms ≡ true → above n ms ≡ true
above_trans n m [] h k = refl
above_trans n m (l ∷ ls) h k = ground (arith, above_trans n m ls)

above-insert_id :
    (k n : ℕ) (ms : List ℕ) → ltb k n ≡ true → above k ms ≡ true → above k (insert_id n ms) ≡ true
unfolding insert_id
above-insert_id k n [] h a = ground (arith, h)
above-insert_id k n (m ∷ ms) h a = ground (arith, above-insert_id k n ms)

ascending-insert_id :
    (n : ℕ) (ms : List ℕ) → ascending ms ≡ true → ascending (insert_id n ms) ≡ true
unfolding insert_id
ascending-insert_id n [] h = refl
ascending-insert_id n (m ∷ ms) h =
    ground (arith, ascending-insert_id n ms, above-insert_id m n ms, above_trans n m ms)

contains-insert_id :
    (n k : ℕ) (ms : List ℕ) → contains_number (insert_id n ms) k ≡ (n == k || contains_number ms k)
unfolding insert_id contains_number
contains-insert_id n k [] = refl
contains-insert_id n k (m ∷ ms) = ground (arith, contains-insert_id n k ms)

ascending-insert_ids :
    (ns ids : List ℕ) → ascending ids ≡ true → ascending (insert_ids ns ids) ≡ true
unfolding insert_ids
ascending-insert_ids [] ids h = h
ascending-insert_ids (n ∷ ns) ids h =
    ascending-insert_ids ns (insert_id n ids) (ascending-insert_id n ids h)

ascending-insert_pool :
    (pool : Text) (vms : List Vm) (ids : List ℕ)
    → ascending ids ≡ true
    → ascending (insert_pool pool vms ids) ≡ true
unfolding insert_pool
ascending-insert_pool pool [] ids h = h
ascending-insert_pool pool (vm ∷ vms) ids h =
    ascending-insert_pool pool vms _ (branch (text_eq vm.pool pool))
  where
    branch : (b : Bool) → ascending (if b then insert_id vm.vmid ids else ids) ≡ true
    branch true = ascending-insert_id vm.vmid ids h
    branch false = h

contains-insert_ids :
    (ns ids : List ℕ) (k : ℕ)
    → contains_number (insert_ids ns ids) k ≡ (contains_number ns k || contains_number ids k)
unfolding insert_ids contains_number
contains-insert_ids [] ids k = refl
contains-insert_ids (n ∷ ns) ids k =
    ground (arith, contains-insert_ids ns (insert_id n ids) k, contains-insert_id n k ids)

contains-insert_pool :
    (pool : Text) (vms : List Vm) (ids : List ℕ) (k : ℕ)
    → contains_number (insert_pool pool vms ids) k ≡ (in_pool pool vms k || contains_number ids k)
unfolding insert_pool
contains-insert_pool pool [] ids k = refl
contains-insert_pool pool (vm ∷ vms) ids k =
    contains-insert_pool pool vms _ k ∙ branch (text_eq vm.pool pool)
  where
    branch :
        (b : Bool)
        → (in_pool pool vms k || contains_number (if b then insert_id vm.vmid ids else ids) k)
          ≡ ((b && vm.vmid == k) || in_pool pool vms k || contains_number ids k)
    branch true = ground (arith, contains-insert_id vm.vmid k ids)
    branch false = refl

or_nothing : (a b : Bool) → (a || (b || false)) ≡ (a || b)
or_nothing a b = ground arith

-- The ids that are resolved are strictly ascending, so that none is twice, and they are those of the
-- allowlist and those of the VMs of the pool.
pub resolved_ids-IsUnion :
    (allowlist : List ℕ) (pool : Text) (vms : List Vm)
    → (ascending (resolved_ids allowlist pool vms) ≡ true)
      × ((k : ℕ)
          → contains_number (resolved_ids allowlist pool vms) k
            ≡ (in_pool pool vms k || contains_number allowlist k))
unfolding resolved_ids contains_number
resolved_ids-IsUnion allowlist pool vms = (
  ascending-insert_pool pool vms (insert_ids allowlist []) (ascending-insert_ids allowlist [] refl),
  λ k. contains-insert_pool pool vms (insert_ids allowlist []) k ∙ last k,
)
  where
    last :
        (k : ℕ)
        → (in_pool pool vms k || contains_number (insert_ids allowlist []) k)
          ≡ (in_pool pool vms k || contains_number allowlist k)
    last k =
        rw (contains-insert_ids allowlist [] k)
          (or_nothing (in_pool pool vms k) (contains_number allowlist k))
