-- ===== src/Operator/Register.antt =====
-- `older` and `conflict` of pkg/operator/controller/tenant/reconciler.go: registrations that share what
-- is to be unique. Creation times are numbers; a reason is what its message says.
pub mod Order
pub mod Unique
use proxmox_csi_plugin.Prelude.{
  ℕ, Bool, true, false, not, ◌||◌, List, [], ◌∷◌, ◌++◌, ◌==◌, ltb, if◌then◌else◌,
}
use proxmox_csi_plugin.Text.{Text, text_eq, text_lt}
use proxmox_csi_plugin.Operator.Types.{Tenant}

-- `older`
unfoldable pub older : Tenant → Tenant → Bool
older a b = if not (a.created == b.created) then ltb a.created b.created else text_lt a.name b.name

-- What an older registration has already, and its name.
pub data Conflict : Type 0 where
  namespace_taken : Text → Conflict
  placeholder_taken : Text → Conflict
  subject_taken : Text → Conflict

reason_if : Bool → Conflict → List Conflict
reason_if true c = c ∷ []
reason_if false c = []

-- The reasons of one other registration.
reasons_of : Tenant → Tenant → List Conflict
unfolding reason_if
reasons_of tenant other =
    if text_eq other.name tenant.name || not (older other tenant)
    then []
    else reason_if (text_eq other.namespace tenant.namespace) (namespace_taken other.name)
      ++ (reason_if (other.placeholder_vmid == tenant.placeholder_vmid)
            (placeholder_taken other.name)
          ++ reason_if (text_eq other.subject tenant.subject) (subject_taken other.name))

-- `conflict`, before the reasons are sorted and joined; the answer is "" if there are none.
unfoldable pub conflict : Tenant → List Tenant → List Conflict
unfolding reasons_of
conflict tenant [] = []
conflict tenant (other ∷ others) = reasons_of tenant other ++ conflict tenant others
