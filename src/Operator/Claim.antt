-- ===== src/Operator/Claim.antt =====
-- Cluster-wide uniqueness of a volume handle: `claim`, `olderClaim` and `duplicate` of
-- pkg/operator/controller/volume/reconciler.go. Creation times are numbers.
pub mod Order
pub mod Holder
use proxmox_csi_plugin.Prelude.{
  ℕ, Bool, true, false, not, ◌&&◌, ◌||◌, List, [], ◌∷◌, Option, none, some, ◌==◌, ltb,
  if◌then◌else◌,
}
use proxmox_csi_plugin.Text.{Text, text_eq, text_lt, is_empty}
use proxmox_csi_plugin.Operator.Types.{VolumeRecord}

claimed : Text → Text → Text
claimed [] adopt_volume_id = adopt_volume_id
claimed (c ∷ volume_id) adopt_volume_id = c ∷ volume_id

-- `claim`
unfoldable pub claim : VolumeRecord → Text
unfolding claimed
claim vol = claimed vol.status.volume_id vol.spec.adopt_volume_id

-- `olderClaim`
unfoldable pub older_claim : VolumeRecord → VolumeRecord → Bool
older_claim a b =
    if not (a.created == b.created)
    then ltb a.created b.created
    else if not (text_eq a.namespace b.namespace)
    then text_lt a.namespace b.namespace
    else text_lt a.name b.name

unfoldable pub same_record : VolumeRecord → VolumeRecord → Bool
same_record a b = text_eq a.namespace b.namespace && text_eq a.name b.name

-- The loop of `duplicate` over the records that the index of claims lists for the handle: the
-- first other record that is older.
unfoldable pub older_duplicate : VolumeRecord → List VolumeRecord → Option VolumeRecord
unfolding same_record
older_duplicate vol [] = none
older_duplicate vol (other ∷ others) =
    if text_eq (claim other) (claim vol) && not (same_record other vol) && older_claim other vol
    then some other
    else older_duplicate vol others
