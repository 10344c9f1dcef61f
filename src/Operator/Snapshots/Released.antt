-- ===== src/Operator/Snapshots/Released.antt =====
-- Runs of `reconcileDelete`, in pkg/operator/controller/snapshot/reconciler.go, and the messages that
-- `isNotFound` reads. `GetProxmoxCluster` of pkg/proxmoxpool answers a region that is not configured
-- by "region not found", and `DeleteDisk` of pkg/operator/proxmox/writer.go passes that on.
use proxmox_csi_plugin.Prelude.{
  ◌≡◌, refl, ap, ◌∙◌, Bool, true, false, not, ◌||◌, [], ◌∷◌, ◌++◌, ok, ◌⊎◌, inl, inr, if◌then◌else◌,
  arith,
}
use proxmox_csi_plugin.Text.{Text, codes, is_empty, contains, contains_after, contains-append}
use proxmox_csi_plugin.Volume.{Volume, parse_volume_id}
use proxmox_csi_plugin.Operator.Types.{SnapshotRecord}
use proxmox_csi_plugin.Operator.Action.{
  Env, Effect, update_snapshot, delete_disk, Trace, go, return, writing, finished, failed_by, exit,
  ask, perform,
}
use proxmox_csi_plugin.Operator.Action.Runs.{
  bind_go, exit_return, ask_go, perform_go, if_true, if_false,
}
use proxmox_csi_plugin.Operator.Snapshots.{
  is_not_found, release_snapshot, after_failed_delete, delete_answered, delete_parsed,
  reconcile_create, reconcile_snapshot_delete, reconcile_snapshot,
}

-- The message of `DeleteDisk` for a region that is not configured.
abbrev pub region_message : Text → Text
region_message region =
    codes "region " ++ (region ++ (codes ": region " ++ (codes "not found" ++ [])))

second_of : (a b c : Bool) → b ≡ true → (a || b || c) ≡ true
second_of a b c h = ground (arith, h)

is_not_found-region_message : (region : Text) → is_not_found (region_message region) ≡ true
unfolding is_not_found
is_not_found-region_message region =
    second_of (contains (region_message region) (codes "does not exist"))
      (contains (region_message region) (codes "not found"))
      (contains (region_message region) (codes "no such"))
      (contains_after (codes "region ") _ (codes "not found") (
        contains_after region _ (codes "not found")
          (contains-append (codes ": region ") (codes "not found") [])))

module _ (env : Env) (snap : SnapshotRecord) (v : Volume) (t : Trace) where
  abbrev deletion : Effect
  deletion = delete_disk v.region v.zone v.storage v.disk

  abbrev released : Effect
  released = update_snapshot (record snap { finalizer = false })

  release_snapshot_works :
      (u : Trace)
      → env.succeeds u released ≡ true
      → release_snapshot env snap u ≡ (return finished, released ∷ u)
  unfolding release_snapshot
  release_snapshot_works u works =
      bind_go (perform env released) (λ b. if b then exit finished else exit (failed_by writing)) u
        (released ∷ u) true (perform_go env released u ∙ ap (λ b. (go b, released ∷ u)) works)
      ∙ exit_return finished (released ∷ u)

  module _ (works : env.succeeds (deletion ∷ t) released ≡ true) where
    delete_answered_releases :
        (b : Bool)
        → (b ≡ false → is_not_found (env.error_message (deletion ∷ t) deletion) ≡ true)
        → delete_answered env snap deletion b (deletion ∷ t)
          ≡ (return finished, released ∷ deletion ∷ t)
    unfolding delete_answered after_failed_delete
    delete_answered_releases true gone = release_snapshot_works (deletion ∷ t) works
    delete_answered_releases false gone =
        bind_go (ask (λ u. is_not_found (env.error_message u deletion)))
          (after_failed_delete env snap) (deletion ∷ t) (deletion ∷ t) true
          (ask_go (λ u. is_not_found (env.error_message u deletion)) (deletion ∷ t)
            ∙ ap (λ b. (go b, deletion ∷ t)) (gone refl))
        ∙ release_snapshot_works (deletion ∷ t) works

    -- A record that is being deleted, is held and names a disk asks for the deletion of the disk and
    -- is then released, if the update succeeds, and the deletion succeeds or fails because the region is
    -- not configured.
    pub reconcile_snapshot_releases :
        snap.deleting ≡ true
        → snap.finalizer ≡ true
        → is_empty snap.snapshot_id ≡ false
        → parse_volume_id snap.snapshot_id ≡ ok v
        → (env.succeeds t deletion ≡ true)
          ⊎ (env.error_message (deletion ∷ t) deletion ≡ region_message v.region)
        → reconcile_snapshot env snap t ≡ (return finished, released ∷ deletion ∷ t)
    unfolding reconcile_snapshot reconcile_snapshot_delete delete_parsed
    reconcile_snapshot_releases going held named parsed answer =
        if_true snap.deleting (reconcile_snapshot_delete env snap) (reconcile_create env snap) t
          going
        ∙ if_false (not snap.finalizer) (exit finished) _ t (ap not held)
        ∙ if_false (is_empty snap.snapshot_id) (release_snapshot env snap) _ t named
        ∙ ap (λ p. delete_parsed env snap p t) parsed
        ∙ bind_go (perform env deletion) (delete_answered env snap deletion) t (deletion ∷ t)
            (env.succeeds t deletion) (perform_go env deletion t)
        ∙ delete_answered_releases (env.succeeds t deletion) (gone answer)
      where
        gone :
            (env.succeeds t deletion ≡ true)
              ⊎ (env.error_message (deletion ∷ t) deletion ≡ region_message v.region)
            → env.succeeds t deletion ≡ false
            → is_not_found (env.error_message (deletion ∷ t) deletion) ≡ true
        gone (inl e) f = cc (e, f)
        gone (inr e) f = ap is_not_found e ∙ is_not_found-region_message v.region
