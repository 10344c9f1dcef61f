-- ===== src/Operator/Publisher.antt =====
-- pkg/operator/controller/storage/publisher.go: the catalog of storages. Times are numbers of seconds; `digest` is
-- that of the names; the status of an object is that of the last update.
pub mod Safety
use proxmox_csi_plugin.Prelude.{
  ℕ, ◌-◌, Bool, true, false, not, ◌&&◌, List, [], ◌∷◌, Option, none, some, ltb, ◌==◌, if◌then◌else◌,
}
use proxmox_csi_plugin.Text.{Text, text_eq, contains_text}
use proxmox_csi_plugin.Operator.Types.{
  accepted, proxmox_error, Condition, ListedStorage, CatalogEntry,
}
use proxmox_csi_plugin.Operator.Action.{
  Env, Effect, apply_storage, write_storage_status, remove_storage, Action, pure, ask, perform,
  ◌>>=◌,
}
use proxmox_csi_plugin.Operator.StorageName.{object_name, label_value}

-- `mu`, `lastSync`, `lastErr` and `syncedOnce`; of the error, whether there is one.
pub record Publisher : Type 0 where
  pub last_sync : ℕ
  pub failed : Bool
  pub synced_once : Bool

-- Five minutes, in seconds.
abbrev default_stale_after : ℕ
default_stale_after = 300

stale_or_default : ℕ → ℕ
stale_or_default stale_after = if stale_after == 0 then default_stale_after else stale_after

-- `Check` answers that the publisher is ready.
unfoldable pub check : (now stale_after : ℕ) → Publisher → Bool
unfolding stale_or_default
check now stale_after p =
    if not p.synced_once
    then false
    else if ltb (stale_or_default stale_after) (now - p.last_sync)
    then false
    else true

-- The condition Ready of a storage.
ready_of : ListedStorage → Condition
ready_of s =
    if not s.status_read
    then record { holds = false; reason = proxmox_error }
    else if not s.active
    then record { holds = false; reason = proxmox_error }
    else record { holds = true; reason = accepted }

module _ (digest : Text → Text) where
  pub storage_name : ListedStorage → Text
  storage_name s = object_name digest s.region s.zone s.name

  -- What `upsert` writes of a storage.
  unfoldable pub entry_of : ListedStorage → CatalogEntry
  unfolding storage_name ready_of
  entry_of s = record {
    name = storage_name s;
    region_label = label_value s.region;
    storage_label = label_value s.name;
    spec = record {
      region = s.region;
      zone = s.zone;
      storage = s.name;
      shared = s.shared;
      plugin_type = s.plugin_type;
    };
    types = s.types;
    active = s.active;
    total_bytes = s.total_bytes;
    available_bytes = s.available_bytes;
    used_bytes = s.used_bytes;
    ready = ready_of s;
  }

  upsert_status : Env → ListedStorage → Bool → Action Bool
  upsert_status env s false = pure false
  upsert_status env s true = perform env (write_storage_status (entry_of s))

  -- `upsert`; the answer is whether it succeeded.
  unfoldable pub upsert : Env → ListedStorage → Action Bool
  unfolding upsert_status
  upsert env s = do applied ← perform env (apply_storage (entry_of s)); upsert_status env s applied

  -- The loop over the storages, which goes on after an error.
  upsert_all : Env → List ListedStorage → Action Bool
  unfolding upsert
  upsert_all env [] = pure true
  upsert_all env (s ∷ ss) = do
    written ← upsert env s
    rest ← upsert_all env ss
    pure (written && rest)

  pub published : List ListedStorage → List Text
  published [] = []
  published (s ∷ ss) = storage_name s ∷ published ss

  removed : Env → CatalogEntry → Bool → Action Bool
  removed env e true = pure true
  removed env e false = ask (λ t. env.object_missing t (remove_storage e))

  prune_entry : Env → Text → List Text → CatalogEntry → Action Bool
  unfolding removed
  prune_entry env region names e =
      if not (text_eq e.spec.region region)
      then pure true
      else if contains_text names e.name
      then pure true
      else do done ← perform env (remove_storage e); removed env e done

  prune_entries : Env → Text → List Text → List CatalogEntry → Action Bool
  unfolding prune_entry
  prune_entries env region names [] = pure true
  prune_entries env region names (e ∷ es) = do
    pruned ← prune_entry env region names e
    rest ← prune_entries env region names es
    pure (pruned && rest)

  prune_listed : Env → Text → List Text → Option (List CatalogEntry) → Action Bool
  unfolding prune_entries
  prune_listed env region names none = pure false
  prune_listed env region names (some es) = prune_entries env region names es

  -- `prune`
  unfoldable pub prune : Env → Text → List Text → Action Bool
  unfolding prune_listed
  prune env region names = do
    es ← ask (λ t. env.list_catalog t (label_value region))
    prune_listed env region names es

  prune_after : Env → Text → List Text → Bool → Action Bool
  prune_after env region names false = pure false
  prune_after env region names true = prune env region names

  sync_listed : Env → Text → Option (List ListedStorage) → Action Bool
  unfolding upsert_all published prune_after
  sync_listed env region none = pure false
  sync_listed env region (some storages) = do
    written ← upsert_all env storages
    prune_after env region (published storages) written

  -- `syncRegion`; the answer is whether it succeeded.
  unfoldable pub sync_region : Env → Text → Action Bool
  unfolding sync_listed
  sync_region env region = do
    storages ← ask (λ t. env.list_region t region)
    sync_listed env region storages

  sync_regions : Env → List Text → Action Bool
  sync_regions env [] = pure true
  sync_regions env (region ∷ regions) = do
    synced ← sync_region env region
    rest ← sync_regions env regions
    pure (synced && rest)

  -- `Sync`, at a time and of the regions that are configured.
  unfoldable pub sync : Env → ℕ → List Text → Action Publisher
  unfolding sync_regions
  sync env now regions = do
    succeeded ← sync_regions env regions
    pure (record { last_sync = now; failed = not succeeded; synced_once = true })
