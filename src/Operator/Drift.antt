-- ===== src/Operator/Drift.antt =====
-- `Sweep` of pkg/operator/controller/drift/detector.go: what the ledger and the storages say of each
-- other. The metrics and the logs are left out.
pub mod Sorting
pub mod Keys
pub mod Ledger
pub mod Swept
pub mod Gather
pub mod Reports
pub mod Exact
use proxmox_csi_plugin.Prelude.{
  ℕ, Bool, true, false, not, ◌&&◌, ◌||◌, List, [], ◌∷◌, ◌++◌, Option, none, some, Result, ok, err,
  if◌then◌else◌,
}
use proxmox_csi_plugin.Text.{Text, codes, text_eq, text_lt, is_empty, has_prefix, contains_text}
use proxmox_csi_plugin.Volume.{Volume, VolumeError, parse_volume_id, new_volume, disk_suffix}
use proxmox_csi_plugin.Operator.Types.{VolumeRecord, Tenant, Disk}

abbrev pub driver_disk_prefix : Text
driver_disk_prefix = codes "pvc-"

-- `Orphan`
pub record Orphan : Type 0 where
  pub region : Text
  pub storage : Text
  pub name : Text
  pub vmid : ℕ
  pub size_bytes : ℕ

-- `Missing`
pub record Missing : Type 0 where
  pub namespace : Text
  pub name : Text
  pub volume_id : Text

-- `Report`
pub record Report : Type 0 where
  pub orphans : List Orphan
  pub missing : List Missing
  pub unreadable : List Text

-- `target`
pub record Target : Type 0 where
  pub region : Text
  pub storage : Text

-- `target.String`
unfoldable pub target_string : Target → Text
target_string t = t.region ++ b'/' ∷ t.storage

unfoldable pub same_target : Target → Target → Bool
same_target a b = text_eq a.region b.region && text_eq a.storage b.storage

target_lt : Target → Target → Bool
target_lt a b =
    if not (text_eq a.region b.region)
    then text_lt a.region b.region
    else text_lt a.storage b.storage

-- `seen[target{…}] = struct{}{}`; the keys of the map are kept in the order in which they are sorted.
insert_target : Target → List Target → List Target
unfolding target_lt
insert_target t [] = t ∷ []
insert_target t (u ∷ us) =
    let rest = insert_target t us in
    if same_target t u then u ∷ us else if target_lt t u then t ∷ (u ∷ us) else u ∷ rest

insert_storages : Text → List Text → List Target → List Target
unfolding insert_target
insert_storages region [] seen = seen
insert_storages region (s ∷ ss) seen =
    insert_storages region ss (insert_target (record { region = region; storage = s }) seen)

allowed_targets : List Tenant → List Target → List Target
unfolding insert_storages
allowed_targets [] seen = seen
allowed_targets (t ∷ ts) seen =
    allowed_targets ts (insert_storages t.region t.allowed_storages seen)

recorded_targets : List VolumeRecord → List Target → List Target
unfolding insert_target
recorded_targets [] seen = seen
recorded_targets (v ∷ vs) seen = recorded_targets vs (
    if is_empty v.spec.region || is_empty v.spec.storage
    then seen
    else insert_target (record { region = v.spec.region; storage = v.spec.storage }) seen)

-- `targets`
unfoldable pub targets : List Tenant → List VolumeRecord → List Target
unfolding allowed_targets recorded_targets
targets tenants vols = recorded_targets vols (allowed_targets tenants [])

-- `claimKey`
unfoldable pub claim_key : Target → Text → Text
claim_key t suffix = target_string t ++ b'/' ∷ suffix

-- The two lookups of `index`: the claimed keys, and the volumes of each target. `ledger[t]` has those
-- of the entries that are of `t`.
pub record Index : Type 0 where
  pub claimed : List Text
  pub ledger : List (Target × Missing)

abbrev pub target_of : Volume → Target
target_of handle = record { region = handle.region; storage = handle.storage }

abbrev pub missing_of : VolumeRecord → Missing
missing_of vol = record {
  namespace = vol.namespace;
  name = vol.name;
  volume_id = vol.status.volume_id;
}

index_handle : VolumeRecord → Result VolumeError Volume → Index → Index
index_handle vol (err e) rest = rest
index_handle vol (ok handle) rest = if is_empty (disk_suffix handle) then rest else record {
  claimed = claim_key (target_of handle) (disk_suffix handle) ∷ rest.claimed;
  ledger = (target_of handle, missing_of vol) ∷ rest.ledger;
}

-- `index`
unfoldable pub index : List VolumeRecord → Index
unfolding index_handle
index [] = record { claimed = []; ledger = [] }
index (vol ∷ vols) =
    let rest = index vols in
    if is_empty vol.status.volume_id
    then rest
    else index_handle vol (parse_volume_id vol.status.volume_id) rest

abbrev pub suffix_of_disk : Disk → Text
suffix_of_disk disk = disk_suffix (new_volume disk.region [] disk.storage disk.name [])

abbrev pub disk_target : Disk → Target
disk_target disk = record { region = disk.region; storage = disk.storage }

abbrev pub orphan_of : Disk → Orphan
orphan_of disk = record {
  region = disk.region;
  storage = disk.storage;
  name = disk.name;
  vmid = disk.vmid;
  size_bytes = disk.size_bytes;
}

-- `orphansIn`
unfoldable pub orphans_in : List Disk → List Text → List Orphan
orphans_in [] claimed = []
orphans_in (disk ∷ disks) claimed =
    let rest = orphans_in disks claimed in
    if not (has_prefix (suffix_of_disk disk) driver_disk_prefix)
    then rest
    else if contains_text claimed (claim_key (disk_target disk) (suffix_of_disk disk))
    then rest
    else orphan_of disk ∷ rest

pub suffixes : List Disk → List Text
suffixes [] = []
suffixes (disk ∷ disks) =
    let rest = suffixes disks in
    if is_empty (suffix_of_disk disk) then rest else suffix_of_disk disk ∷ rest

missing_handle : Missing → List Text → Result VolumeError Volume → List Missing → List Missing
missing_handle volume present (err e) rest = rest
missing_handle volume present (ok handle) rest =
    if contains_text present (disk_suffix handle) then rest else volume ∷ rest

missing_from : List Text → List Missing → List Missing
unfolding missing_handle
missing_from present [] = []
missing_from present (volume ∷ volumes) =
    missing_handle volume present (parse_volume_id volume.volume_id) (missing_from present volumes)

-- `missingIn`
unfoldable pub missing_in : List Disk → List Missing → List Missing
unfolding suffixes missing_from
missing_in disks expected = missing_from (suffixes disks) expected

-- `ledger[target]`
unfoldable pub expected_at : Target → List (Target × Missing) → List Missing
expected_at t [] = []
expected_at t ((u, volume) ∷ entries) =
    let rest = expected_at t entries in if same_target u t then volume ∷ rest else rest

-- What `ListDisks` answers for a storage: its disks, that there is no such storage, or another error.
pub data Listing : Type 0 where
  listed : List Disk → Listing
  no_storage : Listing
  failed : Listing

abbrev pub no_report : Report
no_report = record { orphans = []; missing = []; unreadable = [] }

sweep_disks : Index → Target → List Disk → Report → Report
sweep_disks ix t disks r = record {
  orphans = r.orphans ++ orphans_in disks ix.claimed;
  missing = r.missing ++ missing_in disks (expected_at t ix.ledger);
  unreadable = r.unreadable;
}

-- The body of the loop over the targets; a storage that is not there is swept as an empty one.
sweep_target : Index → Target → Listing → Report → Report
unfolding sweep_disks
sweep_target ix t failed r = record r { unreadable = r.unreadable ++ target_string t ∷ [] }
sweep_target ix t no_storage r = sweep_disks ix t [] r
sweep_target ix t (listed disks) r = sweep_disks ix t disks r

pub sweep_targets : (Target → Listing) → Index → List Target → Report → Report
unfolding sweep_target
sweep_targets list_disks ix [] r = r
sweep_targets list_disks ix (t ∷ ts) r =
    sweep_targets list_disks ix ts (sweep_target ix t (list_disks t) r)

pub orphan_lt : Orphan → Orphan → Bool
orphan_lt a b =
    if not (text_eq a.region b.region)
    then text_lt a.region b.region
    else if not (text_eq a.storage b.storage)
    then text_lt a.storage b.storage
    else text_lt a.name b.name

pub missing_lt : Missing → Missing → Bool
missing_lt a b =
    if not (text_eq a.namespace b.namespace)
    then text_lt a.namespace b.namespace
    else text_lt a.name b.name

-- Before the first element that it precedes; `sort.Slice` may also change the order of two elements
-- of which neither precedes the other.
insert_by : {A : Type 0} → (A → A → Bool) → A → List A → List A
insert_by lt x [] = x ∷ []
insert_by lt x (y ∷ ys) = let rest = insert_by lt x ys in if lt x y then x ∷ (y ∷ ys) else y ∷ rest

unfoldable pub sort_by : {A : Type 0} → (A → A → Bool) → List A → List A
unfolding insert_by
sort_by lt [] = []
sort_by lt (x ∷ xs) = insert_by lt x (sort_by lt xs)

-- `sortReport`
unfoldable pub sort_report : Report → Report
unfolding orphan_lt missing_lt sort_by
sort_report r = record {
  orphans = sort_by orphan_lt r.orphans;
  missing = sort_by missing_lt r.missing;
  unreadable = sort_by text_lt r.unreadable;
}

report_of : (Target → Listing) → List VolumeRecord → List Tenant → Report
unfolding sweep_targets
report_of list_disks vols tenants =
    sort_report (sweep_targets list_disks (index vols) (targets tenants vols) no_report)

sweep_listed :
    (Target → Listing) → Option (List VolumeRecord) → Option (List Tenant) → Option Report
unfolding report_of
sweep_listed list_disks none tenants = none
sweep_listed list_disks (some vols) none = none
sweep_listed list_disks (some vols) (some tenants) = some (report_of list_disks vols tenants)

-- `Sweep`; `none` is an error of a listing of records, and `list_disks` is what Proxmox answers.
unfoldable pub sweep :
    (Target → Listing) → Option (List VolumeRecord) → Option (List Tenant) → Option Report
unfolding sweep_listed
sweep list_disks vols tenants = sweep_listed list_disks vols tenants
