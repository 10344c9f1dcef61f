-- ===== src/Lib.antt =====
-- The volume control plane of proxmox-csi-plugin: the names that a volume has, and the operator that
-- keeps the records of volumes and attachments in step with Proxmox.
--
-- The program's parts. A volume is known by its id, `region/zone/storage/disk`, and its disk's name
-- carries the VM that owns it (pkg/utils/volume/volume.go). A tenant cluster files a record for each
-- volume and for each attachment of one to a VM (pkg/apis/csi/v1alpha1). The operator's reconcilers
-- take one record at a time: pkg/operator/controller/volume adopts a disk that exists, makes a new one,
-- grows, modifies and deletes it; pkg/operator/controller/attachment attaches it to a VM and detaches
-- it; controller/snapshot copies a disk; controller/tenant publishes what a tenant uses and which VMs it
-- may attach to, and controller/drift compares the records with the storages. They read the API server
-- and the content of a storage, and change Proxmox by the calls of
-- `Writer` (pkg/operator/proxmox/writer.go).
--
-- The files. Prelude and Text are shared: lists, tests on numbers, results, and text as a list of
-- codes with `split_n` for strings.SplitN, `itoa` and `parse_int` for strconv.
-- DiskName: the regular expressions `vmidre` and `diskre` of pkg/utils/volume/volume.go, as matchers.
-- Volume: the type `Volume` of that file, and its functions and methods, under their names.
-- Sizes: `RoundUpSizeBytes` of pkg/csi/helper.go. Storage: `StorageLevel` and `DiskFormat` of
-- pkg/tools/proxmox/csi_helpers.go.
-- Operator.Types: the records, of pkg/apis/csi/v1alpha1. Operator.Action: what a reconcile is. It asks
-- an environment, which stands for the API server and Proxmox, performs calls, of which it leaves a
-- trace, and may return early. The environment answers by the trace so far, so that every answer may
-- differ from the one before, and every call may fail: concurrent changes of the cluster are answers.
-- Operator.Tenancy, Claim, Record, Adopt, Delete: pkg/operator/controller/volume/reconciler.go.
-- Operator.Quota, Source, Ready, Provision: pkg/operator/controller/volume/provision.go.
-- Operator.Attachment: pkg/operator/controller/attachment/reconciler.go.
-- Operator.Usage, Register, Resolve, Tenants: pkg/operator/controller/tenant/reconciler.go, that is its
-- accounting, the uniqueness of registrations, the resolution of VM ids, and the handlers.
-- Operator.Snapshots: pkg/operator/controller/snapshot/reconciler.go.
-- Operator.Drift: pkg/operator/controller/drift/detector.go, as a function of what the listings answer.
-- Operator.StorageName, Publisher: pkg/operator/controller/storage, the names and the catalog of storages.
-- Operator.VmLock: pkg/operator/proxmox/vmlock.go, as a step relation on the mutexes and the threads.
-- Placement: `SelectTarget` and `SelectCrossStorageTarget` of pkg/migrator/placement.go, with
-- `StorageForZone` in Placement.Zone and `Plan` in Placement.Plan.
-- Each has the functions of the source under their names, with a helper for each point where the
-- source branches on an answer. Tests holds runs of the theorems.
--
-- Bounds and fuel. Every loop is a recursion on a list, but for that of `plan`, which runs on
-- fuel: more of it than there are volumes is enough. Numbers are natural numbers, since sizes, VM ids
-- and counters are not negative. The sums of the quota checks and of `RoundUpSizeBytes` wrap around as
-- those of int32 and int64 do (Prelude.Int), and a size that is rounded to a negative number counts as
-- 0 in a record or a call, as it compares; the sums of the accounting are of quantities, which have
-- no bound. `parse_int` has the bounds of its bits.
--
-- Not modelled: messages, time stamps, logs and metrics; the hash and the drive options that
-- pkg/csi/parameters.go makes of a volume's parameters, which are parameters of the definitions
-- that use them; the locks that a reconcile takes, since one reconcile is modelled at a time; the SHA-256
-- digest of a name, a parameter; the bytes that a target needs with the headroom, which are a parameter; the
-- registration of callbacks with the controller runtime; the CSI services of pkg/csi, the rest of
-- pkg/migrator, pkg/controller, and the API of pkg/operator/api.
pub mod DiskName
pub mod Operator
pub mod Placement
pub mod Prelude
pub mod Sizes
pub mod Storage
pub mod Tests
pub mod Text
pub mod Volume
