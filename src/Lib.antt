-- ===== src/Lib.antt =====
-- The Outscale BSU CSI driver: what its controller promises to Kubernetes when it creates, deletes,
-- expands, attaches and detaches block storage volumes, and its node service when it formats, mounts
-- and unmounts them.
--
-- The parts, from the bottom up:
--   Prelude, Prelude/*  names of the libraries, tests that answer in Bool, lists.
--   Go, Go/*  what the Go code rests on: maps as association lists (Dict, Dict/Entries), strings
--     (Strings, Strings/Base), integers with their wrap-around at 64 and 32 bits (Int), errors
--     (Error), and methods that change a state and return a value, an error or panic (Act).
--     Act/Keeps is about what a method keeps true, Act/Success about the parts of a method that has
--     a value, Act/Agrees about methods that only read.
--   Util/Size  pkg/util/util.go: RoundUpBytes, RoundUpGiB, BytesToGiB, GiBToBytes; the theorems on
--     them are in Util/Size/Rounding.
--   Util/Endpoint  pkg/util/util.go: ParseEndpoint, getEnv, EnvBackoff.
--   Util/Resolvers, Util/Version  pkg/util/util.go: the resolvers of the AWS SDK; version.go.
--   DeviceManager/Allocator  pkg/cloud/devicemanager/allocator.go: GetNext. Theorems in Choice.
--   DeviceManager/Manager  pkg/cloud/devicemanager/manager.go: NewDevice, GetDevice, release and
--     Device.Release on the map inFlight. Theorems in Names (the names in flight on a node), InUse
--     (getPath), Assignment (NewDevice), Release, Trace (sequences of calls), Repeat (a request
--     that comes again), Orders (of range loops), Refinement (the table of
--     reservations that the calls implement).
--   Cloud/Types, Cloud/Interface  pkg/cloud/cloud.go: data, constants, the interface Cloud and its
--     implementation, which fills it.
--   Cloud/Platform  the API client and the wait package, which cloud.go calls: parameters.
--   Cloud/Client  OscClient, which calls the SDK.
--   Cloud/Retry  the callbacks under ExponentialBackoff, keepRetryWithError. Theorems in Outcome.
--   Cloud/Read  getVolume, getInstance, getSnapshot, listSnapshots, and pkg/cloud/utils.go.
--   Cloud/Volumes  CreateDisk, DeleteDisk, GetDiskByName, GetDiskByID, waitForVolume, ResizeDisk,
--     checkDesiredSize. Theorems in Sizes, Creation and
--     Errors.
--   Cloud/Attach  AttachDisk, DetachDisk, WaitForAttachmentState, over the device manager. Theorems
--     in Reservations, Taint, Wait and Detach.
--   Cloud/Snapshots  CreateSnapshot, DeleteSnapshot, GetSnapshotByName, GetSnapshotByID,
--     ListSnapshots.
--   Cloud/Metadata  pkg/cloud/metadata.go: NewMetadata, NewMetadataService. Theorems in Laws.
--   Cloud/Connection  NewCloud and NewCloudWithoutMetadata.
--   Driver/Options  pkg/driver/validation.go. Theorems in Tags.
--   Driver/InFlight  pkg/driver/internal/inflight.go: Insert and Delete. Theorems in Exclusion.
--   Driver/Requests  the CSI messages, pkg/driver/constants.go.
--   Driver/Controller/*  pkg/driver/controller.go: Parameters (the loop over the parameters of
--     CreateVolume; theorems in Laws), Requirements (isValidVolumeCapabilities, pickAvailabilityZone,
--     getVolSizeBytes; theorems in Laws), Volumes (CreateVolume, DeleteVolume,
--     ValidateVolumeCapabilities, ControllerExpandVolume; theorems in Create, Answer, Built,
--     Again, Failure, Delete, Expand),
--     Publish (ControllerPublishVolume, ControllerUnpublishVolume; theorems in Success, Detached),
--     Snapshots (CreateSnapshot, DeleteSnapshot, ListSnapshots; theorems in Making, Listing).
--   Driver/Node/Host  what the node service calls of the operating system and of the package mount.
--   Driver/Node/Mounter, Driver/Node/Luks  pkg/driver/mount.go and luks_util.go.
--   Driver/Node/Devices, Driver/Node/Mounts  pkg/driver/node.go: findDevicePath, findScsiName,
--     findScsiVolume (theorems in Names and Steady), hasMountOption and the loop over the mount
--     flags (theorems in Flags), isMounted.
--   Driver/Node/Stage  NodeStageVolume, cut at its guards and at the look for the disk's format.
--     Theorems in Keeping (its checks), Formats (the calls that format), Safety, Exclusion (the
--     requests in flight), Context (what the controller passes on), Mounted (what a staging leaves),
--     Again.
--   Driver/Node/Unstage  NodeUnstageVolume. Theorems in Mapping (encrypted devices).
--   Driver/Node/Publish  NodePublishVolume, NodeUnpublishVolume. Theorems in ReadOnly, Mounted (what
--     a publication leaves mounted), Again, Gone (what unpublishing leaves).
--   Driver/Node/Volumes  NodeExpandVolume, NodeGetVolumeStats, NodeGetInfo. Theorems in Room (the
--     limit of volumes and the names of devices) and Expanded.
--   Driver/Capabilities  the capabilities of both services, and the methods that are not implemented.
--   Driver/Server  pkg/driver/driver.go and identity.go: NewDriver, Run and the constructors of the
--     services. Theorems in Services.
--   Command  cmd/main.go, cmd/options.go, cmd/options: GetOptions and main. Theorems in Services.
--   Examples/*  the theorems at concrete inputs, and tests.
--
-- How they interact: the controller calls the interface Cloud, a record of methods on a state. Its
-- implementation calls the device manager and the API. The state of the cloud layer is the map
-- inFlight and a world, which stands for all that the API can see and change, the passage of time
-- and the other users of the account included. The node service reads the publish context that the
-- controller makes, and its state is the set of requests in flight and a host, which stands for all
-- that the operating system can see and change. A name is a Go function's name in snake_case.
--
-- Parameters, and what is assumed of them:
--   Platform  the calls of the Outscale SDK, ExponentialBackoff, Poll, and the number of steps of
--     the backoff. BacksOff states what the wait package documents: a backoff checks its condition
--     at most as often as it has steps, and ends with the first answer or the timeout error;
--     PollsUntil, that a poll which succeeds ends with a check that answers true. The
--     pauses between two checks are not modelled. Examples/Setup and Creating have platforms with
--     these laws.
--   Host  the calls of the operating system, of the commands that the driver runs and of the package
--     mount. IsKept, IsFormatted, IsSteady, IsBound, IsBindable and IsRemovable state what some
--     theorems assume of them: which properties of the host its calls keep, that a disk with a
--     format is not found to be blank, that looking at files and mounts changes nothing, that the
--     files of devices stay, that what is mounted is found (IsBindable asks it of one target), that
--     a file or a folder that was made is there, and that what is removed is not there.
--     Examples/Box, Publishing, Republishing and Unpublishing have hosts with these laws.
--   Paths, Parts, Ec2Metadata  the URL parser and paths, the mounter, and the metadata service.
--   visit  the order in which a range loop visits a map. VisitsAll states that it visits each entry
--     once.
--   to_lower  strings.ToLower.
--   Shell, Endpoints, ApiClient  the arguments, the parser of flags and the output of the process;
--     the constants of the AWS SDK; the API of the Outscale SDK with an authorisation.
--
-- Bounds: an int64 or an int32 is an unbounded integer, and each operation that can wrap around
-- takes the residue. Every loop is a recursion on a list; a backoff is bounded by its steps, so
-- that no fuel is needed. An error keeps its format string and loses the arguments of the format.
-- The mutex of the device manager makes each of its methods one step, and interleavings of
-- requests are sequences of these steps.
--
-- Not modelled: logging; the delegations of NodeMounter to luks_util.go and to the package mount,
-- which the model calls directly; the loop of the gRPC server, Stop and Probe; mocks and tests.
pub mod Cloud
pub mod Command
pub mod DeviceManager
pub mod Driver
pub mod Examples
pub mod Go
pub mod Prelude
pub mod Util
