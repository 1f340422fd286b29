-- ===== src/Driver/Requests.antt =====
-- The CSI requests and responses of the controller, with the fields that it sets or reads, and the
-- keys of pkg/driver/constants.go and driver.go.
use osc_bsu_csi_driver.Prelude.{String, Bool, Option, List}
use osc_bsu_csi_driver.Go.Dict.{Dict}
use osc_bsu_csi_driver.Go.Int.{ℤ}
use osc_bsu_csi_driver.Cloud.Types.{Snapshot}

abbrev pub device_path_key : String
device_path_key = "devicePath"

abbrev pub volume_type_key : String
volume_type_key = "type"

abbrev pub iops_per_gb_key : String
iops_per_gb_key = "iopspergb"

abbrev pub encrypted_key : String
encrypted_key = "encrypted"

abbrev pub kms_key_id_key : String
kms_key_id_key = "kmskeyid"

abbrev pub luks_cipher_key : String
luks_cipher_key = "luks-cipher"

abbrev pub luks_hash_key : String
luks_hash_key = "luks-hash"

abbrev pub luks_key_size_key : String
luks_key_size_key = "luks-key-size"

abbrev pub luks_passphrase_key : String
luks_passphrase_key = "key"

-- "topology." + DriverName + "/zone"
abbrev pub topology_key : String
topology_key = "topology.bsu.csi.outscale.com/zone"

abbrev pub topology_k8s_key : String
topology_k8s_key = "topology.kubernetes.io/zone"

-- The access modes of the CSI specification.
pub data AccessMode : Type 0 where
  unknown single_node_writer single_node_reader_only multi_node_reader_only : AccessMode
  multi_node_single_writer multi_node_multi_writer single_node_single_writer : AccessMode
  single_node_multi_writer : AccessMode

pub record MountVolume : Type 0 where
  pub fs_type : String
  pub mount_flags : List String

-- The access type, with the inner message of a mount possibly nil.
pub data AccessType : Type 0 where
  not_set block : AccessType
  mount : Option MountVolume → AccessType

pub record VolumeCapability : Type 0 where
  pub access_mode : Option AccessMode
  pub access_type : AccessType

pub record CapacityRange : Type 0 where
  pub required_bytes : ℤ
  pub limit_bytes : ℤ

-- The segments of a topology.
abbrev pub Topology : Type 0
Topology = Dict String

pub record TopologyRequirement : Type 0 where
  pub requisite : List Topology
  pub preferred : List Topology

-- A volume's source: a snapshot's id, with the inner message possibly nil, or another type.
pub data VolumeSource : Type 0 where
  from_snapshot : Option String → VolumeSource
  from_other : VolumeSource

pub record CreateVolumeRequest : Type 0 where
  pub name : String
  pub capacity_range : Option CapacityRange
  pub volume_capabilities : List VolumeCapability
  pub parameters : Dict String
  pub volume_content_source : Option VolumeSource
  pub accessibility_requirements : Option TopologyRequirement

-- The volume of the response; `content_source` is the id of a snapshot.
pub record CreateVolumeResponse : Type 0 where
  pub volume_id : String
  pub capacity_bytes : ℤ
  pub volume_context : Dict String
  pub accessible_topology : List Topology
  pub content_source : Option String

pub record PublishRequest : Type 0 where
  pub volume_id : String
  pub node_id : String
  pub volume_capability : Option VolumeCapability
  pub volume_context : Dict String

pub record ExpandResponse : Type 0 where
  pub capacity_bytes : ℤ
  pub node_expansion_required : Bool

pub record ListSnapshotsRequest : Type 0 where
  pub snapshot_id : String
  pub source_volume_id : String
  pub starting_token : String
  pub max_entries : ℤ

pub record ListResponse : Type 0 where
  pub entries : List Snapshot
  pub next_token : String
