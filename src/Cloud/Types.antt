-- ===== src/Cloud/Types.antt =====
-- pkg/cloud/cloud.go: the data of the cloud layer, and the limits and keys it uses.
use osc_bsu_csi_driver.Prelude.{ℕ, String, Bool, false, List, [], ◌∷◌, ◌*◌, ◌==◌}
use osc_bsu_csi_driver.Go.Dict.{Dict}
use osc_bsu_csi_driver.Go.Int.{ℤ, pos}
use osc_bsu_csi_driver.Util.Size.{gib}

abbrev pub volume_type_standard : String
volume_type_standard = "standard"

abbrev pub volume_type_gp2 : String
volume_type_gp2 = "gp2"

abbrev pub volume_type_io1 : String
volume_type_io1 = "io1"

abbrev pub default_volume_type : String
default_volume_type = volume_type_gp2

-- HTTP codes after which a request is made again.
abbrev pub throttling_error : List ℕ
throttling_error = 503 ∷ 429 ∷ []

abbrev pub min_total_iops : ℤ
min_total_iops = pos 100

abbrev pub max_total_iops : ℤ
max_total_iops = pos 13000

abbrev pub max_iops_per_gb : ℤ
max_iops_per_gb = pos 300

abbrev pub max_num_tags_per_resource : ℕ
max_num_tags_per_resource = 50

abbrev pub max_tag_key_length : ℕ
max_tag_key_length = 128

abbrev pub max_tag_value_length : ℕ
max_tag_value_length = 256

-- 100 * util.GiB
abbrev pub default_volume_size : ℤ
default_volume_size = pos (100 * gib)

abbrev pub volume_name_tag_key : String
volume_name_tag_key = "CSIVolumeName"

abbrev pub snapshot_name_tag_key : String
snapshot_name_tag_key = "CSIVolumeSnapshotName"

abbrev pub kubernetes_tag_key_prefix : String
kubernetes_tag_key_prefix = "kubernetes.io"

abbrev pub osc_tag_key_prefix : String
osc_tag_key_prefix = "osc:"

pub record Disk : Type 0 where
  pub volume_id : String
  pub capacity_gib : ℤ
  pub availability_zone : String
  pub snapshot_id : String

pub record DiskOptions : Type 0 where
  pub capacity_bytes : ℤ
  pub tags : Dict String
  pub volume_type : String
  pub iops_per_gb : ℤ
  pub availability_zone : String
  pub encrypted : Bool
  pub kms_key_id : String
  pub snapshot_id : String

-- The creation time is never set.
pub record Snapshot : Type 0 where
  pub snapshot_id : String
  pub source_volume_id : String
  pub size : ℤ
  pub ready_to_use : Bool

pub record ListSnapshotsResponse : Type 0 where
  pub snapshots : List Snapshot
  pub next_token : String

abbrev pub is_nil_disk : Disk → Bool
is_nil_disk disk = disk.volume_id == ""

abbrev pub is_nil_snapshot : Snapshot → Bool
is_nil_snapshot snapshot = snapshot.snapshot_id == ""

-- Go's zero values
abbrev pub nil_disk : Disk
nil_disk = record { volume_id = ""; capacity_gib = pos 0; availability_zone = ""; snapshot_id = "" }

abbrev pub nil_snapshot : Snapshot
nil_snapshot = record {
  snapshot_id = "";
  source_volume_id = "";
  size = pos 0;
  ready_to_use = false;
}
