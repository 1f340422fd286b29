-- ===== src/Driver/Node/Volumes.antt =====
-- pkg/driver/node.go: expanding a volume's file system, its statistics, and the node's description.
pub mod Room
pub mod Expanded
use osc_bsu_csi_driver.Prelude.{
  String, Bool, not, none, some, [], ◌∷◌, List, nat_eq, ◌==◌, if◌then◌else◌,
}
use Prim.Native.Nat.{bit_and}
use osc_bsu_csi_driver.Go.Dict.{Dict, lookup}
use osc_bsu_csi_driver.Go.Int.{ℤ, pos}
use osc_bsu_csi_driver.Go.Strings.{atoi, trim_space}
use osc_bsu_csi_driver.Go.Error.{status, invalid_argument, internal, not_found_code, errorf}
use osc_bsu_csi_driver.Go.Act.{Act, pure, raise, or_fail, unless, ◌>>=◌, ◌>>◌}
use osc_bsu_csi_driver.Driver.Requests.{luks_passphrase_key, topology_key, Topology}
use osc_bsu_csi_driver.Driver.Node.Host.{Host, Metrics}
use osc_bsu_csi_driver.Driver.Node.Mounter.{exists_path}
use osc_bsu_csi_driver.Driver.Node.Luks.{is_luks_mapping, luks_resize}
use osc_bsu_csi_driver.Driver.Node.Devices.{find_device_path}

pub record NodeExpandVolumeRequest : Type 0 where
  pub volume_id : String
  pub volume_path : String
  pub secrets : Dict String

pub data UsageUnit : Type 0 where
  bytes inodes : UsageUnit

-- An entry of the usage of a volume, with the zero values of fields that are not set.
pub record VolumeUsage : Type 0 where
  pub unit : UsageUnit
  pub available : ℤ
  pub total : ℤ
  pub used : ℤ

pub record NodeInfo : Type 0 where
  pub node_id : String
  pub max_volumes_per_node : ℤ
  pub accessible_topology : Topology

abbrev pub default_max_bsu_volumes : ℤ
default_max_bsu_volumes = pos 39

-- The limit that the environment variable sets, empty where it is not set.
unfoldable pub get_volumes_limit : String → ℤ
get_volumes_limit value =
    if value == ""
    then default_max_bsu_volumes
    else elim (atoi value) [ none ↦ default_max_bsu_volumes | some n ↦ n ]

unfoldable pub node_get_info : String → String → String → NodeInfo
node_get_info instance_id zone max_bsu_volumes = record {
  node_id = instance_id;
  max_volumes_per_node = get_volumes_limit max_bsu_volumes;
  accessible_topology = (topology_key, zone) ∷ [];
}

unfoldable pub file_system_usage : Metrics → List VolumeUsage
file_system_usage m =
    record { unit = bytes; available = m.available; total = m.capacity; used = m.used }
    ∷ record { unit = inodes; available = m.inodes_free; total = m.inodes; used = m.inodes_used }
    ∷ []

module _ {H : Type 0} (host : Host H) where
  unfoldable pub node_expand_volume : (String → String) → NodeExpandVolumeRequest → Act H (Unit {0})
  node_expand_volume to_lower req =
      if req.volume_id == ""
      then raise (status invalid_argument "Volume ID not provided")
      else if req.volume_path == ""
      then raise (status invalid_argument "Volume Path not provided")
      else do
        found ←
            or_fail (host.get_device_name_from_mount req.volume_path)
              (status internal "Could not determine device path: %v")
        unless (not (found.0 == ""))
            (raise (status not_found_code "Could not get valid device name for mount path: %q"))
        device_path ←
            or_fail (find_device_path host found.0)
              (status internal "Could not get valid device path for mount path: %q")
        mapping ←
            or_fail (is_luks_mapping host to_lower device_path)
              (status internal "Could not determine if it is a luks mapping for target %q: %v")
        unless (not mapping.0) (elim (lookup luks_passphrase_key req.secrets) [
          | none ↦ raise (status invalid_argument "no passphrase key has been provided")
          | some passphrase ↦
              or_fail (luks_resize host mapping.1 passphrase)
                (status internal "Could not resize Luks volume %q: %v")
        ])
        or_fail (host.resize_fs device_path req.volume_path)
            (status internal "Could not resize volume %q (%q):  %v")
        pure tt

  -- (mode & S_IFMT) == S_IFBLK
  unfoldable pub is_block_device : String → Act H Bool
  is_block_device filename = do
    mode ← host.unix_stat filename
    pure (nat_eq (bit_and mode 0xf000) 0x6000)

  unfoldable pub get_block_size_bytes : String → Act H ℤ
  get_block_size_bytes device_path = do
    output ←
        or_fail
          (host.run
            (record { name = "blockdev"; args = "--getsize64" ∷ device_path ∷ []; stdin = none }))
          (errorf "error when getting size of block volume at path %s: output: %s, err: %v")
    elim (atoi (trim_space output)) [
      | none ↦ raise (errorf "failed to parse size %s as int")
      | some size ↦ pure size
    ]

  unfoldable pub node_get_volume_stats : String → String → Act H (List VolumeUsage)
  node_get_volume_stats volume_id volume_path =
      if volume_id == ""
      then raise (status invalid_argument "NodeGetVolumeStats empty Volume ID")
      else if volume_path == ""
      then raise (status invalid_argument "NodeGetVolumeStats empty Volume path")
      else do
        exists ←
            or_fail (exists_path host volume_path)
              (status internal "unknown error when stat on %s: %v")
        unless exists (raise (status not_found_code "path %s does not exist"))
        is_block ←
            or_fail (is_block_device volume_path)
              (status internal "failed to determine whether %s is block device: %v")
        if is_block
            then or_fail (get_block_size_bytes volume_path)
                (status internal "failed to get block capacity on path %s: %v")
              >>= (λ size.
                  pure
                    (record { unit = bytes; available = pos 0; total = size; used = pos 0 } ∷ []))
            else or_fail (host.get_metrics volume_path)
                (status internal "failed to get fs info on path %s: %v")
              >>= (λ m. pure (file_system_usage m))
