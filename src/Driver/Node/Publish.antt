-- ===== src/Driver/Node/Publish.antt =====
-- pkg/driver/node.go: publishing a staged volume under a path, and taking it back.
pub mod ReadOnly
pub mod Mounted
pub mod Again
pub mod Gone
use osc_bsu_csi_driver.Prelude.{
  String, Bool, not, Option, none, some, [], ◌∷◌, List, ◌==◌, if◌then◌else◌,
}
use osc_bsu_csi_driver.Go.Dict.{Dict, lookup}
use osc_bsu_csi_driver.Go.Error.{GoError, status, invalid_argument, internal}
use osc_bsu_csi_driver.Go.Act.{Act, pure, raise, attempt, or_fail, unless, ◌>>=◌, ◌>>◌}
use osc_bsu_csi_driver.Driver.Requests.{
  VolumeCapability, AccessType, not_set, block, mount, MountVolume, device_path_key,
}
use osc_bsu_csi_driver.Driver.Controller.Requirements.{is_valid_volume_capabilities}
use osc_bsu_csi_driver.Driver.Node.Host.{Host}
use osc_bsu_csi_driver.Driver.Node.Mounter.{make_file, make_dir, exists_path}
use osc_bsu_csi_driver.Driver.Node.Devices.{find_device_path}
use osc_bsu_csi_driver.Driver.Node.Mounts.{fs_type_of, add_mount_flags, is_mounted}

pub record NodePublishVolumeRequest : Type 0 where
  pub volume_id : String
  pub staging_target_path : String
  pub target_path : String
  pub volume_capability : Option VolumeCapability
  pub readonly : Bool
  pub publish_context : Dict String

abbrev pub mount_flags_of : Option MountVolume → List String
mount_flags_of m = elim m [ none ↦ [] | some v ↦ v.mount_flags ]

abbrev pub requested_fs_type : Option MountVolume → String
requested_fs_type m = elim m [ none ↦ "" | some v ↦ v.fs_type ]

abbrev pub bind_options : Bool → List String
bind_options readonly = if readonly then "bind" ∷ "ro" ∷ [] else "bind" ∷ []

module _ {H : Type 0} (host : Host H) where
  -- Removes the target after an error, and gives that error, or that of the removal.
  unfoldable pub remove_target : String → GoError → Act H (Unit {0})
  remove_target target e =
      attempt (host.remove target) (λ _. raise e)
        (λ _. raise (status internal "Could not remove mount target %q: %v"))

  -- The end of both ways to publish: mounts the source, unless something is mounted already.
  unfoldable pub mount_unless_mounted : String → String → String → List String → Act H (Unit {0})
  mount_unless_mounted source target fs_type options = do
    mounted ←
        or_fail (is_mounted host target) (status internal "Could not check if %q is mounted: %v")
    unless mounted (
        attempt (host.do_mount source target fs_type options) pure
          (λ _. remove_target target (status internal "Could not mount %q at %q: %v")))

  -- `nodePublishVolumeForBlock` from the look for the device on; `folder` is that of the target.
  unfoldable pub publish_device :
      String → NodePublishVolumeRequest → List String → Option String → Act H (Unit {0})
  publish_device folder req options none =
      raise (status invalid_argument "Device path not provided")
  publish_device folder req options (some device_path) = do
    source ←
        or_fail (find_device_path host device_path)
          (status internal "Failed to find device path %s. %v")
    exists ←
        or_fail (exists_path host folder) (status internal "Could not check if path exists %q: %v")
    unless exists (or_fail (make_dir host folder) (status internal "Could not create dir %q: %v"))
    attempt (make_file host req.target_path)
        (λ _. mount_unless_mounted source req.target_path "" options)
        (λ _. remove_target req.target_path (status internal "Could not create file %q: %v"))

  -- `dir` is filepath.Dir.
  abbrev pub node_publish_volume_for_block :
      (String → String) → NodePublishVolumeRequest → List String → Act H (Unit {0})
  node_publish_volume_for_block dir req options =
      publish_device (dir req.target_path) req options (lookup device_path_key req.publish_context)

  unfoldable pub node_publish_volume_for_file_system :
      NodePublishVolumeRequest → List String → Option MountVolume → Act H (Unit {0})
  node_publish_volume_for_file_system req options m = do
    or_fail (make_dir host req.target_path) (status internal "Could not create dir %q: %v")
    mount_unless_mounted req.staging_target_path req.target_path (fs_type_of (requested_fs_type m))
        (add_mount_flags options (mount_flags_of m))

  -- Nothing is done for an access type that is not set.
  unfoldable pub publish_access :
      (String → String) → NodePublishVolumeRequest → AccessType → Act H (Unit {0})
  publish_access dir req not_set = pure tt
  publish_access dir req block = node_publish_volume_for_block dir req (bind_options req.readonly)
  publish_access dir req (mount m) =
      node_publish_volume_for_file_system req (bind_options req.readonly) m

  unfoldable pub publish_capability :
      (String → String) → NodePublishVolumeRequest → Option VolumeCapability → Act H (Unit {0})
  publish_capability dir req none = raise (status invalid_argument "Volume capability not provided")
  publish_capability dir req (some cap) =
      if not (is_valid_volume_capabilities (cap ∷ []))
      then raise (status invalid_argument "Volume capability not supported")
      else publish_access dir req cap.access_type

  unfoldable pub node_publish_volume :
      (String → String) → NodePublishVolumeRequest → Act H (Unit {0})
  node_publish_volume dir req =
      if req.volume_id == ""
      then raise (status invalid_argument "Volume ID not provided")
      else if req.staging_target_path == ""
      then raise (status invalid_argument "Staging target not provided")
      else if req.target_path == ""
      then raise (status invalid_argument "Target path not provided")
      else publish_capability dir req req.volume_capability

  -- Any answer of os.Stat but "does not exist" leads to the removal.
  unfoldable pub remove_path : String → Act H (Unit {0})
  remove_path target =
      attempt (host.stat target)
        (λ _. or_fail (host.remove target) (status internal "Could not remove folder %q: %v"))
        (λ e.
          if host.is_not_exist e
          then pure tt
          else or_fail (host.remove target) (status internal "Could not remove folder %q: %v"))

  unfoldable pub node_unpublish_volume : String → String → Act H (Unit {0})
  node_unpublish_volume volume_id target =
      if volume_id == ""
      then raise (status invalid_argument "Volume ID not provided")
      else if target == ""
      then raise (status invalid_argument "Target path not provided")
      else do
        mounted ←
            or_fail (is_mounted host target)
              (status internal "Could not check if %q is mounted: %v")
        unless (not mounted)
            (or_fail (host.unmount target) (status internal "Could not unmount %q: %v"))
        remove_path target
