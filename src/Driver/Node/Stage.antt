-- ===== src/Driver/Node/Stage.antt =====
-- pkg/driver/node.go: staging a volume on a node.
pub mod Keeping
pub mod Safety
pub mod Exclusion
pub mod Context
pub mod Formats
pub mod Mounted
pub mod Again
use osc_bsu_csi_driver.Prelude.{
  String, Bool, true, false, not, ◌&&◌, Option, none, some, [], ◌∷◌, List, ltb, ◌==◌, if◌then◌else◌,
}
use Prim.Native.String.{◌++◌ as concat}
use osc_bsu_csi_driver.Go.Dict.{Dict, lookup, or_zero}
use osc_bsu_csi_driver.Go.Int.{ℤ, pos, eqb_ℤ}
use osc_bsu_csi_driver.Go.Strings.{base}
use osc_bsu_csi_driver.Go.Error.{GoError, status, invalid_argument, internal}
use osc_bsu_csi_driver.Go.Act.{
  Result, err, Act, pure, raise, attempt, or_fail, ignoring, unless, ◌>>=◌, ◌>>◌,
}
use osc_bsu_csi_driver.Driver.Requests.{
  VolumeCapability, AccessType, not_set, block, mount, MountVolume, device_path_key, encrypted_key,
  luks_cipher_key, luks_hash_key, luks_key_size_key, luks_passphrase_key,
}
use osc_bsu_csi_driver.Driver.InFlight.{InFlight, insert_request, delete_request}
use osc_bsu_csi_driver.Driver.Controller.Requirements.{is_valid_volume_capabilities}
use osc_bsu_csi_driver.Driver.Node.Host.{Host, Command}
use osc_bsu_csi_driver.Driver.Node.Mounter.{make_dir, exists_path}
use osc_bsu_csi_driver.Driver.Node.Luks.{
  LuksContext, mapper_path, is_luks, luks_format, check_luks_passphrase, luks_open, luks_close,
  is_luks_mapping,
}
use osc_bsu_csi_driver.Driver.Node.Devices.{find_device_path}
use osc_bsu_csi_driver.Driver.Node.Mounts.{fs_type_xfs, fs_type_of, add_mount_flags}

pub record NodeStageVolumeRequest : Type 0 where
  pub volume_id : String
  pub staging_target_path : String
  pub volume_capability : Option VolumeCapability
  pub publish_context : Dict String
  pub secrets : Dict String

-- The state of the node service: the requests in flight, and the host.
pub record NodeState (H : Type 0) : Type 0 where
  pub in_flight : InFlight
  pub host : H

-- The name of the mapping of an encrypted device.
abbrev pub crypt_name : String → String
crypt_name source = concat (base source) "_crypt"

abbrev pub is_encrypted : Dict String → Bool
is_encrypted context = elim (lookup encrypted_key context) [ none ↦ false | some v ↦ v == "true" ]

abbrev pub luks_context : Dict String → LuksContext
luks_context context = record {
  cipher = or_zero "" (lookup luks_cipher_key context);
  hash = or_zero "" (lookup luks_hash_key context);
  key_size = or_zero "" (lookup luks_key_size_key context);
}

abbrev pub mkfs_xfs : String → Command
mkfs_xfs source = record { name = "mkfs.xfs"; args = source ∷ []; stdin = none }

-- The type to mount with: the requested one, the disk's own where it has one and none is requested,
-- or `none` where the two differ.
unfoldable pub chosen_fs_type : String → String → Option String
chosen_fs_type requested existing =
    if not (existing == "") && not (existing == fs_type_of requested)
    then (if requested == "" then some existing else none)
    else some (fs_type_of requested)

module _ {H : Type 0} (host : Host H) where
  -- On an error an encrypted device is closed again; an error of that is only logged.
  abbrev pub close_mapping : Option String → Act H (Unit {0})
  close_mapping none = pure tt
  close_mapping (some name) = ignoring (luks_close host name)

  -- `mkfs.xfs` on a disk with no format; its failure is only logged.
  unfoldable pub make_xfs : String → String → String → Act H (Unit {0})
  make_xfs source fs_type existing =
      if fs_type == fs_type_xfs && existing == ""
      then ignoring (host.run (mkfs_xfs source))
      else pure tt

  -- What follows the choice of the type to mount with.
  unfoldable pub mount_chosen :
      Option String → String → String → List String → String → Option String → Act H (Unit {0})
  mount_chosen mapping source target options existing none =
      close_mapping mapping
      >> raise (
          status internal
            "NodeStageVolume: %vThe requested fstype %q does not match the fstype of the disk %q")
  mount_chosen mapping source target options existing (some fs_type) =
      make_xfs source fs_type existing
      >> attempt (host.format_and_mount source target fs_type options) pure (λ _.
        close_mapping mapping >> raise (status internal "%vcould not format %q and mount it at %q"))

  -- `NodeStageVolume` from the look for the disk's format on; `mapping` is the name of the open
  -- mapping where the volume is encrypted.
  unfoldable pub mount_source :
      Option String → String → String → String → List String → Act H (Unit {0})
  mount_source mapping source target requested options =
      attempt (host.get_disk_format source)
        (λ existing.
          mount_chosen mapping source target options existing (chosen_fs_type requested existing))
        (λ _.
          close_mapping mapping
          >> raise (status internal "%vfailed to get disk format of disk %q: %v"))

  -- The mapping of an encrypted volume is opened, on a device that is formatted where it is not yet.
  unfoldable pub unlock :
      NodeStageVolumeRequest → String → String → List String → String → Act H (Unit {0})
  unlock req source requested options passphrase = do
    formatted ← is_luks host source
    unless formatted (
        or_fail (luks_format host source passphrase (luks_context req.publish_context))
          (status internal "error while formating luks partition to %v, err: %v"))
    fine ← check_luks_passphrase host source passphrase
    unless fine (raise (status internal "error while checking passphrase to %v, err: %v"))
    or_fail (luks_open host source (crypt_name source) passphrase)
        (status internal "error while opening luks device to %v, err: %v")
    mount_source (some (crypt_name source)) (mapper_path (crypt_name source))
        req.staging_target_path requested options

  unfoldable pub unlock_with :
      NodeStageVolumeRequest → String → String → List String → Option String → Act H (Unit {0})
  unlock_with req source requested options none =
      raise (status invalid_argument "no passphrase key has been provided")
  unlock_with req source requested options (some passphrase) =
      unlock req source requested options passphrase

  -- The branch for an encrypted volume; `device` is what is mounted at the target.
  unfoldable pub stage_encrypted :
      NodeStageVolumeRequest → String → String → String → List String → Act H (Unit {0})
  stage_encrypted req device source requested options =
      if device == mapper_path (crypt_name source)
      then pure tt
      else unlock_with req source requested options (lookup luks_passphrase_key req.secrets)

  -- `NodeStageVolume` from the look for the target on, `source` being the device.
  unfoldable pub stage_source :
      NodeStageVolumeRequest → String → String → List String → Act H (Unit {0})
  stage_source req source requested options = do
    exists ←
        or_fail (exists_path host req.staging_target_path)
          (status internal "failed to check if target %q exists: %v")
    unless exists (
        or_fail (make_dir host req.staging_target_path)
          (status internal "could not create target dir %q: %v"))
    found ←
        or_fail (host.get_device_name_from_mount req.staging_target_path)
          (status internal "failed to check if volume is already mounted: %v")
    if is_encrypted req.publish_context
        then stage_encrypted req found.0 source requested options
        else if found.0 == source
        then pure tt
        else mount_source none source req.staging_target_path requested options

  -- `NodeStageVolume` while the request is in flight; `device_path` is what the publish context has.
  unfoldable pub stage_device :
      NodeStageVolumeRequest → String → List String → Option String → Act H (Unit {0})
  stage_device req requested options none =
      raise (status invalid_argument "Device path not provided")
  stage_device req requested options (some device_path) = do
    source ←
        or_fail (find_device_path host device_path)
          (status internal "Failed to find device path %s. %v")
    stage_source req source requested options

  abbrev pub stage : NodeStageVolumeRequest → String → List String → Act H (Unit {0})
  stage req requested options =
      stage_device req requested options (lookup device_path_key req.publish_context)

  -- `text` is the text of a request.
  unfoldable pub stage_in_flight :
      String → NodeStageVolumeRequest → String → List String → Act (NodeState H) (Unit {0})
  stage_in_flight text req requested options s =
      let (inserted, db) = insert_request text s.in_flight in
      let (r, h) = stage req requested options s.host in
      if not inserted
      then (
        err (status internal "request to stage volume=%q is already in progress"),
        record s { in_flight = db },
      )
      else (r, record { in_flight = delete_request text db; host = h })

  -- A block device is not staged.
  unfoldable pub stage_access :
      String → NodeStageVolumeRequest → AccessType → Act (NodeState H) (Unit {0})
  stage_access text req block = pure tt
  stage_access text req (mount (some m)) =
      stage_in_flight text req m.fs_type (add_mount_flags [] m.mount_flags)
  stage_access text req (mount none) =
      raise (status invalid_argument "NodeStageVolume: mount is nil within volume capability")
  stage_access text req not_set =
      raise (status invalid_argument "NodeStageVolume: mount is nil within volume capability")

  unfoldable pub stage_capability :
      String → NodeStageVolumeRequest → Option VolumeCapability → Act (NodeState H) (Unit {0})
  stage_capability text req none = raise (status invalid_argument "Volume capability not provided")
  stage_capability text req (some cap) =
      if not (is_valid_volume_capabilities (cap ∷ []))
      then raise (status invalid_argument "Volume capability not supported")
      else stage_access text req cap.access_type

  unfoldable pub node_stage_volume :
      (NodeStageVolumeRequest → String) → NodeStageVolumeRequest → Act (NodeState H) (Unit {0})
  node_stage_volume text req =
      if req.volume_id == ""
      then raise (status invalid_argument "Volume ID not provided")
      else if req.staging_target_path == ""
      then raise (status invalid_argument "Staging target not provided")
      else stage_capability (text req) req req.volume_capability
