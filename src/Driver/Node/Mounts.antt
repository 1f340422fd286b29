-- ===== src/Driver/Node/Mounts.antt =====
-- pkg/driver/node.go: options of a mount, and whether a path is one.
pub mod Flags
use osc_bsu_csi_driver.Prelude.{
  String, Bool, true, false, not, List, [], ◌∷◌, ◌++◌, ◌==◌, if◌then◌else◌,
}
use osc_bsu_csi_driver.Go.Error.{status, internal}
use osc_bsu_csi_driver.Go.Act.{Act, pure, raise, attempt, or_fail, ◌>>=◌, ◌>>◌}
use osc_bsu_csi_driver.Driver.Requests.{MountVolume}
use osc_bsu_csi_driver.Driver.Node.Host.{Host}
use osc_bsu_csi_driver.Driver.Node.Mounter.{exists_path}

abbrev pub fs_type_xfs : String
fs_type_xfs = "xfs"

abbrev pub default_fs_type : String
default_fs_type = fs_type_xfs

-- The requested type of the file system, or the default.
abbrev pub fs_type_of : String → String
fs_type_of fs_type = if fs_type == "" then default_fs_type else fs_type

unfoldable pub has_mount_option : List String → String → Bool
has_mount_option [] opt = false
has_mount_option (o ∷ rest) opt = if o == opt then true else has_mount_option rest opt

-- The loop that appends the flags of a request.
unfoldable pub add_mount_flags : List String → List String → List String
add_mount_flags options [] = options
add_mount_flags options (f ∷ rest) =
    add_mount_flags (if has_mount_option options f then options else options ++ (f ∷ [])) rest

module _ {H : Type 0} (host : Host H) where
  unfoldable pub is_mounted : String → Act H Bool
  is_mounted target =
      attempt (host.is_likely_not_mount_point target) (λ not_mnt. pure (not not_mnt))
        (λ e.
          if host.is_not_exist e
          then pure false
          else attempt (exists_path host target)
              (λ _. raise (status internal "Could not check if %q is a mount point: %v, %v"))
              (λ path_err.
                if host.is_corrupted_mnt path_err
                then or_fail (host.unmount target)
                    (status internal "Unable to unmount the target %q : %v")
                  >> pure false
                else raise (status internal "Could not check if %q is a mount point: %v, %v")))
