-- ===== src/Driver/Node/Devices.antt =====
-- pkg/driver/node.go: the device behind a path that the cloud layer chose.
pub mod Names
pub mod Steady
use osc_bsu_csi_driver.Prelude.{ℕ, String, Bool, true, false, not, ◌&&◌, leb, if◌then◌else◌}
use Prim.Native.Char.{code}
use Prim.Native.String.{◌++◌ as concat}
use osc_bsu_csi_driver.Go.Strings.{has_prefix, trim_prefix}
use osc_bsu_csi_driver.Go.Error.{errorf}
use osc_bsu_csi_driver.Go.Act.{
  Result, ok, err, Act, pure, raise, lift, attempt, or_fail, ◌>>=◌, ◌>>◌,
}
use osc_bsu_csi_driver.Driver.Node.Host.{Host}
use osc_bsu_csi_driver.Driver.Node.Mounter.{exists_path}

unfoldable pub is_lower : ℕ → Bool
is_lower c = leb b'a' c && leb c b'z'

-- [a-z]{1,2}
unfoldable pub is_suffix : String → Bool
unfolding is_lower
is_suffix String.[] = false
is_suffix (String.◌∷◌ c String.[]) = is_lower (code c)
is_suffix (String.◌∷◌ c (String.◌∷◌ d String.[])) = is_lower (code c) && is_lower (code d)
is_suffix (String.◌∷◌ c (String.◌∷◌ d (String.◌∷◌ e s))) = false

-- The path has to match `^/dev/xvd(?P<suffix>[a-z]{1,2})$`.
unfoldable pub find_scsi_name : String → Result String
find_scsi_name device_path =
    if has_prefix device_path "/dev/xvd" && is_suffix (trim_prefix device_path "/dev/xvd")
    then ok (concat "scsi-0QEMU_QEMU_HARDDISK_sd" (trim_prefix device_path "/dev/xvd"))
    else err (errorf "devicePath %s is not supported")

module _ {H : Type 0} (host : Host H) where
  -- The name has no slash, so that joining it to the folder appends it.
  unfoldable pub find_scsi_volume : String → Act H String
  find_scsi_volume name =
      attempt (host.lstat (concat "/dev/disk/by-id/" name))
        (λ symlink.
          if not symlink
          then raise (errorf "scsi file %q found, but was not a symlink")
          else or_fail (host.eval_symlinks (concat "/dev/disk/by-id/" name))
              (errorf "error reading target of symlink %q: %v")
            >>= (λ resolved.
                if not (has_prefix resolved "/dev")
                then raise (errorf "resolved symlink for %q was unexpected: %q")
                else pure resolved))
        (λ e.
          if host.is_not_exist e
          then raise (errorf "scsi path %q not found")
          else raise (errorf "error getting stat of %q: %v"))

  -- The volume's id is only logged.
  unfoldable pub find_device_path : String → Act H String
  find_device_path device_path = do
    exists ← exists_path host device_path
    if exists
        then pure device_path
        else do scsi_name ← lift (find_scsi_name device_path); find_scsi_volume scsi_name
