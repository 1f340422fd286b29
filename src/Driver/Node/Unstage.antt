-- ===== src/Driver/Node/Unstage.antt =====
-- pkg/driver/node.go: taking back a volume that was staged on a node.
pub mod Mapping
use osc_bsu_csi_driver.Prelude.{String, ◌==◌, if◌then◌else◌}
use osc_bsu_csi_driver.Go.Int.{pos, eqb_ℤ}
use osc_bsu_csi_driver.Go.Error.{status, invalid_argument, internal}
use osc_bsu_csi_driver.Go.Act.{Act, pure, raise, or_fail, ◌>>=◌, ◌>>◌}
use osc_bsu_csi_driver.Driver.Node.Host.{Host}
use osc_bsu_csi_driver.Driver.Node.Luks.{luks_close, is_luks_mapping}

module _ {H : Type 0} (host : Host H) where
  unfoldable pub node_unstage_volume : (String → String) → String → String → Act H (Unit {0})
  node_unstage_volume to_lower volume_id target =
      if volume_id == ""
      then raise (status invalid_argument "Volume ID not provided")
      else if target == ""
      then raise (status invalid_argument "Staging target not provided")
      else do
        found ←
            or_fail (host.get_device_name_from_mount target)
              (status internal "failed to check if volume is mounted: %v")
        if eqb_ℤ found.1 (pos 0) then pure tt else do
          or_fail (host.unmount target) (status internal "Could not unmount target %q: %v")
          mapping ←
              or_fail (is_luks_mapping host to_lower found.0)
                (status internal "Could not determine if it is a luks mapping for target %q: %v")
          if mapping.0
              then or_fail (luks_close host mapping.1)
                  (status internal "failed to close device: %v,")
              else pure tt
