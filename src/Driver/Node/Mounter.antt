-- ===== src/Driver/Node/Mounter.antt =====
-- pkg/driver/mount.go: what the mounter adds to the package `mount`.
use osc_bsu_csi_driver.Prelude.{String, Bool, true, false, if◌then◌else◌}
use osc_bsu_csi_driver.Go.Act.{Act, pure, raise, attempt}
use osc_bsu_csi_driver.Driver.Node.Host.{Host}

module _ {H : Type 0} (host : Host H) where
  unfoldable pub make_file : String → Act H (Unit {0})
  make_file pathname =
      attempt (host.open_file pathname) pure (λ e. if host.is_exist e then pure tt else raise e)

  unfoldable pub make_dir : String → Act H (Unit {0})
  make_dir pathname =
      attempt (host.mkdir_all pathname) pure (λ e. if host.is_exist e then pure tt else raise e)

  unfoldable pub exists_path : String → Act H Bool
  exists_path filename =
      attempt (host.stat filename) (λ _. pure true)
        (λ e. if host.is_not_exist e then pure false else raise e)
