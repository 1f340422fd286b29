-- ===== src/Examples/Expanding.antt =====
-- Expanding an encrypted volume on the host of `Box`.
use osc_bsu_csi_driver.Prelude.{[], ◌∷◌}
use osc_bsu_csi_driver.Go.Act.{ok}
use osc_bsu_csi_driver.Driver.Node.Host.{Host}
use osc_bsu_csi_driver.Driver.Node.Volumes.{NodeExpandVolumeRequest}
use osc_bsu_csi_driver.Driver.Node.Volumes.Expanded.{Expanded}
use osc_bsu_csi_driver.Examples.Box.{Box, host}

-- Its files are there, and its `cryptsetup` knows an open device.
abbrev encrypted : Host Box
encrypted = record host { stat = λ p s. (ok tt, s); run = λ c s. (ok "type: luks2", s) }

abbrev staged : Box
staged = record { mounts = ("/mnt", "/dev/mapper/xvdb_crypt") ∷ []; format = "crypto_LUKS" }

abbrev request : NodeExpandVolumeRequest
request = record { volume_id = "vol-1"; volume_path = "/mnt"; secrets = ("key", "secret") ∷ [] }
