-- ===== src/Examples/Unstaging.antt =====
-- Unstaging on the host of `Box`, where an encrypted disk was staged.
use osc_bsu_csi_driver.Prelude.{◌≡◌, ◌≢◌, String, refl, [], ◌∷◌, eq_iff}
use mathlib.Core.Bool.{false≢true}
use osc_bsu_csi_driver.Go.Int.{pos}
use osc_bsu_csi_driver.Go.Dict.{lookup}
use osc_bsu_csi_driver.Go.Strings.{base, trim_right, after_slash, is_slash, lines, contains}
use osc_bsu_csi_driver.Go.Error.{status, internal}
use osc_bsu_csi_driver.Go.Act.{ok, or_fail}
use osc_bsu_csi_driver.Driver.Node.Host.{Host}
use osc_bsu_csi_driver.Driver.Node.Luks.{luks_close, says_luks2}
use osc_bsu_csi_driver.Driver.Node.Unstage.{node_unstage_volume}
use osc_bsu_csi_driver.Driver.Node.Unstage.Mapping.{node_unstage_volume-luks_close}
use osc_bsu_csi_driver.Examples.Box.{Box, host}

-- Its `cryptsetup` knows an open device.
abbrev encrypted : Host Box
encrypted = record host { run = λ c s. (ok "type: luks2", s) }

abbrev staged : Box
staged = record { mounts = ("/mnt", "/dev/mapper/xvdb_crypt") ∷ []; format = "crypto_LUKS" }

last_element : base "/dev/xvdb" ≡ "xvdb"
unfolding base trim_right after_slash is_slash
last_element = refl

not_root : (◌≢◌ {A = String} (base "/dev/xvdb") "/")
unfolding base trim_right after_slash is_slash
not_root = λ e. false≢true ((eq_iff "xvdb" "/").1 e)

node_unstage_volume-luks_close_example :
    node_unstage_volume encrypted (λ t. t) "vol-1" "/mnt" staged
    ≡ or_fail
        (luks_close encrypted "xvdb_crypt")
        (status internal "failed to close device: %v,")
        staged
unfolding lookup base trim_right after_slash is_slash lines contains says_luks2
node_unstage_volume-luks_close_example =
    node_unstage_volume-luks_close encrypted (λ t. t) "vol-1" "/mnt" "/dev/xvdb" "type: luks2"
      (pos 1) staged staged staged staged refl refl not_root refl refl refl refl refl
