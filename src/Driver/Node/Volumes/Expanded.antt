-- ===== src/Driver/Node/Volumes/Expanded.antt =====
-- What a success of `NodeExpandVolume` means.
use osc_bsu_csi_driver.Prelude.{String, ◌≡◌, ◌≢◌, Bool, true, false, Option, none, some}
use osc_bsu_csi_driver.Go.Dict.{lookup}
use osc_bsu_csi_driver.Go.Int.{ℤ}
use osc_bsu_csi_driver.Go.Error.{status, invalid_argument, internal}
use osc_bsu_csi_driver.Go.Act.{Act, raise, or_fail}
use osc_bsu_csi_driver.Go.Act.Success.{Runs}
use osc_bsu_csi_driver.Driver.Requests.{luks_passphrase_key}
use osc_bsu_csi_driver.Driver.Node.Host.{Host}
use osc_bsu_csi_driver.Driver.Node.Luks.{is_luks_mapping, luks_resize}
use osc_bsu_csi_driver.Driver.Node.Devices.{find_device_path}
use osc_bsu_csi_driver.Driver.Node.Volumes.{NodeExpandVolumeRequest}

module _ {H : Type 0} (host : Host H) (to_lower : String → String) where
  -- The resizing of the mapping, if there is one, with a passphrase that is given.
  abbrev resizing : Option String → Bool × String → Act H (Unit {0})
  resizing given mapping = elim given [
    | none ↦ raise (status invalid_argument "no passphrase key has been provided")
    | some passphrase ↦
        or_fail (luks_resize host mapping.1 passphrase)
          (status internal "Could not resize Luks volume %q: %v")
  ]

  -- The steps of an expansion from the state `s` to `s'`.
  pub record Expanded (req : NodeExpandVolumeRequest) (s s' : H) : Type 0 where
    -- the device that is mounted at the path of the volume, and its own path
    pub device : String
    pub references : ℤ
    pub s₁ : H
    pub mounted : Runs (host.get_device_name_from_mount req.volume_path) s (device, references) s₁
    pub there : device ≢ ""
    pub path : String
    pub s₂ : H
    pub found : Runs (find_device_path host device) s₁ path s₂
    -- whether it is an encrypted mapping, and its name
    pub is_mapping : Bool
    pub name : String
    pub s₃ : H
    pub known : Runs (is_luks_mapping host to_lower path) s₂ (is_mapping, name) s₃
    pub s₄ : H
    pub opened :
        is_mapping ≡ true
        → (passphrase : String) × (lookup luks_passphrase_key req.secrets ≡ some passphrase)
          × Runs (luks_resize host name passphrase) s₃ tt s₄
    pub plain : is_mapping ≡ false → s₃ ≡ s₄
    pub changed : Bool
    pub resized : Runs (host.resize_fs path req.volume_path) s₄ changed s'
