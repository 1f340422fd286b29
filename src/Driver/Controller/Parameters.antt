-- ===== src/Driver/Controller/Parameters.antt =====
-- pkg/driver/controller.go: the parameters of `CreateVolume`.
pub mod Laws
use osc_bsu_csi_driver.Prelude.{String, Bool, false, none, some, [], ◌∷◌, ◌==◌, if◌then◌else◌}
use osc_bsu_csi_driver.Go.Dict.{Dict}
use osc_bsu_csi_driver.Go.Int.{ℤ, pos}
use osc_bsu_csi_driver.Go.Strings.{atoi}
use osc_bsu_csi_driver.Go.Error.{status, invalid_argument}
use osc_bsu_csi_driver.Go.Act.{Result, ok, err, panic}
use osc_bsu_csi_driver.Driver.Requests.{
  volume_type_key, iops_per_gb_key, encrypted_key, kms_key_id_key, luks_cipher_key, luks_hash_key,
  luks_key_size_key,
}

-- The variables that the loop over the parameters sets.
pub record Parameters : Type 0 where
  pub volume_type : String
  pub iops_per_gb : ℤ
  pub is_encrypted : Bool
  pub kms_key_id : String
  pub luks_cipher : String
  pub luks_hash : String
  pub luks_key_size : String

abbrev pub no_parameters : Parameters
no_parameters = record {
  volume_type = "";
  iops_per_gb = pos 0;
  is_encrypted = false;
  kms_key_id = "";
  luks_cipher = "";
  luks_hash = "";
  luks_key_size = "";
}

-- The body of the loop, by the key in lower case.
unfoldable pub set_parameter : String → String → Parameters → Result Parameters
set_parameter key value q =
    if key == "fstype"
    then ok q
    else if key == volume_type_key
    then ok (record q { volume_type = value })
    else if key == iops_per_gb_key
    then elim (atoi value) [
      | some n ↦ ok (record q { iops_per_gb = n })
      | none ↦ err (status invalid_argument "Could not parse invalid iopsPerGB: %v")
    ]
    else if key == encrypted_key
    then ok (record q { is_encrypted = value == "true" })
    else if key == kms_key_id_key
    then ok (record q { kms_key_id = value })
    else if key == luks_cipher_key
    then ok (record q { luks_cipher = value })
    else if key == luks_key_size_key
    then ok (record q { luks_key_size = value })
    else if key == luks_hash_key
    then ok (record q { luks_hash = value })
    else err (status invalid_argument "Invalid parameter key %s for CreateVolume")

-- `volumeContextExtra`
unfoldable pub context_extra : Parameters → Dict String
context_extra q =
    if q.is_encrypted
    then (encrypted_key, "true")
      ∷ (luks_hash_key, q.luks_hash)
      ∷ (luks_cipher_key, q.luks_cipher)
      ∷ (luks_key_size_key, q.luks_key_size)
      ∷ []
    else []

module _ (to_lower : String → String) where
  -- The loop, over the parameters in the order in which they are visited.
  unfoldable pub parse_parameters : Dict String → Parameters → Result Parameters
  parse_parameters [] q = ok q
  parse_parameters ((key, value) ∷ rest) q = elim (set_parameter (to_lower key) value q) [
    | ok q' ↦ parse_parameters rest q'
    | err e ↦ err e
    | panic ↦ panic
  ]
