-- ===== src/Examples/Parameters.antt =====
-- The parameters of an encrypted volume, one of them under two spellings.
use osc_bsu_csi_driver.Prelude.{String, ◌≡◌, refl, true, [], ◌∷◌, ◌==◌, if◌then◌else◌}
use osc_bsu_csi_driver.Go.Dict.{Dict}
use osc_bsu_csi_driver.Go.Int.{pos}
use osc_bsu_csi_driver.Go.Strings.{atoi}
use osc_bsu_csi_driver.Go.Act.{ok}
use osc_bsu_csi_driver.Driver.Controller.Parameters.{
  Parameters, no_parameters, set_parameter, parse_parameters,
}
use osc_bsu_csi_driver.Driver.Controller.Parameters.Laws.{Reads, parse_parameters-Reads}

-- strings.ToLower on the keys that occur here.
abbrev lower : String → String
lower key = if key == "Type" then "type" else key

abbrev params : Dict String
params =
    ("type", "gp2")
    ∷ ("encrypted", "true")
    ∷ ("iopspergb", "50")
    ∷ ("luks-cipher", "aes")
    ∷ ("Type", "io1")
    ∷ []

abbrev read : Parameters
read = record no_parameters {
  volume_type = "io1";
  is_encrypted = true;
  iops_per_gb = pos 50;
  luks_cipher = "aes";
}

read_lem : parse_parameters lower params no_parameters ≡ ok read
unfolding parse_parameters set_parameter atoi
read_lem = refl

parse_parameters-Reads_example : Reads lower params no_parameters read
parse_parameters-Reads_example = parse_parameters-Reads lower params no_parameters read read_lem

-- In another order the other spelling is the last.
other_order :
    parse_parameters lower (("Type", "io1") ∷ ("type", "gp2") ∷ []) no_parameters
    ≡ ok (record no_parameters { volume_type = "gp2" })
unfolding parse_parameters set_parameter
other_order = refl
