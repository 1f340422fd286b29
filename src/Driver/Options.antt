-- ===== src/Driver/Options.antt =====
-- pkg/driver/validation.go: the options of the driver.
pub mod Tags
use Prim.Native.String.{len}
use osc_bsu_csi_driver.Prelude.{
  String, Bool, true, false, not, ◌&&◌, Option, none, some, List, [], ◌∷◌, length, ltb, ◌==◌,
  if◌then◌else◌,
}
use osc_bsu_csi_driver.Go.Dict.{Dict}
use osc_bsu_csi_driver.Go.Strings.{has_prefix}
use osc_bsu_csi_driver.Go.Error.{GoError, errorf}
use osc_bsu_csi_driver.Cloud.Types.{
  max_num_tags_per_resource, max_tag_key_length, max_tag_value_length, volume_name_tag_key,
  kubernetes_tag_key_prefix, osc_tag_key_prefix,
}

pub record DriverOptions : Type 0 where
  pub endpoint : String
  pub extra_volume_tags : Dict String
  pub mode : String

abbrev pub controller_mode : String
controller_mode = "controller"

abbrev pub node_mode : String
node_mode = "node"

abbrev pub all_mode : String
all_mode = "all"

-- The loop of `validateExtraVolumeTags`; `none` is a nil error.
unfoldable pub validate_tags : Dict String → Option GoError
validate_tags [] = none
validate_tags ((k, v) ∷ rest) =
    if ltb max_tag_key_length (len k)
    then some (errorf "Volume tag key too long (actual: %d, limit: %d)")
    else if ltb max_tag_value_length (len v)
    then some (errorf "Volume tag value too long (actual: %d, limit: %d)")
    else if k == volume_name_tag_key
    then some (errorf "Volume tag key '%s' is reserved")
    else if has_prefix k kubernetes_tag_key_prefix
    then some (errorf "Volume tag key prefix '%s' is reserved")
    else if has_prefix k osc_tag_key_prefix
    then some (errorf "Volume tag key prefix '%s' is reserved")
    else validate_tags rest

unfoldable pub validate_extra_volume_tags : Dict String → Option GoError
unfolding validate_tags
validate_extra_volume_tags tags =
    if ltb max_num_tags_per_resource (length tags)
    then some (errorf "Too many volume tags (actual: %d, limit: %d)")
    else validate_tags tags

unfoldable pub validate_mode : String → Option GoError
validate_mode mode =
    if not (mode == all_mode) && not (mode == controller_mode) && not (mode == node_mode)
    then some (errorf "Mode is not supported (actual: %s, supported: %v)")
    else none

unfoldable pub validate_driver_options : DriverOptions → Option GoError
unfolding validate_extra_volume_tags validate_mode
validate_driver_options o = elim (validate_extra_volume_tags o.extra_volume_tags) [
  | some _ ↦ some (errorf "Invalid extra volume tags: %v")
  | none ↦ elim (validate_mode o.mode) [ some _ ↦ some (errorf "Invalid mode: %v") | none ↦ none ]
]
