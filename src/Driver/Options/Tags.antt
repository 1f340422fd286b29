-- ===== src/Driver/Options/Tags.antt =====
-- What the validation of the driver's options guarantees of the tags of a volume.
use Prim.Native.String.{len}
use osc_bsu_csi_driver.Prelude.{
  ◌≤◌, String, ◌≡◌, refl, false, none, [], ◌∷◌, length, All, arith, ltb, ◌==◌, Bool-cases,
  Option-cases, inl, inr,
}
use osc_bsu_csi_driver.Go.Dict.{Dict, lookup}
use osc_bsu_csi_driver.Go.Strings.{has_prefix}
use osc_bsu_csi_driver.Cloud.Types.{
  max_num_tags_per_resource, max_tag_key_length, max_tag_value_length, volume_name_tag_key,
  kubernetes_tag_key_prefix, osc_tag_key_prefix,
}
use osc_bsu_csi_driver.Driver.Options.{
  DriverOptions, validate_tags, validate_extra_volume_tags, validate_mode, validate_driver_options,
}

-- What holds of each tag.
abbrev pub IsAllowedTag : String × String → Type 0
IsAllowedTag (k, v) =
    (len k ≤ max_tag_key_length)
    × (len v ≤ max_tag_value_length)
    × ((k == volume_name_tag_key) ≡ false)
    × (has_prefix k kubernetes_tag_key_prefix ≡ false)
    × (has_prefix k osc_tag_key_prefix ≡ false)

validate_tags-All : (tags : Dict String) → validate_tags tags ≡ none → All IsAllowedTag tags
unfolding validate_tags
validate_tags-All [] h = tt
validate_tags-All ((k, v) ∷ rest) h = (
  (ground arith, ground arith, ground arith, ground arith, ground arith),
  validate_tags-All rest (ground arith),
)

-- Options that pass the validation have at most 50 extra tags, each within the limits on its key
-- and its value and with a key that is neither reserved nor under a reserved prefix, and a mode
-- that the driver knows.
pub validate_driver_options_sound :
    (o : DriverOptions)
    → validate_driver_options o ≡ none
    → (length o.extra_volume_tags ≤ max_num_tags_per_resource)
      × All IsAllowedTag o.extra_volume_tags
      × (validate_mode o.mode ≡ none)
unfolding validate_driver_options validate_extra_volume_tags
validate_driver_options_sound o h = elim (Bool-cases (ltb 50 (length o.extra_volume_tags))) [
  | inl many ↦ ground arith
  | inr few ↦ elim (Option-cases (validate_tags o.extra_volume_tags)) [
    | inl fine ↦ (ground arith, validate_tags-All o.extra_volume_tags fine, ground arith)
    | inr (e, bad) ↦ ground arith
  ]
]

-- A key that no tag has is not found.
pub lookup_allowed :
    (tags : Dict String) → All IsAllowedTag tags → lookup volume_name_tag_key tags ≡ none
unfolding lookup
lookup_allowed [] h = refl
lookup_allowed ((k, v) ∷ rest) h = rw h.0.2 (lookup_allowed rest h.1)
