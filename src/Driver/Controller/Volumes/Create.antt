-- ===== src/Driver/Controller/Volumes/Create.antt =====
-- What `CreateVolume` does with a disk that is there, and which tags it gives to a new one.
use osc_bsu_csi_driver.Prelude.{
  String, ◌≡◌, ◌≢◌, true, false, none, some, List, [], ◌∷◌, arith, eq_iff, ◌==◌, if◌then◌else◌,
  Bool-cases, inl, inr,
}
use osc_bsu_csi_driver.Go.Dict.{Dict, lookup, lookup-overlay}
use osc_bsu_csi_driver.Go.Int.{ℤ}
use osc_bsu_csi_driver.Go.Error.{status, already_exists_code}
use osc_bsu_csi_driver.Go.Act.{Result, ok, err}
use osc_bsu_csi_driver.Cloud.Types.{Disk, volume_name_tag_key}
use osc_bsu_csi_driver.Cloud.Interface.{Cloud}
use osc_bsu_csi_driver.Driver.Requests.{CreateVolumeRequest, CreateVolumeResponse, VolumeCapability}
use osc_bsu_csi_driver.Driver.Options.{DriverOptions, validate_driver_options}
use osc_bsu_csi_driver.Driver.Options.Tags.{validate_driver_options_sound, lookup_allowed}
use osc_bsu_csi_driver.Driver.Controller.Parameters.{
  Parameters, no_parameters, parse_parameters, context_extra,
}
use osc_bsu_csi_driver.Driver.Controller.Requirements.{
  is_valid_volume_capabilities, get_vol_size_bytes,
}
use osc_bsu_csi_driver.Driver.Controller.Volumes.{
  source_snapshot, new_create_volume_response, disk_options, create_or_reuse, create_volume,
}

-- With options that pass the validation, the tags of a new disk map the key by which
-- `GetDiskByName` looks for it to the name of the volume: no extra tag takes its place.
pub disk_options_name_tag :
    (o : DriverOptions) (req : CreateVolumeRequest) (size : ℤ) (q : Parameters)
    (snapshot_id : String)
    → validate_driver_options o ≡ none
    → lookup volume_name_tag_key (disk_options o.extra_volume_tags req size q snapshot_id).tags
      ≡ some req.name
unfolding disk_options lookup
disk_options_name_tag o req size q snapshot_id valid =
    let free = lookup_allowed o.extra_volume_tags (validate_driver_options_sound o valid).1 in
    rw (
      lookup-overlay volume_name_tag_key ((volume_name_tag_key, req.name) ∷ []) o.extra_volume_tags,
      free,
    )

-- A request that is well formed, as far as `CreateVolume` checks it before it looks for a disk.
pub record WellFormed (to_lower : String → String) (req : CreateVolumeRequest) (size : ℤ)
    (q : Parameters) (snapshot_id : String) : Type 0 where
  pub named : req.name ≢ ""
  pub sized : get_vol_size_bytes req.capacity_range ≡ ok size
  pub cap : VolumeCapability
  pub caps : List VolumeCapability
  pub capable : req.volume_capabilities ≡ cap ∷ caps
  pub supported : is_valid_volume_capabilities (cap ∷ caps) ≡ true
  pub parsed : parse_parameters to_lower req.parameters no_parameters ≡ ok q
  pub sourced : source_snapshot req.volume_content_source ≡ ok snapshot_id

module _ {S : Type 0} (to_lower : String → String) (cloud : Cloud S) (extra_tags : Dict String)
    (req : CreateVolumeRequest) (size : ℤ) (q : Parameters) (snapshot_id : String) (disk : Disk)
    (s' : S) (w : WellFormed to_lower req size q snapshot_id) (is_disk : disk.volume_id ≢ "") where
  abbrev reused : Result CreateVolumeResponse
  reused =
      if disk.snapshot_id == snapshot_id
      then ok (new_create_volume_response disk (context_extra q))
      else err (
          status already_exists_code
            "Volume already exists, but was restored from a different snapshot than %s")

  create_or_reuse-disk : create_or_reuse to_lower cloud extra_tags req size disk s' ≡ (reused, s')
  unfolding create_or_reuse
  create_or_reuse-disk =
      let id : (disk.volume_id == "") ≡ false = ground (arith, eq_iff disk.volume_id "", is_disk) in
      elim (Bool-cases (disk.snapshot_id == snapshot_id)) [
        | inl same ↦ rw (w.parsed, w.sourced, id, same)
        | inr other ↦ rw (w.parsed, w.sourced, id, other)
      ]

-- Where the look for a disk of the name and size that a well-formed request asks for gives a disk
-- with an id, `CreateVolume` creates none, and changes nothing beyond what the look changed: it
-- answers with that disk if it was made from the snapshot of the request, or from none as the
-- request, and with AlreadyExists if not.
pub create_volume_reuses :
    {S : Type 0} (to_lower : String → String) (cloud : Cloud S) (extra_tags : Dict String)
    (req : CreateVolumeRequest) (size : ℤ) (q : Parameters) (snapshot_id : String) (disk : Disk)
    (s s' : S)
    → WellFormed to_lower req size q snapshot_id
    → cloud.get_disk_by_name req.name size s ≡ (ok disk, s')
    → disk.volume_id ≢ ""
    → create_volume to_lower cloud extra_tags req s ≡ (
      if disk.snapshot_id == snapshot_id
          then ok (new_create_volume_response disk (context_extra q))
          else err (
              status already_exists_code
                "Volume already exists, but was restored from a different snapshot than %s"),
      s',
    )
unfolding create_volume
create_volume_reuses to_lower cloud extra_tags req size q snapshot_id disk s s' w found is_disk =
    let name : (req.name == "") ≡ false = ground (arith, eq_iff req.name "", w.named) in
    rw (name, w.sized, w.capable, w.supported, found)
      (create_or_reuse-disk to_lower cloud extra_tags req size q snapshot_id disk s' w is_disk)
