-- ===== src/Driver/Controller/Volumes.antt =====
-- pkg/driver/controller.go: creating, deleting, validating and expanding volumes.
pub mod Expand
pub mod Delete
pub mod Create
pub mod Answer
pub mod Built
pub mod Failure
pub mod Again
use osc_bsu_csi_driver.Prelude.{
  String, Bool, true, false, not, ◌&&◌, Option, none, some, List, [], ◌∷◌, ◌==◌, if◌then◌else◌,
}
use osc_bsu_csi_driver.Go.Dict.{Dict, overlay}
use osc_bsu_csi_driver.Go.Int.{ℤ, pos, int32, ltb_ℤ}
use osc_bsu_csi_driver.Go.Error.{
  GoError, status, invalid_argument, internal, not_found_code, already_exists_code, not_found,
  multi_disks, disk_exists_diff_size, is_not_found,
}
use osc_bsu_csi_driver.Go.Act.{Result, ok, err, Act, pure, raise, lift, attempt, ◌>>=◌, ◌>>◌}
use osc_bsu_csi_driver.Util.Size.{round_up_bytes, gib_to_bytes}
use osc_bsu_csi_driver.Cloud.Types.{Disk, DiskOptions, nil_disk, is_nil_disk, volume_name_tag_key}
use osc_bsu_csi_driver.Cloud.Interface.{Cloud}
use osc_bsu_csi_driver.Driver.Requests.{
  CreateVolumeRequest, CreateVolumeResponse, CapacityRange, ExpandResponse, VolumeCapability,
  VolumeSource, from_snapshot, from_other, topology_key,
}
use osc_bsu_csi_driver.Driver.Controller.Parameters.{
  Parameters, no_parameters, parse_parameters, context_extra,
}
use osc_bsu_csi_driver.Driver.Controller.Requirements.{
  is_valid_volume_capabilities, pick_availability_zone, get_vol_size_bytes,
}

-- The id of the snapshot that the request's source names.
unfoldable pub source_snapshot : Option VolumeSource → Result String
source_snapshot none = ok ""
source_snapshot (some from_other) =
    err (status invalid_argument "Unsupported volumeContentSource type")
source_snapshot (some (from_snapshot none)) =
    err (status invalid_argument "Error retrieving snapshot from the volumeContentSource")
source_snapshot (some (from_snapshot (some id))) = ok id

unfoldable pub new_create_volume_response : Disk → Dict String → CreateVolumeResponse
new_create_volume_response disk extra = record {
  volume_id = disk.volume_id;
  capacity_bytes = gib_to_bytes disk.capacity_gib;
  volume_context = extra;
  accessible_topology = ((topology_key, disk.availability_zone) ∷ []) ∷ [];
  content_source = if disk.snapshot_id == "" then none else some disk.snapshot_id;
}

-- What `CreateVolume` answers where looking for the disk has failed, ErrNotFound excepted.
unfoldable pub lookup_failed : GoError → GoError
lookup_failed multi_disks = status internal "Multiple disks with same name"
lookup_failed disk_exists_diff_size =
    status already_exists_code "There is already a disk with same name and different size"
lookup_failed _ = status internal "%v"

-- What it answers where creating the disk has failed.
unfoldable pub creation_failed : GoError → GoError
creation_failed e =
    status (if is_not_found e then not_found_code else internal) "Could not create volume %q: %v"

-- The options that it creates a disk with, `extra_tags` being those of the driver.
unfoldable pub disk_options :
    Dict String → CreateVolumeRequest → ℤ → Parameters → String → DiskOptions
disk_options extra_tags req size q snapshot_id = record {
  capacity_bytes = size;
  tags = overlay ((volume_name_tag_key, req.name) ∷ []) extra_tags;
  volume_type = q.volume_type;
  iops_per_gb = q.iops_per_gb;
  availability_zone = pick_availability_zone req.accessibility_requirements;
  encrypted = q.is_encrypted;
  kms_key_id = q.kms_key_id;
  snapshot_id = snapshot_id;
}

module _ {S : Type 0} (to_lower : String → String) (cloud : Cloud S)
    (extra_tags : Dict String) where
  -- `CreateVolume` after the look for a disk of the name, which is the nil disk where there is none.
  unfoldable pub create_or_reuse : CreateVolumeRequest → ℤ → Disk → Act S CreateVolumeResponse
  create_or_reuse req size disk = do
    q ← lift (parse_parameters to_lower req.parameters no_parameters)
    snapshot_id ← lift (source_snapshot req.volume_content_source)
    if not (is_nil_disk disk)
        then if not (disk.snapshot_id == snapshot_id)
          then raise (
              status already_exists_code
                "Volume already exists, but was restored from a different snapshot than %s")
          else pure (new_create_volume_response disk (context_extra q))
        else attempt (cloud.create_disk req.name (disk_options extra_tags req size q snapshot_id))
            (λ made. pure (new_create_volume_response made (context_extra q)))
            (λ e. raise (creation_failed e))

  unfoldable pub create_volume : CreateVolumeRequest → Act S CreateVolumeResponse
  create_volume req =
      if req.name == "" then raise (status invalid_argument "Volume name not provided") else do
        size ← lift (get_vol_size_bytes req.capacity_range)
        elim req.volume_capabilities [
          | [] ↦ raise (status invalid_argument "Volume capabilities not provided")
          | c ∷ rest ↦
              if not (is_valid_volume_capabilities (c ∷ rest))
              then raise (status invalid_argument "Volume capabilities not supported")
              else attempt (cloud.get_disk_by_name req.name size)
                  (λ disk. create_or_reuse req size disk)
                  (λ e.
                    if is_not_found e
                    then create_or_reuse req size nil_disk
                    else raise (lookup_failed e))
        ]

module _ {S : Type 0} (cloud : Cloud S) where
  unfoldable pub delete_volume : String → Act S (Unit {0})
  delete_volume volume_id =
      if volume_id == ""
      then raise (status invalid_argument "Volume ID not provided")
      else attempt (cloud.delete_disk volume_id) (λ _. pure tt)
          (λ e.
            if is_not_found e
            then pure tt
            else raise (status internal "Could not delete volume ID %q: %v"))

  -- The response holds the capabilities that are confirmed: all of them, or `none`.
  unfoldable pub validate_volume_capabilities :
      String → List VolumeCapability → Act S (Option (List VolumeCapability))
  validate_volume_capabilities volume_id caps =
      if volume_id == ""
      then raise (status invalid_argument "Volume ID not provided")
      else elim caps [
        | [] ↦ raise (status invalid_argument "Volume capabilities not provided")
        | c ∷ rest ↦
            attempt (cloud.get_disk_by_id volume_id)
              (λ _.
                pure (if is_valid_volume_capabilities (c ∷ rest) then some (c ∷ rest) else none))
              (λ e.
                if is_not_found e
                then raise (status not_found_code "Volume not found")
                else raise (status internal "Could not get volume with ID %q: %v"))
      ]

  -- The limit is converted to `int32`, and so is the new size where the two are compared.
  unfoldable pub controller_expand_volume : String → Option CapacityRange → Act S ExpandResponse
  controller_expand_volume volume_id none =
      if volume_id == ""
      then raise (status invalid_argument "Volume ID not provided")
      else raise (status invalid_argument "Capacity range not provided")
  controller_expand_volume volume_id (some r) =
      let new_size = round_up_bytes r.required_bytes in
      let max_vol_size = int32 r.limit_bytes in
      if volume_id == ""
      then raise (status invalid_argument "Volume ID not provided")
      else if ltb_ℤ (pos 0) max_vol_size && ltb_ℤ max_vol_size (int32 new_size)
      then raise (status invalid_argument "After round-up, volume size exceeds the limit specified")
      else attempt (cloud.resize_disk volume_id new_size)
          (λ actual.
            pure (record { capacity_bytes = gib_to_bytes actual; node_expansion_required = true }))
          (λ _. raise (status internal "Could not resize volume %q: %v"))
