-- ===== src/Cloud/Volumes.antt =====
-- pkg/cloud/cloud.go: creating, deleting, finding and resizing disks.
pub mod Sizes
pub mod Creation
pub mod Errors
use osc_bsu_csi_driver.Prelude.{
  String, Bool, true, false, not, Option, none, some, List, [], ◌∷◌, ◌==◌, if◌then◌else◌,
}
use Prim.Native.String.{◌++◌ as concat}
use osc_bsu_csi_driver.Go.Dict.{or_zero}
use osc_bsu_csi_driver.Go.Int.{ℤ, pos, ◌*ℤ◌, int32, int64, ltb_ℤ, eqb_ℤ}
use osc_bsu_csi_driver.Go.Error.{GoError, errorf, disk_exists_diff_size}
use osc_bsu_csi_driver.Go.Act.{Result, ok, err, panic, Act, pure, raise, attempt, ◌>>=◌, ◌>>◌}
use osc_bsu_csi_driver.Util.Size.{bytes_to_gib, round_up_gib}
use osc_bsu_csi_driver.Cloud.Types.{
  Disk, DiskOptions, volume_type_gp2, volume_type_standard, volume_type_io1, default_volume_type,
  min_total_iops, max_total_iops, max_iops_per_gb, volume_name_tag_key,
}
use osc_bsu_csi_driver.Cloud.Platform.{Platform, Volume, CreateVolumeRequest, by_ids, by_tag}
use osc_bsu_csi_driver.Cloud.Retry.{State, retrying, take_reply, fail_with}
use osc_bsu_csi_driver.Cloud.Read.{get_volume, is_volume_not_found_error, refuse_missing}

-- The IOPS of an io1 volume: per GB up to a limit, in total within two.
unfoldable pub iops_for : ℤ → ℤ → ℤ
iops_for capacity_gib iops_per_gb =
    let per_gb = if ltb_ℤ max_iops_per_gb iops_per_gb then pos 300 else iops_per_gb in
    let iops = int64 (capacity_gib *ℤ per_gb) in
    let at_least = if ltb_ℤ iops min_total_iops then min_total_iops else iops in
    if ltb_ℤ max_total_iops at_least then max_total_iops else at_least

-- The type and the IOPS of the request, by the `switch` on the volume type.
unfoldable pub type_and_iops : DiskOptions → Result (String × Option ℤ)
type_and_iops o =
    if o.volume_type == volume_type_gp2
    then ok (o.volume_type, none)
    else if o.volume_type == volume_type_standard
    then ok (o.volume_type, none)
    else if o.volume_type == volume_type_io1
    then ok (o.volume_type, some (int32 (iops_for (bytes_to_gib o.capacity_bytes) o.iops_per_gb)))
    else if o.volume_type == ""
    then ok (default_volume_type, none)
    else err (errorf "invalid Outscale VolumeType %q")

-- The request that `CreateDisk` sends, or the error that stops it before.
unfoldable pub create_request : String → DiskOptions → Result CreateVolumeRequest
create_request region o = elim (type_and_iops o) [
  | err e ↦ err e
  | panic ↦ panic
  | ok t ↦
      if not (o.kms_key_id == "")
      then err (errorf "Encryption is not supported yet by Outscale API")
      else ok (record {
        size = int32 (bytes_to_gib o.capacity_bytes);
        volume_type = t.0;
        iops = t.1;
        subregion_name =
            if o.availability_zone == "" then concat region "a" else o.availability_zone;
        snapshot_id = if o.snapshot_id == "" then none else some o.snapshot_id;
      })
]

-- The volume that `CreateVolume` returned, with its id and its size.
unfoldable pub created : Option Volume → Result (String × ℤ)
created none = err (errorf "volume is empty when returned by CreateVolume")
created (some v) =
    if or_zero "" v.volume_id == ""
    then err (errorf "volume ID was not returned by CreateVolume")
    else if eqb_ℤ (or_zero (pos 0) v.size) (pos 0)
    then err (errorf "disk size was not returned by CreateVolume")
    else ok (or_zero "" v.volume_id, or_zero (pos 0) v.size)

module _ {World : Type 0} (p : Platform World) where
  -- One check of `waitForVolume`; any error of `getVolume` ends the wait.
  unfoldable pub volume_available : String → Act (State World) (Option (Unit {0}))
  volume_available volume_id = do
    vol ← get_volume p (by_ids (volume_id ∷ []))
    if or_zero "" vol.state == "available" then pure (some tt) else pure none

  unfoldable pub wait_for_volume : String → Act (State World) (Unit {0})
  wait_for_volume volume_id = p.poll (State World) (Unit {0}) (volume_available volume_id)

  -- `region` is that of the cloud; the tags are listed in the order in which they are visited.
  unfoldable pub create_disk : String → String → DiskOptions → Act (State World) Disk
  create_disk region name o = do
    request ← (λ s. (create_request region o, s))
    creation ←
        retrying p (p.create_volume request) take_reply
          (fail_with (errorf "could not create volume in Outscale: %v"))
    (volume_id, size) ← (λ s. (created creation, s))
    retrying p (p.create_tags (record { resource_ids = volume_id ∷ []; tags = o.tags })) take_reply
        (fail_with (errorf "error creating tags %v of volume %v: %v, http Status: %v"))
    attempt (wait_for_volume volume_id)
        (λ _. pure (record {
          volume_id = volume_id;
          capacity_gib = size;
          availability_zone = request.subregion_name;
          snapshot_id = o.snapshot_id;
        }))
        (λ _. raise (errorf "failed to get an available volume in Outscale: %v"))

  unfoldable pub delete_disk : String → Act (State World) Bool
  delete_disk volume_id = do
    retrying p (p.delete_volume volume_id) take_reply (λ e.
        refuse_missing (is_volume_not_found_error e)
          (errorf "DeleteDisk could not delete volume in Outscale: %v"))
    pure true

  -- The `Disk` of a volume that was read.
  abbrev pub disk_of : Volume → Disk
  disk_of v = record {
    volume_id = or_zero "" v.volume_id;
    capacity_gib = or_zero (pos 0) v.size;
    availability_zone = or_zero "" v.subregion_name;
    snapshot_id = or_zero "" v.snapshot_id;
  }

  unfoldable pub get_disk_by_name : String → ℤ → Act (State World) Disk
  get_disk_by_name name capacity_bytes = do
    volume ← get_volume p (by_tag volume_name_tag_key name)
    if not (eqb_ℤ (or_zero (pos 0) volume.size) (bytes_to_gib capacity_bytes))
        then raise disk_exists_diff_size
        else pure (disk_of volume)

  unfoldable pub get_disk_by_id : String → Act (State World) Disk
  get_disk_by_id volume_id = do
    volume ← get_volume p (by_ids (volume_id ∷ []))
    pure (disk_of volume)

  -- Both sizes are `int32` values. The size comes back beside the error too; no caller reads it.
  unfoldable pub check_desired_size : String → ℤ → Act (State World) ℤ
  check_desired_size volume_id new_size_gib = do
    volume ← get_volume p (by_ids (volume_id ∷ []))
    let old_size_gib = or_zero (pos 0) volume.size
    if ltb_ℤ old_size_gib (int32 new_size_gib)
        then raise (errorf "volume %q is still being expanded to %d size")
        else pure old_size_gib

  unfoldable pub resize_disk : String → ℤ → Act (State World) ℤ
  resize_disk volume_id new_size_bytes = do
    volume ← get_volume p (by_ids (volume_id ∷ []))
    if not (or_zero "" volume.state == "available")
        then raise (errorf "could not modify Outscale volume in non 'available' state: %v")
        else do
          let new_size_gib = int32 (round_up_gib new_size_bytes)
          let old_size_gib = or_zero (pos 0) volume.size
          if not (ltb_ℤ old_size_gib new_size_gib) then pure old_size_gib else do
            retrying p (p.update_volume (record { size = new_size_gib; volume_id = volume_id }))
                take_reply (fail_with (errorf "could not modify volume %q: %v"))
            check_desired_size volume_id new_size_gib
