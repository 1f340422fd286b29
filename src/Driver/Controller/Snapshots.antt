-- ===== src/Driver/Controller/Snapshots.antt =====
-- pkg/driver/controller.go: snapshots.
pub mod Listing
pub mod Making
use osc_bsu_csi_driver.Prelude.{String, not, [], ◌∷◌, ◌==◌, if◌then◌else◌}
use osc_bsu_csi_driver.Go.Error.{
  status, invalid_argument, internal, already_exists_code, is_not_found, is_invalid_max_results,
}
use osc_bsu_csi_driver.Go.Act.{Act, pure, raise, attempt}
use osc_bsu_csi_driver.Cloud.Types.{
  Snapshot, ListSnapshotsResponse, nil_snapshot, is_nil_snapshot, snapshot_name_tag_key,
}
use osc_bsu_csi_driver.Cloud.Interface.{Cloud}
use osc_bsu_csi_driver.Driver.Requests.{ListSnapshotsRequest, ListResponse}

-- `newListSnapshotsResponse`; an entry has the fields of a snapshot.
unfoldable pub new_list_snapshots_response : ListSnapshotsResponse → ListResponse
new_list_snapshots_response r = record { entries = r.snapshots; next_token = r.next_token }

module _ {S : Type 0} (cloud : Cloud S) where
  -- `CreateSnapshot` after the look for a snapshot of the name, nil where there is none.
  unfoldable pub create_or_reuse_snapshot : String → String → Snapshot → Act S Snapshot
  create_or_reuse_snapshot name volume_id snapshot =
      if not (is_nil_snapshot snapshot)
      then if not (snapshot.source_volume_id == volume_id)
        then raise
            (status already_exists_code "Snapshot %s already exists for different volume (%s)")
        else pure snapshot
      else attempt (cloud.create_snapshot volume_id ((snapshot_name_tag_key, name) ∷ []))
          (λ made. pure made) (λ _. raise (status internal "Could not create snapshot %q: %v"))

  -- An error of the look that is not ErrNotFound is returned as it is, with no status code.
  unfoldable pub create_snapshot : String → String → Act S Snapshot
  create_snapshot name volume_id =
      if name == ""
      then raise (status invalid_argument "Snapshot name not provided")
      else if volume_id == ""
      then raise (status invalid_argument "Snapshot volume source ID not provided")
      else attempt (cloud.get_snapshot_by_name name)
          (λ snapshot. create_or_reuse_snapshot name volume_id snapshot)
          (λ e.
            if is_not_found e
            then create_or_reuse_snapshot name volume_id nil_snapshot
            else raise e)

  unfoldable pub delete_snapshot : String → Act S (Unit {0})
  delete_snapshot snapshot_id =
      if snapshot_id == ""
      then raise (status invalid_argument "Snapshot ID not provided")
      else attempt (cloud.delete_snapshot snapshot_id) (λ _. pure tt)
          (λ e.
            if is_not_found e
            then pure tt
            else raise (status internal "Could not delete snapshot ID %q: %v"))

  abbrev no_entries : ListResponse
  no_entries = record { entries = []; next_token = "" }

  unfoldable pub list_snapshots : ListSnapshotsRequest → Act S ListResponse
  list_snapshots req =
      if not (req.snapshot_id == "")
      then attempt (cloud.get_snapshot_by_id req.snapshot_id)
          (λ snapshot.
            pure
              (new_list_snapshots_response (record { snapshots = snapshot ∷ []; next_token = "" })))
          (λ e.
            if is_not_found e
            then pure no_entries
            else raise (status internal "Could not get snapshot ID %q: %v"))
      else attempt (cloud.list_snapshots req.source_volume_id req.max_entries req.starting_token)
          (λ found. pure (new_list_snapshots_response found))
          (λ e.
            if is_not_found e
            then pure no_entries
            else if is_invalid_max_results e
            then raise (status invalid_argument "Error mapping MaxEntries to OSC MaxResults: %v")
            else raise (status internal "Could not list snapshots: %v"))
