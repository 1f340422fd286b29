-- ===== src/Cloud/Snapshots.antt =====
-- pkg/cloud/cloud.go: creating, deleting and finding snapshots.
use osc_bsu_csi_driver.Prelude.{
  String, Bool, true, Option, none, some, [], ◌∷◌, map, ◌==◌, if◌then◌else◌,
}
use Prim.Native.String.{◌++◌ as concat}
use osc_bsu_csi_driver.Go.Dict.{Dict, or_zero}
use osc_bsu_csi_driver.Go.Int.{ℤ, pos}
use osc_bsu_csi_driver.Go.Error.{errorf, not_found}
use osc_bsu_csi_driver.Go.Act.{Result, ok, err, Act, pure, raise, lift, ◌>>=◌, ◌>>◌}
use osc_bsu_csi_driver.Util.Size.{gib_to_bytes}
use osc_bsu_csi_driver.Cloud.Types.{
  Snapshot, ListSnapshotsResponse, snapshot_name_tag_key, nil_snapshot,
}
use osc_bsu_csi_driver.Cloud.Platform.{Platform, OscSnapshot, by_ids, by_tag, by_volumes}
use osc_bsu_csi_driver.Cloud.Retry.{State, retrying, take_reply, fail}
use osc_bsu_csi_driver.Cloud.Read.{
  get_snapshot, list_osc_snapshots, is_snapshot_not_found_error, refuse_missing,
}

-- `oscSnapshotResponseToStruct`: the zero `Snapshot` where the id, the volume or the state is unset.
unfoldable pub osc_snapshot_response_to_struct : OscSnapshot → Snapshot
osc_snapshot_response_to_struct o = elim o.snapshot_id [
  | none ↦ nil_snapshot
  | some id ↦ elim o.volume_id [
    | none ↦ nil_snapshot
    | some volume ↦ elim o.state [
      | none ↦ nil_snapshot
      | some state ↦ record {
        snapshot_id = id;
        source_volume_id = volume;
        size = gib_to_bytes (or_zero (pos 0) o.volume_size);
        ready_to_use = state == "completed";
      }
    ]
  ]
]

unfoldable pub present : Option OscSnapshot → Result OscSnapshot
present none = err (errorf "nil CreateSnapshotResponse")
present (some o) = ok o

module _ {World : Type 0} (p : Platform World) where
  unfoldable pub create_snapshot : String → Dict String → Act (State World) Snapshot
  create_snapshot volume_id tags = do
    res ←
        retrying p
          (p.create_snapshot (record {
            volume_id = volume_id;
            description = concat "Created by Outscale BSU CSI driver for volume " volume_id;
          }))
          take_reply fail
    o ← lift (present res)
    retrying p
        (p.create_tags (record { resource_ids = or_zero "" o.snapshot_id ∷ []; tags = tags }))
        take_reply fail
    pure (osc_snapshot_response_to_struct o)

  unfoldable pub delete_snapshot : String → Act (State World) Bool
  delete_snapshot snapshot_id = do
    retrying p (p.delete_snapshot snapshot_id) take_reply (λ e.
        refuse_missing (is_snapshot_not_found_error e)
          (errorf "DeleteSnapshot could not delete volume: %v"))
    pure true

  unfoldable pub get_snapshot_by_name : String → Act (State World) Snapshot
  get_snapshot_by_name name = do
    o ← get_snapshot p (by_tag snapshot_name_tag_key name)
    pure (osc_snapshot_response_to_struct o)

  unfoldable pub get_snapshot_by_id : String → Act (State World) Snapshot
  get_snapshot_by_id snapshot_id = do
    o ← get_snapshot p (by_ids (snapshot_id ∷ []))
    pure (osc_snapshot_response_to_struct o)

  -- The number of results is not looked at.
  unfoldable pub list_snapshots : String → ℤ → String → Act (State World) ListSnapshotsResponse
  list_snapshots volume_id _ next_token = do
    found ← list_osc_snapshots p (by_volumes (if volume_id == "" then [] else volume_id ∷ []))
    elim found [
      | [] ↦ raise not_found
      | o ∷ rest ↦ pure (record {
        snapshots = map osc_snapshot_response_to_struct (o ∷ rest);
        next_token = next_token;
      })
    ]
