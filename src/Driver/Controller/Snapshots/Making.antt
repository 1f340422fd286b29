-- ===== src/Driver/Controller/Snapshots/Making.antt =====
-- What a snapshot is that `CreateSnapshot` answers with, over the Outscale API.
use Prim.Native.String.{◌++◌ as concat}
use osc_bsu_csi_driver.Prelude.{String, ◌≡◌, ◌≢◌, Bool, true, false, Option, some, [], ◌∷◌}
use osc_bsu_csi_driver.Go.Dict.{Dict, or_zero}
use osc_bsu_csi_driver.Go.Error.{is_not_found}
use osc_bsu_csi_driver.Go.Act.{Result, ok, err, panic, Act}
use osc_bsu_csi_driver.Go.Act.Success.{Runs}
use osc_bsu_csi_driver.Cloud.Types.{Snapshot, is_nil_snapshot, snapshot_name_tag_key}
use osc_bsu_csi_driver.Cloud.Platform.{Platform, OscSnapshot}
use osc_bsu_csi_driver.Cloud.Retry.{State, retrying, take_reply, fail}
use osc_bsu_csi_driver.Cloud.Snapshots
use osc_bsu_csi_driver.Cloud.Snapshots.{osc_snapshot_response_to_struct, get_snapshot_by_name}
use osc_bsu_csi_driver.Driver.Controller.Snapshots.{create_snapshot}

-- The look for a snapshot has found none: ErrNotFound, or a snapshot without an id.
abbrev pub absent : Result Snapshot → Bool
absent (ok snapshot) = is_nil_snapshot snapshot
absent (err e) = is_not_found e
absent panic = false

module _ {World : Type 0} (p : Platform World) where
  abbrev pub snapshotting : String → Act (State World) (Option OscSnapshot)
  snapshotting volume_id =
      retrying p
        (p.create_snapshot (record {
          volume_id = volume_id;
          description = concat "Created by Outscale BSU CSI driver for volume " volume_id;
        }))
        take_reply fail

  abbrev pub tagging : OscSnapshot → String → Act (State World) (Unit {0})
  tagging o name =
      retrying p
        (p.create_tags (record {
          resource_ids = or_zero "" o.snapshot_id ∷ [];
          tags = (snapshot_name_tag_key, name) ∷ [];
        }))
        take_reply fail

  -- How a snapshot came about, from the state `s` to `s'`: it was made of the volume, and then given
  -- the tag with its name.
  pub record Made (name volume_id : String) (snapshot : Snapshot) (s s' : State World)
      : Type 0 where
    pub o : OscSnapshot
    pub s₁ : State World
    pub taken : Runs (snapshotting volume_id) s (some o) s₁
    pub tagged : Runs (tagging o name) s₁ tt s'
    pub answer : snapshot ≡ osc_snapshot_response_to_struct o

  -- Where the snapshot of an answer comes from.
  pub data Origin (name volume_id : String) (snapshot : Snapshot) (s s' : State World)
      : Type 0 where
    -- It was found, as a snapshot of the volume, and nothing was done after the look.
    reused :
        Runs (get_snapshot_by_name p name) s snapshot s'
        → snapshot.snapshot_id ≢ ""
        → snapshot.source_volume_id ≡ volume_id
        → Origin name volume_id snapshot s s'
    -- None was found, and it was made.
    fresh :
        absent (get_snapshot_by_name p name s).0 ≡ true
        → Made name volume_id snapshot (get_snapshot_by_name p name s).1 s'
        → Origin name volume_id snapshot s s'
