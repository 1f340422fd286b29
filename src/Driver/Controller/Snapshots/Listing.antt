-- ===== src/Driver/Controller/Snapshots/Listing.antt =====
-- `ListSnapshots` over the Outscale API.
use osc_bsu_csi_driver.Prelude.{
  ℕ, suc, ◌<◌, String, ◌≡◌, refl, List, [], ◌∷◌, map, ◌==◌, if◌then◌else◌,
}
use osc_bsu_csi_driver.Go.Dict.{Dict}
use osc_bsu_csi_driver.Go.Act.{ok}
use osc_bsu_csi_driver.Cloud.Platform.{Platform, BacksOff, OscSnapshot, Filters, by_volumes, reply}
use osc_bsu_csi_driver.Cloud.Retry.{State, take_reply, fail}
use osc_bsu_csi_driver.Cloud.Retry.Outcome.{Throttles, world_after, retrying_survives}
use osc_bsu_csi_driver.Cloud.Read.{list_osc_snapshots}
use osc_bsu_csi_driver.Cloud.Snapshots
use osc_bsu_csi_driver.Cloud.Snapshots.{osc_snapshot_response_to_struct}
use osc_bsu_csi_driver.Cloud.Interface.{osc_cloud}
use osc_bsu_csi_driver.Driver.Requests.{ListSnapshotsRequest, ListResponse}
use osc_bsu_csi_driver.Driver.Controller.Snapshots.{list_snapshots, new_list_snapshots_response}

-- The filter of the read that a request asks for.
abbrev pub filter_of : ListSnapshotsRequest → Filters
filter_of req = by_volumes (if req.source_volume_id == "" then [] else req.source_volume_id ∷ [])

-- All the snapshots of a reply, with the token that the request came with, or nothing.
pub listed : String → List OscSnapshot → ListResponse
listed token [] = record { entries = []; next_token = "" }
listed token (o ∷ rest) = record {
  entries = map osc_snapshot_response_to_struct (o ∷ rest);
  next_token = token;
}

module _ {World : Type 0} (visit : Dict String → Dict String) (p : Platform World)
    (laws : BacksOff p) (region : String) where
  -- With a backoff as documented, `ListSnapshots` without a snapshot's id, where the read of the
  -- snapshots is throttled fewer times than the backoff has steps and then replies, answers with
  -- all the snapshots of the reply, in its order, whatever the number of entries that the request
  -- allows, and with the request's own starting token as the token of the next page; where the
  -- reply has none, it succeeds with no entries and no token.
  pub list_snapshots-listed :
      (req : ListSnapshotsRequest) (k : ℕ) (s : State World) (os : List OscSnapshot)
      → req.snapshot_id ≡ ""
      → k < p.steps
      → Throttles (p.read_snapshots (filter_of req)) k s.world
      → (p.read_snapshots
          (filter_of req)
          (world_after (p.read_snapshots (filter_of req)) k s.world)).0
        ≡ reply os
      → list_snapshots (osc_cloud visit p region) req s ≡ (
        ok (listed req.starting_token os),
        record s { world = world_after (p.read_snapshots (filter_of req)) (suc k) s.world },
      )
  unfolding list_snapshots Snapshots.list_snapshots list_osc_snapshots listed
      new_list_snapshots_response
  list_snapshots-listed req k s [] no_id enough throttles replied = rw (
    no_id,
    retrying_survives p laws (p.read_snapshots (filter_of req)) take_reply fail k s [] [] enough
        throttles replied refl,
  )
  list_snapshots-listed req k s (o ∷ rest) no_id enough throttles replied = rw (
    no_id,
    retrying_survives p laws (p.read_snapshots (filter_of req)) take_reply fail k s (o ∷ rest)
        (o ∷ rest) enough throttles replied refl,
  )
