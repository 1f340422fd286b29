-- ===== src/Examples/Snapshots.antt =====
-- An account with two snapshots, of which the tags are not set: a look for a name finds none, and a
-- list has them, after a throttled call.
use osc_bsu_csi_driver.Prelude.{
  String, ℕ, suc, ◌≡◌, refl, true, some, [], ◌∷◌, ltb, if◌then◌else◌, arith,
}
use osc_bsu_csi_driver.Go.Dict.{Dict}
use osc_bsu_csi_driver.Go.Int.{pos}
use osc_bsu_csi_driver.Go.Error.{errorf}
use osc_bsu_csi_driver.Go.Act.{ok}
use osc_bsu_csi_driver.Util.Size.{gib_to_bytes}
use osc_bsu_csi_driver.Cloud.Types.{Snapshot}
use osc_bsu_csi_driver.Cloud.Platform.{Platform, OscSnapshot, BacksOff, by_tag, reply, failure}
use osc_bsu_csi_driver.Cloud.Retry.{State, throttled}
use osc_bsu_csi_driver.Cloud.Snapshots
use osc_bsu_csi_driver.Cloud.Interface.{osc_cloud}
use osc_bsu_csi_driver.Driver.Requests.{ListSnapshotsRequest}
use osc_bsu_csi_driver.Driver.Controller.Snapshots.{create_snapshot, list_snapshots}
use osc_bsu_csi_driver.Driver.Controller.Snapshots.Listing.{listed, list_snapshots-listed}
use osc_bsu_csi_driver.Examples.Setup.{platform, backoff}

abbrev taken : OscSnapshot
taken = record {
  snapshot_id = some "snap-1";
  volume_id = some "vol-1";
  volume_size = some (pos 40);
  state = some "completed";
}

abbrev account : Platform ℕ
account = record platform {
  create_snapshot = λ r w. (reply (some taken), suc w);
  read_snapshots = λ f w. (
    elim f [
      | by_tag _ _ ↦ reply []
      | _ ↦ if ltb w 1 then failure (some 503) (errorf "busy") else reply (taken ∷ taken ∷ [])
    ],
    suc w,
  );
}

account-BacksOff : BacksOff account
unfolding backoff
account-BacksOff = record { exhausted = λ S A check s. refl; checked = λ S A n check s. refl }

abbrev visit : Dict String → Dict String
visit m = m

abbrev at : ℕ → State ℕ
at n = record { in_flight_attaching = []; world = n }

abbrev snapshot : Snapshot
snapshot = record {
  snapshot_id = "snap-1";
  source_volume_id = "vol-1";
  size = gib_to_bytes (pos 40);
  ready_to_use = true;
}

-- The request allows one entry, and has a token.
abbrev request : ListSnapshotsRequest
request = record {
  snapshot_id = "";
  source_volume_id = "vol-1";
  starting_token = "page-2";
  max_entries = pos 1;
}

list_snapshots-listed_example :
    list_snapshots (osc_cloud visit account "eu-west-2") request (at 0)
    ≡ (ok (listed "page-2" (taken ∷ taken ∷ [])), at 2)
unfolding throttled
list_snapshots-listed_example =
    list_snapshots-listed visit account account-BacksOff "eu-west-2" request 1 (at 0)
      (taken ∷ taken ∷ []) refl (omega arith) ((some 503, errorf "busy", refl, refl), tt) refl
