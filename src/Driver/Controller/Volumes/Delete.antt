-- ===== src/Driver/Controller/Volumes/Delete.antt =====
-- `DeleteVolume` over the Outscale API.
use osc_bsu_csi_driver.Prelude.{
  ℕ, suc, ◌<◌, String, ◌≡◌, ◌≢◌, false, Option, List, ◌∷◌, arith, eq_iff, ◌==◌,
}
use osc_bsu_csi_driver.Go.Dict.{Dict}
use osc_bsu_csi_driver.Go.Error.{GoError, ApiFault, api, not_found}
use osc_bsu_csi_driver.Go.Act.{ok, err}
use osc_bsu_csi_driver.Cloud.Platform.{Platform, BacksOff, failure}
use osc_bsu_csi_driver.Cloud.Retry.{State, throttled, take_reply}
use osc_bsu_csi_driver.Cloud.Retry.Outcome.{Throttles, world_after, retrying_refuses}
use osc_bsu_csi_driver.Cloud.Read.{is_missing, is_volume_not_found_error, refuse_missing}
use osc_bsu_csi_driver.Cloud.Volumes.{delete_disk}
use osc_bsu_csi_driver.Cloud.Interface.{osc_cloud}
use osc_bsu_csi_driver.Driver.Controller.Volumes.{delete_volume}

-- An error of the API that says that there is no such volume.
abbrev pub SaysMissing : GoError → Type 0
SaysMissing e =
    (fault : ApiFault) × (rest : List ApiFault) × (e ≡ api (fault ∷ rest))
    × (fault.type_of ≡ "InvalidResource")
    × (fault.code ≡ "5064")

refuses :
    {A : Type 0} (e other : GoError)
    → SaysMissing e
    → refuse_missing {A = A} (is_volume_not_found_error e) other ≡ err not_found
unfolding is_missing
refuses e other (fault, rest, is_api, kind, code) = rw (is_api, kind, code)

module _ {World : Type 0} (visit : Dict String → Dict String) (p : Platform World)
    (laws : BacksOff p) (region : String) where
  -- With a backoff as documented, `DeleteVolume` with an id succeeds where the API says that there
  -- is no such volume, with a code that is not that of throttling, after it has throttled the call
  -- any number of times below the steps of the backoff; no call is made after that answer.
  pub delete_volume_missing :
      (volume_id : String) (k : ℕ) (s : State World) (http : Option ℕ) (e : GoError)
      → volume_id ≢ ""
      → k < p.steps
      → Throttles (p.delete_volume volume_id) k s.world
      → (p.delete_volume volume_id (world_after (p.delete_volume volume_id) k s.world)).0
        ≡ failure http e
      → throttled http ≡ false
      → SaysMissing e
      → delete_volume (osc_cloud visit p region) volume_id s
        ≡ (ok tt, record s { world = world_after (p.delete_volume volume_id) (suc k) s.world })
  unfolding delete_volume delete_disk
  delete_volume_missing volume_id k s http e named enough throttles failed final
        (fault, rest, is_api, kind, code) =
      let given : (volume_id == "") ≡ false = ground (arith, eq_iff volume_id "") in
      rw (
        given,
        retrying_refuses p laws (p.delete_volume volume_id) take_reply _ k s http e not_found enough
            throttles failed final (refuses e _ (fault, rest, is_api, kind, code)),
      )
