-- ===== src/Examples/Detaching.antt =====
-- Detachments that find a reservation, and that find nothing.
use mathlib.Core.Path.{subst}
use mathlib.Core.Bool.{false≢true}
use mathlib.Core.List.Perm
use osc_bsu_csi_driver.Prelude.{ℕ, String, ◌≡◌, ◌≢◌, refl, none, [], ◌∷◌, eq_iff}
use osc_bsu_csi_driver.Go.Dict.{Dict, lookup, insert, overlay}
use osc_bsu_csi_driver.Go.Act.{ok}
use osc_bsu_csi_driver.DeviceManager.Allocator.{get_next}
use osc_bsu_csi_driver.DeviceManager.Manager.{
  InFlightAttaching, new_device, get_names, add, attached, get_device_names_in_use, find_path,
  get_path,
}
use osc_bsu_csi_driver.DeviceManager.Manager.Names.{in_flight}
use osc_bsu_csi_driver.DeviceManager.Manager.InUse.{VisitsAll}
use osc_bsu_csi_driver.DeviceManager.Manager.Trace.{OneName, new_call, run, run-OneName}
use osc_bsu_csi_driver.Cloud.Retry.{State, retrying, answer}
use osc_bsu_csi_driver.Cloud.Read.{get_volume, get_instance, one_volume, one_instance}
use osc_bsu_csi_driver.Cloud.Attach.{detach_disk}
use osc_bsu_csi_driver.Cloud.Attach.Detach.{detach_disk_releases}
use osc_bsu_csi_driver.Cloud.Interface.{osc_cloud}
use osc_bsu_csi_driver.Driver.Controller.Publish.{controller_unpublish_volume}
use osc_bsu_csi_driver.Driver.Controller.Publish.Detached.{controller_unpublish_volume_detached}
use osc_bsu_csi_driver.Examples.Setup.{platform, platform-BacksOff, vm, backoff}

abbrev visit : Dict String → Dict String
visit m = m

visits : VisitsAll visit
visits m = Perm.refl m

abbrev reserved : InFlightAttaching
reserved = ("i-1", ("b", "vol-1") ∷ []) ∷ []

reserved_lem : run visit (new_call vm "vol-1" ∷ []) [] ≡ reserved
unfolding run new_device get_device_names_in_use attached get_path find_path get_next add get_names
    lookup insert overlay
reserved_lem = refl

none_OneName : OneName []
unfolding get_names lookup
none_OneName node name name' volume h h' = cc

reserved-OneName : OneName reserved
reserved-OneName =
    subst OneName reserved_lem (run-OneName visit visits (new_call vm "vol-1" ∷ []) [] none_OneName)

named : (◌≢◌ {A = String} "vol-1" "")
named e = false≢true ((eq_iff "vol-1" "").1 e)

node_named : (◌≢◌ {A = String} "i-1" "")
node_named e = false≢true ((eq_iff "i-1" "").1 e)

abbrev held : State ℕ
held = record { in_flight_attaching = reserved; world = 0 }

abbrev free : State ℕ
free = record { in_flight_attaching = []; world = 0 }

detach_disk_releases_example :
    in_flight (detach_disk visit platform "vol-1" "i-1" held).1.in_flight_attaching "i-1" "b" ≡ none
unfolding get_volume get_instance one_volume one_instance retrying answer backoff attached lookup
    get_names
detach_disk_releases_example =
    detach_disk_releases visit platform platform-BacksOff visits "vol-1" "i-1" "i-1" "b" vm [] held
      (record held { world = 2 }) refl refl refl refl (λ n e. cc) reserved-OneName refl named "i-1"
      "b"

controller_unpublish_volume_detached_example :
    controller_unpublish_volume (osc_cloud visit platform "eu-west-2") "vol-1" "i-1" free
    ≡ (ok tt, record free { world = 2 })
unfolding get_volume get_instance one_volume one_instance retrying answer backoff attached lookup
    overlay get_names
controller_unpublish_volume_detached_example =
    controller_unpublish_volume_detached visit visits platform "eu-west-2" "vol-1" "i-1" vm [] free
      (record free { world = 2 }) named node_named refl refl refl (λ n e. cc)
