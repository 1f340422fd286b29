-- ===== src/Examples/Api.antt =====
-- The cloud layer over the API of `Setup`.
use osc_bsu_csi_driver.Prelude.{ℕ, String, ◌≡◌, refl, some, [], ◌∷◌, arith, eq_iff}
use mathlib.Core.Bool.{false≢true}
use mathlib.Core.List.Perm
use osc_bsu_csi_driver.Go.Dict.{Dict, lookup, insert, delete, overlay}
use osc_bsu_csi_driver.Go.Strings.{trim_prefix}
use osc_bsu_csi_driver.Go.Int.{pos}
use osc_bsu_csi_driver.Go.Error.{errorf}
use osc_bsu_csi_driver.Go.Act.{ok, err}
use osc_bsu_csi_driver.DeviceManager.Allocator.{get_next}
use osc_bsu_csi_driver.DeviceManager.Manager.{
  new_device, get_names, add, del, attached, get_device_names_in_use, find_path, get_path,
  device_release, release, release_on, get_volume as volume_of, released_name,
}
use osc_bsu_csi_driver.DeviceManager.Manager.Names.{in_flight}
use osc_bsu_csi_driver.DeviceManager.Manager.InUse.{VisitsAll}
use osc_bsu_csi_driver.Cloud.Retry.{State, throttled, retrying, answer}
use osc_bsu_csi_driver.Cloud.Retry.Outcome.{Throttles}
use osc_bsu_csi_driver.Cloud.Read.{get_volume, get_instance, one_volume, one_instance}
use osc_bsu_csi_driver.Cloud.Volumes.{resize_disk}
use osc_bsu_csi_driver.Cloud.Attach.{
  attach_disk, attach_device, link, wait_for_attachment_state, verify_volume, attachment_reached,
}
use osc_bsu_csi_driver.Cloud.Attach.Reservations.{attach_disk_no_leak}
use osc_bsu_csi_driver.Cloud.Interface.{osc_cloud}
use osc_bsu_csi_driver.Driver.Controller.Volumes.{delete_volume}
use osc_bsu_csi_driver.Driver.Controller.Volumes.Delete.{delete_volume_missing}
use osc_bsu_csi_driver.Examples.Setup.{platform, platform-BacksOff, missing, backoff}

abbrev visit : Dict String → Dict String
visit m = m

visits : VisitsAll visit
visits m = Perm.refl m

-- Another volume is being attached to the node.
abbrev start : State ℕ
start = record { in_flight_attaching = ("i-1", ("c", "vol-2") ∷ []) ∷ []; world = 0 }

twice_throttled : Throttles (platform.delete_volume "vol-1") 2 0
unfolding throttled
twice_throttled =
    ((some 503, errorf "busy", refl, refl), ((some 503, errorf "busy", refl, refl), tt))

delete_volume_missing_example :
    delete_volume (osc_cloud visit platform "eu-west-2") "vol-1" start
    ≡ (ok tt, record start { world = 3 })
unfolding throttled
delete_volume_missing_example =
    delete_volume_missing visit platform platform-BacksOff "eu-west-2" "vol-1" 2 start (some 400)
      missing (λ e. false≢true ((eq_iff "vol-1" "").1 e)) (omega arith) twice_throttled refl refl
      (record { type_of = "InvalidResource"; code = "5064" }, [], refl, refl, refl)

resized :
    (resize_disk platform "vol-1" (pos 1000) start).0
    ≡ err (errorf "could not modify Outscale volume in non 'available' state: %v")
unfolding resize_disk get_volume one_volume retrying answer backoff
resized = refl

attached_lem :
    attach_disk visit platform "vol-1" "i-1" start
    ≡ (ok "/dev/xvdb", (attach_disk visit platform "vol-1" "i-1" start).1)
unfolding attach_disk get_instance one_instance retrying answer backoff new_device
    get_device_names_in_use attached get_path find_path get_next add get_names lookup insert overlay
    trim_prefix link wait_for_attachment_state verify_volume get_volume one_volume
    attachment_reached attach_device
attached_lem = refl

still_attaching :
    in_flight (attach_disk visit platform "vol-1" "i-1" start).1.in_flight_attaching "i-1" "c"
    ≡ some "vol-2"
unfolding attach_disk get_instance one_instance retrying answer backoff new_device
    get_device_names_in_use attached get_path find_path get_next add get_names lookup insert overlay
    trim_prefix link wait_for_attachment_state verify_volume get_volume one_volume
    attachment_reached attach_device device_release release release_on volume_of released_name del
    delete
still_attaching = refl

attach_disk_no_leak_example : in_flight start.in_flight_attaching "i-1" "c" ≡ some "vol-2"
attach_disk_no_leak_example =
    attach_disk_no_leak visit platform platform-BacksOff visits "vol-1" "i-1" "/dev/xvdb" start
      (attach_disk visit platform "vol-1" "i-1" start).1 (λ e. false≢true ((eq_iff "vol-1" "").1 e))
      attached_lem "i-1" "c" "vol-2" still_attaching
