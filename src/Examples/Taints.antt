-- ===== src/Examples/Taints.antt =====
-- An attachment that is never reported.
use osc_bsu_csi_driver.Prelude.{ℕ, suc, String, ◌≡◌, refl, [], ◌∷◌, false}
use osc_bsu_csi_driver.Go.Dict.{Dict, lookup, insert, overlay}
use osc_bsu_csi_driver.Go.Error.{wait_timeout}
use osc_bsu_csi_driver.Go.Act.{ok, err}
use osc_bsu_csi_driver.DeviceManager.Allocator.{get_next}
use osc_bsu_csi_driver.DeviceManager.Manager.{
  InFlightAttaching, Device, new_device, get_names, add, attached, get_device_names_in_use,
  find_path, get_path,
}
use osc_bsu_csi_driver.Cloud.Platform.{Platform, BacksOff, reply}
use osc_bsu_csi_driver.Cloud.Retry.{State, retrying, answer}
use osc_bsu_csi_driver.Cloud.Read.{get_volume, get_instance, one_volume, one_instance}
use osc_bsu_csi_driver.Cloud.Attach.{
  attach_disk, link, wait_for_attachment_state, verify_volume, attachment_reached,
}
use osc_bsu_csi_driver.Cloud.Attach.Taint.{attach_disk_keeps_reservation}
use osc_bsu_csi_driver.Examples.Setup.{platform, volume, vm, backoff}

abbrev unlinked : Platform ℕ
unlinked = record platform {
  read_volumes = λ f w. (reply (record volume { linked_states = [] } ∷ []), suc w);
  steps = 2;
}

unlinked-BacksOff : BacksOff unlinked
unfolding backoff
unlinked-BacksOff = record { exhausted = λ S A check s. refl; checked = λ S A n check s. refl }

abbrev visit : Dict String → Dict String
visit m = m

abbrev reserved : InFlightAttaching
reserved = ("i-1", ("b", "vol-1") ∷ []) ∷ []

abbrev device : Device
device = record {
  instance_vm = vm;
  path = "/dev/xvdb";
  volume_id = "vol-1";
  is_already_assigned = false;
  is_tainted = false;
}

abbrev at : ℕ → State ℕ
at n = record { in_flight_attaching = reserved; world = n }

abbrev start : State ℕ
start = record { in_flight_attaching = []; world = 0 }

got : get_instance unlinked "i-1" start ≡ (ok vm, record start { world = 1 })
unfolding get_instance one_instance retrying answer backoff
got = refl

made : new_device visit vm "vol-1" [] ≡ (ok device, reserved)
unfolding new_device get_device_names_in_use attached get_path find_path get_next add get_names
    lookup insert overlay
made = refl

linked : link visit unlinked "vol-1" "i-1" device (at 1) ≡ (ok tt, at 2)
unfolding link retrying answer backoff
linked = refl

waited :
    wait_for_attachment_state visit unlinked "vol-1" "attached" (at 2) ≡ (err wait_timeout, at 4)
unfolding wait_for_attachment_state verify_volume get_volume one_volume retrying answer backoff
    attachment_reached
waited = refl

attach_disk_keeps_reservation_example :
    (attach_disk visit unlinked "vol-1" "i-1" start ≡ (err wait_timeout, at 4))
    × ((at 4).in_flight_attaching ≡ reserved)
attach_disk_keeps_reservation_example =
    attach_disk_keeps_reservation visit unlinked unlinked-BacksOff "vol-1" "i-1" vm device reserved
      wait_timeout start (record start { world = 1 }) (at 2) (at 4) got made linked waited
