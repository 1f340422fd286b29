-- ===== src/Examples/Attachments.antt =====
-- An attachment that the second read reports.
use osc_bsu_csi_driver.Prelude.{
  ℕ, suc, String, ◌≡◌, refl, [], ◌∷◌, false, true, some, ltb, if◌then◌else◌, arith,
}
use osc_bsu_csi_driver.Go.Dict.{Dict, lookup, insert, overlay}
use osc_bsu_csi_driver.Go.Act.{ok}
use osc_bsu_csi_driver.DeviceManager.Allocator.{get_next}
use osc_bsu_csi_driver.DeviceManager.Manager.{
  InFlightAttaching, Device, new_device, get_names, add, attached, get_device_names_in_use,
  find_path, get_path,
}
use osc_bsu_csi_driver.Cloud.Platform.{Platform, BacksOff, Volume, by_ids, reply}
use osc_bsu_csi_driver.Cloud.Retry.{State, retrying, answer}
use osc_bsu_csi_driver.Cloud.Read.{get_volume, get_instance, one_volume, one_instance}
use osc_bsu_csi_driver.Cloud.Attach.{
  attach_disk, link, some_in_state, attachment_reached, release_device,
}
use osc_bsu_csi_driver.Cloud.Attach.Wait.{attach_disk_succeeds}
use osc_bsu_csi_driver.Examples.Setup.{platform, volume, vm, backoff}

abbrev slow : Platform ℕ
slow = record platform {
  read_volumes = λ f w. (
    reply (
        record volume { linked_states = some (if ltb w 3 then "attaching" else "attached") ∷ [] }
        ∷ []),
    suc w,
  );
}

slow-BacksOff : BacksOff slow
unfolding backoff
slow-BacksOff = record { exhausted = λ S A check s. refl; checked = λ S A n check s. refl }

abbrev attaching : Volume
attaching = record volume { linked_states = some "attaching" ∷ [] }

abbrev visit : Dict String → Dict String
visit m = m

abbrev reserved : InFlightAttaching
reserved = ("i-1", ("b", "vol-1") ∷ []) ∷ []

abbrev device : Device
device = record {
  instance_vm = vm;
  path = "/dev/xvdb";
  volume_id = "vol-1";
  is_already_assigned = false;
  is_tainted = false;
}

abbrev at : ℕ → State ℕ
at n = record { in_flight_attaching = reserved; world = n }

abbrev start : State ℕ
start = record { in_flight_attaching = []; world = 0 }

got : get_instance slow "i-1" start ≡ (ok vm, record start { world = 1 })
unfolding get_instance one_instance retrying answer backoff
got = refl

made : new_device visit vm "vol-1" [] ≡ (ok device, reserved)
unfolding new_device get_device_names_in_use attached get_path find_path get_next add get_names
    lookup insert overlay
made = refl

linked : link visit slow "vol-1" "i-1" device (at 1) ≡ (ok tt, at 2)
unfolding link retrying answer backoff
linked = refl

early : get_volume slow (by_ids ("vol-1" ∷ [])) (at 2) ≡ (ok attaching, at 3)
unfolding get_volume one_volume retrying answer backoff
early = refl

late : get_volume slow (by_ids ("vol-1" ∷ [])) (at 3) ≡ (ok volume, at 4)
unfolding get_volume one_volume retrying answer backoff
late = refl

not_yet : attachment_reached "attached" attaching.linked_states ≡ false
unfolding attachment_reached some_in_state
not_yet = refl

reached : attachment_reached "attached" volume.linked_states ≡ true
unfolding attachment_reached some_in_state
reached = refl

attach_disk_succeeds_example :
    attach_disk visit slow "vol-1" "i-1" start
    ≡ (ok "/dev/xvdb", release_device false device (at 4))
attach_disk_succeeds_example =
    attach_disk_succeeds visit slow slow-BacksOff "vol-1" "i-1" vm device reserved 1 volume start
      (record start { world = 1 }) (at 2) (at 3) (at 4) got made linked (omega arith)
      (attaching, at 3, early, not_yet, refl) late reached
