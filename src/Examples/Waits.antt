-- ===== src/Examples/Waits.antt =====
-- The waits of the cloud layer, over variants of the API of `Setup`.
use osc_bsu_csi_driver.Prelude.{ℕ, ◌≡◌, refl, ◌+◌, ◌*◌, some, [], ◌∷◌, nat_eq, if◌then◌else◌}
use osc_bsu_csi_driver.Go.Int.{pos, int32, int64, ◌≤ℤ◌}
use osc_bsu_csi_driver.Go.Act.{ok}
use osc_bsu_csi_driver.Util.Size.{gib, round_up_gib, round_up_size}
use osc_bsu_csi_driver.Cloud.Platform.{Platform, reply}
use osc_bsu_csi_driver.Cloud.Retry.{State, retrying, answer}
use osc_bsu_csi_driver.Cloud.Read.{get_volume, one_volume}
use osc_bsu_csi_driver.Cloud.Volumes.{resize_disk, check_desired_size}
use osc_bsu_csi_driver.Cloud.Volumes.Sizes.{resize_disk_enough}
use osc_bsu_csi_driver.Examples.Setup.{platform, volume, backoff}

abbrev start : State ℕ
start = record { in_flight_attaching = []; world = 0 }

-- An available volume of 40 GiB, and of 50 GiB after the first call.
abbrev growing : Platform ℕ
growing = record platform {
  read_volumes = λ f w. (
    reply (
        record volume {
          state = some "available";
          size = some (if nat_eq w 0 then pos 40 else pos 50);
        }
        ∷ []),
    w + 1,
  );
}

resized :
    resize_disk growing "vol-1" (pos (50 * gib)) start ≡ (ok (pos 50), record start { world = 3 })
unfolding resize_disk check_desired_size get_volume one_volume retrying answer backoff round_up_gib
    round_up_size int32 int64
resized = refl

resize_disk_enough_example : int32 (round_up_gib (pos (50 * gib))) ≤ℤ pos 50
resize_disk_enough_example =
    resize_disk_enough growing "vol-1" (pos (50 * gib)) (pos 50) start (record start { world = 3 })
      resized
