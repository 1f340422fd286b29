-- ===== src/Examples/Again.antt =====
-- `CreateVolume` twice, where the tag of the first volume is there for the second look.
use osc_bsu_csi_driver.Prelude.{
  ℕ, suc, ◌≡◌, refl, some, [], ◌∷◌, ltb, if◌then◌else◌, ap, true, Bool, sym,
}
use osc_bsu_csi_driver.Go.Dict.{lookup}
use osc_bsu_csi_driver.Go.Int.{ℤ, pos, int64, eqb_ℤ}
use osc_bsu_csi_driver.Go.Act.{Result, ok}
use osc_bsu_csi_driver.Util.Size.{bytes_to_gib, round_up_bytes}
use osc_bsu_csi_driver.Cloud.Platform.{Platform, Volume, reply, by_ids}
use osc_bsu_csi_driver.Cloud.Retry.{retrying, answer}
use osc_bsu_csi_driver.Cloud.Read.{get_volume, one_volume}
use osc_bsu_csi_driver.Cloud.Volumes.{
  create_request, type_and_iops, created, create_disk, get_disk_by_name, wait_for_volume,
  volume_available,
}
use osc_bsu_csi_driver.Cloud.Volumes.Creation.{PollsUntil}
use osc_bsu_csi_driver.Cloud.Interface.{osc_cloud}
use osc_bsu_csi_driver.Driver.Requests.{CreateVolumeResponse}
use osc_bsu_csi_driver.Driver.Controller.Parameters.{no_parameters, parse_parameters, context_extra}
use osc_bsu_csi_driver.Driver.Controller.Requirements.{
  has_support, all_supported, is_valid_volume_capabilities, get_vol_size_bytes,
  pick_availability_zone, first_zone,
}
use osc_bsu_csi_driver.Driver.Controller.Volumes.{
  source_snapshot, new_create_volume_response, disk_options, create_or_reuse, create_volume,
}
use osc_bsu_csi_driver.Driver.Controller.Volumes.Again.{ReadsBack, create_volume-again}
use osc_bsu_csi_driver.Examples.Setup.{volume, backoff}
use osc_bsu_csi_driver.Examples.Creating.{creating, backoff-ended, request, disk, at, visit}

abbrev there : Volume
there = record volume { state = some "available"; subregion_name = some "eu-west-2b" }

-- The look by the tag finds the volume once it was tagged, by the third call.
abbrev tagging : Platform ℕ
tagging = record creating {
  read_volumes = λ f w.
      (reply (elim f [ by_ids _ ↦ there ∷ [] | _ ↦ if ltb w 3 then [] else there ∷ [] ]), suc w);
}

tagging-PollsUntil : PollsUntil tagging
tagging-PollsUntil = record { ended = λ S A check s a s' h. backoff-ended S A 20 check s a s' h }

abbrev first : CreateVolumeResponse
first = new_create_volume_response disk (context_extra no_parameters)

first_lem :
    create_volume (λ key. key) (osc_cloud visit tagging "eu-west-2") [] request (at 0)
    ≡ (ok first, at 4)
unfolding create_disk create_request type_and_iops created wait_for_volume volume_available
    get_volume one_volume retrying answer backoff bytes_to_gib create_volume create_or_reuse
    get_vol_size_bytes parse_parameters source_snapshot is_valid_volume_capabilities all_supported
    has_support get_disk_by_name disk_options round_up_bytes pick_availability_zone first_zone
    lookup
first_lem = refl

abbrev fits : Result ℤ → Bool
fits (ok size) = eqb_ℤ (pos 40) (bytes_to_gib size)
fits _ = true

asked_lem :
    (size : ℤ)
    → ◌≡◌ {A = Result ℤ} (get_vol_size_bytes request.capacity_range) (ok size)
    → eqb_ℤ (pos 40) (bytes_to_gib size) ≡ true
unfolding get_vol_size_bytes round_up_bytes int64 bytes_to_gib
asked_lem size h = sym (ap fits h)

first-ReadsBack : ReadsBack tagging request first (at 4) (at 5)
unfolding get_volume one_volume retrying answer backoff new_create_volume_response
first-ReadsBack = record {
  v = there;
  read = refl;
  id = refl;
  asked = asked_lem;
  capacity = refl;
  zone = refl;
  snapshot = refl;
}

create_volume-again_example :
    create_volume (λ key. key) (osc_cloud visit tagging "eu-west-2") [] request (at 4)
    ≡ (ok first, at 5)
create_volume-again_example =
    create_volume-again visit tagging tagging-PollsUntil "eu-west-2" (λ key. key) [] request first
      (at 0) (at 4) (at 5) first_lem first-ReadsBack
