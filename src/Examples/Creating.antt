-- ===== src/Examples/Creating.antt =====
-- `CreateVolume` where there is no volume of the name, and the new one becomes available at once.
use osc_bsu_csi_driver.Prelude.{
  eq_iff, none, String, ℕ, zero, suc, ◌*◌, ◌^◌, ◌≡◌, refl, Option, some, [], ◌∷◌, arith,
  Option-cases, inl, inr,
}
use osc_bsu_csi_driver.Go.Dict.{Dict, lookup}
use osc_bsu_csi_driver.Go.Int.{pos, int64}
use osc_bsu_csi_driver.Go.Act.{ok, err, Act, Result-cases}
use osc_bsu_csi_driver.Util.Size.{bytes_to_gib, round_up_bytes}
use osc_bsu_csi_driver.Cloud.Types.{Disk}
use osc_bsu_csi_driver.Cloud.Platform.{Platform, BacksOff, reply, failure, by_ids}
use osc_bsu_csi_driver.Cloud.Retry.{State, retrying, answer, throttled}
use osc_bsu_csi_driver.Cloud.Read.{get_volume, one_volume}
use osc_bsu_csi_driver.Cloud.Volumes.{
  create_request, type_and_iops, created, create_disk, get_disk_by_name, wait_for_volume,
  volume_available,
}
use osc_bsu_csi_driver.Cloud.Volumes.Creation.{PollsUntil}
use osc_bsu_csi_driver.Cloud.Interface.{osc_cloud}
use osc_bsu_csi_driver.Driver.Options.{
  DriverOptions, validate_tags, validate_extra_volume_tags, validate_mode, validate_driver_options,
}
use osc_bsu_csi_driver.Driver.Requests.{
  CreateVolumeRequest, single_node_writer, block, topology_key,
}
use osc_bsu_csi_driver.Driver.Controller.Parameters.{no_parameters, parse_parameters, context_extra}
use osc_bsu_csi_driver.Driver.Controller.Requirements.{
  has_support, all_supported, is_valid_volume_capabilities, get_vol_size_bytes,
  pick_availability_zone, first_zone,
}
use osc_bsu_csi_driver.Driver.Controller.Volumes.{
  source_snapshot, new_create_volume_response, disk_options, create_or_reuse, create_volume,
  creation_failed,
}
use osc_bsu_csi_driver.Driver.Controller.Volumes.Built.{Built, create_volume-Built}
use osc_bsu_csi_driver.Driver.Controller.Volumes.Create.{WellFormed}
use osc_bsu_csi_driver.Driver.Controller.Volumes.Failure.{create_volume_fails}
use osc_bsu_csi_driver.Go.Error.{GoError, status, internal}
use mathlib.Core.Bool.{false≢true}
use osc_bsu_csi_driver.Examples.Setup.{platform, volume, backoff, missing}

abbrev pub creating : Platform ℕ
creating = record platform {
  read_volumes = λ f w. (
    reply (elim f [ by_ids _ ↦ record volume { state = some "available" } ∷ [] | _ ↦ [] ]),
    suc w,
  );
}

pub backoff-ended :
    (S A : Type 0) (n : ℕ) (check : Act S (Option A)) (s : S) (a : A) (s' : S)
    → backoff S A n check s ≡ (ok a, s')
    → (t : S) × (check t ≡ (ok (some a), s'))
unfolding backoff
backoff-ended S A zero check s a s' h = cc
backoff-ended S A (suc n) check s a s' h = elim (Result-cases (check s).0) [
  | inr (inl (e, failed)) ↦ cc (rw failed at h)
  | inr (inr panicked) ↦ cc (rw panicked at h)
  | inl (o, answered) ↦ elim (Option-cases o) [
    | inl waits ↦ backoff-ended S A n check (check s).1 a s' (rw (answered, waits) at h)
    | inr (b, ends) ↦
        let run = rw (answered, ends) at h in
        let first : (check s).0 ≡ ok (some a) = ground (arith, answered, ends, run) in
        (s, (λ i. (first i, (run i).1)))
  ]
]

creating-PollsUntil : PollsUntil creating
creating-PollsUntil = record { ended = λ S A check s a s' h. backoff-ended S A 20 check s a s' h }

abbrev pub disk : Disk
disk = record {
  volume_id = "vol-1";
  capacity_gib = pos 40;
  availability_zone = "eu-west-2b";
  snapshot_id = "";
}

abbrev pub at : ℕ → State ℕ
at n = record { in_flight_attaching = []; world = n }

abbrev driver : DriverOptions
driver = record {
  endpoint = "unix:///csi.sock";
  extra_volume_tags = ("team", "storage") ∷ [];
  mode = "all";
}

driver_valid : validate_driver_options driver ≡ none
unfolding validate_driver_options validate_extra_volume_tags validate_tags validate_mode
driver_valid = refl

-- 40 GiB, with the default parameters.
abbrev pub request : CreateVolumeRequest
request = record {
  name = "pvc-1";
  capacity_range = some (record { required_bytes = pos (40 * 2 ^ 30); limit_bytes = pos 0 });
  volume_capabilities = record { access_mode = some single_node_writer; access_type = block } ∷ [];
  parameters = [];
  volume_content_source = none;
  accessibility_requirements =
      some (record { requisite = []; preferred = ((topology_key, "eu-west-2b") ∷ []) ∷ [] });
}

abbrev pub visit : Dict String → Dict String
visit m = m

created_lem :
    create_volume
      (λ key. key)
      (osc_cloud visit creating "eu-west-2")
      driver.extra_volume_tags
      request
      (at 0)
    ≡ (ok (new_create_volume_response disk (context_extra no_parameters)), at 4)
unfolding create_disk create_request type_and_iops created wait_for_volume volume_available
    get_volume one_volume retrying answer backoff bytes_to_gib create_volume create_or_reuse
    get_vol_size_bytes parse_parameters source_snapshot is_valid_volume_capabilities all_supported
    has_support get_disk_by_name disk_options round_up_bytes pick_availability_zone first_zone
    lookup
created_lem = refl

create_volume-Built_example :
    Built creating "eu-west-2"
      (λ key. key)
      driver
      request
      (pos (40 * 2 ^ 30))
      (new_create_volume_response disk (context_extra no_parameters))
      (at 1)
      (at 4)
unfolding get_vol_size_bytes get_disk_by_name get_volume one_volume retrying answer backoff
    round_up_bytes int64
create_volume-Built_example =
    create_volume-Built visit creating creating-PollsUntil "eu-west-2" (λ key. key) driver request
      (pos (40 * 2 ^ 30)) (new_create_volume_response disk (context_extra no_parameters)) (at 0)
      (at 4) driver_valid refl refl created_lem

-- The API refuses the creation.
abbrev refusing : Platform ℕ
refusing = record creating { create_volume = λ r w. (failure (some 400) missing, suc w) }

refusing-BacksOff : BacksOff refusing
unfolding backoff
refusing-BacksOff = record { exhausted = λ S A check s. refl; checked = λ S A n check s. refl }

request-WellFormed : WellFormed (λ key. key) request (pos (40 * 2 ^ 30)) no_parameters ""
unfolding get_vol_size_bytes round_up_bytes int64 parse_parameters source_snapshot
    is_valid_volume_capabilities all_supported has_support
request-WellFormed = record {
  named = λ e. false≢true ((eq_iff "pvc-1" "").1 e);
  sized = refl;
  cap = record { access_mode = some single_node_writer; access_type = block };
  caps = [];
  capable = refl;
  supported = refl;
  parsed = refl;
  sourced = refl;
}

abbrev refused : GoError
refused = status internal "Could not create volume %q: %v"

refused_lem :
    (create_volume
      (λ key. key)
      (osc_cloud visit refusing "eu-west-2")
      driver.extra_volume_tags
      request
      (at 0)).0
    ≡ err refused
unfolding create_disk create_request type_and_iops retrying answer throttled backoff bytes_to_gib
    create_volume create_or_reuse get_volume one_volume get_vol_size_bytes parse_parameters
    source_snapshot is_valid_volume_capabilities all_supported has_support get_disk_by_name
    disk_options round_up_bytes pick_availability_zone first_zone lookup creation_failed
refused_lem = refl

create_volume_fails_example :
    ◌≡◌ {A = GoError} refused (status internal "Could not create volume %q: %v")
unfolding get_disk_by_name get_volume one_volume retrying answer backoff
create_volume_fails_example =
    create_volume_fails visit refusing refusing-BacksOff "eu-west-2" (λ key. key)
      driver.extra_volume_tags request (pos (40 * 2 ^ 30)) no_parameters "" (at 0) refused
      request-WellFormed refl refused_lem
