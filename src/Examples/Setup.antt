-- ===== src/Examples/Setup.antt =====
-- An API with one volume, whose world counts the calls that it has answered: the first two calls
-- for a deletion are throttled, and then it says that there is no such volume.
use osc_bsu_csi_driver.Prelude.{ℕ, zero, suc, refl, Option, none, some, [], ◌∷◌, ltb, if◌then◌else◌}
use osc_bsu_csi_driver.Go.Int.{pos}
use osc_bsu_csi_driver.Go.Error.{GoError, api, errorf, wait_timeout}
use osc_bsu_csi_driver.Go.Act.{err, Act}
use osc_bsu_csi_driver.DeviceManager.Manager.{Vm}
use osc_bsu_csi_driver.Cloud.Platform.{Platform, BacksOff, after_check, Volume, reply, failure}

unfoldable pub backoff : (S A : Type 0) → ℕ → Act S (Option A) → Act S A
backoff S A zero check s = (err wait_timeout, s)
backoff S A (suc n) check s = after_check (check s).0 (backoff S A n check) (check s).1

abbrev pub volume : Volume
volume = record {
  volume_id = some "vol-1";
  size = some (pos 40);
  state = some "in-use";
  subregion_name = some "eu-west-2a";
  snapshot_id = none;
  linked_states = some "attached" ∷ [];
}

abbrev pub vm : Vm
vm = record { vm_id = some "i-1"; block_device_mappings = [] }

abbrev pub missing : GoError
missing = api (record { type_of = "InvalidResource"; code = "5064" } ∷ [])

abbrev pub platform : Platform ℕ
platform = record {
  create_volume = λ r w. (reply (some volume), suc w);
  create_tags = λ r w. (reply tt, suc w);
  read_volumes = λ f w. (reply (volume ∷ []), suc w);
  delete_volume = λ id w.
      ((if ltb w 2 then failure (some 503) (errorf "busy") else failure (some 400) missing), suc w);
  link_volume = λ r w. (reply tt, suc w);
  unlink_volume = λ id w. (reply tt, suc w);
  create_snapshot = λ r w. (reply none, suc w);
  read_snapshots = λ f w. (reply [], suc w);
  delete_snapshot = λ id w. (reply tt, suc w);
  read_vms = λ id w. (reply (vm ∷ []), suc w);
  update_volume = λ r w. (reply tt, suc w);
  exponential_backoff = backoff;
  poll = λ S A. backoff S A 20;
  steps = 5;
}

pub platform-BacksOff : BacksOff platform
unfolding backoff
platform-BacksOff = record { exhausted = λ S A check s. refl; checked = λ S A n check s. refl }
