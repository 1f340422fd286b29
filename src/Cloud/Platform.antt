-- ===== src/Cloud/Platform.antt =====
-- What the cloud layer calls and this repository does not implement: the Outscale SDK behind
-- `OscInterface`, and the `wait` package. Requests and replies keep the fields that cloud.go sets
-- or reads; a field that the SDK may leave unset is an `Option`.
use osc_bsu_csi_driver.Prelude.{ℕ, zero, suc, String, ◌≡◌, Option, none, some, List}
use osc_bsu_csi_driver.Go.Dict.{Dict}
use osc_bsu_csi_driver.Go.Int.{ℤ}
use osc_bsu_csi_driver.Go.Error.{GoError, wait_timeout}
use osc_bsu_csi_driver.Go.Act.{Result, ok, err, panic, Act}
use osc_bsu_csi_driver.DeviceManager.Manager.{Vm}

pub record Volume : Type 0 where
  pub volume_id : Option String
  pub size : Option ℤ
  pub state : Option String
  pub subregion_name : Option String
  pub snapshot_id : Option String
  pub linked_states : List (Option String)  -- the states of `LinkedVolumes`

pub record OscSnapshot : Type 0 where
  pub snapshot_id : Option String
  pub volume_id : Option String
  pub volume_size : Option ℤ
  pub state : Option String

pub record CreateVolumeRequest : Type 0 where
  pub size : ℤ
  pub volume_type : String
  pub iops : Option ℤ
  pub subregion_name : String
  pub snapshot_id : Option String

pub record CreateTagsRequest : Type 0 where
  pub resource_ids : List String
  pub tags : Dict String

pub record LinkVolumeRequest : Type 0 where
  pub device_name : String
  pub vm_id : String
  pub volume_id : String

pub record UpdateVolumeRequest : Type 0 where
  pub size : ℤ
  pub volume_id : String

pub record CreateSnapshotRequest : Type 0 where
  pub volume_id : String
  pub description : String

-- The filters of a read request: by the ids of what is read, by one tag, or by the volumes that
-- snapshots are of.
pub data Filters : Type 0 where
  by_ids : List String → Filters
  by_tag : String → String → Filters
  by_volumes : List String → Filters

-- A call's reply, or its error with the status code of the HTTP response, if there is one.
pub data ApiResult (A : Type 0) : Type 0 where
  reply : A → ApiResult A
  failure : Option ℕ → GoError → ApiResult A

-- `World` is all that the calls can see and change, the passage of time and the other users of the
-- account included. `create_volume` and `create_snapshot` may reply without a volume or snapshot.
pub record Platform (World : Type 0) : Type 1 where
  pub create_volume : CreateVolumeRequest → World → ApiResult (Option Volume) × World
  pub create_tags : CreateTagsRequest → World → ApiResult (Unit {0}) × World
  pub read_volumes : Filters → World → ApiResult (List Volume) × World
  pub delete_volume : String → World → ApiResult (Unit {0}) × World
  pub link_volume : LinkVolumeRequest → World → ApiResult (Unit {0}) × World
  pub unlink_volume : String → World → ApiResult (Unit {0}) × World
  pub create_snapshot : CreateSnapshotRequest → World → ApiResult (Option OscSnapshot) × World
  pub read_snapshots : Filters → World → ApiResult (List OscSnapshot) × World
  pub delete_snapshot : String → World → ApiResult (Unit {0}) × World
  pub read_vms : String → World → ApiResult (List Vm) × World
  pub update_volume : UpdateVolumeRequest → World → ApiResult (Unit {0}) × World
  -- `wait.ExponentialBackoff` and `wait.Poll`. A condition that answers (true, nil) is `some` of
  -- what it has assigned to the variables around it, one that answers (false, nil) is `none`.
  pub exponential_backoff : (S A : Type 0) → ℕ → Act S (Option A) → Act S A
  pub poll : (S A : Type 0) → Act S (Option A) → Act S A
  -- `Steps` of `util.EnvBackoff`
  pub steps : ℕ

-- What a wait does after one check of its condition, `rest` being its further checks.
abbrev pub after_check : {S A : Type 0} → Result (Option A) → Act S A → Act S A
after_check (ok none) rest s = rest s
after_check (ok (some a)) rest s = (ok a, s)
after_check (err e) rest s = (err e, s)
after_check panic rest s = (panic, s)

-- As documented, a backoff makes at most `Steps` checks and ends with the first that answers true
-- or an error, or else with the timeout error.
pub record BacksOff {World : Type 0} (p : Platform World) : Type 1 where
  pub exhausted :
      (S A : Type 0) (check : Act S (Option A)) (s : S)
      → p.exponential_backoff S A zero check s ≡ (err wait_timeout, s)
  pub checked :
      (S A : Type 0) (n : ℕ) (check : Act S (Option A)) (s : S)
      → p.exponential_backoff S A (suc n) check s
        ≡ after_check (check s).0 (p.exponential_backoff S A n check) (check s).1
