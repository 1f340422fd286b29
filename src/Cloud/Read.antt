-- ===== src/Cloud/Read.antt =====
-- pkg/cloud/cloud.go, utils.go: reading volumes, machines and snapshots.
use osc_bsu_csi_driver.Prelude.{String, Bool, true, false, ◌&&◌, Option, some, List, [], ◌∷◌, ◌==◌}
use osc_bsu_csi_driver.Go.Error.{GoError, api, errorf, multi_disks, not_found, multi_snapshots}
use osc_bsu_csi_driver.Go.Act.{Result, ok, err, panic, Act, lift, ◌>>=◌}
use osc_bsu_csi_driver.DeviceManager.Manager.{Vm}
use osc_bsu_csi_driver.Cloud.Platform.{Platform, Volume, OscSnapshot, Filters}
use osc_bsu_csi_driver.Cloud.Retry.{State, retrying, take_reply, fail, fail_with}

-- `isVolumeNotFoundError` and `isSnapshotNotFoundError`, which differ in the code. They read the
-- first entry of the list of errors, and panic on an empty list.
unfoldable pub is_missing : String → GoError → Result Bool
is_missing code (api []) = panic
is_missing code (api (e ∷ _)) = ok (e.type_of == "InvalidResource" && e.code == code)
is_missing code _ = ok false

abbrev pub is_volume_not_found_error : GoError → Result Bool
is_volume_not_found_error = is_missing "5064"

abbrev pub is_snapshot_not_found_error : GoError → Result Bool
is_snapshot_not_found_error = is_missing "5054"

-- ErrNotFound if the test says so, else the other error.
abbrev pub refuse_missing : {A : Type 0} → Result Bool → GoError → Result (Option A)
refuse_missing (ok true) other = err not_found
refuse_missing (ok false) other = err other
refuse_missing (err e) other = err e
refuse_missing panic other = panic

-- The one volume of a reply.
unfoldable pub one_volume : List Volume → Result (Option Volume)
one_volume [] = err not_found
one_volume (v ∷ []) = ok (some v)
one_volume (v ∷ w ∷ rest) = err multi_disks

unfoldable pub one_instance : List Vm → Result Vm
one_instance [] = err not_found
one_instance (vm ∷ []) = ok vm
one_instance (vm ∷ w ∷ rest) = err (errorf "found %d instances with ID %q")

unfoldable pub one_snapshot : List OscSnapshot → Result OscSnapshot
one_snapshot [] = err not_found
one_snapshot (s ∷ []) = ok s
one_snapshot (s ∷ t ∷ rest) = err multi_snapshots

module _ {World : Type 0} (p : Platform World) where
  -- The callback itself refuses a reply that does not have exactly one volume.
  unfoldable pub get_volume : Filters → Act (State World) Volume
  get_volume filters = retrying p (p.read_volumes filters) one_volume fail

  unfoldable pub get_instance : String → Act (State World) Vm
  get_instance vm_id = do
    instances ←
        retrying p (p.read_vms vm_id) take_reply
          (fail_with (errorf "error listing Outscale instances: %q"))
    lift (one_instance instances)

  unfoldable pub get_snapshot : Filters → Act (State World) OscSnapshot
  get_snapshot filters = do
    snapshots ← retrying p (p.read_snapshots filters) take_reply fail
    lift (one_snapshot snapshots)

  unfoldable pub list_osc_snapshots : Filters → Act (State World) (List OscSnapshot)
  list_osc_snapshots filters = retrying p (p.read_snapshots filters) take_reply fail

  -- `IsExistInstance`: any error, a timeout included, counts as absent.
  unfoldable pub is_exist_instance : String → Act (State World) Bool
  is_exist_instance node_id s =
      let (r, s') = get_instance node_id s in
      (elim r [ ok _ ↦ ok true | err _ ↦ ok false | panic ↦ panic ], s')
