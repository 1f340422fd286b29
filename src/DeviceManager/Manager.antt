-- ===== src/DeviceManager/Manager.antt =====
-- pkg/cloud/devicemanager/manager.go. A machine and its block devices are the SDK's types, whose
-- getters give the zero value where a field is not set. The state of the manager is its map
-- `inFlight`; each method holds the mutex from its first to its last access of that map.
pub mod Names
pub mod InUse
pub mod Assignment
pub mod Release
pub mod Trace
pub mod Repeat
pub mod Orders
pub mod Refinement
use Prim.Native.String.{len, ◌++◌ as concat}
use osc_bsu_csi_driver.Prelude.{
  String, Option, none, some, List, [], ◌∷◌, Bool, true, false, not, ◌&&◌, ◌||◌, ltb, ◌==◌,
  if◌then◌else◌,
}
use osc_bsu_csi_driver.Go.Dict.{Dict, lookup, insert, delete, overlay, or_zero}
use osc_bsu_csi_driver.Go.Strings.{trim_prefix}
use osc_bsu_csi_driver.Go.Error.{errorf}
use osc_bsu_csi_driver.Go.Act.{
  Result, ok, err, panic, Act, pure, raise, lift, modify, attempt, ◌>>=◌, ◌>>◌,
}
use osc_bsu_csi_driver.DeviceManager.Allocator.{get_next}

-- An entry of `BlockDeviceMappings`: `DeviceName`, and `Bsu.VolumeId`.
pub record BlockDevice : Type 0 where
  pub device_name : Option String
  pub bsu_volume_id : Option String

pub record Vm : Type 0 where
  pub vm_id : Option String
  pub block_device_mappings : List BlockDevice

-- `releaseFunc` calls `release` on the device itself, so it is no field here.
pub record Device : Type 0 where
  pub instance_vm : Vm
  pub path : String
  pub volume_id : String
  pub is_already_assigned : Bool
  pub is_tainted : Bool

abbrev pub dev_preffix : String
dev_preffix = "/dev/xvd"

abbrev pub is_nil_vm : Vm → Bool
is_nil_vm vm = elim vm.vm_id [ none ↦ true | some _ ↦ false ]

abbrev pub get_vm_id : Vm → String
get_vm_id vm = or_zero "" vm.vm_id

-- {nodeID: {name: volumeID}}
abbrev pub InFlightAttaching : Type 0
InFlightAttaching = Dict (Dict String)

unfoldable pub get_names : InFlightAttaching → String → Dict String
get_names i node = or_zero [] (lookup node i)

unfoldable pub get_volume : InFlightAttaching → String → String → String
get_volume i node name = or_zero "" (lookup name (get_names i node))

-- A missing or nil inner map is made first.
unfoldable pub add : InFlightAttaching → String → String → String → InFlightAttaching
add i node volume name = insert node (insert name volume (get_names i node)) i

-- `delete` on a nil map does nothing.
unfoldable pub del : InFlightAttaching → String → String → InFlightAttaching
del i node name = elim (lookup node i) [ none ↦ i | some m ↦ insert node (delete name m) i ]

abbrev pub trimmed : BlockDevice → String
trimmed b = trim_prefix (trim_prefix (or_zero "" b.device_name) "/dev/sd") "/dev/xvd"

abbrev is_unset : Option String → Bool
is_unset none = true
is_unset (some _) = false

-- The loop over the block devices. The warning about an unexpected name reads `*DeviceName`, which
-- panics where that is nil: the result is `none` then.
unfoldable pub attached : List BlockDevice → Dict String → Option (Dict String)
attached [] in_use = some in_use
attached (b ∷ rest) in_use =
    let next = attached rest (insert (trimmed b) (or_zero "" b.bsu_volume_id) in_use) in
    if (ltb (len (trimmed b)) 1 || ltb 2 (len (trimmed b))) && is_unset b.device_name
    then none
    else next

-- What is being attached goes over what is attached.
unfoldable pub get_device_names_in_use : Vm → Act InFlightAttaching (Dict String)
get_device_names_in_use vm i = elim (attached vm.block_device_mappings []) [
  | none ↦ (panic, i)
  | some in_use ↦ (ok (overlay in_use (get_names i (get_vm_id vm))), i)
]

-- The loop of `getPath`, over the entries in the order in which they are visited.
unfoldable pub find_path : Dict String → String → String
find_path [] volume = ""
find_path ((name, vol) ∷ rest) volume =
    if volume == vol then concat dev_preffix name else find_path rest volume

abbrev pub get_instance_id : Vm → Result String
get_instance_id vm = elim vm.vm_id [
  | none ↦ err (errorf "can't get ID from a nil instance")
  | some node ↦ ok node
]

abbrev pub new_block_device : Vm → String → String → Bool → Device
new_block_device vm volume path assigned = record {
  instance_vm = vm;
  path = path;
  volume_id = volume;
  is_already_assigned = assigned;
  is_tainted = false;
}

-- The key that `release` looks up.
unfoldable pub released_name : Device → String
released_name d = if ltb 2 (len d.path) then trim_prefix d.path dev_preffix else ""

-- `release` from the lock on, on the node of the device.
unfoldable pub release_on : Device → String → Act InFlightAttaching (Unit {0})
release_on d node i =
    let existing = get_volume i node (released_name d) in
    if existing == ""
    then (ok tt, i)
    else if not (d.volume_id == existing)
    then (err (errorf "release on device %q assigned to different volume: %q vs %q"), i)
    else (ok tt, del i node (released_name d))

unfoldable pub release : Device → Act InFlightAttaching (Unit {0})
unfolding release_on
release d = do node ← lift (get_instance_id d.instance_vm); release_on d node

-- `Device.Release`: an error of `releaseFunc` is only logged.
unfoldable pub device_release : Bool → Device → InFlightAttaching → InFlightAttaching
device_release force d i = if not d.is_tainted || force then (release d i).1 else i

abbrev pub taint : Device → Device
taint d = record d { is_tainted = true }

-- `visit` lists the entries of a map in the order in which a `range` loop visits them.
module _ (visit : Dict String → Dict String) where
  unfoldable pub get_path : Dict String → String → String
  get_path in_use volume = find_path (visit in_use) volume

  unfoldable pub new_device : Vm → String → Act InFlightAttaching Device
  new_device vm volume = if is_nil_vm vm then raise (errorf "instance is nil") else do
    in_use ← get_device_names_in_use vm
    let path = get_path in_use volume
    if not (path == "") then pure (new_block_device vm volume path true) else do
      node ← lift (get_instance_id vm)
      attempt (lift (get_next in_use))
          (λ name. do
            modify (λ i. add i node volume name)
            pure (new_block_device vm volume (concat dev_preffix name) false))
          (λ _. raise (errorf "could not get a free device name to assign to node %s"))

  unfoldable pub get_device : Vm → String → Act InFlightAttaching Device
  get_device vm volume = do
    in_use ← get_device_names_in_use vm
    let path = get_path in_use volume
    if not (path == "")
        then pure (new_block_device vm volume path true)
        else pure (new_block_device vm volume "" false)
