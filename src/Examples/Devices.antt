-- ===== src/Examples/Devices.antt =====
-- The device manager on a machine with one attached volume.
use mathlib.Core.List.{reverse, reverse_perm}
use mathlib.Core.List.Perm
use mathlib.Core.Path.{subst}
use mathlib.Core.Bool.{false≢true}
use Prim.Native.String.{◌++◌ as concat}
use osc_bsu_csi_driver.Prelude.{
  String, arith, ◌≡◌, ◌≢◌, refl, ap, sym, ◌∙◌, true, false, Bool-cases, inl, inr, Option, some,
  List, [], ◌∷◌, eq_iff, ◌==◌,
}
use osc_bsu_csi_driver.Go.Dict.{Dict, lookup, insert, overlay}
use osc_bsu_csi_driver.Go.Strings.{trim_prefix}
use osc_bsu_csi_driver.Go.Act.{ok}
use osc_bsu_csi_driver.DeviceManager.Allocator.{get_next}
use osc_bsu_csi_driver.DeviceManager.Allocator.Choice.{
  IsFirstFree, names_on_offer, get_next-IsFirstFree,
}
use osc_bsu_csi_driver.DeviceManager.Manager.Refinement.{Steps, run-Steps}
use osc_bsu_csi_driver.Driver.Node.Devices.{find_scsi_name}
use osc_bsu_csi_driver.Driver.Node.Volumes.{node_get_info, get_volumes_limit}
use osc_bsu_csi_driver.Driver.Node.Volumes.Room.{entries_among, new_device_below_limit}
use osc_bsu_csi_driver.Driver.Node.Devices.Names.{new_device-find_scsi_name}
use osc_bsu_csi_driver.DeviceManager.Manager.{
  dev_preffix, Vm, Device, InFlightAttaching, new_device, get_device, get_names, add, attached,
  get_device_names_in_use, find_path, get_path, new_block_device, device_release, release,
  release_on, get_volume, released_name,
}
use osc_bsu_csi_driver.DeviceManager.Manager.Names.{in_flight}
use osc_bsu_csi_driver.DeviceManager.Manager.InUse.{VisitsAll}
use osc_bsu_csi_driver.DeviceManager.Manager.Assignment.{Reserved, new_device-Reserved}
use osc_bsu_csi_driver.DeviceManager.Manager.Release.{release-Reserved}
use osc_bsu_csi_driver.DeviceManager.Manager.Orders.{OneNameOf, new_device_any_order}
use osc_bsu_csi_driver.DeviceManager.Manager.Repeat.{new_device_repeat}
use osc_bsu_csi_driver.DeviceManager.Manager.Trace.{
  Call, new_call, get_call, release_call, OneName, run, run-OneName, no_double_assignment,
}

abbrev visit : Dict String → Dict String
visit m = m

visits : VisitsAll visit
visits m = Perm.refl m

-- The volume vol-root is attached as /dev/sdb.
abbrev machine : Vm
machine = record {
  vm_id = some "i-1";
  block_device_mappings =
      (record { device_name = some "/dev/sdb"; bsu_volume_id = some "vol-root" }) ∷ [];
}

abbrev first : Device
first = new_block_device machine "vol-1" "/dev/xvdc" false

abbrev second : Device
second = new_block_device machine "vol-2" "/dev/xvdd" false

abbrev one_attaching : InFlightAttaching
one_attaching = ("i-1", ("c", "vol-1") ∷ []) ∷ []

abbrev two_attaching : InFlightAttaching
two_attaching = ("i-1", ("c", "vol-1") ∷ ("d", "vol-2") ∷ []) ∷ []

first_lem : new_device visit machine "vol-1" [] ≡ (ok first, one_attaching)
unfolding new_device get_device_names_in_use attached get_path find_path get_next add get_names
    lookup insert overlay trim_prefix
first_lem = refl

second_lem : new_device visit machine "vol-2" one_attaching ≡ (ok second, two_attaching)
unfolding new_device get_device_names_in_use attached get_path find_path get_next add get_names
    lookup insert overlay trim_prefix
second_lem = refl

get_next-IsFirstFree_example :
    IsFirstFree (("b", "vol-root") ∷ []) names_on_offer (get_next (("b", "vol-root") ∷ []))
get_next-IsFirstFree_example = get_next-IsFirstFree (("b", "vol-root") ∷ [])

new_device-Reserved_example : Reserved machine "vol-1" [] first one_attaching
new_device-Reserved_example =
    new_device-Reserved visit visits machine "vol-1" [] first one_attaching first_lem refl

release-Reserved_example :
    in_flight (device_release false first one_attaching) "i-1" "c" ≡ in_flight [] "i-1" "c"
release-Reserved_example =
    release-Reserved machine "vol-1" [] first one_attaching false
      (new_device-Reserved visit visits machine "vol-1" [] first one_attaching first_lem refl)
      (λ e. false≢true ((eq_iff "vol-1" "").1 e)) "i-1" "c"

-- Between the two calls another volume's device is looked up, and the second is released.
abbrev between : List Call
between = get_call machine "vol-root" ∷ release_call true second ∷ []

between_lem : run visit between one_attaching ≡ one_attaching
unfolding run device_release release release_on released_name get_volume get_names lookup get_device
    get_device_names_in_use attached get_path find_path overlay insert trim_prefix
between_lem = refl

no_double_assignment_example : first.path ≢ second.path
no_double_assignment_example =
    no_double_assignment visit visits machine machine "vol-1" "vol-2" [] between first second
      one_attaching two_attaching first_lem refl
      (λ node e. ((λ b. b), ((λ r. cc ((eq_iff "vol-2" "vol-1").1 r.1)), tt)))
      (rw between_lem second_lem) refl refl

none_OneName : OneName []
unfolding get_names lookup
none_OneName node name name' volume h h' = cc

run-OneName_example : OneName (run visit between [])
run-OneName_example = run-OneName visit visits between [] none_OneName

one_lem : run visit (new_call machine "vol-1" ∷ []) [] ≡ one_attaching
unfolding run
one_lem = ap (λ t. t.1) first_lem

one_OneName : OneName one_attaching
one_OneName =
    subst OneName one_lem (run-OneName visit visits (new_call machine "vol-1" ∷ []) [] none_OneName)

abbrev base : Dict String
base = ("b", "vol-root") ∷ []

roots :
    ◌≡◌ {A = Option String} (some "vol-root") (some "vol-1") → ◌≡◌ {A = String} "vol-root" "vol-1"
roots h = cc

only_root : (name : String) → lookup name base ≡ some "vol-1" → name ≡ "c"
unfolding lookup
only_root name h = elim (Bool-cases ("b" == name)) [
  | inl same ↦ absurd (false≢true ((eq_iff "vol-root" "vol-1").1 (roots (rw same at h))))
  | inr other ↦ cc (rw other at h)
]

new_device_repeat_example :
    (new_device visit machine "vol-1" one_attaching
      ≡ (ok (new_block_device machine "vol-1" "/dev/xvdc" true), one_attaching))
    × (get_device visit machine "vol-1" one_attaching
        ≡ (ok (new_block_device machine "vol-1" "/dev/xvdc" true), one_attaching))
unfolding attached trim_prefix insert get_names lookup
new_device_repeat_example =
    new_device_repeat visit visits machine base one_attaching "i-1" "c" "vol-1" refl refl only_root
      one_OneName refl

reverses : VisitsAll reverse
reverses m = reverse_perm m

only_c :
    (name : String)
    → lookup name (overlay base (get_names one_attaching "i-1")) ≡ some "vol-1"
    → name ≡ "c"
unfolding overlay insert get_names lookup
only_c name h = elim (Bool-cases ("c" == name)) [
  | inl same ↦ sym ((eq_iff "c" name).0 same)
  | inr other ↦ only_root name (rw other at h)
]

one_name : OneNameOf "vol-1" (overlay base (get_names one_attaching "i-1"))
one_name name name' held held' = only_c name held ∙ sym (only_c name' held')

new_device_any_order_example :
    (new_device visit machine "vol-1" one_attaching
      ≡ new_device reverse machine "vol-1" one_attaching)
    × (get_device visit machine "vol-1" one_attaching
        ≡ get_device reverse machine "vol-1" one_attaching)
unfolding attached trim_prefix insert
new_device_any_order_example =
    new_device_any_order visit reverse visits reverses machine base one_attaching "vol-1" refl
      one_name

new_device-find_scsi_name_example :
    (name : String) × (first.path ≡ concat dev_preffix name)
    × (find_scsi_name first.path ≡ ok (concat "scsi-0QEMU_QEMU_HARDDISK_sd" name))
new_device-find_scsi_name_example =
    new_device-find_scsi_name visit machine "vol-1" [] first one_attaching first_lem refl

run-Steps_example :
    Steps
      (new_call machine "vol-1" ∷ between)
      (in_flight [])
      (in_flight (run visit (new_call machine "vol-1" ∷ between) []))
run-Steps_example = run-Steps visit visits (new_call machine "vol-1" ∷ between) []

new_device_below_limit_example : (d : Device) × ((new_device visit machine "vol-1" []).0 ≡ ok d)
unfolding attached trim_prefix insert overlay get_names lookup entries_among node_get_info
    get_volumes_limit
new_device_below_limit_example =
    new_device_below_limit visit machine "i-1" "vol-1" "eu-west-2a" base [] refl refl (omega arith)
