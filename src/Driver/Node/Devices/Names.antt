-- ===== src/Driver/Node/Devices/Names.antt =====
-- The node service finds the devices that the device manager names.
use Prim.Native.String.{◌++◌ as concat}
use text.Mathlib.TextPositions.{starts_with-append}
use mathlib.Core.Path.{subst}
use osc_bsu_csi_driver.Prelude.{
  String, ◌≡◌, refl, ap, ◌∙◌, Bool, if◌then◌else◌, true, false, List, [], ◌∷◌, ◌++◌, All, arith,
}
use osc_bsu_csi_driver.Go.Dict.{Dict}
use osc_bsu_csi_driver.Go.Strings.{trim_prefix-concat}
use osc_bsu_csi_driver.Go.Act.{ok}
use osc_bsu_csi_driver.DeviceManager.Allocator.{candidates, get_next}
use osc_bsu_csi_driver.DeviceManager.Allocator.Choice.{get_next-IsFirstFree, IsFirstFree}
use osc_bsu_csi_driver.DeviceManager.Manager.{
  InFlightAttaching, Vm, Device, dev_preffix, new_device,
}
use osc_bsu_csi_driver.DeviceManager.Manager.Assignment.{new_device-NewName}
use osc_bsu_csi_driver.Driver.Node.Devices.{is_suffix, is_lower, find_scsi_name}

unfoldable pub every : (String → Bool) → List String → Bool
every test [] = true
every test (x ∷ xs) = let rest = every test xs in if test x then rest else false

pub All-every :
    (test : String → Bool) (xs : List String) → every test xs ≡ true → All (λ x. test x ≡ true) xs
unfolding every
All-every test [] h = tt
All-every test (x ∷ xs) h = (ground arith, All-every test xs (ground arith))

all_suffixes : every is_suffix candidates ≡ true
unfolding every is_suffix is_lower
all_suffixes = refl

All-middle :
    (P : String → Type 0) (before after : List String) (x : String)
    → All P (before ++ x ∷ after)
    → P x
All-middle P [] after x h = h.0
All-middle P (b ∷ before) after x h = All-middle P before after x h.1

get_next-is_suffix :
    (m : Dict String) (name : String) → get_next m ≡ ok name → is_suffix name ≡ true
get_next-is_suffix m name h =
    let (before, after, split, rest, free) =
      subst (IsFirstFree m candidates) h (get_next-IsFirstFree m) in
    All-middle (λ n. is_suffix n ≡ true) before after name
      (subst (All (λ n. is_suffix n ≡ true)) split (All-every is_suffix candidates all_suffixes))

find_scsi_name-concat :
    (name : String)
    → is_suffix name ≡ true
    → find_scsi_name (concat dev_preffix name) ≡ ok (concat "scsi-0QEMU_QEMU_HARDDISK_sd" name)
unfolding find_scsi_name
find_scsi_name-concat name h =
    rw (starts_with-append dev_preffix name, trim_prefix-concat dev_preffix name, h)

module _ (visit : Dict String → Dict String) where
  -- A device that `NewDevice` gives as not yet assigned has a path that the node service supports:
  -- `findScsiName` gives for it the SCSI name with the same letters.
  pub new_device-find_scsi_name :
      (vm : Vm) (volume : String) (i : InFlightAttaching) (d : Device) (i' : InFlightAttaching)
      → new_device visit vm volume i ≡ (ok d, i')
      → d.is_already_assigned ≡ false
      → (name : String) × (d.path ≡ concat dev_preffix name)
        × (find_scsi_name d.path ≡ ok (concat "scsi-0QEMU_QEMU_HARDDISK_sd" name))
  new_device-find_scsi_name vm volume i d i' run fresh =
      let n = new_device-NewName visit vm volume i d i' run fresh in
      (
        n.name,
        n.path_lem,
        ap find_scsi_name n.path_lem
            ∙ find_scsi_name-concat n.name (get_next-is_suffix _ n.name n.chosen),
      )
