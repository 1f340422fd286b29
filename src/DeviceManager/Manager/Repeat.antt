-- ===== src/DeviceManager/Manager/Repeat.antt =====
-- A repeated request for a volume that is already being attached.
use mathlib.Core.Path.{subst}
use Prim.Native.String.{◌++◌ as concat}
use osc_bsu_csi_driver.Prelude.{
  String, ◌≡◌, some, [], ◌∷◌, List, true, false, not, ap, ◌∙◌, arith, eq_iff, ◌==◌, Bool-cases, inl,
  inr,
}
use osc_bsu_csi_driver.Go.Dict.{Dict, lookup, insert, overlay, lookup-overlay, or_zero}
use osc_bsu_csi_driver.Go.Dict.Entries.{KeysDistinct, insert-KeysDistinct, overlay-KeysDistinct}
use osc_bsu_csi_driver.Go.Act.{ok}
use osc_bsu_csi_driver.DeviceManager.Manager.{
  InFlightAttaching, BlockDevice, Vm, dev_preffix, attached, trimmed, get_names, get_path,
  new_device, get_device, new_block_device, get_device_names_in_use,
}
use osc_bsu_csi_driver.DeviceManager.Manager.Names.{in_flight}
use osc_bsu_csi_driver.DeviceManager.Manager.InUse.{
  VisitsAll, get_path-empty, get_path-found, device_path-ne-empty,
}
use osc_bsu_csi_driver.DeviceManager.Manager.Trace.{OneName}

pub attached-KeysDistinct :
    (bs : List BlockDevice) (m base : Dict String)
    → KeysDistinct m
    → attached bs m ≡ some base
    → KeysDistinct base
unfolding attached
attached-KeysDistinct [] m base d e =
    let same : m ≡ base = cc in subst (KeysDistinct {V = String}) same d
attached-KeysDistinct (b ∷ bs) m base d e =
    attached-KeysDistinct bs (insert (trimmed b) (or_zero "" b.bsu_volume_id) m) base
      (insert-KeysDistinct (trimmed b) (or_zero "" b.bsu_volume_id) m d) (ground arith)

module _ (visit : Dict String → Dict String) (visits : VisitsAll visit) where
  path_of_held :
      (base : Dict String) (i : InFlightAttaching) (node name volume : String)
      → KeysDistinct base
      → OneName i
      → in_flight i node name ≡ some volume
      → ((n : String) → lookup n base ≡ some volume → n ≡ name)
      → get_path visit (overlay base (get_names i node)) volume ≡ concat dev_preffix name
  path_of_held base i node name volume distinct one held only =
      elim (Bool-cases (get_path visit in_use volume == "")) [
        | inl empty ↦ absurd (
            get_path-empty visit visits in_use volume ((eq_iff _ _).0 empty) name
              (ground (arith, lookup-overlay name base (get_names i node))))
        | inr full ↦
            let (n, path, is_volume) =
              get_path-found visit visits in_use volume
                (overlay-KeysDistinct base (get_names i node) distinct)
                (λ e. cc (full, (eq_iff (get_path visit in_use volume) "").1 e)) in
            let same : n ≡ name =
              ground
                (arith, lookup-overlay n base (get_names i node), only n, one node n name volume) in
            path ∙ ap (λ (s : String). concat dev_preffix s) same
      ]
    where
      in_use : Dict String
      in_use = overlay base (get_names i node)

  -- In whichever order range loops visit maps: where no volume has two names in flight on one
  -- node, `NewDevice` for a volume that is in flight under a name on the machine's node, and that
  -- is attached to the machine under no other name, gives the path of that name as already
  -- assigned, as `GetDevice` does, and neither changes the names in flight.
  pub new_device_repeat :
      (vm : Vm) (base : Dict String) (i : InFlightAttaching) (node name volume : String)
      → vm.vm_id ≡ some node
      → attached vm.block_device_mappings [] ≡ some base
      → ((n : String) → lookup n base ≡ some volume → n ≡ name)
      → OneName i
      → in_flight i node name ≡ some volume
      → (new_device visit vm volume i
          ≡ (ok (new_block_device vm volume (concat dev_preffix name) true), i))
        × (get_device visit vm volume i
            ≡ (ok (new_block_device vm volume (concat dev_preffix name) true), i))
  unfolding new_device get_device get_device_names_in_use
  new_device_repeat vm base i node name volume on_node is_base only one held =
      let path =
        path_of_held base i node name volume
          (attached-KeysDistinct vm.block_device_mappings [] base tt is_base) one held only in
      let full : (concat dev_preffix name == "") ≡ false =
        ground (arith, eq_iff (concat dev_preffix name) "", device_path-ne-empty name) in
      let empty : not (concat dev_preffix name == "") ≡ true = rw full in
      (
        ground (arith, on_node, is_base, path, full, empty),
        ground (arith, on_node, is_base, path, full, empty),
      )
