-- ===== src/DeviceManager/Manager/Orders.antt =====
-- The order in which range loops visit maps does not matter where a volume has one name.
use Prim.Native.String.{◌++◌ as concat}
use osc_bsu_csi_driver.Prelude.{
  String, ◌≡◌, ◌≢◌, some, [], sym, ap, ◌∙◌, false, arith, eq_iff, ◌==◌, Bool-cases, inl, inr,
}
use osc_bsu_csi_driver.Go.Dict.{Dict, lookup, overlay}
use osc_bsu_csi_driver.Go.Dict.Entries.{KeysDistinct, overlay-KeysDistinct}
use osc_bsu_csi_driver.DeviceManager.Manager.{
  InFlightAttaching, Vm, dev_preffix, attached, get_names, get_vm_id, get_path, new_device,
  get_device, get_device_names_in_use,
}
use osc_bsu_csi_driver.DeviceManager.Manager.InUse.{VisitsAll, get_path-empty, get_path-found}
use osc_bsu_csi_driver.DeviceManager.Manager.Repeat.{attached-KeysDistinct}

-- A volume has at most one of the names in use.
abbrev pub OneNameOf : String → Dict String → Type 0
OneNameOf volume m =
    (name name' : String)
    → lookup name m ≡ some volume
    → lookup name' m ≡ some volume
    → name ≡ name'

ne_empty : (s : String) → (s == "") ≡ false → s ≢ ""
ne_empty s full e = cc (full, (eq_iff s "").1 e)

module _ (visit visit' : Dict String → Dict String) (visits : VisitsAll visit)
    (visits' : VisitsAll visit') where
  nothing_found :
      (m : Dict String) (volume : String)
      → KeysDistinct m
      → get_path visit m volume ≡ ""
      → get_path visit' m volume ≡ ""
  nothing_found m volume distinct empty = elim (Bool-cases (get_path visit' m volume == "")) [
    | inl empty' ↦ (eq_iff _ _).0 empty'
    | inr full ↦
        let (name, path, is_volume) =
          get_path-found visit' visits' m volume distinct
            (ne_empty (get_path visit' m volume) full) in
        absurd (get_path-empty visit visits m volume empty name is_volume)
  ]

module _ (visit visit' : Dict String → Dict String) (visits : VisitsAll visit)
    (visits' : VisitsAll visit') where
  get_path_agrees :
      (m : Dict String) (volume : String)
      → KeysDistinct m
      → OneNameOf volume m
      → get_path visit m volume ≡ get_path visit' m volume
  get_path_agrees m volume distinct one = elim (Bool-cases (get_path visit m volume == "")) [
    | inl empty ↦
        let none_here : get_path visit m volume ≡ "" = (eq_iff _ _).0 empty in
        none_here ∙ sym (nothing_found visit visit' visits visits' m volume distinct none_here)
    | inr full ↦ elim (Bool-cases (get_path visit' m volume == "")) [
      | inl empty' ↦ absurd (
          ne_empty (get_path visit m volume) full
            (nothing_found visit' visit visits' visits m volume distinct ((eq_iff _ _).0 empty')))
      | inr full' ↦
          let (name, path, is_volume) =
            get_path-found visit visits m volume distinct
              (ne_empty (get_path visit m volume) full) in
          let (name', path', is_volume') =
            get_path-found visit' visits' m volume distinct
              (ne_empty (get_path visit' m volume) full') in
          path
          ∙ ap (λ (s : String). concat dev_preffix s) (one name name' is_volume is_volume')
          ∙ sym path'
    ]
  ]

  -- For any two orders in which range loops visit maps: where a volume has at most one name among
  -- those attached to the machine and those in flight on its node, `NewDevice` and `GetDevice` give
  -- the same device or error, and leave the same names in flight, with the one order as with the
  -- other.
  pub new_device_any_order :
      (vm : Vm) (base : Dict String) (i : InFlightAttaching) (volume : String)
      → attached vm.block_device_mappings [] ≡ some base
      → OneNameOf volume (overlay base (get_names i (get_vm_id vm)))
      → (new_device visit vm volume i ≡ new_device visit' vm volume i)
        × (get_device visit vm volume i ≡ get_device visit' vm volume i)
  unfolding new_device get_device get_device_names_in_use
  new_device_any_order vm base i volume is_base one =
      let same : get_path visit (overlay base (get_names i (get_vm_id vm))) volume
          ≡ get_path visit' (overlay base (get_names i (get_vm_id vm))) volume =
        get_path_agrees (overlay base (get_names i (get_vm_id vm))) volume
          (overlay-KeysDistinct base (get_names i (get_vm_id vm))
            (attached-KeysDistinct vm.block_device_mappings [] base tt is_base))
          one in
      (ground (arith, is_base, same), ground (arith, is_base, same))
