-- ===== src/DeviceManager/Manager/Assignment.antt =====
-- What `NewDevice` and `release` do to the names in flight.
use Prim.Native.String.{◌++◌ as concat}
use osc_bsu_csi_driver.Prelude.{
  String, ◌≡◌, ◌≢◌, refl, ap, ◌∙◌, none, some, [], false, ◌&&◌, arith, eq_iff, ◌==◌, if◌then◌else◌,
  Bool-cases, Option-cases, ◌⊎◌, inl, inr,
}
use osc_bsu_csi_driver.Go.Dict.{Dict, lookup, overlay, lookup-overlay}
use osc_bsu_csi_driver.Go.Act.{ok, Result-cases}
use osc_bsu_csi_driver.DeviceManager.Allocator.{get_next}
use osc_bsu_csi_driver.DeviceManager.Manager.{
  InFlightAttaching, Vm, Device, dev_preffix, get_names, add, attached, get_device_names_in_use,
  get_path, new_device,
}
use osc_bsu_csi_driver.DeviceManager.Manager.Names.{in_flight, in_flight-add}
use osc_bsu_csi_driver.DeviceManager.Manager.InUse.{VisitsAll, get_path-empty}
use osc_bsu_csi_driver.DeviceManager.Allocator.Choice.{get_next_free}

-- The facts behind a device that is new: the names in use, the node and the name that was chosen.
pub record NewName (visit : Dict String → Dict String) (vm : Vm) (volume : String)
    (i : InFlightAttaching) (d : Device) (i' : InFlightAttaching) : Type 0 where
  pub base : Dict String
  pub node : String
  pub name : String
  pub on_node : vm.vm_id ≡ some node
  pub base_lem : attached vm.block_device_mappings [] ≡ some base
  pub unassigned : get_path visit (overlay base (get_names i node)) volume ≡ ""
  pub chosen : get_next (overlay base (get_names i node)) ≡ ok name
  pub after : i' ≡ add i node volume name
  pub path_lem : d.path ≡ concat dev_preffix name
  pub volume_lem : d.volume_id ≡ volume
  pub vm_lem : d.instance_vm ≡ vm
  pub untainted : d.is_tainted ≡ false

module _ (visit : Dict String → Dict String) where
  pub new_device-NewName :
      (vm : Vm) (volume : String) (i : InFlightAttaching) (d : Device) (i' : InFlightAttaching)
      → new_device visit vm volume i ≡ (ok d, i')
      → d.is_already_assigned ≡ false
      → NewName visit vm volume i d i'
  unfolding new_device get_device_names_in_use
  new_device-NewName vm volume i d i' run fresh = elim (Option-cases vm.vm_id) [
    | inl absent ↦ ground arith
    | inr (node, is_node) ↦ elim (Option-cases (attached vm.block_device_mappings [])) [
      | inl crash ↦ ground arith
      | inr (base, is_base) ↦
          elim (Bool-cases (get_path visit (overlay base (get_names i node)) volume == "")) [
            | inl free ↦ elim (Result-cases (get_next (overlay base (get_names i node)))) [
              | inl (name, is_name) ↦ record {
                base = base;
                node = node;
                name = name;
                on_node = is_node;
                base_lem = is_base;
                unassigned = (eq_iff _ _).0 free;
                chosen = is_name;
                after = ground arith;
                path_lem = ground arith;
                volume_lem = ground arith;
                vm_lem = ground arith;
                untainted = ground arith;
              }
              | inr failed ↦ ground arith
            ]
            | inr used ↦ ground arith
          ]
    ]
  ]

  -- Any other outcome leaves the names in flight as they were.
  pub new_device-cases :
      (vm : Vm) (volume : String) (i : InFlightAttaching)
      → ((new_device visit vm volume i).1 ≡ i)
        ⊎ ((d : Device) × (new_device visit vm volume i ≡ (ok d, (new_device visit vm volume i).1))
            × (d.is_already_assigned ≡ false))
  unfolding new_device get_device_names_in_use
  new_device-cases vm volume i = elim (Option-cases vm.vm_id) [
    | inl absent ↦ inl (ground arith)
    | inr (node, is_node) ↦ elim (Option-cases (attached vm.block_device_mappings [])) [
      | inl crash ↦ inl (ground arith)
      | inr (base, is_base) ↦
          elim (Bool-cases (get_path visit (overlay base (get_names i node)) volume == "")) [
            | inl free ↦ elim (Result-cases (get_next (overlay base (get_names i node)))) [
              | inl (name, is_name) ↦ inr (
                record {
                  instance_vm = vm;
                  path = concat dev_preffix name;
                  volume_id = volume;
                  is_already_assigned = false;
                  is_tainted = false;
                },
                ground arith,
                refl,
              )
              | inr failed ↦ inl (ground arith)
            ]
            | inr used ↦ inl (ground arith)
          ]
    ]
  ]

-- A new device: its name is free on the node, attached or in flight, its volume has no name in
-- flight there, and the name is now in flight for the volume, with all else as it was.
pub record Reserved (vm : Vm) (volume : String) (i : InFlightAttaching) (d : Device)
    (i' : InFlightAttaching) : Type 0 where
  pub node : String
  pub name : String
  pub on_node : vm.vm_id ≡ some node
  pub path_lem : d.path ≡ concat dev_preffix name
  pub volume_lem : d.volume_id ≡ volume
  pub vm_lem : d.instance_vm ≡ vm
  pub untainted : d.is_tainted ≡ false
  pub not_attached :
      (base : Dict String)
      → attached vm.block_device_mappings [] ≡ some base
      → lookup name base ≡ none
  pub not_in_flight : in_flight i node name ≡ none
  pub first_name : (n : String) → in_flight i node n ≢ some volume
  pub now :
      (node' name' : String)
      → in_flight i' node' name'
        ≡ (if node == node' && name == name' then some volume else in_flight i node' name')

module _ (visit : Dict String → Dict String) (visits : VisitsAll visit) where
  -- In whichever order range loops visit maps: a device that `NewDevice` gives as not yet assigned
  -- has a name that is neither attached to the machine nor in flight on its node, its volume had
  -- no name in flight there, and the only change to the names in flight is that this name now
  -- stands for this volume on this node.
  pub new_device-Reserved :
      (vm : Vm) (volume : String) (i : InFlightAttaching) (d : Device) (i' : InFlightAttaching)
      → new_device visit vm volume i ≡ (ok d, i')
      → d.is_already_assigned ≡ false
      → Reserved vm volume i d i'
  new_device-Reserved vm volume i d i' run fresh =
      let n = new_device-NewName visit vm volume i d i' run fresh in
      let free = get_next_free _ n.name n.chosen in
      let names = get_names i n.node in
      record {
        node = n.node;
        name = n.name;
        on_node = n.on_node;
        path_lem = n.path_lem;
        volume_lem = n.volume_lem;
        vm_lem = n.vm_lem;
        untainted = n.untainted;
        not_attached = λ base e. ground (arith, n.base_lem, lookup-overlay n.name n.base names);
        not_in_flight = ground (arith, lookup-overlay n.name n.base names);
        first_name = λ m h.
            get_path-empty visit visits (overlay n.base names) volume n.unassigned m
              (ground (arith, lookup-overlay m n.base names));
        now = λ node' name'.
            ap (λ j. in_flight j node' name') n.after
            ∙ in_flight-add i n.node volume n.name node' name';
      }
