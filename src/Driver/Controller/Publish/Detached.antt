-- ===== src/Driver/Controller/Publish/Detached.antt =====
-- `ControllerUnpublishVolume` over the Outscale API, for a volume that the machine does not hold.
use osc_bsu_csi_driver.Prelude.{
  String, ◌≡◌, ◌≢◌, some, [], ◌∷◌, true, false, arith, eq_iff, ◌==◌, Bool-cases, inl, inr,
}
use osc_bsu_csi_driver.Go.Dict.{Dict, lookup, overlay, lookup-overlay}
use osc_bsu_csi_driver.Go.Dict.Entries.{overlay-KeysDistinct}
use osc_bsu_csi_driver.Go.Error.{not_found}
use osc_bsu_csi_driver.Go.Act.{ok, err}
use osc_bsu_csi_driver.DeviceManager.Manager.{
  InFlightAttaching, Vm, attached, get_names, get_vm_id, get_path, get_device, device_release,
  new_block_device, released_name, get_device_names_in_use,
}
use osc_bsu_csi_driver.DeviceManager.Manager.InUse.{VisitsAll, get_path-found}
use osc_bsu_csi_driver.DeviceManager.Manager.Release.{device_release-cases}
use osc_bsu_csi_driver.DeviceManager.Manager.Repeat.{attached-KeysDistinct}
use osc_bsu_csi_driver.Cloud.Platform.{Platform, by_ids}
use osc_bsu_csi_driver.Cloud.Retry.{State}
use osc_bsu_csi_driver.Cloud.Read.{get_volume, get_instance}
use osc_bsu_csi_driver.Cloud.Attach.{detach_from, detach_device}
use osc_bsu_csi_driver.Cloud.Attach.Detach.{GoesOn, detach_disk-GoesOn}
use osc_bsu_csi_driver.Cloud.Interface.{osc_cloud}
use osc_bsu_csi_driver.Driver.Controller.Publish.{controller_unpublish_volume}

module _ (visit : Dict String → Dict String) (visits : VisitsAll visit) where
  -- A volume that no name in use maps to has no device.
  get_device_none :
      (vm : Vm) (base : Dict String) (i : InFlightAttaching) (volume : String)
      → attached vm.block_device_mappings [] ≡ some base
      → ((n : String) → lookup n (overlay base (get_names i (get_vm_id vm))) ≢ some volume)
      → get_device visit vm volume i ≡ (ok (new_block_device vm volume "" false), i)
  unfolding get_device get_device_names_in_use
  get_device_none vm base i volume is_base free =
      elim (Bool-cases (get_path visit (overlay base (get_names i (get_vm_id vm))) volume == "")) [
        | inl empty ↦ let path = (eq_iff _ "").0 empty in ground (arith, is_base, path)
        | inr full ↦
            let (name, _, held) =
              get_path-found visit visits (overlay base (get_names i (get_vm_id vm))) volume
                (overlay-KeysDistinct base (get_names i (get_vm_id vm))
                  (attached-KeysDistinct vm.block_device_mappings [] base tt is_base))
                (λ e. cc (full, (eq_iff _ "").1 e)) in
            absurd (free name held)
      ]

  -- Its release changes nothing.
  release_none :
      (vm : Vm) (base : Dict String) (i : InFlightAttaching) (volume : String)
      → ((n : String) → lookup n (overlay base (get_names i (get_vm_id vm))) ≢ some volume)
      → device_release true (new_block_device vm volume "" false) i ≡ i
  release_none vm base i volume free =
      elim (device_release-cases true (new_block_device vm volume "" false) i) [
        | inl same ↦ same
        | inr gone ↦
            let key = released_name (new_block_device vm volume "" false) in
            let node : get_vm_id vm ≡ gone.node = rw gone.on_node in
            let held : lookup key (get_names i (get_vm_id vm)) ≡ some volume = rw node gone.held in
            absurd (
              free key (ground (arith, lookup-overlay key base (get_names i (get_vm_id vm)), held)))
      ]

  module _ {World : Type 0} (p : Platform World) (region : String) where
    detach_from_none :
        (volume_id node_id : String) (vm : Vm) (base : Dict String) (s s₁ : State World)
        → get_instance p node_id s ≡ (ok vm, s₁)
        → attached vm.block_device_mappings [] ≡ some base
        → ((n : String)
            → lookup n (overlay base (get_names s₁.in_flight_attaching (get_vm_id vm)))
              ≢ some volume_id)
        → detach_from visit p volume_id node_id s ≡ (err not_found, s₁)
    unfolding detach_from detach_device
    detach_from_none volume_id node_id vm base s s₁ got is_base free = rw (
      got,
      get_device_none vm base s₁.in_flight_attaching volume_id is_base free,
      release_none vm base s₁.in_flight_attaching volume_id free,
    )

    -- In whichever order range loops visit maps: where the check of the volume does not say that it
    -- is available, `getInstance` gives a machine, and the volume is neither attached to it nor in
    -- flight on its node, `ControllerUnpublishVolume` of the named volume and node succeeds, with no
    -- call after that of `getInstance` and no change to the names in flight.
    pub controller_unpublish_volume_detached :
        (volume_id node_id : String) (vm : Vm) (base : Dict String) (s s₁ : State World)
        → volume_id ≢ ""
        → node_id ≢ ""
        → GoesOn (get_volume p (by_ids (volume_id ∷ [])) s).0
        → get_instance p node_id (get_volume p (by_ids (volume_id ∷ [])) s).1 ≡ (ok vm, s₁)
        → attached vm.block_device_mappings [] ≡ some base
        → ((n : String)
            → lookup n (overlay base (get_names s₁.in_flight_attaching (get_vm_id vm)))
              ≢ some volume_id)
        → controller_unpublish_volume (osc_cloud visit p region) volume_id node_id s ≡ (ok tt, s₁)
    unfolding controller_unpublish_volume
    controller_unpublish_volume_detached volume_id node_id vm base s s₁ named on goes got is_base
          free =
        let volume_given : (volume_id == "") ≡ false = ground (arith, eq_iff volume_id "") in
        let node_given : (node_id == "") ≡ false = ground (arith, eq_iff node_id "") in
        rw (
          volume_given,
          node_given,
          detach_disk-GoesOn visit p volume_id node_id s goes,
          detach_from_none volume_id node_id vm base _ s₁ got is_base free,
        )
