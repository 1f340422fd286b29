-- ===== src/Cloud/Attach/Detach.antt =====
-- What `DetachDisk` does to the names in flight.
use mathlib.Core.Path.{subst}
use Prim.Native.String.{◌++◌ as concat}
use osc_bsu_csi_driver.Prelude.{
  String, ◌≡◌, ◌≢◌, refl, some, none, [], ◌∷◌, true, false, ◌&&◌, sym, ap, ◌∙◌, ◌==◌, if◌then◌else◌,
  Bool-cases, inl, inr,
}
use osc_bsu_csi_driver.Go.Dict.{Dict, lookup, or_zero}
use osc_bsu_csi_driver.Go.Act.{Result, ok, err, panic, Result-cases, Act, ◌>>◌}
use osc_bsu_csi_driver.Go.Error.{errorf}
use osc_bsu_csi_driver.DeviceManager.Manager.{
  Vm, Device, dev_preffix, attached, new_block_device, device_release, del,
}
use osc_bsu_csi_driver.DeviceManager.Manager.Names.{in_flight, in_flight-del}
use osc_bsu_csi_driver.DeviceManager.Manager.InUse.{VisitsAll}
use osc_bsu_csi_driver.DeviceManager.Manager.Trace.{OneName}
use osc_bsu_csi_driver.DeviceManager.Manager.Release.{device_release_forced}
use osc_bsu_csi_driver.DeviceManager.Manager.Repeat.{new_device_repeat}
use osc_bsu_csi_driver.Cloud.Platform.{Platform, BacksOff, Volume, by_ids}
use osc_bsu_csi_driver.Cloud.Retry.{State, retrying, take_reply, fail_with}
use osc_bsu_csi_driver.Cloud.Read.{get_volume, get_instance}
use osc_bsu_csi_driver.Cloud.Attach.{
  detach_disk, detach_from, detach_device, wait_for_attachment_state,
}
use osc_bsu_csi_driver.Cloud.Attach.Reservations.{
  KeepsNames, wait-KeepsNames, retrying-KeepsNames, bind-KeepsNames, get_volume-KeepsNames,
  get_instance-KeepsNames,
}

-- A check of the volume after which `DetachDisk` goes on: an error, or a state that is not available.
abbrev pub GoesOn : Result Volume → Type 0
GoesOn (ok volume) = (or_zero "" volume.state == "available") ≡ false
GoesOn (err e) = Unit
GoesOn panic = ⊥

-- What `DetachDisk` is where it goes on.
pub detach_disk-GoesOn :
    {World : Type 0} (visit : Dict String → Dict String) (p : Platform World)
    (volume_id node_id : String) (s : State World)
    → GoesOn (get_volume p (by_ids (volume_id ∷ [])) s).0
    → detach_disk visit p volume_id node_id s
      ≡ detach_from visit p volume_id node_id (get_volume p (by_ids (volume_id ∷ [])) s).1
unfolding detach_disk
detach_disk-GoesOn visit p volume_id node_id s goes =
    let read = get_volume p (by_ids (volume_id ∷ [])) s in
    elim (Result-cases read.0) [
      | inl (volume, is_volume) ↦
          let checked : (or_zero "" volume.state == "available") ≡ false =
            subst GoesOn is_volume goes in
          rw (is_volume, checked)
      | inr (inl (e, is_err)) ↦ rw is_err
      | inr (inr is_panic) ↦ absurd (subst GoesOn is_panic goes)
    ]

module _ {World : Type 0} (visit : Dict String → Dict String) (p : Platform World)
    (laws : BacksOff p) where
  -- The call that unlinks the volume.
  abbrev unlink : String → Act (State World) (Unit {0})
  unlink volume_id =
      retrying p (p.unlink_volume volume_id) take_reply
        (fail_with (errorf "could not detach volume %q from node %q: %v"))

  unlink-KeepsNames : (volume_id : String) → KeepsNames (unlink volume_id)
  unlink-KeepsNames volume_id = retrying-KeepsNames visit p laws _ _ _

  detach-KeepsNames :
      (volume_id : String)
      → KeepsNames (unlink volume_id >> wait_for_attachment_state visit p volume_id "detached")
  detach-KeepsNames volume_id =
      bind-KeepsNames visit p laws (unlink volume_id)
        (λ _. wait_for_attachment_state visit p volume_id "detached") (unlink-KeepsNames volume_id)
        (λ _. wait-KeepsNames visit p laws volume_id "detached")

  detach_device-KeepsNames :
      (volume_id : String) (d : Device) → KeepsNames (detach_device visit p volume_id d)
  unfolding detach_device
  detach_device-KeepsNames volume_id d s = elim (Bool-cases d.is_already_assigned) [
    | inl assigned ↦ rw assigned (detach-KeepsNames volume_id s)
    | inr free ↦ rw free refl
  ]

  module _ (visits : VisitsAll visit) where
    -- From the read of the machine on.
    detach_from_releases :
        (volume_id node_id node name : String) (vm : Vm) (base : Dict String) (s s₁ : State World)
        → get_instance p node_id s ≡ (ok vm, s₁)
        → vm.vm_id ≡ some node
        → attached vm.block_device_mappings [] ≡ some base
        → ((n : String) → lookup n base ≡ some volume_id → n ≡ name)
        → OneName s₁.in_flight_attaching
        → in_flight s₁.in_flight_attaching node name ≡ some volume_id
        → volume_id ≢ ""
        → (node' name' : String)
        → in_flight (detach_from visit p volume_id node_id s).1.in_flight_attaching node' name' ≡ (
            if node == node' && name == name'
            then none
            else in_flight s₁.in_flight_attaching node' name')
    unfolding detach_from
    detach_from_releases volume_id node_id node name vm base s s₁ got on_node is_base only one held
          named node' name' =
        let d = new_block_device vm volume_id (concat dev_preffix name) true in
        let s₂ : State World = record s₁ { in_flight_attaching = s₁.in_flight_attaching } in
        let found =
          (new_device_repeat visit visits vm base s₁.in_flight_attaching node name volume_id on_node
            is_base only one held).1 in
        let same : (detach_device visit p volume_id d s₂).1.in_flight_attaching
            ≡ s₁.in_flight_attaching =
          detach_device-KeepsNames volume_id d s₂ in
        let gone : device_release true d s₁.in_flight_attaching
            ≡ del s₁.in_flight_attaching node name =
          device_release_forced d node name volume_id s₁.in_flight_attaching on_node refl refl named
            held in
        rw (got, found, same, gone) (in_flight-del s₁.in_flight_attaching node name node' name')

    -- With a backoff as documented, and in whichever order range loops visit maps: where the check
    -- of the volume does not say that it is available, `getInstance` gives a machine, the named
    -- volume is in flight under a name on its node and attached to it under no other, and no volume
    -- has two names in flight on one node, `DetachDisk` takes that name away from the names in
    -- flight and no other, whatever the calls that detach answer.
    pub detach_disk_releases :
        (volume_id node_id node name : String) (vm : Vm) (base : Dict String) (s s₁ : State World)
        → GoesOn (get_volume p (by_ids (volume_id ∷ [])) s).0
        → get_instance p node_id (get_volume p (by_ids (volume_id ∷ [])) s).1 ≡ (ok vm, s₁)
        → vm.vm_id ≡ some node
        → attached vm.block_device_mappings [] ≡ some base
        → ((n : String) → lookup n base ≡ some volume_id → n ≡ name)
        → OneName s.in_flight_attaching
        → in_flight s.in_flight_attaching node name ≡ some volume_id
        → volume_id ≢ ""
        → (node' name' : String)
        → in_flight (detach_disk visit p volume_id node_id s).1.in_flight_attaching node' name' ≡ (
            if node == node' && name == name'
            then none
            else in_flight s.in_flight_attaching node' name')
    detach_disk_releases volume_id node_id node name vm base s s₁ goes got on_node is_base only one
          held named node' name' =
        let read = get_volume p (by_ids (volume_id ∷ [])) s in
        let same : s₁.in_flight_attaching ≡ s.in_flight_attaching =
          ap (λ (t : Result Vm × State World). t.1.in_flight_attaching) (sym got)
          ∙ get_instance-KeepsNames visit p laws node_id read.1
          ∙ get_volume-KeepsNames visit p laws (by_ids (volume_id ∷ [])) s in
        let after : in_flight (detach_from visit p volume_id node_id read.1).1.in_flight_attaching
              node' name'
            ≡ (if node == node' && name == name'
                then none
                else in_flight s.in_flight_attaching node' name') =
          subst
            (λ i.
              in_flight (detach_from visit p volume_id node_id read.1).1.in_flight_attaching node'
                name'
              ≡ (if node == node' && name == name' then none else in_flight i node' name'))
            same
            (detach_from_releases volume_id node_id node name vm base read.1 s₁ got on_node is_base
              only (subst OneName (sym same) one)
              (subst (λ i. in_flight i node name ≡ some volume_id) (sym same) held) named node'
              name') in
        rw (detach_disk-GoesOn visit p volume_id node_id s goes) after
