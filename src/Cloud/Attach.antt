-- ===== src/Cloud/Attach.antt =====
-- pkg/cloud/cloud.go: attaching and detaching disks.
pub mod Reservations
pub mod Taint
pub mod Wait
pub mod Detach
use osc_bsu_csi_driver.Prelude.{
  String, Bool, true, false, not, ◌&&◌, Option, none, some, List, [], ◌∷◌, ◌==◌, if◌then◌else◌,
}
use osc_bsu_csi_driver.Go.Dict.{Dict, or_zero}
use osc_bsu_csi_driver.Go.Error.{GoError, errorf, not_found}
use osc_bsu_csi_driver.Go.Act.{Result, ok, err, panic, Act, pure, raise, attempt, ◌>>=◌, ◌>>◌}
use osc_bsu_csi_driver.DeviceManager.Manager.{
  InFlightAttaching, Vm, Device, new_device, get_device, device_release, taint,
}
use osc_bsu_csi_driver.Cloud.Platform.{Platform, Volume, by_ids}
use osc_bsu_csi_driver.Cloud.Retry.{State, retrying, take_reply, fail_with}
use osc_bsu_csi_driver.Cloud.Read.{get_volume, get_instance}

-- The loop over the attachments: an unset state is passed over.
unfoldable pub some_in_state : String → List (Option String) → Bool
some_in_state state [] = false
some_in_state state (a ∷ rest) =
    if or_zero "" a == ""
    then some_in_state state rest
    else if or_zero "" a == state
    then true
    else some_in_state state rest

-- What one check of `WaitForAttachmentState` says of a volume.
unfoldable pub attachment_reached : String → List (Option String) → Bool
unfolding some_in_state
attachment_reached state [] = state == "detached"
attachment_reached state (a ∷ rest) = some_in_state state (a ∷ rest)

-- A method of the device manager on the state of `cloud`.
abbrev pub on_devices : {World A : Type 0} → Act InFlightAttaching A → Act (State World) A
on_devices m s =
    ((m s.in_flight_attaching).0, record s { in_flight_attaching = (m s.in_flight_attaching).1 })

-- `Device.Release` on the state of `cloud`.
abbrev pub release_device : {World : Type 0} → Bool → Device → State World → State World
release_device force d s = record s {
  in_flight_attaching = device_release force d s.in_flight_attaching;
}

-- `defer device.Release(force)` around the rest of a method, which says beside its result whether
-- it has tainted the device.
abbrev pub releasing :
    {World A : Type 0}
    → Bool
    → Device
    → (State World → Result A × Bool × State World)
    → Act (State World) A
releasing force d body s =
    let (r, tainted, s') = body s in (r, release_device force (if tainted then taint d else d) s')

module _ {World : Type 0} (visit : Dict String → Dict String) (p : Platform World) where
  unfoldable pub verify_volume : String → String → Act (State World) (Option (Unit {0}))
  verify_volume volume_id state = do
    volume ← get_volume p (by_ids (volume_id ∷ []))
    if attachment_reached state volume.linked_states then pure (some tt) else pure none

  unfoldable pub wait_for_attachment_state : String → String → Act (State World) (Unit {0})
  wait_for_attachment_state volume_id state =
      p.exponential_backoff (State World) (Unit {0}) p.steps (verify_volume volume_id state)

  -- The call that links the volume, unless the device is already assigned.
  unfoldable pub link : String → String → Device → Act (State World) (Unit {0})
  link volume_id node_id d =
      if d.is_already_assigned
      then pure tt
      else retrying p
          (p.link_volume (record { device_name = d.path; vm_id = node_id; volume_id = volume_id }))
          take_reply (fail_with (errorf "could not attach volume %q to node %q: %v"))

  -- `AttachDisk` after `NewDevice`: the result, and whether the device is tainted, which is where
  -- the wait has failed.
  unfoldable pub attach_device :
      String → String → Device → State World → Result String × Bool × State World
  attach_device volume_id node_id d s =
      let (linked, s₁) = link volume_id node_id d s in
      let (reached, s₂) = wait_for_attachment_state volume_id "attached" s₁ in
      elim linked [
        | err e ↦ (err e, false, s₁)
        | panic ↦ (panic, false, s₁)
        | ok _ ↦ elim reached [
          | ok _ ↦ (ok d.path, false, s₂)
          | err e ↦ (err e, true, s₂)
          | panic ↦ (panic, false, s₂)
        ]
      ]

  unfoldable pub attach_disk : String → String → Act (State World) String
  attach_disk volume_id node_id = do
    vm ← get_instance p node_id
    device ← on_devices (new_device visit vm volume_id)
    releasing false device (attach_device volume_id node_id device)

  -- `DetachDisk` after `GetDevice`.
  unfoldable pub detach_device : String → Device → Act (State World) (Unit {0})
  detach_device volume_id d = if not d.is_already_assigned then raise not_found else do
    retrying p (p.unlink_volume volume_id) take_reply
        (fail_with (errorf "could not detach volume %q from node %q: %v"))
    wait_for_attachment_state volume_id "detached"

  -- `DetachDisk` after the check of the volume's state.
  unfoldable pub detach_from : String → String → Act (State World) (Unit {0})
  detach_from volume_id node_id = do
    vm ← get_instance p node_id
    device ← on_devices (get_device visit vm volume_id)
    releasing true device (λ s. let (r, s') = detach_device volume_id device s in (r, false, s'))

  -- An available volume is detached already; an error of the check is passed over.
  unfoldable pub detach_disk : String → String → Act (State World) (Unit {0})
  detach_disk volume_id node_id =
      attempt (get_volume p (by_ids (volume_id ∷ [])))
        (λ volume.
          if or_zero "" volume.state == "available" then pure tt else detach_from volume_id node_id)
        (λ _. detach_from volume_id node_id)
