-- ===== src/Cloud/Attach/Taint.antt =====
-- What `AttachDisk` leaves among the names in flight where the attachment is never reported.
use osc_bsu_csi_driver.Prelude.{String, true, ◌≡◌, arith, sym, ap, ◌∙◌}
use osc_bsu_csi_driver.Go.Dict.{Dict}
use osc_bsu_csi_driver.Go.Error.{GoError}
use osc_bsu_csi_driver.Go.Act.{ok, err}
use osc_bsu_csi_driver.DeviceManager.Manager.{
  InFlightAttaching, Vm, Device, new_device, device_release,
}
use osc_bsu_csi_driver.Cloud.Platform.{Platform, BacksOff}
use osc_bsu_csi_driver.Cloud.Retry.{State}
use osc_bsu_csi_driver.Cloud.Read.{get_instance}
use osc_bsu_csi_driver.Cloud.Attach.{attach_disk, attach_device, link, wait_for_attachment_state}
use osc_bsu_csi_driver.Cloud.Attach.Reservations.{link-KeepsNames, wait-KeepsNames}

module _ {World : Type 0} (visit : Dict String → Dict String) (p : Platform World)
    (laws : BacksOff p) where
  attach_device_tainted :
      (volume_id node_id : String) (d : Device) (e : GoError) (s₂ s₃ s₄ : State World)
      → link visit p volume_id node_id d s₂ ≡ (ok tt, s₃)
      → wait_for_attachment_state visit p volume_id "attached" s₃ ≡ (err e, s₄)
      → attach_device visit p volume_id node_id d s₂ ≡ (err e, true, s₄)
  unfolding attach_device
  attach_device_tainted volume_id node_id d e s₂ s₃ s₄ linked waited =
      ground (arith, linked, waited)

  -- With a backoff as documented: where `getInstance` gives a machine and `NewDevice` a device,
  -- the call that links the volume has gone through, or is not needed, and the wait for the
  -- attachment fails, `AttachDisk` answers with the error of the wait, and the names in flight
  -- stay as `NewDevice` left them, so that a reservation of the call is kept.
  pub attach_disk_keeps_reservation :
      (volume_id node_id : String) (vm : Vm) (d : Device) (i : InFlightAttaching) (e : GoError)
      (s s₁ s₃ s₄ : State World)
      → get_instance p node_id s ≡ (ok vm, s₁)
      → new_device visit vm volume_id s₁.in_flight_attaching ≡ (ok d, i)
      → link visit p volume_id node_id d (record s₁ { in_flight_attaching = i }) ≡ (ok tt, s₃)
      → wait_for_attachment_state visit p volume_id "attached" s₃ ≡ (err e, s₄)
      → (attach_disk visit p volume_id node_id s ≡ (err e, s₄)) × (s₄.in_flight_attaching ≡ i)
  unfolding attach_disk device_release
  attach_disk_keeps_reservation volume_id node_id vm d i e s s₁ s₃ s₄ got made linked waited = (
    rw (got, made, attach_device_tainted volume_id node_id d e _ s₃ s₄ linked waited),
    ap (λ t. t.1.in_flight_attaching) (sym waited)
        ∙ wait-KeepsNames visit p laws volume_id "attached" s₃
        ∙ ap (λ t. t.1.in_flight_attaching) (sym linked)
        ∙ link-KeepsNames visit p laws volume_id node_id d (record s₁ { in_flight_attaching = i }),
  )
