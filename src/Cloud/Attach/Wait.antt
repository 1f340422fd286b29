-- ===== src/Cloud/Attach/Wait.antt =====
-- The wait for an attachment ends well once the API reports it.
use osc_bsu_csi_driver.Prelude.{
  String, ℕ, zero, suc, ◌+◌, ◌-◌, ◌<◌, ◌≡◌, ap, ◌∙◌, true, false, some, none, [], ◌∷◌, arith,
  if◌then◌else◌,
}
use Prim.Native.Nat.add
use osc_bsu_csi_driver.Go.Dict.{Dict}
use osc_bsu_csi_driver.Go.Act.{ok}
use osc_bsu_csi_driver.DeviceManager.Manager.{InFlightAttaching, Vm, Device, new_device}
use osc_bsu_csi_driver.Cloud.Platform.{Platform, BacksOff, Volume, by_ids}
use osc_bsu_csi_driver.Cloud.Retry.{State}
use osc_bsu_csi_driver.Cloud.Read.{get_volume, get_instance}
use osc_bsu_csi_driver.Cloud.Attach.{
  attachment_reached, verify_volume, wait_for_attachment_state, link, attach_device, attach_disk,
  release_device,
}

module _ {World : Type 0} (p : Platform World) (volume_id state : String) where
  -- From one state to another, a number of reads find the volume, and not yet in the state.
  abbrev pub Pending : ℕ → State World → State World → Type 0
  Pending zero s s' = s ≡ s'
  Pending (suc k) s s' =
      (v : Volume) × (t : State World) × (get_volume p (by_ids (volume_id ∷ [])) s ≡ (ok v, t))
      × (attachment_reached state v.linked_states ≡ false)
      × Pending k t s'

module _ {World : Type 0} (visit : Dict String → Dict String) (p : Platform World)
    (laws : BacksOff p) where
  verify_volume-read :
      (volume_id state : String) (v : Volume) (s t : State World)
      → get_volume p (by_ids (volume_id ∷ [])) s ≡ (ok v, t)
      → verify_volume visit p volume_id state s
        ≡ (ok (if attachment_reached state v.linked_states then some tt else none), t)
  unfolding verify_volume
  verify_volume-read volume_id state v s t read = ground (arith, read)

  Pending-through :
      (volume_id state : String) (k n : ℕ) (s s' : State World)
      → Pending p volume_id state k s s'
      → p.exponential_backoff
          (State World)
          (Unit {0})
          (k + n)
          (verify_volume visit p volume_id state)
          s
        ≡ p.exponential_backoff
            (State World)
            (Unit {0})
            n
            (verify_volume visit p volume_id state)
            s'
  Pending-through volume_id state zero n s s' same = rw (add.zero n, same)
  Pending-through volume_id state (suc k) n s s' (v, t, read, early, later) =
      rw
        (
          add.suc k n,
          laws.checked (State World) (Unit {0}) (k + n) (verify_volume visit p volume_id state) s,
          verify_volume-read volume_id state v s t read,
          early,
        )
        (Pending-through volume_id state k n t s' later)

  wait_reached :
      (volume_id state : String) (k : ℕ) (v : Volume) (s s' s'' : State World)
      → k < p.steps
      → Pending p volume_id state k s s'
      → get_volume p (by_ids (volume_id ∷ [])) s' ≡ (ok v, s'')
      → attachment_reached state v.linked_states ≡ true
      → wait_for_attachment_state visit p volume_id state s ≡ (ok tt, s'')
  unfolding wait_for_attachment_state
  wait_reached volume_id state k v s s' s'' enough pending read reached =
      let steps : p.steps ≡ k + suc (p.steps - k - 1) = omega arith in
      ap
        (λ n.
          p.exponential_backoff (State World) (Unit {0}) n (verify_volume visit p volume_id state)
            s)
        steps
      ∙ Pending-through volume_id state k (suc (p.steps - k - 1)) s s' pending
      ∙ rw (
        laws.checked (State World) (Unit {0}) (p.steps - k - 1)
            (verify_volume visit p volume_id state) s',
        verify_volume-read volume_id state v s' s'' read,
        reached,
      )

  attach_device_attached :
      (volume_id node_id : String) (d : Device) (s₂ s₃ s₄ : State World)
      → link visit p volume_id node_id d s₂ ≡ (ok tt, s₃)
      → wait_for_attachment_state visit p volume_id "attached" s₃ ≡ (ok tt, s₄)
      → attach_device visit p volume_id node_id d s₂ ≡ (ok d.path, false, s₄)
  unfolding attach_device
  attach_device_attached volume_id node_id d s₂ s₃ s₄ linked waited = ground (arith, linked, waited)

  -- With a backoff as documented: where `getInstance` gives a machine, `NewDevice` a device, and the
  -- call that links the volume goes through or is not needed, `AttachDisk` ends with the device's
  -- path as soon as a read reports the attachment, if the reads before it, fewer than the backoff
  -- has steps, found the volume and not yet attached; the device is released then.
  pub attach_disk_succeeds :
      (volume_id node_id : String) (vm : Vm) (d : Device) (i : InFlightAttaching) (k : ℕ)
      (v : Volume) (s s₁ s₂ s₃ s₄ : State World)
      → get_instance p node_id s ≡ (ok vm, s₁)
      → new_device visit vm volume_id s₁.in_flight_attaching ≡ (ok d, i)
      → link visit p volume_id node_id d (record s₁ { in_flight_attaching = i }) ≡ (ok tt, s₂)
      → k < p.steps
      → Pending p volume_id "attached" k s₂ s₃
      → get_volume p (by_ids (volume_id ∷ [])) s₃ ≡ (ok v, s₄)
      → attachment_reached "attached" v.linked_states ≡ true
      → attach_disk visit p volume_id node_id s ≡ (ok d.path, release_device false d s₄)
  unfolding attach_disk
  attach_disk_succeeds volume_id node_id vm d i k v s s₁ s₂ s₃ s₄ got made linked enough pending
        read reached =
      let waited = wait_reached volume_id "attached" k v s₂ s₃ s₄ enough pending read reached in
      rw (got, made, attach_device_attached volume_id node_id d _ s₂ s₄ linked waited)
