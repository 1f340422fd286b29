-- ===== src/Cloud/Attach/Reservations.antt =====
-- What `AttachDisk` leaves among the names in flight.
use mathlib.Core.Path.{subst}
use osc_bsu_csi_driver.Prelude.{
  String, ◌≡◌, ◌≢◌, refl, sym, ap, ◌∙◌, Bool, false, Option, none, some, [], ◌∷◌, arith,
  if◌then◌else◌, Bool-cases, inl, inr,
}
use osc_bsu_csi_driver.Go.Dict.{Dict}
use osc_bsu_csi_driver.Go.Error.{GoError}
use osc_bsu_csi_driver.Go.Act.{
  Result, ok, err, panic, Act, ◌>>=◌, >>=-ok, continue, pure, Result-cases,
}
use osc_bsu_csi_driver.DeviceManager.Manager.{
  InFlightAttaching, Device, new_device, device_release, taint,
}
use osc_bsu_csi_driver.DeviceManager.Manager.Names.{in_flight}
use osc_bsu_csi_driver.DeviceManager.Manager.InUse.{VisitsAll}
use osc_bsu_csi_driver.DeviceManager.Manager.Release.{released_names}
use osc_bsu_csi_driver.Cloud.Platform.{Platform, BacksOff, ApiResult, Filters, by_ids}
use osc_bsu_csi_driver.Cloud.Retry.{State, retrying, callback}
use osc_bsu_csi_driver.Cloud.Retry.Outcome.{exponential_backoff-Post, Checked-same}
use osc_bsu_csi_driver.Cloud.Read.{get_volume, get_instance}
use osc_bsu_csi_driver.Cloud.Attach.{
  attachment_reached, attach_disk, attach_device, link, wait_for_attachment_state, verify_volume,
  on_devices, releasing,
}

-- An action that leaves the names in flight as they are.
abbrev pub KeepsNames : {World A : Type 0} → Act (State World) A → Type 0
KeepsNames {World} m = (s : State World) → (m s).1.in_flight_attaching ≡ s.in_flight_attaching

release_after :
    (force : Bool) (d : Device) {tainted : Bool} {i i' : InFlightAttaching}
    → tainted ≡ false
    → i ≡ i'
    → device_release force (if tainted then taint d else d) i ≡ device_release force d i'
release_after force d clean same = rw (clean, same)

module _ {World : Type 0} (visit : Dict String → Dict String) (p : Platform World)
    (laws : BacksOff p) where
  backoff-KeepsNames :
      {B : Type 0} (check : Act (State World) (Option B))
      → KeepsNames check
      → KeepsNames (p.exponential_backoff (State World) B p.steps check)
  backoff-KeepsNames {B} check keeps s =
      exponential_backoff-Post (λ t. t.in_flight_attaching ≡ s.in_flight_attaching)
        (λ _ t. t.in_flight_attaching ≡ s.in_flight_attaching) p laws check (λ t h. h)
        (λ t h.
          Checked-same (λ u. u.in_flight_attaching ≡ s.in_flight_attaching) (check t).0 (check t).1
            (keeps t ∙ h))
        p.steps s refl

  continue-KeepsNames :
      {A B : Type 0} (r : Result A) (f : A → Act (State World) B)
      → ((a : A) → KeepsNames (f a))
      → KeepsNames (continue r f)
  continue-KeepsNames (ok a) f kf s = kf a s
  continue-KeepsNames (err e) f kf s = refl
  continue-KeepsNames panic f kf s = refl

  pub bind-KeepsNames :
      {A B : Type 0} (m : Act (State World) A) (f : A → Act (State World) B)
      → KeepsNames m
      → ((a : A) → KeepsNames (f a))
      → KeepsNames (m >>= f)
  bind-KeepsNames m f km kf s = continue-KeepsNames (m s).0 f kf (m s).1 ∙ km s

  pub retrying-KeepsNames :
      {A B : Type 0} (call : World → ApiResult A × World) (accept : A → Result (Option B))
      (refuse : GoError → Result (Option B))
      → KeepsNames (retrying p call accept refuse)
  unfolding retrying
  retrying-KeepsNames call accept refuse =
      backoff-KeepsNames (callback call accept refuse) (λ s. refl)

  pub get_volume-KeepsNames : (filters : Filters) → KeepsNames (get_volume p filters)
  unfolding get_volume
  get_volume-KeepsNames filters = retrying-KeepsNames _ _ _

  pub get_instance-KeepsNames : (vm_id : String) → KeepsNames (get_instance p vm_id)
  unfolding get_instance
  get_instance-KeepsNames vm_id = bind-KeepsNames _ _ (retrying-KeepsNames _ _ _) (λ vms s. refl)

  verify-KeepsNames :
      (volume_id state : String) → KeepsNames (verify_volume visit p volume_id state)
  unfolding verify_volume
  verify-KeepsNames volume_id state =
      bind-KeepsNames (get_volume p (by_ids (volume_id ∷ [])))
        (λ v.
          if attachment_reached state v.linked_states
          then pure {S = State World} (some tt)
          else pure none)
        (get_volume-KeepsNames (by_ids (volume_id ∷ [])))
        (λ v s. elim (Bool-cases (attachment_reached state v.linked_states)) [
          | inl reached ↦ rw reached
          | inr waits ↦ rw waits
        ])

  pub wait-KeepsNames :
      (volume_id state : String) → KeepsNames (wait_for_attachment_state visit p volume_id state)
  unfolding wait_for_attachment_state
  wait-KeepsNames volume_id state =
      backoff-KeepsNames (verify_volume visit p volume_id state) (verify-KeepsNames volume_id state)

  pub link-KeepsNames :
      (volume_id node_id : String) (d : Device) → KeepsNames (link visit p volume_id node_id d)
  unfolding link
  link-KeepsNames volume_id node_id d s = elim (Bool-cases d.is_already_assigned) [
    | inl assigned ↦ rw assigned refl
    | inr fresh ↦ rw fresh (retrying-KeepsNames _ _ _ s)
  ]

  -- Where `attach_device` has a path, the device is not tainted, the path is the device's, and the
  -- names in flight are as they were.
  attach_device_ok :
      (volume_id node_id : String) (d : Device) (s : State World) (path : String)
      → (attach_device visit p volume_id node_id d s).0 ≡ ok path
      → ((attach_device visit p volume_id node_id d s).1 ≡ false)
        × ((attach_device visit p volume_id node_id d s).2.in_flight_attaching
            ≡ s.in_flight_attaching)
        × (path ≡ d.path)
  unfolding attach_device
  attach_device_ok volume_id node_id d s path h =
      let kept₁ = link-KeepsNames volume_id node_id d s in
      let kept₂ = wait-KeepsNames volume_id "attached" (link visit p volume_id node_id d s).1 in
      elim (Result-cases (link visit p volume_id node_id d s).0) [
        | inr failed ↦ ground arith
        | inl (_, linked) ↦
            elim (Result-cases
              (wait_for_attachment_state visit p volume_id "attached"
                (link visit p volume_id node_id d s).1).0) [
                  | inr failed ↦ ground arith
                  | inl (_, reached) ↦ (ground arith, ground arith, ground arith)
                ]
      ]

  module _ (visits : VisitsAll visit) where
    -- With a backoff as documented, and in whichever order range loops visit maps: where
    -- `AttachDisk` gives a path for a named volume, every name that is in flight after it was in
    -- flight before, for the same volume, so that it leaves no reservation behind.
    pub attach_disk_no_leak :
        (volume_id node_id path : String) (s s' : State World)
        → volume_id ≢ ""
        → attach_disk visit p volume_id node_id s ≡ (ok path, s')
        → (node name v : String) → in_flight s'.in_flight_attaching node name ≡ some v
        → in_flight s.in_flight_attaching node name ≡ some v
    unfolding attach_disk
    attach_disk_no_leak volume_id node_id path s s' named h node name v held =
        let (vm, got, rest) =
          >>=-ok (get_instance p node_id)
            (λ vm. on_devices (new_device visit vm volume_id) >>= λ d.
              releasing false d (attach_device visit p volume_id node_id d))
            s path s' h in
        let (d, made, last) =
          >>=-ok (on_devices (new_device visit vm volume_id))
            (λ d. releasing false d (attach_device visit p volume_id node_id d))
            (get_instance p node_id s).1 path s' rest in
        let i₁ = (get_instance p node_id s).1.in_flight_attaching in
        let (clean, kept, _) = attach_device_ok volume_id node_id d _ path (ap (λ t. t.0) last) in
        let end = sym (release_after false d clean kept) ∙ ap (λ t. t.1.in_flight_attaching) last in
        let after : in_flight (device_release false d (new_device visit vm volume_id i₁).1) node
              name
            ≡ some v =
          subst (λ i. in_flight i node name ≡ some v) (sym end) held in
        subst (λ i. in_flight i node name ≡ some v) (get_instance-KeepsNames node_id s)
          (released_names visit visits vm volume_id i₁ d false named made node name v after)
