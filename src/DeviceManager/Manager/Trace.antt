-- ===== src/DeviceManager/Manager/Trace.antt =====
-- Calls of the device manager in any order, as concurrent requests make them: the mutex makes each
-- call one step.
use osc_bsu_csi_driver.Prelude.{
  String, ◌≡◌, ◌≢◌, sym, ◌∙◌, some, List, [], ◌∷◌, Bool, false, All, arith, eq_iff, inl, inr,
}
use osc_bsu_csi_driver.Go.Dict.{Dict}
use osc_bsu_csi_driver.Go.Act.{ok}
use osc_bsu_csi_driver.DeviceManager.Manager.{
  InFlightAttaching, Device, Vm, new_device, get_device, device_release, released_name,
  get_device_names_in_use,
}
use osc_bsu_csi_driver.DeviceManager.Manager.Names.{in_flight, in_flight-del}
use osc_bsu_csi_driver.DeviceManager.Manager.InUse.{VisitsAll, device_path_inj}
use osc_bsu_csi_driver.DeviceManager.Manager.Assignment.{new_device-cases, new_device-Reserved}
use osc_bsu_csi_driver.DeviceManager.Manager.Release.{device_release-cases}

-- A call of the manager.
pub data Call : Type 0 where
  new_call : Vm → String → Call
  get_call : Vm → String → Call
  release_call : Bool → Device → Call

-- A release of a device of this volume on this node.
abbrev pub Releases : String → String → Call → Type 0
Releases node volume (release_call force d) =
    (d.instance_vm.vm_id ≡ some node) × (d.volume_id ≡ volume)
Releases node volume (new_call vm v) = ⊥
Releases node volume (get_call vm v) = ⊥

-- On each node, a volume has at most one name in flight.
abbrev pub OneName : InFlightAttaching → Type 0
OneName i =
    (node name name' volume : String)
    → in_flight i node name ≡ some volume
    → in_flight i node name' ≡ some volume
    → name ≡ name'

module _ (visit : Dict String → Dict String) where
  unfoldable pub call : Call → InFlightAttaching → InFlightAttaching
  call (new_call vm volume) i = (new_device visit vm volume i).1
  call (get_call vm volume) i = (get_device visit vm volume i).1
  call (release_call force d) i = device_release force d i

  unfoldable pub run : List Call → InFlightAttaching → InFlightAttaching
  unfolding call
  run [] i = i
  run (c ∷ rest) i = run rest (call c i)

  -- `GetDevice` changes nothing.
  pub get_device_unchanged :
      (vm : Vm) (volume : String) (i : InFlightAttaching) → (get_device visit vm volume i).1 ≡ i
  unfolding get_device get_device_names_in_use
  get_device_unchanged vm volume i = ground arith

module _ (visit : Dict String → Dict String) (visits : VisitsAll visit) where
  call_keeps :
      (c : Call) (i : InFlightAttaching) (node name volume : String)
      → ¬ Releases node volume c
      → in_flight i node name ≡ some volume
      → in_flight (call visit c i) node name ≡ some volume
  unfolding call
  call_keeps (new_call vm v) i node name volume h held = elim (new_device-cases visit vm v i) [
    | inl same ↦ rw same held
    | inr (d, made, fresh) ↦
        let r = new_device-Reserved visit visits vm v i d _ made fresh in
        rw (r.now node name)
          (ground (arith, eq_iff r.node node, eq_iff r.name name, r.not_in_flight))
  ]
  call_keeps (get_call vm v) i node name volume h held = rw (get_device_unchanged visit vm v i) held
  call_keeps (release_call force d) i node name volume h held =
      elim (device_release-cases force d i) [
        | inl same ↦ rw same held
        | inr gone ↦
            rw (gone.after, in_flight-del)
              (ground (
                arith,
                eq_iff gone.node node,
                eq_iff (released_name d) name,
                gone.held,
                gone.on_node,
              ))
      ]

  pub run_keeps :
      (calls : List Call) (i : InFlightAttaching) (node name volume : String)
      → All (λ c. ¬ Releases node volume c) calls
      → in_flight i node name ≡ some volume
      → in_flight (run visit calls i) node name ≡ some volume
  unfolding run
  run_keeps [] i node name volume h held = held
  run_keeps (c ∷ rest) i node name volume h held =
      run_keeps rest (call visit c i) node name volume h.1
        (call_keeps c i node name volume h.0 held)

  call-OneName : (c : Call) (i : InFlightAttaching) → OneName i → OneName (call visit c i)
  unfolding call
  call-OneName (new_call vm v) i one = elim (new_device-cases visit vm v i) [
    | inl same ↦ rw same one
    | inr (d, made, fresh) ↦
        let r = new_device-Reserved visit visits vm v i d _ made fresh in
        λ node name name' volume h h'. ground (
          arith,
          r.now node name,
          r.now node name',
          r.first_name name,
          r.first_name name',
          one node name name' volume,
          eq_iff r.node node,
          eq_iff r.name name,
          eq_iff r.name name',
        )
  ]
  call-OneName (get_call vm v) i one = rw (get_device_unchanged visit vm v i) one
  call-OneName (release_call force d) i one = elim (device_release-cases force d i) [
    | inl same ↦ rw same one
    | inr gone ↦ λ node name name' volume h h'. ground (
      arith,
      gone.after,
      in_flight-del i gone.node (released_name d) node name,
      in_flight-del i gone.node (released_name d) node name',
      one node name name' volume,
    )
  ]

  -- In whichever order range loops visit maps: where no volume has two names in flight on one
  -- node, none has after any sequence of calls of the manager, releases of any devices included.
  pub run-OneName :
      (calls : List Call) (i : InFlightAttaching) → OneName i → OneName (run visit calls i)
  unfolding run
  run-OneName [] i one = one
  run-OneName (c ∷ rest) i one = run-OneName rest (call visit c i) (call-OneName c i one)

  -- In whichever order range loops visit maps: where `NewDevice` has given a new device for a
  -- volume, and the calls of the manager that follow release no device of that volume on that
  -- node, a later `NewDevice` for the same node, for whichever volume, that gives a new device
  -- gives it another path.
  pub no_double_assignment :
      (vm vm' : Vm) (volume volume' : String) (i : InFlightAttaching) (calls : List Call)
      (d d' : Device) (i₁ i₂ : InFlightAttaching)
      → new_device visit vm volume i ≡ (ok d, i₁)
      → d.is_already_assigned ≡ false
      → ((node : String) → vm.vm_id ≡ some node → All (λ c. ¬ Releases node volume c) calls)
      → new_device visit vm' volume' (run visit calls i₁) ≡ (ok d', i₂)
      → d'.is_already_assigned ≡ false
      → vm'.vm_id ≡ vm.vm_id
      → d.path ≢ d'.path
  no_double_assignment vm vm' volume volume' i calls d d' i₁ i₂ made fresh quiet made' fresh' same
        e =
      let r = new_device-Reserved visit visits vm volume i d i₁ made fresh in
      let r' =
        new_device-Reserved visit visits vm' volume' (run visit calls i₁) d' i₂ made' fresh' in
      let held : in_flight i₁ r.node r.name ≡ some volume =
        rw (r.now r.node r.name) (ground (arith, eq_iff r.node r.node, eq_iff r.name r.name)) in
      let kept = run_keeps calls i₁ r.node r.name volume (quiet r.node r.on_node) held in
      let names : r.name ≡ r'.name =
        device_path_inj r.name r'.name (sym r.path_lem ∙ e ∙ r'.path_lem) in
      ground (arith, kept, r'.not_in_flight, r.on_node, r'.on_node, names)
