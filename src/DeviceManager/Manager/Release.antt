-- ===== src/DeviceManager/Manager/Release.antt =====
-- What `release` does to the names in flight.
use mathlib.Core.Path.{subst}
use Prim.Native.String.{len, ◌++◌ as concat}
use text.Mathlib.TextPositions.{len-append}
use osc_bsu_csi_driver.Prelude.{
  String, ◌≡◌, ◌≢◌, refl, sym, ap, ◌∙◌, some, none, Bool, true, false, not, ◌||◌, arith, eq_iff,
  ◌==◌, ◌<◌, Bool-cases, Option-cases, ◌⊎◌, inl, inr,
}
use osc_bsu_csi_driver.Go.Strings.{trim_prefix-concat}
use osc_bsu_csi_driver.Go.Dict.{Dict}
use osc_bsu_csi_driver.Go.Act.{Result, ok}
use osc_bsu_csi_driver.DeviceManager.Manager.{
  InFlightAttaching, Device, Vm, dev_preffix, get_volume, del, release, release_on, released_name,
  device_release, new_device,
}
use osc_bsu_csi_driver.DeviceManager.Manager.Names.{in_flight, in_flight-del}
use osc_bsu_csi_driver.DeviceManager.Manager.Assignment.{
  Reserved, new_device-cases, new_device-Reserved,
}
use osc_bsu_csi_driver.DeviceManager.Manager.InUse.{VisitsAll}

-- The one change that `release` makes: an entry of the device's own volume goes.
pub record Deleted (d : Device) (i : InFlightAttaching) (i' : InFlightAttaching) : Type 0 where
  pub node : String
  pub on_node : d.instance_vm.vm_id ≡ some node
  pub held : in_flight i node (released_name d) ≡ some d.volume_id
  pub after : i' ≡ del i node (released_name d)

get_volume-none :
    (i : InFlightAttaching) (node name : String)
    → in_flight i node name ≡ none
    → get_volume i node name ≡ ""
unfolding get_volume
get_volume-none i node name e = rw e

get_volume-some :
    (i : InFlightAttaching) (node name v : String)
    → in_flight i node name ≡ some v
    → get_volume i node name ≡ v
unfolding get_volume
get_volume-some i node name v e = rw e

-- On the node of the device, `release` is what it does from the lock on.
release-on :
    (d : Device) (node : String) (i : InFlightAttaching)
    → d.instance_vm.vm_id ≡ some node
    → release d i ≡ release_on d node i
unfolding release
release-on d node i e = rw e

release_on-cases :
    (d : Device) (node : String) (i : InFlightAttaching)
    → d.instance_vm.vm_id ≡ some node
    → ((release_on d node i).1 ≡ i) ⊎ Deleted d i (release_on d node i).1
unfolding release_on
release_on-cases d node i e = elim (Option-cases (in_flight i node (released_name d))) [
  | inl nothing ↦ inl (rw (get_volume-none i node (released_name d) nothing))
  | inr (v, found) ↦
      let volume = get_volume-some i node (released_name d) v found in
      elim (Bool-cases (v == "")) [
        | inl empty ↦ inl (rw (volume, empty))
        | inr full ↦ elim (Bool-cases (d.volume_id == v)) [
          | inr other ↦ inl (rw (volume, full, other))
          | inl same ↦ inr (record {
            node = node;
            on_node = e;
            held = ground (arith, eq_iff d.volume_id v);
            after = rw (volume, full, same);
          })
        ]
      ]
]

pub release-cases :
    (d : Device) (i : InFlightAttaching) → ((release d i).1 ≡ i) ⊎ Deleted d i (release d i).1
release-cases d i = elim (Option-cases d.instance_vm.vm_id) [
  | inl absent ↦ inl (unfold release in rw absent)
  | inr (node, is_node) ↦ rw (release-on d node i is_node) (release_on-cases d node i is_node)
]

pub device_release-cases :
    (force : Bool) (d : Device) (i : InFlightAttaching)
    → (device_release force d i ≡ i) ⊎ Deleted d i (device_release force d i)
unfolding device_release
device_release-cases force d i = elim (Bool-cases (not d.is_tainted || force)) [
  | inl go ↦ rw go (release-cases d i)
  | inr stay ↦ rw stay (inl refl)
]

-- The change needs a device that is not tainted, or force.
pub device_release-untainted :
    (force : Bool) (d : Device) (i : InFlightAttaching)
    → (device_release force d i ≡ i)
      ⊎ (((not d.is_tainted || force) ≡ true) × Deleted d i (device_release force d i))
unfolding device_release
device_release-untainted force d i = elim (Bool-cases (not d.is_tainted || force)) [
  | inl go ↦ elim (release-cases d i) [
    | inl same ↦ inl (rw go same)
    | inr gone ↦ inr (go, rw go gone)
  ]
  | inr stay ↦ inl (rw stay)
]

-- A device with the path of a name is released under that name.
pub released_name_lem :
    (d : Device) (name : String) → d.path ≡ concat dev_preffix name → released_name d ≡ name
unfolding released_name
released_name_lem d name e =
    let long : 2 < len d.path = rw (e, len-append dev_preffix name) (omega arith) in
    ground (arith, long, trim_prefix-concat dev_preffix name)

release_on-held :
    (d : Device) (node : String) (i : InFlightAttaching) (name volume : String)
    → released_name d ≡ name
    → d.volume_id ≡ volume
    → volume ≢ ""
    → in_flight i node name ≡ some volume
    → (release_on d node i).1 ≡ del i node name
unfolding release_on
release_on-held d node i name volume key of_volume named held =
    let current = get_volume-some i node name volume held in
    let full : (volume == "") ≡ false = ground (arith, eq_iff volume "") in
    rw (key, current, full, of_volume, (eq_iff volume volume).1 refl)

-- A forced release of a device whose name is in flight for its volume takes just that name away.
pub device_release_forced :
    (d : Device) (node name volume : String) (i : InFlightAttaching)
    → d.instance_vm.vm_id ≡ some node
    → d.path ≡ concat dev_preffix name
    → d.volume_id ≡ volume
    → volume ≢ ""
    → in_flight i node name ≡ some volume
    → device_release true d i ≡ del i node name
unfolding device_release
device_release_forced d node name volume i on_node path of_volume named held =
    let goes : (not d.is_tainted || true) ≡ true = ground arith in
    rw (goes, release-on d node i on_node)
      (release_on-held d node i name volume (released_name_lem d name path) of_volume named held)

-- Releasing a device for a named volume, with `force` or without, from the names in flight that its
-- reservation left, as `Reserved` states it, puts back the names in flight that there were before.
pub release-Reserved :
    (vm : Vm) (volume : String) (i : InFlightAttaching) (d : Device) (i' : InFlightAttaching)
    (force : Bool)
    → Reserved vm volume i d i'
    → volume ≢ ""
    → (node name : String) → in_flight (device_release force d i') node name ≡ in_flight i node name
unfolding device_release
release-Reserved vm volume i d i' force r named node name =
    let is_node : d.instance_vm.vm_id ≡ some r.node = rw r.vm_lem r.on_node in
    let key = released_name_lem d r.name r.path_lem in
    let held : in_flight i' r.node r.name ≡ some volume =
      rw (r.now r.node r.name) (ground (arith, eq_iff r.node r.node, eq_iff r.name r.name)) in
    let gone : (release d i').1 ≡ del i' r.node r.name =
      rw (release-on d r.node i' is_node)
        (release_on-held d r.node i' r.name volume key r.volume_lem named held) in
    let goes : (not d.is_tainted || force) ≡ true = ground arith in
    rw (goes, gone, in_flight-del, r.now)
      (ground (arith, eq_iff r.node node, eq_iff r.name name, r.not_in_flight))

module _ (visit : Dict String → Dict String) (visits : VisitsAll visit) where
  -- Releasing the device of a call of `NewDevice` leaves no name in flight that was not in flight
  -- before the call.
  pub released_names :
      (vm : Vm) (volume : String) (i : InFlightAttaching) (d : Device) (force : Bool)
      → volume ≢ ""
      → (new_device visit vm volume i).0 ≡ ok d
      → (node name v : String)
      → in_flight (device_release force d (new_device visit vm volume i).1) node name ≡ some v
      → in_flight i node name ≡ some v
  released_names vm volume i d force named made node name v held =
      elim (new_device-cases visit vm volume i) [
        | inl same ↦
            let before : in_flight (device_release force d i) node name ≡ some v =
              rw same at held in
            elim (device_release-cases force d i) [
              | inl kept ↦ rw kept at before
              | inr gone ↦
                  ground (
                    arith,
                    gone.after,
                    before,
                    in_flight-del i gone.node (released_name d) node name,
                  )
            ]
        | inr (d', run, fresh) ↦
            let is_d : d' ≡ d =
              ground (arith, ap (λ (t : Result Device × InFlightAttaching). t.0) run, made) in
            let restored =
              release-Reserved vm volume i d' _ force
                (new_device-Reserved visit visits vm volume i d' _ run fresh) named node name in
            sym restored
            ∙ subst
                (λ x.
                  in_flight (device_release force x (new_device visit vm volume i).1) node name
                  ≡ some v)
                (sym is_d) held
      ]
