-- ===== src/DeviceManager/Manager/Refinement.antt =====
-- The device manager implements a table of reservations.
use osc_bsu_csi_driver.Prelude.{
  String, ◌≡◌, ◌≢◌, Option, none, some, List, [], ◌∷◌, Bool, true, not, ◌||◌, ◌&&◌, ◌==◌,
  if◌then◌else◌, inl, inr,
}
use osc_bsu_csi_driver.Go.Dict.{Dict}
use osc_bsu_csi_driver.DeviceManager.Manager.{InFlightAttaching, Device, Vm, released_name}
use osc_bsu_csi_driver.DeviceManager.Manager.Names.{in_flight, in_flight-del}
use osc_bsu_csi_driver.DeviceManager.Manager.InUse.{VisitsAll}
use osc_bsu_csi_driver.DeviceManager.Manager.Assignment.{new_device-cases, new_device-Reserved}
use osc_bsu_csi_driver.DeviceManager.Manager.Release.{device_release-untainted}
use osc_bsu_csi_driver.DeviceManager.Manager.Trace.{
  Call, new_call, get_call, release_call, call, run, get_device_unchanged,
}

-- Which volume each name of each node is reserved for.
abbrev pub Reservations : Type 0
Reservations = String → String → Option String

-- One table is another with one entry changed.
abbrev pub IsUpdate : String → String → Option String → Reservations → Reservations → Type 0
IsUpdate node name value before after =
    (node' name' : String)
    → after node' name' ≡ (if node == node' && name == name' then value else before node' name')

-- The steps of the table, each for the calls that may make it.
pub data Step : Call → Reservations → Reservations → Type 0 where
  -- any call may leave it as it is
  stay : (c : Call) (t : Reservations) → Step c t t
  -- a free name of the machine's node is given to a volume that has none there
  reserve :
      (vm : Vm) (volume node name : String) (before after : Reservations)
      → vm.vm_id ≡ some node
      → before node name ≡ none
      → ((n : String) → before node n ≢ some volume)
      → IsUpdate node name (some volume) before after
      → Step (new_call vm volume) before after
  -- a device gives back the name of its path, if that is its volume's, unless it is tainted
  free :
      (force : Bool) (d : Device) (node : String) (before after : Reservations)
      → (not d.is_tainted || force) ≡ true
      → d.instance_vm.vm_id ≡ some node
      → before node (released_name d) ≡ some d.volume_id
      → IsUpdate node (released_name d) none before after
      → Step (release_call force d) before after

-- A step for each of a sequence of calls.
pub data Steps : List Call → Reservations → Reservations → Type 0 where
  done : (t : Reservations) → Steps [] t t
  then_steps :
      (c : Call) (rest : List Call) (t t' t'' : Reservations)
      → Step c t t'
      → Steps rest t' t''
      → Steps (c ∷ rest) t t''

module _ (visit : Dict String → Dict String) (visits : VisitsAll visit) where
  call-Step : (c : Call) (i : InFlightAttaching) → Step c (in_flight i) (in_flight (call visit c i))
  unfolding call
  call-Step (new_call vm v) i = elim (new_device-cases visit vm v i) [
    | inl same ↦ rw same (stay (new_call vm v) (in_flight i))
    | inr (d, made, fresh) ↦
        let r = new_device-Reserved visit visits vm v i d _ made fresh in
        reserve vm v r.node r.name (in_flight i) _ r.on_node r.not_in_flight r.first_name r.now
  ]
  call-Step (get_call vm v) i =
      rw (get_device_unchanged visit vm v i) (stay (get_call vm v) (in_flight i))
  call-Step (release_call force d) i = elim (device_release-untainted force d i) [
    | inl same ↦ rw same (stay (release_call force d) (in_flight i))
    | inr (untainted, gone) ↦
        free force d gone.node (in_flight i) _ untainted gone.on_node gone.held
          (λ node' name'. rw gone.after (in_flight-del i gone.node (released_name d) node' name'))
  ]

  -- In whichever order range loops visit maps: any sequence of calls of the manager makes one
  -- step of a table of reservations for each call. `NewDevice` reserves a free name of its node for a
  -- volume that has none there, or nothing; `GetDevice` changes nothing; `Release` frees the name of
  -- its device where that is reserved for the device's volume, or nothing, and nothing at all where
  -- the device is tainted and the release is not forced.
  pub run-Steps :
      (calls : List Call) (i : InFlightAttaching)
      → Steps calls (in_flight i) (in_flight (run visit calls i))
  unfolding run
  run-Steps [] i = done (in_flight i)
  run-Steps (c ∷ rest) i =
      then_steps c rest (in_flight i) (in_flight (call visit c i)) _ (call-Step c i)
        (run-Steps rest (call visit c i))
