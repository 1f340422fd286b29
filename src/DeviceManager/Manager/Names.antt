-- ===== src/DeviceManager/Manager/Names.antt =====
-- Which names are in flight on a node.
use osc_bsu_csi_driver.Prelude.{
  String, ◌≡◌, Option, none, some, [], ◌&&◌, arith, eq_iff, ◌==◌, if◌then◌else◌, Option-cases, inl,
  inr,
}
use osc_bsu_csi_driver.Go.Dict.{lookup, or_zero, lookup-insert, lookup-delete}
use osc_bsu_csi_driver.DeviceManager.Manager.{InFlightAttaching, get_names, add, del}

-- The volume that is being attached to a node under a name.
abbrev pub in_flight : InFlightAttaching → String → String → Option String
in_flight i node name = lookup name (get_names i node)

pub in_flight-add :
    (i : InFlightAttaching) (node volume name node' name' : String)
    → in_flight (add i node volume name) node' name'
      ≡ (if node == node' && name == name' then some volume else in_flight i node' name')
unfolding add get_names
in_flight-add i node volume name node' name' = rw lookup-insert (
    ground (
      arith,
      eq_iff node node',
      eq_iff name name',
      lookup-insert name name' volume (or_zero [] (lookup node i)),
    ))

pub in_flight-del :
    (i : InFlightAttaching) (node name node' name' : String)
    → in_flight (del i node name) node' name'
      ≡ (if node == node' && name == name' then none else in_flight i node' name')
unfolding del get_names lookup
in_flight-del i node name node' name' = elim (Option-cases (lookup node i)) [
  | inl absent ↦ rw (absent, del) (ground (arith, eq_iff node node'))
  | inr (m, found) ↦
      rw (found, del, lookup-insert)
        (ground (arith, eq_iff node node', eq_iff name name', lookup-delete name name' m))
]
