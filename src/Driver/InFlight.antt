-- ===== src/Driver/InFlight.antt =====
-- pkg/driver/internal/inflight.go: the requests in flight of the node service. The state is the map
-- `inFlight`. A request is given by its text: `String` of a CSI message is generated code.
pub mod Exclusion
use osc_bsu_csi_driver.Prelude.{String, Bool, true, false, none, some}
use osc_bsu_csi_driver.Go.Dict.{Dict, lookup, insert, delete}

abbrev pub InFlight : Type 0
InFlight = Dict Bool

-- `Insert`: its answer, and the map after it.
unfoldable pub insert_request : String → InFlight → Bool × InFlight
insert_request hash db = elim (lookup hash db) [
  | some _ ↦ (false, db)
  | none ↦ (true, insert hash true db)
]

-- `Delete`
unfoldable pub delete_request : String → InFlight → InFlight
delete_request hash db = delete hash db
