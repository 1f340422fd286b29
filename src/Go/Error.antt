-- ===== src/Go/Error.antt =====
-- The values of Go's `error` that the driver makes and tells apart.
use osc_bsu_csi_driver.Prelude.{String, List, Bool, true, false}

-- The gRPC codes that the driver answers with.
pub data Code : Type 0 where
  invalid_argument not_found_code already_exists_code internal unimplemented aborted : Code

-- One entry of an API error's list `Errors`.
pub record ApiFault : Type 0 where
  pub type_of : String
  pub code : String

-- `err == ErrX` compares pointers, so each sentinel of cloud.go is a constructor. `wait_timeout` is
-- the timeout error of the `wait` package, `api` a `GenericOpenAPIError` whose model is an
-- `ErrorResponse` with that list of errors, `errorf` any other error, by its format string: the
-- arguments of a format are not kept.
pub data GoError : Type 0 where
  multi_disks disk_exists_diff_size not_found already_exists : GoError
  multi_snapshots invalid_max_results wait_timeout : GoError
  api : List ApiFault → GoError
  errorf : String → GoError
  status : Code → String → GoError

abbrev pub is_not_found : GoError → Bool
is_not_found not_found = true
is_not_found _ = false

abbrev pub is_already_exists : GoError → Bool
is_already_exists already_exists = true
is_already_exists _ = false

abbrev pub is_invalid_max_results : GoError → Bool
is_invalid_max_results invalid_max_results = true
is_invalid_max_results _ = false
