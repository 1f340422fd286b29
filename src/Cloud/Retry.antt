-- ===== src/Cloud/Retry.antt =====
-- How cloud.go calls the API: again while the answer is a throttling error.
pub mod Outcome
use osc_bsu_csi_driver.Prelude.{
  ℕ, Bool, true, false, Option, none, some, List, [], ◌∷◌, nat_eq, if◌then◌else◌,
}
use osc_bsu_csi_driver.Go.Error.{GoError}
use osc_bsu_csi_driver.Go.Act.{Result, ok, err, Act}
use osc_bsu_csi_driver.DeviceManager.Manager.{InFlightAttaching}
use osc_bsu_csi_driver.Cloud.Types.{throttling_error}
use osc_bsu_csi_driver.Cloud.Platform.{Platform, ApiResult, reply, failure}

-- The state of `cloud`: that of its device manager, and the world behind its client.
pub record State (World : Type 0) : Type 0 where
  pub in_flight_attaching : InFlightAttaching
  pub world : World

-- `keepRetryWithError`
unfoldable pub keep_retry_with_error : ℕ → List ℕ → Bool
keep_retry_with_error code [] = false
keep_retry_with_error code (v ∷ rest) =
    if nat_eq code v then true else keep_retry_with_error code rest

unfoldable pub throttled : Option ℕ → Bool
unfolding keep_retry_with_error
throttled none = false
throttled (some code) = keep_retry_with_error code throttling_error

-- One call of the client on the state of `cloud`.
abbrev pub request : {World A : Type 0} → (World → A × World) → State World → A × State World
request call s = ((call s.world).0, record s { world = (call s.world).1 })

-- A callback of `ExponentialBackoff`: one call, then `accept` on its reply, or `refuse` on an error
-- that is not to be retried.
unfoldable pub answer :
    {A B : Type 0}
    → (A → Result (Option B))
    → (GoError → Result (Option B))
    → ApiResult A
    → Result (Option B)
answer accept refuse (reply a) = accept a
answer accept refuse (failure http e) = if throttled http then ok none else refuse e

module _ {World A B : Type 0} where
  abbrev pub callback :
      (World → ApiResult A × World)
      → (A → Result (Option B))
      → (GoError → Result (Option B))
      → Act (State World) (Option B)
  callback call accept refuse s = let (r, s') = request call s in (answer accept refuse r, s')

  -- The call under `ExponentialBackoff(util.EnvBackoff(), ...)`.
  unfoldable pub retrying :
      Platform World
      → (World → ApiResult A × World)
      → (A → Result (Option B))
      → (GoError → Result (Option B))
      → Act (State World) B
  retrying p call accept refuse =
      p.exponential_backoff (State World) B p.steps (callback call accept refuse)

-- Accept any reply, and give its value.
abbrev pub take_reply : {A : Type 0} → A → Result (Option A)
take_reply a = ok (some a)

-- Give an error in place of the call's.
abbrev pub fail_with : {A : Type 0} → GoError → GoError → Result (Option A)
fail_with e _ = err e

-- Give the call's own error.
abbrev pub fail : {A : Type 0} → GoError → Result (Option A)
fail e = err e
