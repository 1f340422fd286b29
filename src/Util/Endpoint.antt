-- ===== src/Util/Endpoint.antt =====
-- pkg/util/util.go: the driver's endpoint, and the settings of the waits.
use osc_bsu_csi_driver.Prelude.{String, Bool, not, Option, none, some, ◌^◌, ◌==◌, if◌then◌else◌}
use osc_bsu_csi_driver.Go.Int.{ℤ, pos, int64, ◌*ℤ◌}
use osc_bsu_csi_driver.Go.Strings.{atoi}
use osc_bsu_csi_driver.Go.Error.{GoError, errorf}
use osc_bsu_csi_driver.Go.Act.{Result, Act, pure, raise, lift, attempt, or_fail, ◌>>=◌}

-- The parts of a `url.URL` that are read.
pub record Url : Type 0 where
  pub scheme : String
  pub host : String
  pub path : String

-- The packages `net/url`, `path`, `filepath`, `strings` and `os`, as far as `ParseEndpoint` calls them.
pub record Paths (W : Type 0) : Type 0 where
  pub url_parse : String → Result Url
  pub join : String → String → String
  pub from_slash : String → String
  pub to_lower : String → String
  pub remove : String → Act W (Unit {0})
  pub is_not_exist : GoError → Bool

module _ {W : Type 0} (paths : Paths W) where
  -- An error of the removal of an old socket is passed over where there was none.
  unfoldable pub remove_socket : String → Act W (Unit {0})
  remove_socket addr = attempt (paths.remove addr) pure (λ e.
      if not (paths.is_not_exist e)
      then raise (errorf "could not remove unix domain socket %q: %v")
      else pure tt)

  -- The scheme, and the address.
  unfoldable pub parse_endpoint : String → Act W (String × String)
  parse_endpoint endpoint = do
    u ← or_fail (lift (paths.url_parse endpoint)) (errorf "could not parse endpoint: %v")
    let addr = paths.join u.host (paths.from_slash u.path)
    if paths.to_lower u.scheme == "tcp"
        then pure (paths.to_lower u.scheme, addr)
        else if paths.to_lower u.scheme == "unix"
        then remove_socket (paths.join "/" addr)
          >>= (λ _. pure (paths.to_lower u.scheme, paths.join "/" addr))
        else raise (errorf "unsupported protocol: %s")

-- The value of a variable of the environment, empty where it is not set, or the default.
abbrev pub get_env : String → String → String
get_env value default_value = if value == "" then default_value else value

-- `wait.Backoff`, with the number of nanoseconds of its duration, and a factor of the type `F` of
-- floating-point numbers.
pub record Backoff (F : Type 0) : Type 0 where
  pub duration : ℤ
  pub factor : F
  pub steps : ℤ

-- A number of the environment, or that which stands in for an invalid one.
abbrev pub number_or : ℤ → Option ℤ → ℤ
number_or default_value none = default_value
number_or default_value (some n) = n

-- `parse_float` is `strconv.ParseFloat` with 32 bits, `float_1_8` the constant 1.8; the arguments
-- are the values of BACKOFF_DURATION, BACKOFF_FACTOR and BACKOFF_STEPS.
module _ {F : Type 0} (parse_float : String → Option F) (float_1_8 : F) where
  unfoldable pub env_backoff : String → String → String → Backoff F
  env_backoff duration factor steps = record {
    duration = int64 (number_or (pos 1) (atoi (get_env duration "1")) *ℤ pos (10 ^ 9));
    factor = elim (parse_float (get_env factor "2.0")) [ none ↦ float_1_8 | some f ↦ f ];
    steps = number_or (pos 13) (atoi (get_env steps "20"));
  }
