-- ===== src/Command.antt =====
-- cmd/main.go, cmd/options.go, cmd/options/*: from the command line to the running driver. A process
-- that exits does nothing more, as one that panics: both are a panic here.
pub mod Services
use osc_bsu_csi_driver.Prelude.{String, Bool, true, false, List, [], ◌∷◌, ◌++◌, ◌==◌, if◌then◌else◌}
use osc_bsu_csi_driver.Go.Dict.{Dict}
use osc_bsu_csi_driver.Go.Strings.{has_prefix}
use osc_bsu_csi_driver.Go.Act.{Act, pure, crash, ◌>>=◌, ◌>>◌}
use osc_bsu_csi_driver.Util.Endpoint.{Paths}
use osc_bsu_csi_driver.Util.Version.{Build, VersionInfo, get_version_json}
use osc_bsu_csi_driver.Driver.Options.{controller_mode, node_mode, all_mode}
use osc_bsu_csi_driver.Driver.Server.{
  Parts, Server, default_csi_endpoint, with_endpoint, with_extra_volume_tags, with_mode, new_driver,
  run, outside, or_panic,
}

-- The flags that are defined in a `flag.FlagSet`; those of klog count as one.
pub data Flag : Type 0 where
  version_flag endpoint_flag klog_flags extra_volume_tags_flag : Flag

pub record ServerOptions : Type 0 where
  pub endpoint : String

pub record ControllerOptions : Type 0 where
  pub extra_volume_tags : Dict String

-- The struct has no fields.
abbrev pub NodeOptions : Type 0
NodeOptions = Unit {0}

pub record Options : Type 0 where
  pub driver_mode : String
  pub server_options : ServerOptions
  pub controller_options : ControllerOptions
  pub node_options : NodeOptions

-- The `AddFlags` of the three kinds of options.
abbrev pub server_flags : List Flag → List Flag
server_flags defined = defined ++ (endpoint_flag ∷ [])

abbrev pub controller_flags : List Flag → List Flag
controller_flags defined = defined ++ (extra_volume_tags_flag ∷ [])

abbrev pub node_flags : List Flag → List Flag
node_flags defined = defined

-- The variables that the flags set.
pub record Values : Type 0 where
  pub version : Bool
  pub endpoint : String
  pub extra_volume_tags : Dict String

abbrev pub default_values : Values
default_values = record { version = false; endpoint = default_csi_endpoint; extra_volume_tags = [] }

-- What the packages `os`, `flag`, `fmt` and `json` do for the command: the arguments, `Parse` of a
-- flag set with what its flags have set, the output, and the text of a version.
pub record Shell (W : Type 0) : Type 0 where
  pub args : List String
  pub parse : List Flag → List String → Values → Act W Values
  pub println : String → Act W (Unit {0})
  pub marshal_indent : VersionInfo → Act W String
  pub build : Build

-- What `GetOptions` makes of the arguments: the mode, the flags, and the arguments to parse.
pub record CommandLine : Type 0 where
  pub mode : String
  pub flags : List Flag
  pub rest : List String

abbrev pub common_flags : List Flag
common_flags = server_flags (version_flag ∷ []) ++ (klog_flags ∷ [])

module _ {W : Type 0} where
  -- The switch on the command. Of no arguments at all, not even the program's name, the slice
  -- `os.Args[1:]` panics.
  unfoldable pub read_command : List String → Act W CommandLine
  read_command [] = crash
  read_command (program ∷ []) = pure (record { mode = all_mode; flags = common_flags; rest = [] })
  read_command (program ∷ cmd ∷ rest) =
      if cmd == controller_mode
      then pure
          (record { mode = controller_mode; flags = controller_flags common_flags; rest = rest })
      else if cmd == node_mode
      then pure (record { mode = node_mode; flags = node_flags common_flags; rest = rest })
      else if cmd == all_mode
      then pure (record {
        mode = all_mode;
        flags = node_flags (controller_flags common_flags);
        rest = rest;
      })
      else if has_prefix cmd "-"
      then pure (record {
        mode = all_mode;
        flags = node_flags (controller_flags common_flags);
        rest = cmd ∷ rest;
      })
      else crash

module _ {W : Type 0} (shell : Shell W) where
  -- `GetOptions` after the switch.
  unfoldable pub options_of : CommandLine → Act W Options
  options_of line = do
    values ← or_panic (shell.parse line.flags line.rest default_values)
    if values.version
        then or_panic (get_version_json shell.marshal_indent shell.build)
          >>= (λ info. shell.println info >> crash)
        else pure (record {
          driver_mode = line.mode;
          server_options = record { endpoint = values.endpoint };
          controller_options = record { extra_volume_tags = values.extra_volume_tags };
          node_options = tt;
        })

  unfoldable pub get_options : Act W Options
  get_options = read_command shell.args >>= (λ line. options_of line)

  unfoldable pub main :
      {C M : Type 0}
      → Parts W C M
      → Paths W
      → (String → String → Act W (Unit {0}))
      → Act (Server W) (Unit {0})
      → Act (Server W) (Unit {0})
  main parts paths listen serve = do
    options ← outside get_options
    drv ← outside (
        or_panic (
          new_driver parts (
            with_endpoint options.server_options.endpoint
            ∷ with_extra_volume_tags options.controller_options.extra_volume_tags
            ∷ with_mode options.driver_mode
            ∷ [])))
    or_panic (run paths listen serve drv)
